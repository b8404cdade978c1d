-- ===== src/Billing/BinStore.antt =====
-- `BinStore` (crates/aggregator-logic/src/bin_store.rs): the durable copy of every bin in flight, one field
-- of a Redis hash for each. The JSON codec and the print of a `Uuid` are parameters.
use gridtokenx_aggregator_br.Base.{
  ◌≡◌, ◌∙◌, refl, false, Option, none, some, List, [], ◌∷◌, map, any, In, if◌then◌else◌, ◌==◌,
  list_eq, list_beq_iff, nat_eq, arith,
}
use gridtokenx_aggregator_br.Base.Int.{pos}
use gridtokenx_aggregator_br.Base.Dict.{Dict, lookup, insert, remove, lookup-insert, lookup-remove}
use gridtokenx_aggregator_br.Billing.Time.{timestamp_millis}
use gridtokenx_aggregator_br.Billing.Bin.{Uuid, Text, BinKey, BillingBin, key}
use gridtokenx_aggregator_br.Mint.Field.{serial_window}
use gridtokenx_aggregator_br.Redis.{Fate, Status, ok, err, takes_effect, status, parse_redis_hash}

abbrev pub bin_field : (Uuid → Text) → BinKey → Text
bin_field uuid_to_string k = serial_window (uuid_to_string k.0) (pos (timestamp_millis k.1))

-- `HDEL` of several fields.
unfoldable pub hdel : List Text → Dict Text Text → Dict Text Text
hdel [] store = store
hdel (f ∷ fields) store = hdel fields (remove f store)

module _ (uuid_to_string : Uuid → Text) (to_json : BillingBin → Option Text) where
  unfoldable pub write : Fate → BillingBin → Dict Text Text → Dict Text Text × Status
  write fate bin store = elim (to_json bin) [
    | none ↦ (store, err)
    | some json ↦ (
      if takes_effect fate then insert (bin_field uuid_to_string (key bin)) json store else store,
      status fate,
    )
  ]

unfoldable pub remove_keys :
    (Uuid → Text) → Fate → List BinKey → Dict Text Text → Dict Text Text × Status
remove_keys uuid_to_string fate [] store = (store, ok)
remove_keys uuid_to_string fate (k ∷ keys) store = (
  if takes_effect fate then hdel (map (bin_field uuid_to_string) (k ∷ keys)) store else store,
  status fate,
)

abbrev pub load_all : (Text → Option BillingBin) → Fate → Dict Text Text → Option (List BillingBin)
load_all of_json fate store = elim (status fate) [
  | ok ↦ some (parse_redis_hash of_json store)
  | err ↦ none
]

lookup-hdel :
    (g : Text) (fields : List Text) (store : Dict Text Text)
    → lookup g (hdel fields store) ≡ (if any (λ f. f == g) fields then none else lookup g store)
unfolding hdel
lookup-hdel g [] store = refl
lookup-hdel g (f ∷ fields) store =
    ground (arith, lookup-hdel g fields (remove f store), lookup-remove f g store)

-- What is in the store when a read of it finds the bin.
parse-stored :
    (of_json : Text → Option BillingBin) (f json : Text) (bin : BillingBin) (store : Dict Text Text)
    → lookup f store ≡ some json
    → of_json json ≡ some bin
    → In bin (parse_redis_hash of_json store)
unfolding lookup parse_redis_hash
parse-stored of_json f json bin [] h e = absurd (ground arith)
parse-stored of_json f json bin ((g, other) ∷ store) h e =
    ground (arith, parse-stored of_json f json bin store)

lookup-remove_keys :
    (uuid_to_string : Uuid → Text) (fate : Fate) (keys : List BinKey) (store : Dict Text Text)
    (g : Text)
    → any (λ f. f == g) (map (bin_field uuid_to_string) keys) ≡ false
    → lookup g (remove_keys uuid_to_string fate keys store).0 ≡ lookup g store
unfolding remove_keys
lookup-remove_keys uuid_to_string fate [] store g h = refl
lookup-remove_keys uuid_to_string fate (k ∷ keys) store g h =
    ground (arith, lookup-hdel g (map (bin_field uuid_to_string) (k ∷ keys)) store)

lookup-write :
    (uuid_to_string : Uuid → Text) (to_json : BillingBin → Option Text) (fate : Fate)
    (bin : BillingBin) (json : Text) (store : Dict Text Text)
    → to_json bin ≡ some json
    → (write uuid_to_string to_json fate bin store).1 ≡ ok
    → lookup (bin_field uuid_to_string (key bin)) (write uuid_to_string to_json fate bin store).0
      ≡ some json
unfolding write
lookup-write uuid_to_string to_json fate bin json store e w =
    let f = bin_field uuid_to_string (key bin) in
    ground (arith, e, w, lookup-insert f f json store, list_beq_iff nat_eq f f)

-- A bin whose write-through succeeded is among the bins that a restore reads back, even after the
-- eviction of other keys, when its JSON text decodes to it.
pub load_all-write :
    (uuid_to_string : Uuid → Text) (to_json : BillingBin → Option Text)
    (of_json : Text → Option BillingBin) (fate later : Fate) (bin : BillingBin) (json : Text)
    (keys : List BinKey) (store : Dict Text Text)
    → to_json bin ≡ some json
    → of_json json ≡ some bin
    → (write uuid_to_string to_json fate bin store).1 ≡ ok
    → any (λ f. f == bin_field uuid_to_string (key bin)) (map (bin_field uuid_to_string) keys)
      ≡ false
    → In bin (
        parse_redis_hash of_json
          (remove_keys uuid_to_string later keys (write uuid_to_string to_json fate bin store).0).0)
load_all-write uuid_to_string to_json of_json fate later bin json keys store e d w apart =
    parse-stored of_json (bin_field uuid_to_string (key bin)) json bin _
      (lookup-remove_keys uuid_to_string later keys (write uuid_to_string to_json fate bin store).0
          (bin_field uuid_to_string (key bin)) apart
        ∙ lookup-write uuid_to_string to_json fate bin json store e w)
      d
