-- ===== src/Mint/Outbox/Laws.antt =====
-- What each method of the outbox does to the two hashes, whatever happens to its commands
-- (crates/aggregator-logic/src/mint_outbox.rs).
use gridtokenx_aggregator_br.Base.{
  ◌≡◌, ◌≢◌, ◌⊎◌, inl, inr, refl, true, false, Option, none, some, arith, ◌==◌, list_eq, nat_eq,
  Option-cases,
}
use gridtokenx_aggregator_br.Base.Dict.{lookup, lookup-insert, lookup-remove}
use gridtokenx_aggregator_br.Billing.Bin.{Text}
use gridtokenx_aggregator_br.Mint.Field.{PendingMint, field}
use gridtokenx_aggregator_br.Mint.Outbox.{
  Hashes, send, status, hset_parked, hdel_outbox, Fate, Status, ok, err, park, remove_field,
}

-- The entry of a field stands in one of the hashes.
abbrev pub Stored : Text → Hashes → Type 0
Stored f h = (lookup f h.outbox ≢ none) ⊎ (lookup f h.parked ≢ none)

-- A method about the field `f` leaves every other field of both hashes as it was.
abbrev pub Frame : Text → Hashes → Hashes → Type 0
Frame f h h' =
    (g : Text)
    → (f == g) ≡ false
    → (lookup g h'.outbox ≡ lookup g h.outbox) × (lookup g h'.parked ≡ lookup g h.parked)

pub same_text : (f : Text) → (f == f) ≡ true
same_text f = (list_eq.same_iff f f).1 refl

-- What the commands of `park` leave once the entry has its JSON text.
module _ (first second : Fate) (f : Text) (h : Hashes) (json : Text) where
  abbrev parked_commands : Hashes × Status
  parked_commands =
      let h' = send first (hset_parked f json) h in
      elim (status first) [ err ↦ (h', err) | ok ↦ (send second (hdel_outbox f) h', status second) ]

  Stored-after : Stored f h → Stored f parked_commands.0
  Stored-after x =
      ground (arith, same_text f, lookup-insert f f json h.parked, lookup-remove f f h.outbox)

  done_after :
      parked_commands.1 ≡ ok
      → (lookup f parked_commands.0.outbox ≡ none) × (lookup f parked_commands.0.parked ≡ some json)
  done_after e =
      ground (arith, same_text f, lookup-insert f f json h.parked, lookup-remove f f h.outbox)

  Frame-after : Frame f h parked_commands.0
  Frame-after g ne = ground (arith, lookup-insert f g json h.parked, lookup-remove f g h.outbox)

module _ (to_json : PendingMint → Option Text) (first second : Fate) (p : PendingMint)
    (h : Hashes) where
  -- Parking never loses an entry, whatever becomes of its two commands: what either hash held is in
  -- one of them afterwards. When it reports success the entry is out of the retry path and its JSON
  -- text is in the parked hash. Other fields are untouched.
  pub park_no_loss :
      let (h', s) = park to_json first second p h in
      (Stored (field p) h → Stored (field p) h')
      × (s ≡ ok → (lookup (field p) h'.outbox ≡ none) × (lookup (field p) h'.parked ≡ to_json p))
      × Frame (field p) h h'
  unfolding park
  park_no_loss = elim (Option-cases (to_json p)) [
    | inl fails ↦ rw (park, fails) (λ x. x, λ e. ground arith, λ g ne. (refl, refl))
    | inr (json, e) ↦
        rw (park, e)
          (
            Stored-after first second (field p) h json,
            done_after first second (field p) h json,
            Frame-after first second (field p) h json,
          )
  ]

-- A removal keeps every other entry.
pub remove_field-frame :
    (first second : Fate) (f : Text) (h : Hashes) (g : Text)
    → (f == g) ≡ false
    → Stored g h
    → Stored g (remove_field first second f h).0
unfolding remove_field
remove_field-frame first second f h g other x =
    ground (arith, lookup-remove f g h.outbox, lookup-remove f g h.parked, other, x)
