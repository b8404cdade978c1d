-- ===== src/Mint/Outbox.antt =====
-- `MintOutbox` (crates/aggregator-logic/src/mint_outbox.rs) over the two Redis hashes, with
-- `parse_redis_hash` (crates/aggregator-logic/src/redis_hash.rs). Each Redis command meets a fate, given
-- as an argument: it is applied, it is refused, or it is applied and its reply is lost. The JSON codec is
-- a parameter.
pub mod Laws
pub mod Race
pub mod Expiry
use gridtokenx_aggregator_br.Base.{
  ℕ, ◌+◌, ◌-◌, ◌*◌, ◌^◌, Bool, true, false, Option, none, some, List, [], ◌∷◌, ltb, if◌then◌else◌,
  ◌==◌, nat_eq, list_eq,
}
use gridtokenx_aggregator_br.Base.Dict.{Dict, insert, remove}
use gridtokenx_aggregator_br.Base.Int.{ℤ, pos, negsuc, ◌-ℤ◌, ltb_ℤ, as_i64}
use gridtokenx_aggregator_br.Billing.Bin.{Text}
use gridtokenx_aggregator_br.Mint.Field.{PendingMint, field}
pub use gridtokenx_aggregator_br.Redis.{
  Fate, applied, refused, reply_lost, Status, ok, err, takes_effect, status, parse_redis_hash,
}

-- `gridtokenx:billing:mint_outbox` and its `:parked` sibling.
pub record Hashes : Type 0 where
  pub outbox : Dict Text Text
  pub parked : Dict Text Text

-- The commands that the methods send.
pub data Command : Type 0 where
  hset_outbox hset_parked : Text → Text → Command
  hdel_outbox hdel_parked : Text → Command

abbrev pub execute : Command → Hashes → Hashes
execute (hset_outbox f json) h = record h { outbox = insert f json h.outbox }
execute (hset_parked f json) h = record h { parked = insert f json h.parked }
execute (hdel_outbox f) h = record h { outbox = remove f h.outbox }
execute (hdel_parked f) h = record h { parked = remove f h.parked }

abbrev pub send : Fate → Command → Hashes → Hashes
send fate c h = if takes_effect fate then execute c h else h

module _ (to_json : PendingMint → Option Text) where
  unfoldable pub enqueue : Fate → PendingMint → Hashes → Hashes × Status
  enqueue fate p h = elim (to_json p) [
    | none ↦ (h, err)
    | some json ↦ (send fate (hset_outbox (field p) json) h, status fate)
  ]

  -- The second command is sent only if the first succeeded.
  unfoldable pub park : Fate → Fate → PendingMint → Hashes → Hashes × Status
  park first second p h = elim (to_json p) [
    | none ↦ (h, err)
    | some json ↦
        let h' = send first (hset_parked (field p) json) h in
        elim (status first) [
          | err ↦ (h', err)
          | ok ↦ (send second (hdel_outbox (field p)) h', status second)
        ]
  ]

-- The outcome of the second command is ignored.
unfoldable pub remove_field : Fate → Fate → Text → Hashes → Hashes × Status
remove_field first second f h =
    let h' = send first (hdel_outbox f) h in
    elim (status first) [ err ↦ (h', err) | ok ↦ (send second (hdel_parked f) h', ok) ]

-- `parse_pending` on the outbox hash; a failed `HGETALL` has no result.
pub load_all : Fate → (Text → Option PendingMint) → Hashes → Option (List PendingMint)
unfolding parse_redis_hash
load_all fate of_json h = elim (status fate) [
  | err ↦ none
  | ok ↦ some (parse_redis_hash of_json h.outbox)
]

-- The saturating operations of `i64` stop at its ends.
abbrev pub saturate : ℤ → ℤ
saturate (pos n) = if ltb n (2 ^ 63) then pos n else pos (2 ^ 63 - 1)
saturate (negsuc n) = if ltb n (2 ^ 63) then negsuc n else negsuc (2 ^ 63 - 1)

abbrev pub times_1000 : ℤ → ℤ
times_1000 (pos n) = pos (n * 1000)
times_1000 (negsuc n) = negsuc (n * 1000 + 999)

pub is_expired : PendingMint → ℤ → ℕ → Bool
is_expired p now_ms max_age_secs =
    if max_age_secs == 0
    then false
    else ltb_ℤ (saturate (times_1000 (as_i64 max_age_secs))) (saturate (now_ms -ℤ p.enqueued_at_ms))
