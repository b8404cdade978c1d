-- ===== src/Redis.antt =====
-- The fate of a Redis command and `parse_redis_hash` (crates/aggregator-logic/src/redis_hash.rs), which the
-- durable bin store and the mint outbox share.
use gridtokenx_aggregator_br.Base.{Bool, true, false, Option, none, some, List, [], ◌∷◌}
use gridtokenx_aggregator_br.Base.Dict.{Dict}
use gridtokenx_aggregator_br.Billing.Bin.{Text}

-- A command is applied, is refused, or is applied and its reply is lost.
pub data Fate : Type 0 where
  applied refused reply_lost : Fate

pub data Status : Type 0 where
  ok err : Status

abbrev pub takes_effect : Fate → Bool
takes_effect refused = false
takes_effect _ = true

abbrev pub status : Fate → Status
status applied = ok
status _ = err

-- `parse_redis_hash`: what does not parse is dropped.
unfoldable pub parse_redis_hash : {T : Type 0} → (Text → Option T) → Dict Text Text → List T
parse_redis_hash parse [] = []
parse_redis_hash parse ((_, json) ∷ d) =
    let rest = parse_redis_hash parse d in
    elim (parse json) [ some value ↦ value ∷ rest | none ↦ rest ]
