-- ===== src/Registry.antt =====
-- `MeterRegistry` of crates/aggregator-persistence/src/infra/meter_registry.rs: the owner and the wallet of a meter from
-- the local caches, Redis and Postgres, and the marker of a serial that none of them knows. A call happens at one
-- instant and meets the answers of the backends.
pub mod Keys
pub mod Owned
pub mod Missed
pub mod Gate
pub mod Registered
pub mod Tests
use gridtokenx_aggregator_br.Base.{
  ℕ, suc, ◌+◌, Bool, true, false, ◌||◌, ◌&&◌, not, Option, none, some, List, [], ◌∷◌, ◌++◌, ltb,
  leb, keep, if◌then◌else◌, ◌==◌, nat_eq, list_eq,
}
use gridtokenx_aggregator_br.Base.Dict.{Dict, lookup, insert, remove}
use gridtokenx_aggregator_br.Base.Text.{codes}
use gridtokenx_aggregator_br.Base.Blank.{is_blank}
use gridtokenx_aggregator_br.Billing.Bin.{Uuid, Text}
use gridtokenx_aggregator_br.Mint.Attempt.{Lookup, found, absent, failed}
use gridtokenx_aggregator_br.Redis.{Fate, Status, ok, err, takes_effect, status}

-- The Redis connection is there or not, with what it stores; `hits` and `misses` are what `record_owner_lookup` counts.
pub record MeterRegistry : Type 0 where
  pub redis : Option (Dict Text Text)
  pub local_cache : Dict Text Uuid
  pub wallet_cache : Dict Text Text
  pub neg_cache : Dict Text ℕ
  pub hits : ℕ
  pub misses : ℕ

abbrev pub new : Option (Dict Text Text) → MeterRegistry
new redis = record {
  redis = redis;
  local_cache = [];
  wallet_cache = [];
  neg_cache = [];
  hits = 0;
  misses = 0;
}

-- What is configured, and the codec of the uuids.
pub record RegistrySettings : Type 0 where
  pub pg : Bool
  pub use_read_model : Bool
  pub neg_cache_ttl : ℕ
  pub parse_str : Text → Option Uuid
  pub uuid_to_string : Uuid → Text

-- What the three queries answer for a serial.
pub record Tables : Type 0 where
  pub meter_owner_read_model : Text → Lookup (Uuid × Option Text)
  pub meters_join_users : Text → Lookup (Uuid × Option Text)
  pub meters : Text → Lookup Uuid

-- What one call meets: the clock, whether Redis answers a read, the fates of its writes, and Postgres.
pub record Visit : Type 0 where
  pub now : ℕ
  pub redis_answers : Bool
  pub set_user : Fate
  pub set_wallet : Fate
  pub tables : Tables

-- `Uuid::nil`.
abbrev pub nil_user : Uuid
nil_user = 0

unfoldable pub user_key : Text → Text
user_key serial = codes "gridtokenx:meters:" ++ (serial ++ codes ":user_id")

unfoldable pub wallet_key : Text → Text
wallet_key serial = codes "gridtokenx:meters:" ++ (serial ++ codes ":wallet")

abbrev pub non_blank : Option Text → Option Text
non_blank none = none
non_blank (some w) = if is_blank w then none else some w

unfoldable pub negatively_cached : ℕ → Text → Dict Text ℕ → Bool × Dict Text ℕ
negatively_cached now serial cache = elim (lookup serial cache) [
  | none ↦ (false, cache)
  | some exp ↦ if ltb now exp then (true, cache) else (false, remove serial cache)
]

unfoldable pub cache_negative : ℕ → ℕ → Text → Dict Text ℕ → Dict Text ℕ
cache_negative ttl now serial cache = insert serial (now + ttl) (keep (λ e. ltb now e.1) cache)

abbrev pub set : Fate → Text → Text → Dict Text Text → Dict Text Text
set fate k s d = if takes_effect fate then insert k s d else d

abbrev pub put_wallet : Text → Option Text → Dict Text Text → Dict Text Text
put_wallet serial none cache = cache
put_wallet serial (some w) cache = insert serial w cache

module _ (v : RegistrySettings) where
  unfoldable pub fetch_owner_from_db : Tables → Text → Lookup (Uuid × Option Text)
  fetch_owner_from_db t serial =
      if v.pg
      then if v.use_read_model then t.meter_owner_read_model serial else t.meters_join_users serial
      else absent

  unfoldable pub owner_in_source_of_truth : Tables → Text → Lookup Uuid
  owner_in_source_of_truth t serial =
      if v.pg then if v.use_read_model then t.meters serial else absent else absent

  -- The Redis writes of a backfill: a failure of the first does not keep back the second.
  abbrev pub backfill_redis :
      Visit → Text → Uuid → Option Text → Option (Dict Text Text) → Option (Dict Text Text)
  backfill_redis m serial user wallet none = none
  backfill_redis m serial user none (some d) =
      some (set m.set_user (user_key serial) (v.uuid_to_string user) d)
  backfill_redis m serial user (some w) (some d) = some (
      set m.set_wallet (wallet_key serial) w
        (set m.set_user (user_key serial) (v.uuid_to_string user) d))

  unfoldable pub backfill : Visit → Text → Uuid → Option Text → MeterRegistry → MeterRegistry
  backfill m serial user wallet r = record r {
    neg_cache = remove serial r.neg_cache;
    local_cache = insert serial user r.local_cache;
    wallet_cache = put_wallet serial (non_blank wallet) r.wallet_cache;
    redis = backfill_redis m serial user (non_blank wallet) r.redis;
  }

  abbrev pub reply : Bool → Option Text → Lookup Text
  reply false stored = failed
  reply true none = absent
  reply true (some s) = found s

  -- A `get`: nothing without a connection, and an error if Redis does not answer.
  abbrev pub get : Visit → Text → Option (Dict Text Text) → Lookup Text
  get m k none = absent
  get m k (some d) = reply m.redis_answers (lookup k d)

  -- A uuid that does not parse is passed over.
  abbrev pub parsed_user : Lookup Text → Lookup Uuid
  parsed_user absent = absent
  parsed_user failed = failed
  parsed_user (found s) = elim (v.parse_str s) [ some user ↦ found user | none ↦ absent ]

  unfoldable pub redis_user : Visit → Text → Option (Dict Text Text) → Lookup Uuid
  redis_user m serial redis = parsed_user (get m (user_key serial) redis)

  abbrev pub mark_missed : Visit → Text → MeterRegistry → MeterRegistry
  mark_missed m serial r = record r {
    neg_cache = cache_negative v.neg_cache_ttl m.now serial r.neg_cache;
  }

  -- No backend has an owner, or there is none to ask.
  abbrev pub no_owner :
      Visit → Text → MeterRegistry → Option (Dict Text Text) → Lookup Uuid × MeterRegistry
  no_owner m serial r (some d) = (absent, mark_missed m serial r)
  no_owner m serial r none = if v.pg then (absent, mark_missed m serial r) else (found nil_user, r)

  abbrev pub after_row :
      Visit → Text → MeterRegistry → Lookup (Uuid × Option Text) → Lookup Uuid × MeterRegistry
  after_row m serial r failed = (failed, r)
  after_row m serial r (found (user, wallet)) = (found user, backfill m serial user wallet r)
  after_row m serial r absent = no_owner m serial r r.redis

  abbrev pub after_redis : Visit → Text → MeterRegistry → Lookup Uuid → Lookup Uuid × MeterRegistry
  after_redis m serial r failed = (failed, r)
  after_redis m serial r (found user) =
      (found user, record r { local_cache = insert serial user r.local_cache })
  after_redis m serial r absent = after_row m serial r (fetch_owner_from_db m.tables serial)

  unfoldable pub from_backends : Visit → Text → MeterRegistry → Lookup Uuid × MeterRegistry
  unfolding fetch_owner_from_db backfill redis_user cache_negative
  from_backends m serial r = after_redis m serial r (redis_user m serial r.redis)

  unfoldable pub resolve_user_id : Visit → Text → MeterRegistry → Lookup Uuid × MeterRegistry
  unfolding negatively_cached from_backends
  resolve_user_id m serial r = elim (lookup serial r.local_cache) [
    | some user ↦ (found user, record r { hits = suc r.hits })
    | none ↦
        let (marked, neg) = negatively_cached m.now serial r.neg_cache in
        if marked
        then (absent, record r { neg_cache = neg; hits = suc r.hits })
        else from_backends m serial (record r { neg_cache = neg; misses = suc r.misses })
  ]

  -- The wallet that Redis has, unless it is blank.
  abbrev pub solid_wallet : Lookup Text → Lookup Text
  solid_wallet absent = absent
  solid_wallet failed = failed
  solid_wallet (found w) = if is_blank w then absent else found w

  abbrev pub some_wallet : Option Text → Lookup Text
  some_wallet none = absent
  some_wallet (some w) = found w

  abbrev pub wallet_after_row :
      Visit → Text → MeterRegistry → Lookup (Uuid × Option Text) → Lookup Text × MeterRegistry
  wallet_after_row m serial r failed = (failed, r)
  wallet_after_row m serial r absent = (absent, r)
  wallet_after_row m serial r (found (user, wallet)) =
      (some_wallet (non_blank wallet), backfill m serial user wallet r)

  abbrev pub wallet_after_redis :
      Visit → Text → MeterRegistry → Lookup Text → Lookup Text × MeterRegistry
  wallet_after_redis m serial r failed = (failed, r)
  wallet_after_redis m serial r (found w) =
      (found w, record r { wallet_cache = insert serial w r.wallet_cache })
  wallet_after_redis m serial r absent =
      wallet_after_row m serial r (fetch_owner_from_db m.tables serial)

  unfoldable pub resolve_wallet : Visit → Text → MeterRegistry → Lookup Text × MeterRegistry
  unfolding fetch_owner_from_db backfill
  resolve_wallet m serial r = elim (lookup serial r.wallet_cache) [
    | some w ↦ (found w, r)
    | none ↦ wallet_after_redis m serial r (solid_wallet (get m (wallet_key serial) r.redis))
  ]

  -- The Redis writes of a registration: the first failure ends it.
  abbrev pub then_set_wallet :
      Status → Visit → Text → Text → Dict Text Text → Status × Option (Dict Text Text)
  then_set_wallet err m serial w d = (err, some d)
  then_set_wallet ok m serial w d =
      (status m.set_wallet, some (set m.set_wallet (wallet_key serial) w d))

  abbrev pub register_redis :
      Visit → Text → Uuid → Option Text → Option (Dict Text Text) → Status × Option (Dict Text Text)
  register_redis m serial user wallet none = (ok, none)
  register_redis m serial user none (some d) =
      (status m.set_user, some (set m.set_user (user_key serial) (v.uuid_to_string user) d))
  register_redis m serial user (some w) (some d) =
      then_set_wallet (status m.set_user) m serial w
        (set m.set_user (user_key serial) (v.uuid_to_string user) d)

  -- What a registration leaves in the caches, once Redis is written.
  abbrev pub registered :
      Text
      → Uuid
      → Option Text
      → MeterRegistry
      → Status × Option (Dict Text Text)
      → Status × MeterRegistry
  registered serial user wallet r (err, redis) = (err, record r { redis = redis })
  registered serial user wallet r (ok, redis) = (
    ok,
    record r {
      redis = redis;
      local_cache = insert serial user r.local_cache;
      wallet_cache = put_wallet serial (non_blank wallet) r.wallet_cache;
      neg_cache = remove serial r.neg_cache;
    },
  )

  unfoldable pub register_meter :
      Visit → Text → Uuid → Option Text → MeterRegistry → Status × MeterRegistry
  register_meter m serial user wallet r =
      registered serial user wallet r (register_redis m serial user (non_blank wallet) r.redis)
