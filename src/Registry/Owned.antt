-- ===== src/Registry/Owned.antt =====
-- Whose owners the registry reports (crates/aggregator-persistence/src/infra/meter_registry.rs): an invariant of its
-- operations, other processes' writes to Redis among them.
pub mod Stored
pub mod Runs
use gridtokenx_aggregator_br.Base.{
  suc, ◌≡◌, ◌⊎◌, inl, inr, refl, sym, ap, subst, Bool, true, false, Option, none, some, List, [],
  ◌∷◌, All, Bool-cases, Option-cases, ◌==◌, nat_eq, list_eq, arith, if◌then◌else◌,
}
use gridtokenx_aggregator_br.Base.Dict.{Dict, lookup, insert, lookup-insert}
use gridtokenx_aggregator_br.Base.Entries.{Each, Each-insert, Each-lookup}
use gridtokenx_aggregator_br.Billing.Bin.{Uuid, Text}
use gridtokenx_aggregator_br.Mint.Attempt.{Lookup, found, absent, failed}
use gridtokenx_aggregator_br.Redis.{Fate, applied, refused, reply_lost, Status, ok, err, status}
use gridtokenx_aggregator_br.Registry.{
  wallet_after_row, wallet_after_redis, solid_wallet, MeterRegistry, new, RegistrySettings, Tables,
  Visit, nil_user, user_key, wallet_key, non_blank, set, put_wallet, fetch_owner_from_db,
  backfill_redis, backfill, get, parsed_user, redis_user, reply, no_owner, after_row, after_redis,
  negatively_cached, from_backends, resolve_user_id, resolve_wallet, no_owner, after_row,
  after_redis, negatively_cached, register_redis, registered, then_set_wallet, register_meter,
}
use gridtokenx_aggregator_br.Registry.Keys.{user_key-injective, wallet_key-ne-user_key}

-- What befalls a registry: its operations, and that other processes leave Redis with some content.
pub data Op : Type 0 where
  resolving_user resolving_wallet : Visit → Text → Op
  registering : Visit → Text → Uuid → Option Text → Op
  redis_becomes : Dict Text Text → Op

abbrev pub left_with : Dict Text Text → Option (Dict Text Text) → Option (Dict Text Text)
left_with d none = none
left_with d (some old) = some d

unfoldable pub step : RegistrySettings → Op → MeterRegistry → MeterRegistry
step v (resolving_user m serial) r = (resolve_user_id v m serial r).1
step v (resolving_wallet m serial) r = (resolve_wallet v m serial r).1
step v (registering m serial user wallet) r = (register_meter v m serial user wallet r).1
step v (redis_becomes d) r = record r { redis = left_with d r.redis }

unfoldable pub run : RegistrySettings → List Op → MeterRegistry → MeterRegistry
run v [] r = r
run v (op ∷ ops) r = run v ops (step v op r)

module _ (v : RegistrySettings) (Owns : Uuid → Text → Type 0) where
  -- An owner that is reported owns the meter.
  abbrev pub Trusted : Text → Lookup Uuid → Type 0
  Trusted serial (found user) = Owns user serial
  Trusted serial absent = Unit
  Trusted serial failed = Unit

  abbrev pub RowTrusted : Text → Lookup (Uuid × Option Text) → Type 0
  RowTrusted serial (found (user, wallet)) = Owns user serial
  RowTrusted serial absent = Unit
  RowTrusted serial failed = Unit

  abbrev pub TablesTrusted : Tables → Type 0
  TablesTrusted t = (serial : Text) → RowTrusted serial (fetch_owner_from_db v t serial)

  abbrev pub StoredTrusted : Text → Option Text → Type 0
  StoredTrusted serial none = Unit
  StoredTrusted serial (some s) = Trusted serial (parsed_user v (found s))

  abbrev pub RedisTrusted : Option (Dict Text Text) → Type 0
  RedisTrusted none = Unit
  RedisTrusted (some d) = (serial : Text) → StoredTrusted serial (lookup (user_key serial) d)

  abbrev pub OpTrusted : Op → Type 0
  OpTrusted (resolving_user m serial) = TablesTrusted m.tables
  OpTrusted (resolving_wallet m serial) = TablesTrusted m.tables
  OpTrusted (registering m serial user wallet) = Owns user serial
  OpTrusted (redis_becomes d) = RedisTrusted (some d)

  abbrev pub Sound : MeterRegistry → Type 0
  Sound r = Each (λ serial user. Owns user serial) r.local_cache × RedisTrusted r.redis

  -- The nil user, for want of any backend.
  abbrev pub Reported : Text → Option (Dict Text Text) → Lookup Uuid → Type 0
  Reported serial redis l =
      Trusted serial l ⊎ ((l ≡ found nil_user) × ((v.pg ≡ false) × (redis ≡ none)))

  abbrev pub Answers : Text → Option (Dict Text Text) → Lookup Uuid × MeterRegistry → Type 0
  Answers serial redis p = Reported serial redis p.0 × Sound p.1
