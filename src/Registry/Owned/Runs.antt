-- ===== src/Registry/Owned/Runs.antt =====
-- Whatever befalls the registry, the owners it reports are true
-- (crates/aggregator-persistence/src/infra/meter_registry.rs).
use gridtokenx_aggregator_br.Base.{
  suc, ◌≡◌, inl, inr, refl, Option, none, some, List, [], ◌∷◌, All, Bool-cases, Option-cases,
  nat_eq, list_eq,
}
use gridtokenx_aggregator_br.Base.Dict.{Dict, lookup, insert}
use gridtokenx_aggregator_br.Base.Entries.{Each, Each-insert, Each-lookup}
use gridtokenx_aggregator_br.Billing.Bin.{Uuid, Text}
use gridtokenx_aggregator_br.Mint.Attempt.{Lookup, found, absent, failed}
use gridtokenx_aggregator_br.Redis.{Status, ok, err}
use gridtokenx_aggregator_br.Registry.{
  wallet_after_row, wallet_after_redis, solid_wallet, MeterRegistry, new, RegistrySettings, Visit,
  wallet_key, non_blank, fetch_owner_from_db, backfill, get, redis_user, no_owner, after_row,
  after_redis, negatively_cached, from_backends, resolve_user_id, resolve_wallet, no_owner,
  after_row, after_redis, negatively_cached, register_redis, registered, register_meter,
}
use gridtokenx_aggregator_br.Registry.Owned.{
  Reported, Answers, Trusted, RowTrusted, TablesTrusted, RedisTrusted, OpTrusted, Sound, Op,
  resolving_user, resolving_wallet, registering, redis_becomes, left_with, step, run,
}
use gridtokenx_aggregator_br.Registry.Owned.Stored.{
  backfill_redis-RedisTrusted, register_redis-RedisTrusted, redis_user-Trusted,
}

module _ (v : RegistrySettings) (Owns : Uuid → Text → Type 0)
    (round_trip : (user : Uuid) → v.parse_str (v.uuid_to_string user) ≡ some user) where
  put_local :
      (serial : Text) (user : Uuid) (cache : Dict Text Uuid)
      → Owns user serial
      → Each (λ s u. Owns u s) cache
      → Each (λ s u. Owns u s) (insert serial user cache)
  put_local serial user cache owns h = Each-insert (λ s u. Owns u s) serial user cache owns h

  backfill-Sound :
      (m : Visit) (serial : Text) (user : Uuid) (wallet : Option Text) (r : MeterRegistry)
      → Owns user serial
      → Sound v Owns r
      → Sound v Owns (backfill v m serial user wallet r)
  unfolding backfill
  backfill-Sound m serial user wallet r owns h = (
    put_local serial user r.local_cache owns h.0,
    backfill_redis-RedisTrusted v Owns round_trip m serial user (non_blank wallet) r.redis owns h.1,
  )

  registered-Sound :
      (serial : Text) (user : Uuid) (wallet : Option Text) (r : MeterRegistry)
      (p : Status × Option (Dict Text Text))
      → Owns user serial
      → Sound v Owns r
      → RedisTrusted v Owns p.1
      → Sound v Owns (registered v serial user wallet r p).1
  registered-Sound serial user wallet r (err, redis) owns h written = (h.0, written)
  registered-Sound serial user wallet r (ok, redis) owns h written =
      (put_local serial user r.local_cache owns h.0, written)

  register_meter-Sound :
      (m : Visit) (serial : Text) (user : Uuid) (wallet : Option Text) (r : MeterRegistry)
      → Owns user serial
      → Sound v Owns r
      → Sound v Owns (register_meter v m serial user wallet r).1
  unfolding register_meter
  register_meter-Sound m serial user wallet r owns h =
      registered-Sound serial user wallet r
        (register_redis v m serial user (non_blank wallet) r.redis) owns h
        (register_redis-RedisTrusted v Owns round_trip m serial user (non_blank wallet) r.redis owns
          h.1)

  no_owner-Answers :
      (m : Visit) (serial : Text) (r : MeterRegistry) (redis : Option (Dict Text Text))
      → Sound v Owns r
      → Answers v Owns serial redis (no_owner v m serial r redis)
  no_owner-Answers m serial r (some d) h = (inl tt, h)
  no_owner-Answers m serial r none h = elim (Bool-cases v.pg) [
    | inl pg ↦ rw pg (inl tt, h)
    | inr bare ↦ rw bare (inr (refl, (refl, refl)), h)
  ]

  after_row-Answers :
      (m : Visit) (serial : Text) (r : MeterRegistry) (row : Lookup (Uuid × Option Text))
      → RowTrusted v Owns serial row
      → Sound v Owns r
      → Answers v Owns serial r.redis (after_row v m serial r row)
  after_row-Answers m serial r failed owns h = (inl tt, h)
  after_row-Answers m serial r (found (user, wallet)) owns h =
      (inl owns, backfill-Sound m serial user wallet r owns h)
  after_row-Answers m serial r absent owns h = no_owner-Answers m serial r r.redis h

  after_redis-Answers :
      (m : Visit) (serial : Text) (r : MeterRegistry) (l : Lookup Uuid)
      → TablesTrusted v Owns m.tables
      → Trusted v Owns serial l
      → Sound v Owns r
      → Answers v Owns serial r.redis (after_redis v m serial r l)
  after_redis-Answers m serial r failed tables owns h = (inl tt, h)
  after_redis-Answers m serial r (found user) tables owns h =
      (inl owns, (put_local serial user r.local_cache owns h.0, h.1))
  after_redis-Answers m serial r absent tables owns h =
      after_row-Answers m serial r (fetch_owner_from_db v m.tables serial) (tables serial) h

  from_backends-Answers :
      (m : Visit) (serial : Text) (r : MeterRegistry)
      → TablesTrusted v Owns m.tables
      → Sound v Owns r
      → Answers v Owns serial r.redis (from_backends v m serial r)
  unfolding from_backends
  from_backends-Answers m serial r tables h =
      after_redis-Answers m serial r (redis_user v m serial r.redis) tables
        (redis_user-Trusted v Owns round_trip m serial r.redis h.1) h

  resolve_user_id-Answers :
      (m : Visit) (serial : Text) (r : MeterRegistry)
      → TablesTrusted v Owns m.tables
      → Sound v Owns r
      → Answers v Owns serial r.redis (resolve_user_id v m serial r)
  unfolding resolve_user_id
  resolve_user_id-Answers m serial r tables h = elim (Option-cases (lookup serial r.local_cache)) [
    | inr (user, q) ↦
        rw (q, resolve_user_id) (inl (Each-lookup (λ s u. Owns u s) serial r.local_cache q h.0), h)
    | inl local ↦ elim (Bool-cases (negatively_cached m.now serial r.neg_cache).0) [
      | inl marked ↦ rw (local, marked, resolve_user_id) (inl tt, h)
      | inr unmarked ↦
          rw (local, unmarked, resolve_user_id)
            (from_backends-Answers m serial
              (record r {
                neg_cache = (negatively_cached m.now serial r.neg_cache).1;
                misses = suc r.misses;
              })
              tables h)
    ]
  ]

  wallet_after_row-Sound :
      (m : Visit) (serial : Text) (r : MeterRegistry) (row : Lookup (Uuid × Option Text))
      → RowTrusted v Owns serial row
      → Sound v Owns r
      → Sound v Owns (wallet_after_row v m serial r row).1
  wallet_after_row-Sound m serial r failed owns h = h
  wallet_after_row-Sound m serial r absent owns h = h
  wallet_after_row-Sound m serial r (found (user, wallet)) owns h =
      backfill-Sound m serial user wallet r owns h

  wallet_after_redis-Sound :
      (m : Visit) (serial : Text) (r : MeterRegistry) (l : Lookup Text)
      → TablesTrusted v Owns m.tables
      → Sound v Owns r
      → Sound v Owns (wallet_after_redis v m serial r l).1
  wallet_after_redis-Sound m serial r failed tables h = h
  wallet_after_redis-Sound m serial r (found w) tables h = h
  wallet_after_redis-Sound m serial r absent tables h =
      wallet_after_row-Sound m serial r (fetch_owner_from_db v m.tables serial) (tables serial) h

  resolve_wallet-Sound :
      (m : Visit) (serial : Text) (r : MeterRegistry)
      → TablesTrusted v Owns m.tables
      → Sound v Owns r
      → Sound v Owns (resolve_wallet v m serial r).1
  unfolding resolve_wallet
  resolve_wallet-Sound m serial r tables h = elim (Option-cases (lookup serial r.wallet_cache)) [
    | inr (w, q) ↦ rw (q, resolve_wallet) h
    | inl uncached ↦
        rw (uncached, resolve_wallet)
          (wallet_after_redis-Sound m serial r
            (solid_wallet v (get v m (wallet_key serial) r.redis)) tables h)
  ]

  step-Sound :
      (op : Op) (r : MeterRegistry)
      → OpTrusted v Owns op
      → Sound v Owns r
      → Sound v Owns (step v op r)
  unfolding step
  step-Sound (resolving_user m serial) r o h = (resolve_user_id-Answers m serial r o h).1
  step-Sound (resolving_wallet m serial) r o h = resolve_wallet-Sound m serial r o h
  step-Sound (registering m serial user wallet) r o h =
      register_meter-Sound m serial user wallet r o h
  step-Sound (redis_becomes d) r o h = (h.0, left r.redis)
    where
      left : (redis : Option (Dict Text Text)) → RedisTrusted v Owns (left_with d redis)
      left none = tt
      left (some old) = o

  run-Sound :
      (ops : List Op) (r : MeterRegistry)
      → All (OpTrusted v Owns) ops
      → Sound v Owns r
      → Sound v Owns (run v ops r)
  unfolding run
  run-Sound [] r o h = h
  run-Sound (op ∷ ops) r o h = run-Sound ops (step v op r) o.1 (step-Sound op r o.0 h)

  -- For a uuid codec that reads back what it prints, a relation `Owns` and a registry that starts with empty caches on a
  -- Redis whose owner entries are true to it: after any operations, if the registrations, the rows of Postgres and what
  -- other processes leave in Redis are true to `Owns`, a read reports an owner who owns the meter, or none, or fails;
  -- only without Redis and without Postgres does it report the nil user. A write to Redis may have been lost, or its reply.
  pub resolve_user_id-Reported :
      (redis : Option (Dict Text Text)) (ops : List Op) (m : Visit) (serial : Text)
      → RedisTrusted v Owns redis
      → All (OpTrusted v Owns) ops
      → TablesTrusted v Owns m.tables
      → Reported v Owns serial
          (run v ops (new redis)).redis
          (resolve_user_id v m serial (run v ops (new redis))).0
  resolve_user_id-Reported redis ops m serial start o tables =
      (resolve_user_id-Answers m serial (run v ops (new redis)) tables
        (run-Sound ops (new redis) o (tt, start))).0
