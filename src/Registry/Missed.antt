-- ===== src/Registry/Missed.antt =====
-- A serial that no backend knows, and a later registration that this process does not see
-- (crates/aggregator-persistence/src/infra/meter_registry.rs).
use gridtokenx_aggregator_br.Base.{
  ℕ, suc, ◌+◌, ◌<◌, ◌≤◌, ◌≡◌, Option, some, none, ltb, keep, list_eq, nat_eq, arith,
}
use gridtokenx_aggregator_br.Base.Dict.{lookup, lookup-insert_same}
use gridtokenx_aggregator_br.Billing.Bin.{Uuid, Text}
use gridtokenx_aggregator_br.Mint.Attempt.{found, absent}
use gridtokenx_aggregator_br.Registry.{
  MeterRegistry, RegistrySettings, Visit, resolve_user_id, negatively_cached, cache_negative,
  redis_user, fetch_owner_from_db, mark_missed, from_backends,
}

-- What a miss leaves behind: no owner, and a marker with its time to live.
abbrev pub Marked : RegistrySettings → Visit → Text → MeterRegistry → Type 0
Marked v m serial r =
    (lookup serial r.local_cache ≡ none)
    × (lookup serial r.neg_cache ≡ some (m.now + v.neg_cache_ttl))

module _ (v : RegistrySettings) (m : Visit) (serial : Text) where
  mark_missed-Marked :
      (r : MeterRegistry)
      → lookup serial r.local_cache ≡ none
      → Marked v m serial (mark_missed v m serial r)
  unfolding cache_negative
  mark_missed-Marked r local = (
    local,
    lookup-insert_same serial (m.now + v.neg_cache_ttl) (keep (λ e. ltb m.now e.1) r.neg_cache),
  )

  from_backends-Marked :
      (r : MeterRegistry)
      → lookup serial r.local_cache ≡ none
      → (from_backends v m serial r).0 ≡ absent
      → Marked v m serial (from_backends v m serial r).1
  unfolding from_backends
  from_backends-Marked r local h = ground (arith, mark_missed-Marked r local)

  -- What the backends are asked with.
  abbrev asking : MeterRegistry → MeterRegistry
  asking r = record r {
    neg_cache = (negatively_cached m.now serial r.neg_cache).1;
    misses = suc r.misses;
  }

  -- An absent owner for which the backends were asked leaves its marker.
  pub resolve_user_id-Marked :
      (r : MeterRegistry)
      → (resolve_user_id v m serial r).0 ≡ absent
      → (resolve_user_id v m serial r).1.misses ≡ suc r.misses
      → Marked v m serial (resolve_user_id v m serial r).1
  unfolding resolve_user_id
  resolve_user_id-Marked r h asked = ground (arith, from_backends-Marked (asking r))

module _ (v : RegistrySettings) (serial : Text) (r : MeterRegistry) where
  -- A live marker answers at once.
  pub resolve_user_id-live :
      (early : Visit) (exp : ℕ)
      → lookup serial r.local_cache ≡ none
      → lookup serial r.neg_cache ≡ some exp
      → early.now < exp
      → resolve_user_id v early serial r ≡ (absent, record r { hits = suc r.hits })
  unfolding resolve_user_id negatively_cached
  resolve_user_id-live early exp local marked live = ground arith

  resolve_user_id-expired :
      (late : Visit) (exp : ℕ) (user : Uuid) (wallet : Option Text)
      → lookup serial r.local_cache ≡ none
      → lookup serial r.neg_cache ≡ some exp
      → exp ≤ late.now
      → redis_user v late serial r.redis ≡ absent
      → fetch_owner_from_db v late.tables serial ≡ found (user, wallet)
      → (resolve_user_id v late serial r).0 ≡ found user
  unfolding resolve_user_id negatively_cached from_backends
  resolve_user_id-expired late exp user wallet local marked dead missing there = ground arith

module _ (v : RegistrySettings) (m early late : Visit) (serial : Text) (r : MeterRegistry) where
  -- After a read that asked the backends and found no owner: a read before the marker's time to live is over reports no
  -- owner again, whatever the backends then know, and changes nothing but the count of hits; and the first read after
  -- it, if Redis has no owner and Postgres has one, gives that owner.
  pub missed_until_expiry :
      (user : Uuid) (wallet : Option Text)
      → (resolve_user_id v m serial r).0 ≡ absent
      → (resolve_user_id v m serial r).1.misses ≡ suc r.misses
      → early.now < m.now + v.neg_cache_ttl
      → m.now + v.neg_cache_ttl ≤ late.now
      → redis_user v late serial (resolve_user_id v m serial r).1.redis ≡ absent
      → fetch_owner_from_db v late.tables serial ≡ found (user, wallet)
      → let r' = (resolve_user_id v m serial r).1 in
        (resolve_user_id v early serial r' ≡ (absent, record r' { hits = suc r'.hits }))
        × ((resolve_user_id v late serial r').0 ≡ found user)
  missed_until_expiry user wallet h asked live dead missing there =
      let (local, marked) = resolve_user_id-Marked v m serial r h asked in
      let r' = (resolve_user_id v m serial r).1 in
      (
        resolve_user_id-live v serial r' early (m.now + v.neg_cache_ttl) local marked live,
        resolve_user_id-expired v serial r' late (m.now + v.neg_cache_ttl) user wallet local marked
            dead missing there,
      )
