-- ===== src/Keys/Latency/Enckeys.antt =====
-- How old an AES key of `DeviceKeyRegistry` (crates/aggregator-persistence/src/infra/crypto.rs) can be.
use gridtokenx_aggregator_br.Base.{nat_eq, list_eq}
use gridtokenx_aggregator_br.Base.{
  ℕ, ◌+◌, ◌≤◌, ◌<◌, ◌≡◌, refl, ap, ◌∙◌, Option, none, some, inl, inr, Option-cases, Bool-cases,
  arith,
}
use gridtokenx_aggregator_br.Billing.Bin.{Text}
use gridtokenx_aggregator_br.Base.Entries.{Each}
use gridtokenx_aggregator_br.Keys.Cache.{
  Result, ok, err, Cached, PrunedCache, Ttl, Faults, answered, Store, lifetime, cache_get,
  cache_put, get_with_retry, Each-get, Each-put,
}
use gridtokenx_aggregator_br.Keys.Verifier.{Crates, Call}
use gridtokenx_aggregator_br.Keys.Registry.{
  Key, enckey_name, decode_aes_key_hex, keep_enckey, enckey_missed, get_device_aes_key,
}

module _ {V : Type 0} (o : Crates V) (ttl : Ttl) (past : ℕ → Store) where
  -- What a clean read of a device's AES key finds: a key, that there is none, or nothing where it is malformed.
  abbrev pub provisioned : ℕ → Text → Option (Option Key)
  provisioned t id = elim (past t (enckey_name id)) [
    | none ↦ some none
    | some raw ↦ elim (decode_aes_key_hex o ttl raw) [ none ↦ none | some k ↦ some (some k) ]
  ]

  -- A verdict that Redis gave at some instant, not longer ago than its lifetime.
  abbrev pub RecentKey : ℕ → Text → Option Key → Type 0
  RecentKey now id key =
      (t : ℕ) × (t ≤ now) × (now ≤ t + lifetime ttl key) × (provisioned t id ≡ some key)

  abbrev pub DatedKey : ℕ → Text → Cached Key → Type 0
  DatedKey now id e =
      (t : ℕ) × (t ≤ now) × (e.expires ≡ t + lifetime ttl e.key) × (provisioned t id ≡ some e.key)

  abbrev pub AllDatedKeys : ℕ → PrunedCache Key → Type 0
  AllDatedKeys now c = Each (DatedKey now) c.map

  abbrev pub OkRecentKey : ℕ → Text → Result (Option Key) → Type 0
  OkRecentKey now id err = Unit
  OkRecentKey now id (ok key) = RecentKey now id key

  abbrev pub key_call : ℕ → Faults → Call
  key_call now faults = record { now = now; redis = past now; faults = faults }

  keep-provisioned :
      (now : ℕ) (id : Text) (key : Option Key) (c : PrunedCache Key)
      → provisioned now id ≡ some key
      → AllDatedKeys now c
      → AllDatedKeys now (cache_put ttl now id key c) × RecentKey now id key
  keep-provisioned now id key c e h = (
    Each-put (DatedKey now) ttl now id key c (now, omega arith, refl, e) h,
    (now, omega arith, omega arith, e),
  )

  keep_enckey-Recent :
      (now : ℕ) (id : Text) (r : Option Text) (c : PrunedCache Key)
      → past now (enckey_name id) ≡ r
      → AllDatedKeys now c
      → AllDatedKeys now (keep_enckey o ttl now id (ok r) c).1
        × OkRecentKey now id (keep_enckey o ttl now id (ok r) c).0
  unfolding keep_enckey
  keep_enckey-Recent now id none c e h = keep-provisioned now id none c (rw (e, provisioned)) h
  keep_enckey-Recent now id (some raw) c e h = elim (Option-cases (decode_aes_key_hex o ttl raw)) [
    | inl bad ↦ rw (bad, keep_enckey) (h, tt)
    | inr (k, good) ↦
        rw (good, keep_enckey)
          (keep-provisioned now id (some k) c (rw (e, provisioned) (rw good)) h)
  ]

  enckey_missed-Recent :
      (now : ℕ) (faults : Faults) (id : Text) (hit : Option (Option Key)) (c : PrunedCache Key)
      → ((key : Option Key)
          → hit ≡ some key
          → (e : Cached Key) × DatedKey now id e × (e.key ≡ key) × (now < e.expires))
      → AllDatedKeys now c
      → AllDatedKeys now (enckey_missed o ttl (key_call now faults) id hit c).1
        × OkRecentKey now id (enckey_missed o ttl (key_call now faults) id hit c).0
  unfolding enckey_missed get_with_retry
  enckey_missed-Recent now faults id (some key) c f h =
      let (entry, (t, before, ends, was), same, fresh) = f key refl in
      (h, (t, before, omega (arith, ends, ap (λ k. t + lifetime ttl k) same), was ∙ ap some same))
  enckey_missed-Recent now faults id none c f h = elim (Bool-cases (answered faults)) [
    | inl up ↦ rw up (keep_enckey-Recent now id (past now (enckey_name id)) c refl h)
    | inr down ↦ rw down (unfold keep_enckey in (h, tt))
  ]

  -- An answer of the registry is a verdict that Redis gave for the device no longer ago than its lifetime.
  pub get_device_aes_key-Recent :
      (now : ℕ) (faults : Faults) (id : Text) (c : PrunedCache Key)
      → AllDatedKeys now c
      → AllDatedKeys now (get_device_aes_key o ttl (key_call now faults) id c).1
        × OkRecentKey now id (get_device_aes_key o ttl (key_call now faults) id c).0
  unfolding get_device_aes_key
  get_device_aes_key-Recent now faults id c h =
      let (left, hit) = Each-get (DatedKey now) now id c h in
      enckey_missed-Recent now faults id (cache_get now id c).0 (cache_get now id c).1 hit left
