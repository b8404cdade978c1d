-- ===== src/Keys/Latency.antt =====
-- How old a public key can be that crates/aggregator-persistence/src/infra/crypto.rs verifies a signature with.
-- `past` gives the contents of Redis at every instant.
pub mod Batch
pub mod Enckeys
pub mod Runs
use gridtokenx_aggregator_br.Base.{nat_eq, list_eq}
use gridtokenx_aggregator_br.Base.{
  ℕ, ◌+◌, ◌*◌, ◌≤◌, ◌<◌, ◌≡◌, refl, sym, ap, ◌∙◌, Bool, true, false, Option, none, some, List, [],
  ◌∷◌, length, All, inl, inr, Option-cases, Bool-cases, if◌then◌else◌, ◌==◌, nat_eq, arith,
}
use gridtokenx_aggregator_br.Billing.Bin.{Text}
use gridtokenx_aggregator_br.Billing.Time.{second_ns}
use gridtokenx_aggregator_br.Base.Entries.{Each}
use gridtokenx_aggregator_br.Keys.Cache.{
  Result, ok, err, Cached, PrunedCache, Ttl, Faults, answered, Store, lifetime, cache_get,
  cache_put, get_with_retry, Each-get, Each-put,
}
use gridtokenx_aggregator_br.Keys.Verifier.{
  Crates, Call, pubkey_name, parse_ed25519_pubkey, keep_pubkey, resolve_missed, resolve_pubkey,
  check_resolved, check_signature, verify_telemetry_signature,
}

module _ {V : Type 0} (o : Crates V) (ttl : Ttl) (past : ℕ → Store) where
  -- What a clean read of a meter's key finds: a key, that there is none, or nothing where it is malformed.
  abbrev pub published : ℕ → Text → Option (Option V)
  published t id = elim (past t (pubkey_name id)) [
    | none ↦ some none
    | some raw ↦ elim (parse_ed25519_pubkey o raw) [ none ↦ none | some vk ↦ some (some vk) ]
  ]

  -- A verdict that Redis gave at some instant, not longer ago than its lifetime.
  abbrev pub Recent : ℕ → Text → Option V → Type 0
  Recent now id key =
      (t : ℕ) × (t ≤ now) × (now ≤ t + lifetime ttl key) × (published t id ≡ some key)

  -- A cached verdict runs out when its lifetime has passed since Redis gave it.
  abbrev pub Dated : ℕ → Text → Cached V → Type 0
  Dated now id e =
      (t : ℕ) × (t ≤ now) × (e.expires ≡ t + lifetime ttl e.key) × (published t id ≡ some e.key)

  abbrev pub AllDated : ℕ → PrunedCache V → Type 0
  AllDated now c = Each (Dated now) c.map

  abbrev pub at : ℕ → Faults → Call
  at now faults = record { now = now; redis = past now; faults = faults }

  -- A verdict of the cache, of a resolution: recent, if there is one.
  abbrev pub HitRecent : ℕ → Text → Option (Option V) → Type 0
  HitRecent now id none = Unit
  HitRecent now id (some key) = Recent now id key

  abbrev pub OkRecent : ℕ → Text → Result (Option V) → Type 0
  OkRecent now id err = Unit
  OkRecent now id (ok key) = Recent now id key

  abbrev pub get-Recent_hit :
      (now : ℕ) (id : Text) (hit : Option (Option V))
      → ((key : Option V)
          → hit ≡ some key
          → (e : Cached V) × Dated now id e × (e.key ≡ key) × (now < e.expires))
      → HitRecent now id hit
  get-Recent_hit now id none h = tt
  get-Recent_hit now id (some key) h =
      let (entry, (t, before, ends, was), same, fresh) = h key refl in
      (t, before, omega (arith, ends, ap (λ k. t + lifetime ttl k) same), was ∙ ap some same)

  pub get-Recent :
      (now : ℕ) (id : Text) (c : PrunedCache V)
      → AllDated now c
      → AllDated now (cache_get now id c).1 × HitRecent now id (cache_get now id c).0
  get-Recent now id c h =
      let (left, hit) = Each-get (Dated now) now id c h in
      (left, get-Recent_hit now id (cache_get now id c).0 hit)

  -- What Redis says now is recent, and may be cached.
  pub now-Recent :
      (now : ℕ) (id : Text) (key : Option V) → published now id ≡ some key → Recent now id key
  now-Recent now id key e = (now, omega arith, omega arith, e)

  pub put-AllDated :
      (now : ℕ) (id : Text) (key : Option V) (c : PrunedCache V)
      → published now id ≡ some key
      → AllDated now c
      → AllDated now (cache_put ttl now id key c)
  put-AllDated now id key c e h =
      Each-put (Dated now) ttl now id key c (now, omega arith, refl, e) h

  -- The published verdict, from the parts of a read.
  pub published_none :
      (now : ℕ) (id : Text) → past now (pubkey_name id) ≡ none → published now id ≡ some none
  published_none now id e = rw (e, published)

  pub published_some :
      (now : ℕ) (id raw : Text) {vk : V}
      → past now (pubkey_name id) ≡ some raw
      → parse_ed25519_pubkey o raw ≡ some vk
      → published now id ≡ some (some vk)
  published_some now id raw e good = rw (e, published) (rw good)

  -- A clean answer of Redis.
  keep_pubkey-Recent :
      (now : ℕ) (id : Text) (r : Option Text) (c : PrunedCache V)
      → past now (pubkey_name id) ≡ r
      → AllDated now c
      → AllDated now (keep_pubkey o ttl now id (ok r) c).1
        × OkRecent now id (keep_pubkey o ttl now id (ok r) c).0
  unfolding keep_pubkey
  keep_pubkey-Recent now id none c e h =
      let none_now = published_none now id e in
      (put-AllDated now id none c none_now h, now-Recent now id none none_now)
  keep_pubkey-Recent now id (some raw) c e h = elim (Option-cases (parse_ed25519_pubkey o raw)) [
    | inl bad ↦ rw (bad, keep_pubkey) (h, tt)
    | inr (vk, good) ↦
        let key_now = published_some now id raw e good in
        rw (good, keep_pubkey)
          (put-AllDated now id (some vk) c key_now h, now-Recent now id (some vk) key_now)
  ]

  -- Whether Redis answered or not.
  keep_pubkey-Recent_any :
      (now : ℕ) (faults : Faults) (id : Text) (c : PrunedCache V)
      → AllDated now c
      → AllDated now
          (keep_pubkey o ttl now id (get_with_retry faults (past now) (pubkey_name id)) c).1
        × OkRecent now id
            (keep_pubkey o ttl now id (get_with_retry faults (past now) (pubkey_name id)) c).0
  unfolding get_with_retry
  keep_pubkey-Recent_any now faults id c h = elim (Bool-cases (answered faults)) [
    | inl up ↦ rw up (keep_pubkey-Recent now id (past now (pubkey_name id)) c refl h)
    | inr down ↦ rw down (unfold keep_pubkey in (h, tt))
  ]

  resolve_missed-Recent :
      (now : ℕ) (faults : Faults) (id : Text) (hit : Option (Option V)) (c : PrunedCache V)
      → AllDated now c × HitRecent now id hit
      → AllDated now (resolve_missed o ttl (at now faults) id hit c).1
        × OkRecent now id (resolve_missed o ttl (at now faults) id hit c).0
  unfolding resolve_missed
  resolve_missed-Recent now faults id (some key) c h = h
  resolve_missed-Recent now faults id none c h = keep_pubkey-Recent_any now faults id c h.0

  pub resolve_pubkey-Recent :
      (now : ℕ) (faults : Faults) (id : Text) (c : PrunedCache V)
      → AllDated now c
      → AllDated now (resolve_pubkey o ttl (at now faults) id c).1
        × OkRecent now id (resolve_pubkey o ttl (at now faults) id c).0
  unfolding resolve_pubkey
  resolve_pubkey-Recent now faults id c h =
      let (hit, c') = cache_get now id c in
      resolve_missed-Recent now faults id hit c' (get-Recent now id c h)

  -- What stands behind a signature that is accepted: a key that Redis held for the meter at most the positive
  -- lifetime ago, under which the 64 bytes of the signature verify the payload.
  abbrev pub Signed : ℕ → Text → List ℕ → Text → Type 0
  Signed now id payload signature_base58 =
      (vk : V) × (bytes : List ℕ) × Recent now id (some vk)
      × (o.base58 signature_base58 ≡ some bytes)
      × (length bytes ≡ 64)
      × (o.verify vk payload bytes ≡ true)

  check_signature-Signed :
      (now : ℕ) (id : Text) (vk : V) (payload : List ℕ) (sig : Text)
      → Recent now id (some vk)
      → check_signature o ttl vk payload sig ≡ ok true
      → Signed now id payload sig
  check_signature-Signed now id vk payload sig r e = elim (Option-cases (o.base58 sig)) [
    | inl bad ↦ ground arith
    | inr (bytes, good) ↦ (vk, bytes, r, good, ground arith, ground arith)
  ]

  check_resolved-Signed :
      (now : ℕ) (id : Text) (resolved : Result (Option V)) (payload : List ℕ) (sig : Text)
      → OkRecent now id resolved
      → check_resolved o ttl resolved payload sig ≡ ok true
      → Signed now id payload sig
  check_resolved-Signed now id err payload sig r e = cc
  check_resolved-Signed now id (ok none) payload sig r e = cc
  check_resolved-Signed now id (ok (some vk)) payload sig r e =
      check_signature-Signed now id vk payload sig r e

  pub verify_telemetry_signature-Signed :
      (now : ℕ) (faults : Faults) (id : Text) (payload : List ℕ) (sig : Text) (c : PrunedCache V)
      → AllDated now c
      → AllDated now (verify_telemetry_signature o ttl (at now faults) id payload sig c).1
        × ((verify_telemetry_signature o ttl (at now faults) id payload sig c).0 ≡ ok true
            → Signed now id payload sig)
  unfolding verify_telemetry_signature
  verify_telemetry_signature-Signed now faults id payload sig c h =
      let (left, resolved) = resolve_pubkey-Recent now faults id c h in
      (left, check_resolved-Signed now id _ payload sig resolved)
