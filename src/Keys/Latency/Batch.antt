-- ===== src/Keys/Latency/Batch.antt =====
-- The same for a batch of `SignatureVerifier` (crates/aggregator-persistence/src/infra/crypto.rs).
use gridtokenx_aggregator_br.Base.{
  ℕ, ◌≡◌, ◌⊎◌, refl, subst, Bool, true, false, Option, none, some, List, [], ◌∷◌, map, length, inl,
  inr, Option-cases, Bool-cases, ◌==◌, nat_eq, not, ◌||◌,
}
use gridtokenx_aggregator_br.Billing.Bin.{Text}
use gridtokenx_aggregator_br.Keys.Cache.{
  Result, ok, err, PrunedCache, Ttl, Faults, answered, Store, cache_get, mget_with_retry,
}
use gridtokenx_aggregator_br.Keys.Verifier.{
  Crates, pubkey_name, parse_ed25519_pubkey, scan, missing, keep_reply, fill, ask_missing,
  resolve_batch, verify_all, verify_resolved, verify_telemetry_signature_batch,
}
use gridtokenx_aggregator_br.Keys.Latency.{
  Recent, AllDated, HitRecent, at, get-Recent, now-Recent, put-AllDated, published_none,
  published_some,
}

module _ {V : Type 0} (o : Crates V) (ttl : Ttl) (past : ℕ → Store) where
  -- Every slot that the cache filled is recent.
  abbrev pub SlotsRecent : ℕ → List Text → List (Option (Option V)) → Type 0
  SlotsRecent now (id ∷ ids) (hit ∷ slots) =
      HitRecent o ttl past now id hit × SlotsRecent now ids slots
  SlotsRecent now _ _ = Unit

  -- Every key that was found is recent.
  abbrev pub KeysRecent : ℕ → List Text → List (Option V) → Type 0
  KeysRecent now (id ∷ ids) (none ∷ vks) = KeysRecent now ids vks
  KeysRecent now (id ∷ ids) (some vk ∷ vks) =
      Recent o ttl past now id (some vk) × KeysRecent now ids vks
  KeysRecent now [] (vk ∷ vks) = ⊥
  KeysRecent now _ [] = Unit

  scan-Recent :
      (now : ℕ) (ids : List Text) (c : PrunedCache V)
      → AllDated o ttl past now c
      → AllDated o ttl past now (scan o ttl now ids c).1
        × SlotsRecent now ids (scan o ttl now ids c).0
  unfolding scan
  scan-Recent now [] c h = (h, tt)
  scan-Recent now (id ∷ ids) c h =
      let (left, hit) = get-Recent o ttl past now id c h in
      let (rest, slots) = scan-Recent now ids (cache_get now id c).1 left in (rest, (hit, slots))

  -- A key found by a reply.
  abbrev KeyRecent : ℕ → Text → Option V → Type 0
  KeyRecent now id none = Unit
  KeyRecent now id (some vk) = Recent o ttl past now id (some vk)

  keep_reply-Recent :
      (now : ℕ) (id : Text) (r : Option Text) (c : PrunedCache V)
      → past now (pubkey_name id) ≡ r
      → AllDated o ttl past now c
      → AllDated o ttl past now (keep_reply o ttl now id r c).1
        × KeyRecent now id (keep_reply o ttl now id r c).0
  unfolding keep_reply
  keep_reply-Recent now id none c e h =
      (put-AllDated o ttl past now id none c (published_none o ttl past now id e) h, tt)
  keep_reply-Recent now id (some raw) c e h = elim (Option-cases (parse_ed25519_pubkey o raw)) [
    | inl bad ↦ rw (bad, keep_reply) (h, tt)
    | inr (vk, good) ↦
        let key_now = published_some o ttl past now id raw e good in
        rw (good, keep_reply)
          (
            put-AllDated o ttl past now id (some vk) c key_now h,
            now-Recent o ttl past now id (some vk) key_now,
          )
  ]

  KeysRecent-cons :
      (now : ℕ) (id : Text) (ids : List Text) (key : Option V) (vks : List (Option V))
      → KeyRecent now id key
      → KeysRecent now ids vks
      → KeysRecent now (id ∷ ids) (key ∷ vks)
  KeysRecent-cons now id ids none vks k h = h
  KeysRecent-cons now id ids (some vk) vks k h = (k, h)

  hit-KeyRecent :
      (now : ℕ) (id : Text) (key : Option V)
      → HitRecent o ttl past now id (some key)
      → KeyRecent now id key
  hit-KeyRecent now id none h = tt
  hit-KeyRecent now id (some vk) h = h

  -- The replies are those of Redis at this instant, in the order of the names.
  fill-Recent :
      (now : ℕ) (ids : List Text) (slots : List (Option (Option V))) (c : PrunedCache V)
      → SlotsRecent now ids slots
      → AllDated o ttl past now c
      → let raws = map (past now) (missing o ttl ids slots) in
        AllDated o ttl past now (fill o ttl now ids slots raws c).1
        × KeysRecent now ids (fill o ttl now ids slots raws c).0
  unfolding fill
  fill-Recent now [] slots c s h = (h, tt)
  fill-Recent now (id ∷ ids) [] c s h = (h, tt)
  fill-Recent now (id ∷ ids) (some key ∷ slots) c s h =
      let (left, keys) = fill-Recent now ids slots c s.1 h in
      (left, KeysRecent-cons now id ids key _ (hit-KeyRecent now id key s.0) keys)
  fill-Recent now (id ∷ ids) (none ∷ slots) c s h =
      let (kept, key) = keep_reply-Recent now id (past now (pubkey_name id)) c refl h in
      let (left, keys) =
        fill-Recent now ids slots (keep_reply o ttl now id (past now (pubkey_name id)) c).1 s.1
          kept in
      (left, KeysRecent-cons now id ids _ _ key keys)

  OkKeysRecent : ℕ → List Text → Result (List (Option V)) → Type 0
  OkKeysRecent now ids err = Unit
  OkKeysRecent now ids (ok vks) = KeysRecent now ids vks

  -- The `MGET` is answered with the contents of Redis, or not at all.
  ask_missing-cases :
      (now : ℕ) (faults : Faults) (names : List Text)
      → (ask_missing o ttl (at o ttl past now faults) names ≡ err)
        ⊎ (ask_missing o ttl (at o ttl past now faults) names ≡ ok (map (past now) names))
  unfolding mget_with_retry
  ask_missing-cases now faults [] = inr refl
  ask_missing-cases now faults (name ∷ names) = elim (Bool-cases (answered faults)) [
    | inl up ↦ inr (rw up)
    | inr down ↦ inl (rw down)
  ]

  resolve_batch-Recent :
      (now : ℕ) (faults : Faults) (ids : List Text) (c : PrunedCache V)
      → AllDated o ttl past now c
      → AllDated o ttl past now (resolve_batch o ttl (at o ttl past now faults) ids c).1
        × OkKeysRecent now ids (resolve_batch o ttl (at o ttl past now faults) ids c).0
  unfolding resolve_batch OkKeysRecent
  resolve_batch-Recent now faults ids c h =
      let (left, slots) = scan-Recent now ids c h in
      let (hits, c') = scan o ttl now ids c in
      elim (ask_missing-cases now faults (missing o ttl ids hits)) [
        | inl down ↦ rw (down, resolve_batch) (left, tt)
        | inr up ↦ rw (up, resolve_batch) (fill-Recent now ids hits c' slots left)
      ]

  -- Behind every accepted signature of a batch stands a key that Redis held for its meter at most the positive
  -- lifetime ago, under which it verifies its payload.
  abbrev pub Backed : ℕ → List Bool → List Text → List (List ℕ) → List (List ℕ) → Type 0
  Backed now [] ids payloads sigs = Unit
  Backed now (true ∷ results) (id ∷ ids) (payload ∷ payloads) (sig ∷ sigs) =
      ((vk : V) × Recent o ttl past now id (some vk) × (o.verify vk payload sig ≡ true))
      × Backed now results ids payloads sigs
  Backed now (false ∷ results) (id ∷ ids) (payload ∷ payloads) (sig ∷ sigs) =
      Backed now results ids payloads sigs
  Backed now _ _ _ _ = ⊥

  Backed-cons :
      (now : ℕ) (id : Text) (ids : List Text) (vk : V) (payload sig : List ℕ)
      (payloads sigs : List (List ℕ)) (results : List Bool)
      → Recent o ttl past now id (some vk)
      → Backed now results ids payloads sigs
      → (b : Bool) → o.verify vk payload sig ≡ b
      → Backed now (b ∷ results) (id ∷ ids) (payload ∷ payloads) (sig ∷ sigs)
  Backed-cons now id ids vk payload sig payloads sigs results r h true e = ((vk, r, e), h)
  Backed-cons now id ids vk payload sig payloads sigs results r h false e = h

  verify_all-Backed :
      (now : ℕ) (ids : List Text) (vks : List (Option V)) (payloads sigs : List (List ℕ))
      → KeysRecent now ids vks
      → Backed now (verify_all o ttl vks payloads sigs) ids payloads sigs
  verify_all-Backed now [] [] payloads sigs h = tt
  verify_all-Backed now [] (vk ∷ vks) payloads sigs h = absurd h
  verify_all-Backed now (id ∷ ids) [] payloads sigs h = tt
  verify_all-Backed now (id ∷ ids) (none ∷ vks) [] sigs h = tt
  verify_all-Backed now (id ∷ ids) (none ∷ vks) (p ∷ payloads) [] h = tt
  verify_all-Backed now (id ∷ ids) (none ∷ vks) (p ∷ payloads) (sig ∷ sigs) h =
      verify_all-Backed now ids vks payloads sigs h
  verify_all-Backed now (id ∷ ids) (some vk ∷ vks) [] sigs h = tt
  verify_all-Backed now (id ∷ ids) (some vk ∷ vks) (p ∷ payloads) [] h = tt
  verify_all-Backed now (id ∷ ids) (some vk ∷ vks) (p ∷ payloads) (sig ∷ sigs) h =
      Backed-cons now id ids vk p sig payloads sigs _ h.0
        (verify_all-Backed now ids vks payloads sigs h.1) (o.verify vk p sig) refl

  verify_resolved-Backed :
      (now : ℕ) (ids : List Text) (resolved : Result (List (Option V)))
      (payloads sigs : List (List ℕ)) {results : List Bool}
      → OkKeysRecent now ids resolved
      → verify_resolved o ttl resolved payloads sigs ≡ ok results
      → Backed now results ids payloads sigs
  unfolding OkKeysRecent
  verify_resolved-Backed now ids err payloads sigs h e = cc
  verify_resolved-Backed now ids (ok vks) payloads sigs h e =
      subst (λ r. BackedIn now r ids payloads sigs) e
        (verify_all-Backed now ids vks payloads sigs h)
    where
      BackedIn : ℕ → Result (List Bool) → List Text → List (List ℕ) → List (List ℕ) → Type 0
      BackedIn now err ids payloads sigs = ⊥
      BackedIn now (ok rs) ids payloads sigs = Backed now rs ids payloads sigs

  pub batch-Backed :
      (now : ℕ) (faults : Faults) (ids : List Text) (payloads sigs : List (List ℕ))
      (c : PrunedCache V)
      → AllDated o ttl past now c
      → let r =
          verify_telemetry_signature_batch o ttl (at o ttl past now faults) ids payloads sigs c in
        AllDated o ttl past now r.1
        × ((results : List Bool) → r.0 ≡ ok results → Backed now results ids payloads sigs)
  unfolding verify_telemetry_signature_batch
  batch-Backed now faults ids payloads sigs c h =
      let (left, keys) = resolve_batch-Recent now faults ids c h in
      elim (Bool-cases (not (length ids == length payloads) || not (length ids == length sigs))) [
        | inl odd ↦ rw odd (h, λ results e. cc)
        | inr even ↦ elim (Bool-cases (length ids == 0)) [
          | inl empty ↦
              rw (even, empty)
                (
                  h,
                  λ results e.
                      let none_asked : ◌≡◌ {A = List Bool} [] results = cc in
                      subst (λ r. Backed now r ids payloads sigs) none_asked tt,
                )
          | inr some_ids ↦
              rw (even, some_ids)
                (left, λ results e. verify_resolved-Backed now ids _ payloads sigs keys e)
        ]
      ]
