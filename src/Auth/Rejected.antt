-- ===== src/Auth/Rejected.antt =====
-- That a key which IAM rejected stays rejected (crates/aggregator-api/src/auth.rs).
use gridtokenx_aggregator_br.Base.{
  ℕ, ◌+◌, ◌<◌, ◌≡◌, inl, inr, refl, ◌∙◌, Bool, true, false, Option, none, some, List, [], ◌∷◌, ◌++◌,
  ltb, any, keep, All, ◌==◌, nat_eq, list_eq, list_beq_iff, arith, Bool-cases, Option-cases,
}
use gridtokenx_aggregator_br.Base.Dict.{lookup, remove, lookup-insert, lookup-remove}
use gridtokenx_aggregator_br.Base.Entries.{lookup-keep}
use gridtokenx_aggregator_br.Billing.Bin.{Text}
use gridtokenx_aggregator_br.Auth.{
  IamVerdict, authorized, rejected, unavailable, post_iam_action, cache_verdict_for, CachedAuth,
  AuthCache, cache_lookup, AuthSettings, AuthRequest, unauthorized, cache_store, verdict,
  store_verdict, after_action, consult, on_lookup, with_key, api_key_auth, cache_after,
}

module _ (s : AuthSettings) (key : Text) (e : CachedAuth) where
  abbrev Held : AuthCache → Type 0
  Held cache = lookup key cache ≡ some e

  Held-store :
      (now : ℕ) (j : Text) (valid : Bool) (cache : AuthCache)
      → (j == key) ≡ false
      → now < e.expires
      → Held cache
      → Held (cache_store s now j valid cache)
  unfolding cache_store
  Held-store now j valid cache other fresh h =
      lookup-insert j key _ (keep (λ x. ltb now x.1.expires) cache)
      ∙ rw other (lookup-keep (λ x. ltb now x.1.expires) key e cache h (ground arith))

  Held-consult :
      (r : AuthRequest) (j : Text) (cache : AuthCache)
      → (j == key) ≡ false
      → r.now < e.expires
      → Held cache
      → Held (consult s r j cache).1
  unfolding consult
  Held-consult r j cache other fresh h = held (verdict s r)
    where
      held :
          (v : IamVerdict)
          → Held
              (after_action s r.now j
                (post_iam_action v)
                (store_verdict s r.now j (cache_verdict_for (post_iam_action v)) cache)).1
      held authorized = Held-store r.now j true cache other fresh h
      held rejected = Held-store r.now j false cache other fresh h
      held unavailable = elim (Bool-cases (any (λ k. k == j) s.api_keys)) [
        | inl static ↦ rw static (Held-store r.now j true cache other fresh h)
        | inr unknown ↦ rw unknown h
      ]

  -- A request under another key.
  Held-other :
      (r : AuthRequest) (j : Text) (cache : AuthCache)
      → (j == key) ≡ false
      → r.now < e.expires
      → Held cache
      → Held (on_lookup s r j (cache_lookup r.now j cache)).1
  unfolding cache_lookup
  Held-other r j cache other fresh h = elim (Option-cases (lookup j cache)) [
    | inl missing ↦ rw (missing, cache_lookup) (Held-consult r j cache other fresh h)
    | inr (x, there) ↦ elim (Bool-cases (ltb r.now x.expires)) [
      | inl live ↦ elim (Bool-cases x.valid) [
        | inl good ↦ rw (there, live, good, cache_lookup) h
        | inr bad ↦ rw (there, live, bad, cache_lookup) h
      ]
      | inr old ↦
          rw (there, old, cache_lookup)
            (Held-consult r j (remove j cache) other fresh (lookup-remove j key cache ∙ rw other h))
    ]
  ]

  -- A request under the key itself is decided by the entry.
  own_hit :
      (r : AuthRequest) (cache : AuthCache)
      → r.now < e.expires
      → e.valid ≡ false
      → Held cache
      → on_lookup s r key (cache_lookup r.now key cache) ≡ (unauthorized, cache)
  unfolding cache_lookup
  own_hit r cache fresh bad h =
      let live : ltb r.now e.expires ≡ true = ground arith in rw (h, live, bad, cache_lookup) refl

  Held-with_key :
      (r : AuthRequest) (k : Option Text) (cache : AuthCache)
      → r.now < e.expires
      → e.valid ≡ false
      → Held cache
      → Held (with_key s r k cache).1
  Held-with_key r none cache fresh bad h = h
  Held-with_key r (some j) cache fresh bad h = elim (Bool-cases (j == key)) [
    | inl same ↦
        let q : j ≡ key = (list_beq_iff nat_eq j key).0 same in
        rw q (rw (own_hit r cache fresh bad h) h)
    | inr other ↦ Held-other r j cache other fresh h
  ]

  Held-after :
      (later past : List AuthRequest)
      → All (λ r. r.now < e.expires) later
      → e.valid ≡ false
      → Held (cache_after s past)
      → Held (cache_after s (later ++ past))
  unfolding api_key_auth
  Held-after [] past fresh bad h = h
  Held-after (r ∷ later) past fresh bad h =
      Held-with_key r r.api_key (cache_after s (later ++ past)) fresh.0 bad
        (Held-after later past fresh.1 bad h)

module _ (s : AuthSettings) where
  -- A reject that was not answered from the cache.
  consult_rejected :
      (r : AuthRequest) (key : Text) (cache : AuthCache)
      → verdict s r ≡ rejected
      → ((consult s r key cache).0 ≡ unauthorized)
        × (lookup key (consult s r key cache).1
            ≡ some (record { expires = r.now + s.negative_ttl; valid = false }))
  unfolding consult cache_store
  consult_rejected r key cache no_key = rw no_key (
    refl,
    lookup-insert key key _ (keep (λ x. ltb r.now x.1.expires) cache)
        ∙ rw ((list_beq_iff nat_eq key key).1 refl) refl,
  )

  asked_rejected :
      (r : AuthRequest) (key : Text) (cache : AuthCache)
      → (cache_lookup r.now key cache).0 ≡ none
      → verdict s r ≡ rejected
      → ((on_lookup s r key (cache_lookup r.now key cache)).0 ≡ unauthorized)
        × (lookup key (on_lookup s r key (cache_lookup r.now key cache)).1
            ≡ some (record { expires = r.now + s.negative_ttl; valid = false }))
  asked_rejected r key cache missed no_key = by_lookup (cache_lookup r.now key cache) missed
    where
      by_lookup :
          (l : Option Bool × AuthCache)
          → l.0 ≡ none
          → ((on_lookup s r key l).0 ≡ unauthorized)
            × (lookup key (on_lookup s r key l).1
                ≡ some (record { expires = r.now + s.negative_ttl; valid = false }))
      by_lookup (none, left) e = consult_rejected r key left no_key
      by_lookup (some valid, left) e = absurd (ground arith)

  -- For requests that are handled one after another, none overlapping: a request whose key IAM rejects is refused, and
  -- so is each request under that key before the negative lifetime is over, whatever requests come between, whatever
  -- IAM says by then, and even if the key is a static one.
  rejected_stays :
      (past later : List AuthRequest) (r q : AuthRequest) (key : Text)
      → r.api_key ≡ some key
      → (cache_lookup r.now key (cache_after s past)).0 ≡ none
      → verdict s r ≡ rejected
      → q.api_key ≡ some key
      → All (λ p. p.now < r.now + s.negative_ttl) (q ∷ later)
      → ((api_key_auth s r (cache_after s past)).0 ≡ unauthorized)
        × ((api_key_auth s q (cache_after s (later ++ (r ∷ past)))).0 ≡ unauthorized)
  unfolding api_key_auth
  rejected_stays past later r q key asked missed no_key again soon =
      let e : CachedAuth = record { expires = r.now + s.negative_ttl; valid = false } in
      let (refused, held) = asked_rejected r key (cache_after s past) missed no_key in
      let stored : lookup key (cache_after s (r ∷ past)) ≡ some e = rw asked held in
      let there = Held-after s key e later (r ∷ past) soon.1 refl stored in
      (
        rw asked refused,
        rw (again, own_hit s key e q (cache_after s (later ++ (r ∷ past))) soon.0 refl there) refl,
      )
