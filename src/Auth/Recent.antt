-- ===== src/Auth/Recent.antt =====
-- That a request runs only under a recent grant (crates/aggregator-api/src/auth.rs).
use gridtokenx_aggregator_br.Base.{
  ℕ, ◌+◌, ◌≤◌, ◌<◌, ◌≡◌, ◌⊎◌, inl, inr, refl, Bool, true, false, Option, none, some, List, [], ◌∷◌,
  ltb, any, All, All-mono, ◌==◌, nat_eq, list_eq, arith, Bool-cases, Option-cases,
}
use gridtokenx_aggregator_br.Base.Dict.{lookup, remove}
use gridtokenx_aggregator_br.Base.Entries.{Each, Each-insert, Each-remove, Each-keep, Each-lookup}
use gridtokenx_aggregator_br.Billing.Bin.{Text}
use gridtokenx_aggregator_br.Auth.{
  IamVerdict, authorized, rejected, unavailable, post_iam_action, cache_verdict_for, CachedAuth,
  AuthCache, cache_lookup, AuthSettings, AuthRequest, AuthOutcome, run_request, unauthorized,
  ttl_of, cache_store, verdict, store_verdict, after_action, consult, on_lookup, with_key,
  api_key_auth, cache_after,
}

module _ (s : AuthSettings) where
  -- The request found the key good: IAM authorised it, or IAM could not be asked and it is a static key.
  abbrev pub Grants : Text → AuthRequest → Type 0
  Grants key r =
      (r.api_key ≡ some key)
      × ((verdict s r ≡ authorized)
          ⊎ ((verdict s r ≡ unavailable) × (any (λ k. k == key) s.api_keys ≡ true)))

  -- One of the requests granted the key, no longer ago than a positive lifetime.
  abbrev pub GrantedBy : List AuthRequest → ℕ → Text → Type 0
  GrantedBy [] now key = ⊥
  GrantedBy (r ∷ rs) now key =
      (Grants key r × (r.now ≤ now) × ((now < r.now + s.positive_ttl) ⊎ (now ≡ r.now)))
      ⊎ GrantedBy rs now key

  -- What a valid entry of the cache rests on.
  abbrev pub Backed : List AuthRequest → Text → CachedAuth → Type 0
  Backed [] key e = (e.valid ≡ false)
  Backed (r ∷ rs) key e = (Grants key r × (e.expires ≡ r.now + s.positive_ttl)) ⊎ Backed rs key e

  Backed-invalid :
      (past : List AuthRequest) (key : Text) (e : CachedAuth) → e.valid ≡ false → Backed past key e
  Backed-invalid [] key e h = h
  Backed-invalid (r ∷ past) key e h = inr (Backed-invalid past key e h)

  GrantedBy-Backed :
      (past : List AuthRequest) (now : ℕ) (key : Text) (e : CachedAuth)
      → All (λ r. r.now ≤ now) past
      → now < e.expires
      → e.valid ≡ true
      → Backed past key e
      → GrantedBy past now key
  GrantedBy-Backed [] now key e before fresh valid b = ground arith
  GrantedBy-Backed (r ∷ past) now key e before fresh valid (inl (grants, until)) =
      inl (grants, before.0, inl (omega arith))
  GrantedBy-Backed (r ∷ past) now key e before fresh valid (inr b) =
      inr (GrantedBy-Backed past now key e before.1 fresh valid b)

  store-Backed :
      (past : List AuthRequest) (now : ℕ) (key : Text) (valid : Bool) (cache : AuthCache)
      → Backed past key (record { expires = now + ttl_of s valid; valid = valid })
      → Each (Backed past) cache
      → Each (Backed past) (cache_store s now key valid cache)
  unfolding cache_store
  store-Backed past now key valid cache b h =
      Each-insert (Backed past) key _ _ b (Each-keep (Backed past) _ cache h)

  -- After the round-trip: what was stored is backed by the request, and the request runs only if it found a grant.
  abbrev ConsultFine : AuthRequest → List AuthRequest → Text → AuthOutcome × AuthCache → Type 0
  ConsultFine r past key (outcome, cache) =
      Each (Backed (r ∷ past)) cache × (outcome ≡ run_request → Grants key r)

  consult-Fine :
      (r : AuthRequest) (past : List AuthRequest) (key : Text) (cache : AuthCache)
      → r.api_key ≡ some key
      → Each (Backed (r ∷ past)) cache
      → ConsultFine r past key (consult s r key cache)
  unfolding consult
  consult-Fine r past key cache asked h = fine (verdict s r) refl
    where
      fine :
          (v : IamVerdict)
          → verdict s r ≡ v
          → ConsultFine r past key (
              after_action s r.now key
                (post_iam_action v)
                (store_verdict s r.now key (cache_verdict_for (post_iam_action v)) cache))
      fine authorized e = (
        store-Backed (r ∷ past) r.now key true cache (inl ((asked, inl e), refl)) h,
        λ _. (asked, inl e),
      )
      fine rejected e = (
        store-Backed (r ∷ past) r.now key false cache (Backed-invalid (r ∷ past) key _ refl) h,
        λ q. absurd (ground arith),
      )
      fine unavailable e = elim (Bool-cases (any (λ k. k == key) s.api_keys)) [
        | inl static ↦ rw static (
          store-Backed (r ∷ past) r.now key true cache (inl ((asked, inr (e, static)), refl)) h,
          λ _. (asked, inr (e, refl)),
        )
        | inr other ↦ rw other (h, λ q. absurd (ground arith))
      ]

  Backed-later :
      (r : AuthRequest) (past : List AuthRequest) (cache : AuthCache)
      → Each (Backed past) cache
      → Each (Backed (r ∷ past)) cache
  Backed-later r past cache h = All-mono cache (λ x b. inr b) h

  -- The same for the whole request, with what a hit rests on.
  abbrev AuthFine : AuthRequest → List AuthRequest → Option Text → AuthOutcome × AuthCache → Type 0
  AuthFine r past none (outcome, cache) = Each (Backed (r ∷ past)) cache × (outcome ≡ unauthorized)
  AuthFine r past (some key) (outcome, cache) =
      Each (Backed (r ∷ past)) cache
      × (outcome ≡ run_request → All (λ q. q.now ≤ r.now) past → GrantedBy (r ∷ past) r.now key)

  consulted-Fine :
      (r : AuthRequest) (past : List AuthRequest) (key : Text) (cache : AuthCache)
      → r.api_key ≡ some key
      → Each (Backed past) cache
      → AuthFine r past (some key) (consult s r key cache)
  consulted-Fine r past key cache asked h =
      let (kept, granted) = consult-Fine r past key cache asked (Backed-later r past cache h) in
      (kept, λ q before. inl (granted q, omega arith, inr refl))

  on_lookup-Fine :
      (r : AuthRequest) (past : List AuthRequest) (key : Text) (cache : AuthCache)
      → r.api_key ≡ some key
      → Each (Backed past) cache
      → AuthFine r past (some key) (on_lookup s r key (cache_lookup r.now key cache))
  unfolding cache_lookup
  on_lookup-Fine r past key cache asked h = elim (Option-cases (lookup key cache)) [
    | inl missing ↦ rw (missing, cache_lookup) (consulted-Fine r past key cache asked h)
    | inr (e, there) ↦ elim (Bool-cases (ltb r.now e.expires)) [
      | inl fresh ↦
          let b = Each-lookup (Backed past) key cache there h in
          elim (Bool-cases e.valid) [
            | inl good ↦
                rw (there, fresh, good, cache_lookup)
                  (
                    Backed-later r past cache h,
                    λ q before.
                        inr (GrantedBy-Backed past r.now key e before (ground arith) good b),
                  )
            | inr bad ↦
                rw (there, fresh, bad, cache_lookup)
                  (Backed-later r past cache h, λ q. absurd (ground arith))
          ]
      | inr old ↦
          rw (there, old, cache_lookup)
            (consulted-Fine r past key (remove key cache) asked
              (Each-remove (Backed past) key cache h))
    ]
  ]

  with_key-Fine :
      (r : AuthRequest) (past : List AuthRequest) (k : Option Text) (cache : AuthCache)
      → r.api_key ≡ k
      → Each (Backed past) cache
      → AuthFine r past k (with_key s r k cache)
  with_key-Fine r past none cache asked h = (Backed-later r past cache h, refl)
  with_key-Fine r past (some key) cache asked h = on_lookup-Fine r past key cache asked h

  AuthFine-Each :
      (r : AuthRequest) (past : List AuthRequest) (k : Option Text) (a : AuthOutcome × AuthCache)
      → AuthFine r past k a
      → Each (Backed (r ∷ past)) a.1
  AuthFine-Each r past none a f = f.0
  AuthFine-Each r past (some key) a f = f.0

  cache_after-Backed : (past : List AuthRequest) → Each (Backed past) (cache_after s past)
  unfolding api_key_auth
  cache_after-Backed [] = tt
  cache_after-Backed (r ∷ past) =
      AuthFine-Each r past r.api_key _
        (with_key-Fine r past r.api_key (cache_after s past) refl (cache_after-Backed past))

  -- A request that runs presents a key, and it or an earlier request of the process, less than a positive lifetime
  -- before, presented that key when IAM authorised it, or when IAM could not be asked and the key is a static one.
  pub api_key_auth-GrantedBy :
      (past : List AuthRequest) (r : AuthRequest)
      → All (λ q. q.now ≤ r.now) past
      → (api_key_auth s r (cache_after s past)).0 ≡ run_request
      → (key : Text) × (r.api_key ≡ some key) × GrantedBy (r ∷ past) r.now key
  unfolding api_key_auth
  api_key_auth-GrantedBy past r before runs = presented r.api_key refl runs
    where
      presented :
          (k : Option Text)
          → r.api_key ≡ k
          → (with_key s r k (cache_after s past)).0 ≡ run_request
          → (key : Text) × (r.api_key ≡ some key) × GrantedBy (r ∷ past) r.now key
      presented none e q = absurd (ground arith)
      presented (some key) e q = (
        key,
        e,
        (with_key-Fine r past (some key) (cache_after s past) e (cache_after-Backed past)).1 q
            before,
      )
