-- ===== src/Keys/Cache.antt =====
-- `PrunedCache` and the two verdict caches of crates/aggregator-persistence/src/infra/crypto.rs, and the Redis
-- reads with their one retry.
use gridtokenx_aggregator_br.Base.{
  ℕ, ◌+◌, ◌-◌, ◌*◌, ◌<◌, ◌≡◌, Option-cases, Bool, true, false, not, Option, none, some, List, [],
  map, keep, ltb, leb, if◌then◌else◌, nat_eq, list_eq, arith, Bool-cases, inl, inr,
}
use gridtokenx_aggregator_br.Base.Dict.{Dict, lookup, insert, remove}
use gridtokenx_aggregator_br.Base.Entries.{Each, Each-insert, Each-remove, Each-keep, Each-lookup}
use gridtokenx_aggregator_br.Billing.Bin.{Text}
use gridtokenx_aggregator_br.Billing.Time.{second_ns}

-- `anyhow::Result`, whose message is only logged.
pub data Result (A : Type 0) : Type 0 where
  ok : A → Result A
  err : Result A

abbrev pub cache_prune_interval : ℕ
cache_prune_interval = 30 * second_ns

-- `CachedPubkey`, `CachedEncKey`: a key that was there, or that none was.
pub record Cached (A : Type 0) : Type 0 where
  pub key : Option A
  pub expires : ℕ

pub record PrunedCache (A : Type 0) : Type 0 where
  pub map : Dict Text (Cached A)
  pub last_pruned : ℕ

-- The lifetimes of a present and of an absent key, in seconds.
pub record Ttl : Type 0 where
  pub positive : ℕ
  pub negative : ℕ

-- `ttl_env`, with the variable as `u64::from_str` reads it.
abbrev pub ttl_env : Option ℕ → ℕ → ℕ
ttl_env none default_secs = default_secs
ttl_env (some secs) default_secs = secs

abbrev pub pubkey_ttl : Option ℕ → Option ℕ → Ttl
pubkey_ttl p n = record { positive = ttl_env p 60; negative = ttl_env n 10 }

abbrev pub enckey_ttl : Option ℕ → Option ℕ → Ttl
enckey_ttl p n = record { positive = ttl_env p 300; negative = ttl_env n 10 }

module _ {A : Type 0} where
  abbrev pub lifetime : Ttl → Option A → ℕ
  lifetime t (some k) = t.positive * second_ns
  lifetime t none = t.negative * second_ns

  -- `PrunedCache::new`.
  abbrev pub new_cache : ℕ → PrunedCache A
  new_cache now = record { map = []; last_pruned = now }

  -- `retain` in the prune.
  unfoldable pub prune : ℕ → PrunedCache A → PrunedCache A
  prune now c =
      if leb cache_prune_interval (now - c.last_pruned)
      then record c { map = keep (λ e. not (leb e.1.expires now)) c.map; last_pruned = now }
      else c

  unfoldable pub insert_pruned : ℕ → Text → Cached A → PrunedCache A → PrunedCache A
  insert_pruned now k v c = let c' = prune now c in record c' { map = insert k v c'.map }

  unfoldable pub cache_get : ℕ → Text → PrunedCache A → Option (Option A) × PrunedCache A
  cache_get now id c = elim (lookup id c.map) [
    | none ↦ (none, c)
    | some e ↦
        if ltb now e.expires then (some e.key, c) else (none, record c { map = remove id c.map })
  ]

  unfoldable pub cache_put : Ttl → ℕ → Text → Option A → PrunedCache A → PrunedCache A
  unfolding insert_pruned
  cache_put t now id key c =
      insert_pruned now id (record { key = key; expires = now + lifetime t key }) c

-- What goes wrong in a round-trip: each flag says that the step succeeds.
pub record Faults : Type 0 where
  pub connects : Bool
  pub replies : Bool
  pub reconnects : Bool
  pub replies_again : Bool

-- Whether the command is answered: at once, or after one rebuilt connection.
abbrev pub answered : Faults → Bool
answered f =
    if f.connects
    then (if f.replies then true else if f.reconnects then f.replies_again else false)
    else false

abbrev pub Store : Type 0
Store = Text → Option Text

unfoldable pub get_with_retry : Faults → Store → Text → Result (Option Text)
get_with_retry f redis k = if answered f then ok (redis k) else err

unfoldable pub mget_with_retry : Faults → Store → List Text → Result (List (Option Text))
mget_with_retry f redis ks = if answered f then ok (map redis ks) else err

module _ {A : Type 0} (P : Text → Cached A → Type 0) where
  Each-prune : (now : ℕ) (c : PrunedCache A) → Each P c.map → Each P (prune now c).map
  unfolding prune
  Each-prune now c h = elim (Bool-cases (leb cache_prune_interval (now - c.last_pruned))) [
    | inl due ↦ rw due (Each-keep P _ c.map h)
    | inr early ↦ rw early h
  ]

  pub Each-put :
      (t : Ttl) (now : ℕ) (id : Text) (key : Option A) (c : PrunedCache A)
      → P id (record { key = key; expires = now + lifetime t key })
      → Each P c.map
      → Each P (cache_put t now id key c).map
  unfolding cache_put
  Each-put t now id key c p h = Each-insert P id _ (prune now c).map p (Each-prune now c h)

  -- A hit is an entry that has not expired; what the lookup leaves has the property still.
  pub Each-get :
      (now : ℕ) (id : Text) (c : PrunedCache A)
      → Each P c.map
      → Each P (cache_get now id c).1.map
        × ((key : Option A)
            → (cache_get now id c).0 ≡ some key
            → (e : Cached A) × P id e × (e.key ≡ key) × (now < e.expires))
  unfolding cache_get
  Each-get now id c h = elim (Option-cases (lookup id c.map)) [
    | inl missing ↦ rw (missing, cache_get) (h, λ key e. cc)
    | inr (e, there) ↦ elim (Bool-cases (ltb now e.expires)) [
      | inl fresh ↦
          rw (there, fresh, cache_get)
            (h, λ key hit. (e, Each-lookup P id c.map there h, ground arith, ground arith))
      | inr old ↦ rw (there, old, cache_get) (Each-remove P id c.map h, λ key hit. cc)
    ]
  ]
