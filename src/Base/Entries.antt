-- ===== src/Base/Entries.antt =====
-- A property of every entry of a map, whichever its key, and what pruning a map does to one key.
use gridtokenx_aggregator_br.Base.Numbers.{Bool-cases}
use gridtokenx_aggregator_br.Base.Lists.{All, keep}
use gridtokenx_aggregator_br.Base.Equality.{HasEq, ◌==◌}
use gridtokenx_aggregator_br.Base.Dict.{Dict, lookup, insert, remove}
use mathlib.Core.Path.{◌≡◌, sym, subst}
use mathlib.Core.Logic.{inl, inr}
use mathlib.Core.Bool.{Bool, true}
use mathlib.Core.Option.{some}
use mathlib.Core.List.{[], ◌∷◌}
use native.Mathlib.Omega.{arith}

module _ {K V : Type 0} ⦃e : HasEq K⦄ (P : K → V → Type 0) where
  abbrev pub Each : Dict K V → Type 0
  Each d = All (λ x. P x.0 x.1) d

  pub Each-insert : (k : K) (v : V) (d : Dict K V) → P k v → Each d → Each (insert k v d)
  unfolding insert
  Each-insert k v [] p h = (p, tt)
  Each-insert k v ((j, w) ∷ d) p h = elim (Bool-cases (j == k)) [
    | inl same ↦ rw same (p, h.1)
    | inr other ↦ rw other (h.0, Each-insert k v d p h.1)
  ]

  pub Each-remove : (k : K) (d : Dict K V) → Each d → Each (remove k d)
  unfolding remove
  Each-remove k [] h = tt
  Each-remove k ((j, w) ∷ d) h = elim (Bool-cases (j == k)) [
    | inl same ↦ rw same (Each-remove k d h.1)
    | inr other ↦ rw other (h.0, Each-remove k d h.1)
  ]

  pub Each-keep : (p : K × V → Bool) (d : Dict K V) → Each d → Each (keep p d)
  Each-keep p [] h = tt
  Each-keep p (x ∷ d) h = elim (Bool-cases (p x)) [
    | inl pass ↦ rw (pass, keep) (h.0, Each-keep p d h.1)
    | inr fail ↦ rw (fail, keep) (Each-keep p d h.1)
  ]

  pub Each-lookup : (k : K) {v : V} (d : Dict K V) → lookup k d ≡ some v → Each d → P k v
  unfolding lookup
  Each-lookup k [] q h = cc
  Each-lookup k {v} ((j, w) ∷ d) q h = elim (Bool-cases (j == k)) [
    | inl same ↦
        let found : w ≡ v = ground arith in
        subst (λ x. P k x) found (subst (λ x. P x w) ((e.same_iff j k).0 same) h.0)
    | inr other ↦ Each-lookup k d (ground arith) h.1
  ]

module _ {K V : Type 0} ⦃e : HasEq K⦄ where
  -- A pruned map still finds what it found, if that passes the test.
  pub lookup-keep :
      (p : K × V → Bool) (k : K) (v : V) (d : Dict K V)
      → lookup k d ≡ some v
      → p (k, v) ≡ true
      → lookup k (keep p d) ≡ some v
  unfolding lookup
  lookup-keep p k v [] q pass = cc
  lookup-keep p k v ((j, w) ∷ d) q pass = elim (Bool-cases (j == k)) [
    | inl same ↦
        let found : w ≡ v = ground arith in
        let here : p (j, w) ≡ true =
          subst (λ x. p (j, x) ≡ true) (sym found)
            (subst (λ x. p (x, v) ≡ true) (sym ((e.same_iff j k).0 same)) pass) in
        rw (here, keep) (ground arith)
    | inr other ↦
        let rest = lookup-keep p k v d (ground arith) pass in
        elim (Bool-cases (p (j, w))) [
          | inl stays ↦ rw (stays, keep, other) rest
          | inr goes ↦ rw (goes, keep) rest
        ]
  ]
