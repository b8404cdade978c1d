-- ===== src/Base/Members.antt =====
-- What a list and its changes have as members, and what holds of all of them.
use gridtokenx_aggregator_br.Base.Numbers.{Bool-cases}
use gridtokenx_aggregator_br.Base.Lists.{All, In, keep, take}
use Prim.Native.Nat.{ℕ, zero, suc}
use mathlib.Core.Path.{◌≡◌, refl, ap, ◌∙◌, subst}
use mathlib.Core.Logic.{◌⊎◌, inl, inr}
use mathlib.Core.Bool.{Bool, true, false}
use mathlib.Core.List.{List, [], ◌∷◌, ◌++◌, map}

module _ {A : Type 0} where
  pub In-append_left : (a : A) (xs ys : List A) → In a xs → In a (xs ++ ys)
  In-append_left a [] ys h = absurd h
  In-append_left a (x ∷ xs) ys (inl here) = inl here
  In-append_left a (x ∷ xs) ys (inr there) = inr (In-append_left a xs ys there)

  pub In-append_right : (a : A) (xs ys : List A) → In a ys → In a (xs ++ ys)
  In-append_right a [] ys h = h
  In-append_right a (x ∷ xs) ys h = inr (In-append_right a xs ys h)

  pub In-append_inv : (a : A) (xs ys : List A) → In a (xs ++ ys) → In a xs ⊎ In a ys
  In-append_inv a [] ys h = inr h
  In-append_inv a (x ∷ xs) ys (inl here) = inl (inl here)
  In-append_inv a (x ∷ xs) ys (inr there) = elim (In-append_inv a xs ys there) [
    | inl first ↦ inl (inr first)
    | inr second ↦ inr second
  ]

  pub In-snoc : (a : A) (xs : List A) → In a (xs ++ (a ∷ []))
  In-snoc a [] = inl refl
  In-snoc a (x ∷ xs) = inr (In-snoc a xs)

  pub In-unsnoc : (a b : A) (xs : List A) → In a (xs ++ (b ∷ [])) → In a xs ⊎ (b ≡ a)
  In-unsnoc a b [] (inl last) = inr last
  In-unsnoc a b [] (inr none) = absurd none
  In-unsnoc a b (x ∷ xs) (inl here) = inl (inl here)
  In-unsnoc a b (x ∷ xs) (inr there) = elim (In-unsnoc a b xs there) [
    | inl before ↦ inl (inr before)
    | inr last ↦ inr last
  ]

  pub In-keep : (p : A → Bool) (a : A) (xs : List A) → In a xs → p a ≡ true → In a (keep p xs)
  In-keep p a [] h pass = absurd h
  In-keep p a (x ∷ xs) (inl here) pass = rw (ap p here ∙ pass, keep) (inl here)
  In-keep p a (x ∷ xs) (inr there) pass = elim (Bool-cases (p x)) [
    | inl stays ↦ rw (stays, keep) (inr (In-keep p a xs there pass))
    | inr goes ↦ rw (goes, keep) (In-keep p a xs there pass)
  ]

  pub In-keep_inv : (p : A → Bool) (a : A) (xs : List A) → In a (keep p xs) → In a xs
  In-keep_inv p a [] h = h
  In-keep_inv p a (x ∷ xs) h = elim (Bool-cases (p x)) [
    | inl stays ↦
        elim (subst (λ b. In a (elim b [ true ↦ x ∷ keep p xs | false ↦ keep p xs ])) stays h) [
          | inl here ↦ inl here
          | inr there ↦ inr (In-keep_inv p a xs there)
        ]
    | inr goes ↦ inr (
        In-keep_inv p a xs
          (subst (λ b. In a (elim b [ true ↦ x ∷ keep p xs | false ↦ keep p xs ])) goes h))
  ]

  pub All-intro : (P : A → Type 0) (xs : List A) → ((a : A) → In a xs → P a) → All P xs
  All-intro P [] h = tt
  All-intro P (x ∷ xs) h = (h x (inl refl), All-intro P xs (λ a there. h a (inr there)))

  pub All-keep : (P : A → Type 0) (p : A → Bool) (xs : List A) → All P xs → All P (keep p xs)
  All-keep P p [] h = tt
  All-keep P p (x ∷ xs) h = elim (Bool-cases (p x)) [
    | inl stays ↦ rw (stays, keep) (h.0, All-keep P p xs h.1)
    | inr goes ↦ rw (goes, keep) (All-keep P p xs h.1)
  ]

  pub All-take : (P : A → Type 0) (n : ℕ) (xs : List A) → All P xs → All P (take n xs)
  All-take P zero xs h = tt
  All-take P (suc n) [] h = tt
  All-take P (suc n) (x ∷ xs) h = (h.0, All-take P n xs h.1)

  pub All-map :
      {B : Type 0} (P : B → Type 0) (f : A → B) (xs : List A)
      → All (λ a. P (f a)) xs
      → All P (map f xs)
  All-map P f [] h = tt
  All-map P f (x ∷ xs) h = (h.0, All-map P f xs h.1)

  pub All-append : (P : A → Type 0) (xs ys : List A) → All P xs → All P ys → All P (xs ++ ys)
  All-append P [] ys h k = k
  All-append P (x ∷ xs) ys h k = (h.0, All-append P xs ys h.1 k)

  pub All-snoc : (P : A → Type 0) (xs : List A) (a : A) → All P xs → P a → All P (xs ++ (a ∷ []))
  All-snoc P xs a h p = All-append P xs (a ∷ []) h (p, tt)

  pub All-In : (P : A → Type 0) (xs : List A) (a : A) → All P xs → In a xs → P a
  All-In P [] a h there = absurd there
  All-In P (x ∷ xs) a h (inl here) = subst P here h.0
  All-In P (x ∷ xs) a h (inr there) = All-In P xs a h.1 there

  pub In-map : {B : Type 0} (f : A → B) (a : A) (xs : List A) → In a xs → In (f a) (map f xs)
  In-map f a [] h = absurd h
  In-map f a (x ∷ xs) (inl here) = inl (ap f here)
  In-map f a (x ∷ xs) (inr there) = inr (In-map f a xs there)

  pub In-map_inv :
      {B : Type 0} (f : A → B) (b : B) (xs : List A)
      → In b (map f xs)
      → (a : A) × In a xs × (f a ≡ b)
  In-map_inv f b [] h = absurd h
  In-map_inv f b (x ∷ xs) (inl here) = (x, inl refl, here)
  In-map_inv f b (x ∷ xs) (inr there) =
      let (a, inside, same) = In-map_inv f b xs there in (a, inr inside, same)
