-- ===== src/Base/Equality.antt =====
-- Boolean equality as an interface, for numbers, byte texts, options and pairs.
use mathlib.Core.Path.{◌≡◌}
use mathlib.Core.Logic.{◌↔◌}
use mathlib.Core.Bool.{Bool, true, false, ◌&&◌}
use mathlib.Core.Option.{Option, none, some}
use mathlib.Core.List.{List, [], ◌∷◌}
use native.Mathlib.Omega.{arith}
use Prim.Native.Nat.{ℕ}
use gridtokenx_aggregator_br.Base.Numbers.{nat_beq, nat_beq_iff}

pub record HasEq {ℓ} (A : Type ℓ) : Type ℓ where
  pub same : A → A → Bool
  pub same_iff : (x y : A) → (same x y ≡ true) ↔ (x ≡ y)

abbrev pub list_beq {ℓ} : {A : Type ℓ} → HasEq A → List A → List A → Bool
list_beq e [] [] = true
list_beq e [] (y ∷ ys) = false
list_beq e (x ∷ xs) [] = false
list_beq e (x ∷ xs) (y ∷ ys) = e.same x y && list_beq e xs ys

pub list_beq_iff {ℓ} :
    {A : Type ℓ} (e : HasEq A) (xs ys : List A) → (list_beq e xs ys ≡ true) ↔ (xs ≡ ys)
list_beq_iff e [] [] = ground arith
list_beq_iff e [] (y ∷ ys) = ground arith
list_beq_iff e (x ∷ xs) [] = ground arith
list_beq_iff e (x ∷ xs) (y ∷ ys) = ground (arith, e.same_iff x y, list_beq_iff e xs ys)

abbrev pub pair_beq {ℓ κ} : {A : Type ℓ} {B : Type κ} → HasEq A → HasEq B → A × B → A × B → Bool
pair_beq e f (a, b) (c, d) = e.same a c && f.same b d

pub pair_beq_iff {ℓ κ} :
    {A : Type ℓ} {B : Type κ} (e : HasEq A) (f : HasEq B) (p q : A × B)
    → (pair_beq e f p q ≡ true) ↔ (p ≡ q)
pair_beq_iff e f (a, b) (c, d) = ground (arith, e.same_iff a c, f.same_iff b d)

abbrev pub option_beq {ℓ} : {A : Type ℓ} → HasEq A → Option A → Option A → Bool
option_beq e none none = true
option_beq e none (some b) = false
option_beq e (some a) none = false
option_beq e (some a) (some b) = e.same a b

pub option_beq_iff {ℓ} :
    {A : Type ℓ} (e : HasEq A) (a b : Option A) → (option_beq e a b ≡ true) ↔ (a ≡ b)
option_beq_iff e none none = ground arith
option_beq_iff e none (some b) = ground arith
option_beq_iff e (some a) none = ground arith
option_beq_iff e (some a) (some b) = ground (arith, e.same_iff a b)

-- The test of the instance at hand.
infix 50 ◌==◌
abbrev pub ◌==◌ {ℓ} : {A : Type ℓ} ⦃e : HasEq A⦄ → A → A → Bool
◌==◌ ⦃e⦄ x y = e.same x y

instance abbrev pub nat_eq : HasEq ℕ
nat_eq = record { same = nat_beq; same_iff = nat_beq_iff }

instance abbrev pub list_eq {ℓ} : {A : Type ℓ} ⦃e : HasEq A⦄ → HasEq (List A)
list_eq ⦃e⦄ = record { same = list_beq e; same_iff = list_beq_iff e }

instance abbrev pub pair_eq {ℓ κ} :
    {A : Type ℓ} {B : Type κ} ⦃e : HasEq A⦄ ⦃f : HasEq B⦄ → HasEq (A × B)
pair_eq ⦃e⦄ ⦃f⦄ = record { same = pair_beq e f; same_iff = pair_beq_iff e f }

instance abbrev pub option_eq {ℓ} : {A : Type ℓ} ⦃e : HasEq A⦄ → HasEq (Option A)
option_eq ⦃e⦄ = record { same = option_beq e; same_iff = option_beq_iff e }
