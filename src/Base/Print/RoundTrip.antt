-- ===== src/Base/Print/RoundTrip.antt =====
-- Parsing a printed `i64` gives it back; cutting a text at a separator finds the parts.
use gridtokenx_aggregator_br.Base.Numbers.{ltb, Bool-cases}
use gridtokenx_aggregator_br.Base.Lists.{All}
use gridtokenx_aggregator_br.Base.Int.{ℤ, pos, negsuc}
use gridtokenx_aggregator_br.Base.Print.{
  digits, to_string, is_digit, value, magnitude, bind, parse_i64, rsplit_once, strip_prefix,
}
use Prim.Native.Nat.{ℕ, zero, suc, ◌+◌, ◌-◌, ◌*◌, ◌/◌, ◌%◌, ◌^◌, ◌≤◌, ◌<◌}
use native.Mathlib.Nat.{pow-suc}
use mathlib.Core.Path.{◌≡◌, refl, ap, ◌∙◌}
use mathlib.Core.Logic.{◌≢◌, inl, inr}
use mathlib.Core.Option.{none, some}
use mathlib.Core.List.{List, [], ◌∷◌, ◌++◌}
use native.Mathlib.Omega.{arith}

value-append :
    (acc : ℕ) (xs ys : List ℕ) → value acc (xs ++ ys) ≡ bind (value acc xs) (λ a. value a ys)
unfolding value
value-append acc [] ys = refl
value-append acc (x ∷ xs) ys = elim (Bool-cases (is_digit x)) [
  | inl d ↦ rw d (value-append (acc * 10 + (x - b'0')) xs ys)
  | inr d ↦ rw d
]

value-digit : (acc d : ℕ) → d < 10 → value acc ((b'0' + d) ∷ []) ≡ some (acc * 10 + d)
unfolding value
value-digit acc d h = ground arith

large_front : (fuel n : ℕ) → n < 10 ^ suc (suc fuel) → n / 10 < 10 ^ suc fuel
large_front fuel n h = omega (arith, pow-suc 10 (suc fuel))

pub value-digits : (fuel n : ℕ) → n < 10 ^ suc fuel → value 0 (digits (suc fuel) n) ≡ some n
unfolding digits
value-digits zero n h = elim (Bool-cases (ltb n 10)) [
  | inl small ↦ rw small (value-digit 0 n (ground arith) ∙ ap some (omega arith))
  | inr large ↦ absurd (ground arith)
]
value-digits (suc fuel) n h = elim (Bool-cases (ltb n 10)) [
  | inl small ↦ rw small (value-digit 0 n (ground arith) ∙ ap some (omega arith))
  | inr large ↦ rw large (
      value-append 0 (digits (suc fuel) (n / 10)) ((b'0' + n % 10) ∷ [])
      ∙ rw (value-digits fuel (n / 10) (large_front fuel n h))
          (value-digit (n / 10) (n % 10) (omega arith) ∙ ap some (omega arith)))
]

-- A printed number starts with a digit, and holds nothing but digits.
abbrev pub Digits : List ℕ → Type 0
Digits = All (λ c. (b'0' ≤ c) × (c ≤ b'9'))

Digits-append : (xs ys : List ℕ) → Digits xs → Digits ys → Digits (xs ++ ys)
Digits-append [] ys h k = k
Digits-append (x ∷ xs) ys h k = (h.0, Digits-append xs ys h.1 k)

pub digits-Digits : (fuel n : ℕ) → Digits (digits fuel n)
unfolding digits
digits-Digits zero n = tt
digits-Digits (suc fuel) n = elim (Bool-cases (ltb n 10)) [
  | inl small ↦ rw small (ground arith)
  | inr large ↦
      rw large (Digits-append (digits fuel (n / 10)) _ (digits-Digits fuel (n / 10)) (omega arith))
]

-- Any list of digits with a value is read by `parse_i64` without a sign.
parse-Digits :
    (s : List ℕ) (n : ℕ)
    → Digits s
    → s ≢ []
    → value 0 s ≡ some n
    → n < 2 ^ 63
    → parse_i64 s ≡ some (pos n)
unfolding parse_i64 value
parse-Digits [] n h e v r = absurd (e refl)
parse-Digits (c ∷ s) n h e v r = ground arith

append-cons-ne-nil : (xs : List ℕ) (y : ℕ) → xs ++ (y ∷ []) ≢ []
append-cons-ne-nil [] y e = cc
append-cons-ne-nil (x ∷ xs) y e = cc

pub digits-ne-nil : (fuel n : ℕ) → digits (suc fuel) n ≢ []
unfolding digits
digits-ne-nil fuel n e = elim (Bool-cases (ltb n 10)) [
  | inl small ↦ cc (rw small at e)
  | inr large ↦ append-cons-ne-nil (digits fuel (n / 10)) (b'0' + n % 10) (rw large at e)
]

magnitude-eq-value : (s : List ℕ) → s ≢ [] → magnitude s ≡ value 0 s
magnitude-eq-value [] h = absurd (h refl)
magnitude-eq-value (c ∷ s) h = refl

-- Every `i64` survives printing and parsing.
pub parse_i64-to_string_pos : (n : ℕ) → n < 2 ^ 63 → parse_i64 (to_string (pos n)) ≡ some (pos n)
unfolding to_string
parse_i64-to_string_pos n h =
    parse-Digits (digits 19 n) n (digits-Digits 19 n) (digits-ne-nil 18 n)
      (value-digits 18 n (omega arith)) h

pub parse_i64-to_string_neg :
    (n : ℕ) → n < 2 ^ 63 → parse_i64 (to_string (negsuc n)) ≡ some (negsuc n)
unfolding to_string parse_i64
parse_i64-to_string_neg n h =
    rw
      (
        magnitude-eq-value (digits 19 (suc n)) (digits-ne-nil 18 (suc n)),
        value-digits 18 (suc n) (omega arith),
      )
      (ground arith)

-- The integers of an `i64`.
abbrev pub IsI64 : ℤ → Type 0
IsI64 (pos n) = n < 2 ^ 63
IsI64 (negsuc n) = n < 2 ^ 63

pub parse_i64-to_string : (z : ℤ) → IsI64 z → parse_i64 (to_string z) ≡ some z
parse_i64-to_string (pos n) h = parse_i64-to_string_pos n h
parse_i64-to_string (negsuc n) h = parse_i64-to_string_neg n h

abbrev Lacks : ℕ → List ℕ → Type 0
Lacks c = All (λ d. d ≢ c)

Lacks-Digits : (s : List ℕ) → Digits s → Lacks b':' s
Lacks-Digits [] h = tt
Lacks-Digits (c ∷ s) h = (omega arith, Lacks-Digits s h.1)

to_string-Lacks : (z : ℤ) → Lacks b':' (to_string z)
unfolding to_string
to_string-Lacks (pos n) = Lacks-Digits _ (digits-Digits 19 n)
to_string-Lacks (negsuc n) = (omega arith, Lacks-Digits _ (digits-Digits 19 (suc n)))

rsplit_once_lacking : (c : ℕ) (w : List ℕ) → Lacks c w → rsplit_once c w ≡ none
unfolding rsplit_once
rsplit_once_lacking c [] h = refl
rsplit_once_lacking c (x ∷ w) h = ground (arith, rsplit_once_lacking c w h.1)

rsplit_once-append : (c : ℕ) (s w : List ℕ) → Lacks c w → rsplit_once c (s ++ (c ∷ w)) ≡ some (s, w)
unfolding rsplit_once
rsplit_once-append c [] w h = ground (arith, rsplit_once_lacking c w h)
rsplit_once-append c (x ∷ s) w h = rw (rsplit_once-append c s w h)

-- Cutting at the last colon finds what stands before a printed `i64`, whatever colons it holds.
pub rsplit_once-to_string :
    (s : List ℕ) (z : ℤ) → rsplit_once b':' (s ++ (b':' ∷ to_string z)) ≡ some (s, to_string z)
rsplit_once-to_string s z = rsplit_once-append b':' s (to_string z) (to_string-Lacks z)

pub strip_prefix-append : (p s : List ℕ) → strip_prefix p (p ++ s) ≡ some s
unfolding strip_prefix
strip_prefix-append [] s = refl
strip_prefix-append (c ∷ p) s = ground (arith, strip_prefix-append p s)
