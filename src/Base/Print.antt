-- ===== src/Base/Print.antt =====
-- `i64` to text and back, as `to_string` and `parse::<i64>` of the standard library do, and the two
-- ways in which the program cuts a text.
pub mod RoundTrip
use gridtokenx_aggregator_br.Base.Numbers.{ltb, leb, nat_beq, if◌then◌else◌}
use gridtokenx_aggregator_br.Base.Int.{ℤ, pos, negsuc}
use Prim.Native.Nat.{ℕ, zero, suc, ◌+◌, ◌-◌, ◌*◌, ◌/◌, ◌%◌, ◌^◌}
use mathlib.Core.Bool.{Bool, true, false, ◌&&◌}
use mathlib.Core.Option.{Option, none, some}
use mathlib.Core.List.{List, [], ◌∷◌, ◌++◌}

-- The last digit of `n`, and those of `n / 10` before it; `fuel` bounds the number of digits.
unfoldable pub digits : ℕ → ℕ → List ℕ
digits zero n = []
digits (suc fuel) n =
    let front = digits fuel (n / 10) in
    if ltb n 10 then (b'0' + n) ∷ [] else front ++ ((b'0' + n % 10) ∷ [])

-- An `i64` has at most 19 digits.
unfoldable pub to_string : ℤ → List ℕ
unfolding digits
to_string (pos n) = digits 19 n
to_string (negsuc n) = b'-' ∷ digits 19 (suc n)

abbrev pub is_digit : ℕ → Bool
is_digit c = leb b'0' c && leb c b'9'

-- The value of a run of digits, after `acc`.
unfoldable pub value : ℕ → List ℕ → Option ℕ
value acc [] = some acc
value acc (c ∷ s) = let rest = value (acc * 10 + (c - b'0')) s in if is_digit c then rest else none

-- The digits behind the sign: at least one.
abbrev pub magnitude : List ℕ → Option ℕ
magnitude [] = none
magnitude (c ∷ s) = value 0 (c ∷ s)

abbrev pub in_range_pos : ℕ → Option ℤ
in_range_pos n = if ltb n (2 ^ 63) then some (pos n) else none

abbrev pub in_range_neg : ℕ → Option ℤ
in_range_neg zero = some (pos 0)
in_range_neg (suc n) = if ltb n (2 ^ 63) then some (negsuc n) else none

abbrev pub bind {ℓ κ} : {A : Type ℓ} {B : Type κ} → Option A → (A → Option B) → Option B
bind none f = none
bind (some a) f = f a

unfoldable pub parse_i64 : List ℕ → Option ℤ
unfolding value
parse_i64 [] = none
parse_i64 (c ∷ s) =
    if nat_beq c b'-'
    then bind (magnitude s) in_range_neg
    else if nat_beq c b'+'
    then bind (magnitude s) in_range_pos
    else bind (value 0 (c ∷ s)) in_range_pos

-- `str::rsplit_once`, at the last occurrence of one byte.
unfoldable pub rsplit_once : ℕ → List ℕ → Option (List ℕ × List ℕ)
rsplit_once c [] = none
rsplit_once c (x ∷ s) = elim (rsplit_once c s) [
  | some (a, b) ↦ some (x ∷ a, b)
  | none ↦ if nat_beq x c then some ([], s) else none
]

-- `str::strip_prefix`.
unfoldable pub strip_prefix : List ℕ → List ℕ → Option (List ℕ)
strip_prefix [] s = some s
strip_prefix (p ∷ ps) [] = none
strip_prefix (p ∷ ps) (c ∷ s) = if nat_beq p c then strip_prefix ps s else none
