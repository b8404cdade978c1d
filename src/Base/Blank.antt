-- ===== src/Base/Blank.antt =====
-- `str::trim` and `str::is_empty` on UTF-8: whether a text is white space.
use gridtokenx_aggregator_br.Base.Numbers.{leb, if◌then◌else◌}
use gridtokenx_aggregator_br.Base.Equality.{◌==◌, nat_eq}
use mathlib.Core.Bool.{Bool, true, false, ◌||◌, ◌&&◌}
use mathlib.Core.List.{List, [], ◌∷◌, ◌++◌}
use Prim.Native.Nat.{ℕ}

-- What the bytes read so far are: one whitespace character of UTF-8, the beginning of one, or neither.
pub data Scan : Type 0 where
  space partial solid : Scan

-- `char::is_whitespace`, on the bytes of a character.
abbrev pub scan : List ℕ → Scan
scan (a ∷ []) =
    if (leb 9 a && leb a 13) || a == 32
    then space
    else if a == 194 || (leb 225 a && leb a 227)
    then partial
    else solid
scan (a ∷ (b ∷ [])) =
    if a == 194 && (b == 133 || b == 160)
    then space
    else if (a == 225 && b == 154)
        || ((a == 226 && (b == 128 || b == 129)) || (a == 227 && b == 128))
    then partial
    else solid
scan (a ∷ (b ∷ (c ∷ []))) =
    if (a == 226
        && (b == 128 && ((leb 128 c && leb c 138) || (c == 168 || (c == 169 || c == 175)))))
      || ((a == 226 && (b == 129 && c == 159))
          || ((a == 225 && c == 128) || (a == 227 && c == 128)))
    then space
    else solid
scan _ = solid

unfoldable pub blank : List ℕ → List ℕ → Bool
blank [] [] = true
blank (b ∷ before) [] = false
blank before (c ∷ s) = elim (scan (before ++ (c ∷ []))) [
  | space ↦ blank [] s
  | partial ↦ blank (before ++ (c ∷ [])) s
  | solid ↦ false
]

-- `trim().is_empty()`.
abbrev pub is_blank : List ℕ → Bool
is_blank = blank []
