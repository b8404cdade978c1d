-- ===== src/Frame/Bytes.antt =====
-- Big-endian numbers, slices and the trimming of NUL bytes, which the frame decoder calls.
use gridtokenx_aggregator_br.Base.{
  ℕ, ◌+◌, ◌*◌, ◌/◌, ◌%◌, ◌^◌, true, false, List, [], ◌∷◌, take, drop, ◌==◌, nat_eq,
}
use mathlib.Core.List.{reverse}

abbrev pub be_after : ℕ → List ℕ → ℕ
be_after acc [] = acc
be_after acc (b ∷ bs) = be_after (acc * 256 + b) bs

-- `u32::from_be_bytes` and `u64::from_be_bytes`, by the length of the slice.
abbrev pub from_be_bytes : List ℕ → ℕ
from_be_bytes bs = be_after 0 bs

-- `&bytes[start..start + n]`, within the bytes.
abbrev pub cut : ℕ → ℕ → List ℕ → List ℕ
cut start n bytes = take n (drop start bytes)

-- `trim_start_matches('\0')`.
unfoldable pub trim_start_nul : List ℕ → List ℕ
trim_start_nul [] = []
trim_start_nul (b ∷ bs) = elim (b == 0) [ true ↦ trim_start_nul bs | false ↦ b ∷ bs ]

-- `trim_matches('\0')`.
unfoldable pub trim_nul : List ℕ → List ℕ
unfolding trim_start_nul
trim_nul bs = reverse (trim_start_nul (reverse (trim_start_nul bs)))

-- The four and eight bytes of a number.
abbrev pub be_bytes_32 : ℕ → List ℕ
be_bytes_32 n = n / 2 ^ 24 % 256 ∷ n / 2 ^ 16 % 256 ∷ n / 2 ^ 8 % 256 ∷ n % 256 ∷ []
