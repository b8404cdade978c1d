-- ===== src/Ingest/Split.antt =====
-- How `split_bulk_frames` (crates/aggregator-api/src/grpc/service.rs) cuts a payload.
use gridtokenx_aggregator_br.Base.{
  ℕ, zero, suc, ◌+◌, ◌≤◌, ◌<◌, ◌≡◌, refl, sym, ap, ap₂, ◌∙◌, false, List, [], ◌∷◌, ◌++◌, length,
  take, drop, All, ltb, length-append, length-take, length-drop, take-append, drop-append,
  append_assoc, inl, inr, Bool-cases, arith,
}
use gridtokenx_aggregator_br.Ingest.{split_loop, split_bulk_frames}

-- A frame and its signature.
abbrev pub Entry : Type 0
Entry = List ℕ × List ℕ

-- The wire form of the entries.
abbrev pub pack : List Entry → List ℕ
pack [] = []
pack ((frame, sig) ∷ entries) = length frame ∷ (frame ++ (sig ++ pack entries))

-- A rest that holds no whole entry.
abbrev pub Truncated : List ℕ → Type 0
Truncated [] = Unit
Truncated (frame_len ∷ bytes) = length bytes < frame_len + 64

abbrev pub Whole : Entry → Type 0
Whole (frame, sig) = length sig ≡ 64

entry_parts :
    (frame sig rest : List ℕ)
    → length sig ≡ 64
    → (take (length frame) (frame ++ (sig ++ rest)) ≡ frame)
      × (take 64 (drop (length frame) (frame ++ (sig ++ rest))) ≡ sig)
      × (drop 64 (drop (length frame) (frame ++ (sig ++ rest))) ≡ rest)
      × (ltb (length (frame ++ (sig ++ rest))) (length frame + 64) ≡ false)
entry_parts frame sig rest e = (
  take-append frame (sig ++ rest),
  ap (take 64) (drop-append frame (sig ++ rest)) ∙ rw (← e) (take-append sig rest),
  ap (drop 64) (drop-append frame (sig ++ rest)) ∙ rw (← e) (drop-append sig rest),
  ground (arith, length-append frame (sig ++ rest), length-append sig rest),
)

split-pack :
    (fuel : ℕ) (entries : List Entry) (tail : List ℕ)
    → All Whole entries
    → Truncated tail
    → length (pack entries ++ tail) ≤ fuel
    → split_loop fuel (pack entries ++ tail) ≡ entries
unfolding split_loop
split-pack zero [] [] w t h = refl
split-pack zero [] (b ∷ tail) w t h = absurd (omega arith)
split-pack zero ((frame, sig) ∷ entries) tail w t h = absurd (omega arith)
split-pack (suc fuel) [] [] w t h = refl
split-pack (suc fuel) [] (b ∷ tail) w t h = ground arith
split-pack (suc fuel) ((frame, sig) ∷ entries) tail w t h =
    let (framed, signed, left, fits) = entry_parts frame sig (pack entries ++ tail) w.0 in
    rw
      (
        append_assoc frame (sig ++ pack entries) tail,
        append_assoc sig (pack entries) tail,
        fits,
        framed,
        signed,
        left,
      )
      (ap (λ l. (frame, sig) ∷ l)
        (split-pack fuel entries tail w.1 t (
          omega (
            arith,
            length-append (frame ++ (sig ++ pack entries)) tail,
            length-append frame (sig ++ pack entries),
            length-append sig (pack entries),
            length-append (pack entries) tail,
            w.0,
          ))))

take-drop : (n : ℕ) (xs : List ℕ) → xs ≡ take n xs ++ drop n xs
take-drop zero xs = refl
take-drop (suc n) [] = refl
take-drop (suc n) (x ∷ xs) = ap (λ l. x ∷ l) (take-drop n xs)

ltb-false : (a b : ℕ) → ltb a b ≡ false → b ≤ a
ltb-false a b h = ground arith

pack_first :
    (n : ℕ) (bytes : List ℕ) (entries : List Entry) (tail : List ℕ)
    → n + 64 ≤ length bytes
    → drop 64 (drop n bytes) ≡ pack entries ++ tail
    → n ∷ bytes ≡ pack ((take n bytes, take 64 (drop n bytes)) ∷ entries) ++ tail
pack_first n bytes entries tail fits e =
    let sig = take 64 (drop n bytes) in
    let behind : drop n bytes ≡ (sig ++ pack entries) ++ tail =
      take-drop 64 (drop n bytes)
      ∙ ap (λ l. sig ++ l) e
      ∙ sym (append_assoc sig (pack entries) tail) in
    let whole : bytes ≡ (take n bytes ++ (sig ++ pack entries)) ++ tail =
      take-drop n bytes
      ∙ ap (λ l. take n bytes ++ l) behind
      ∙ sym (append_assoc (take n bytes) (sig ++ pack entries) tail) in
    ap₂ (λ k l. k ∷ l) (omega (arith, length-take n bytes)) whole

-- Every payload is a row of entries and a truncated rest.
pack_exists :
    (fuel : ℕ) (payload : List ℕ)
    → length payload ≤ fuel
    → (entries : List Entry) × (tail : List ℕ) × (payload ≡ pack entries ++ tail)
      × All Whole entries
      × Truncated tail
pack_exists zero [] h = ([], [], refl, tt, tt)
pack_exists zero (b ∷ payload) h = absurd (omega arith)
pack_exists (suc fuel) [] h = ([], [], refl, tt, tt)
pack_exists (suc fuel) (n ∷ bytes) h = elim (Bool-cases (ltb (length bytes) (n + 64))) [
  | inl short ↦ ([], n ∷ bytes, refl, tt, ground arith)
  | inr fits ↦
      let room = ltb-false (length bytes) (n + 64) fits in
      let left = drop 64 (drop n bytes) in
      let (entries, tail, eq, whole, rest) =
        pack_exists fuel left (omega (arith, length-drop n bytes, length-drop 64 (drop n bytes))) in
      (
        (take n bytes, take 64 (drop n bytes)) ∷ entries,
        tail,
        pack_first n bytes entries tail room eq,
        (omega (arith, length-take 64 (drop n bytes), length-drop n bytes), whole),
        rest,
      )
]

-- A payload is a row of entries, each with 64 bytes of signature, and a rest that is too short for an entry; and the
-- bulk path takes exactly these entries out of it, in their order.
pub split_bulk_frames-pack :
    (payload : List ℕ)
    → ((entries : List Entry) × (tail : List ℕ) × (payload ≡ pack entries ++ tail)
        × All Whole entries
        × Truncated tail)
      × ((entries : List Entry) (tail : List ℕ)
          → payload ≡ pack entries ++ tail
          → All Whole entries
          → Truncated tail
          → split_bulk_frames payload ≡ entries)
unfolding split_bulk_frames
split_bulk_frames-pack payload = (
  pack_exists (length payload) payload (omega arith),
  λ entries tail e whole rest.
      rw e (split-pack (length (pack entries ++ tail)) entries tail whole rest (omega arith)),
)
