-- ===== src/Frame/Tlv/Laws.antt =====
-- What the TLV loop of crates/aggregator-stacks/src/binary_decoder.rs reads, against a description of the
-- records that a block holds.
use gridtokenx_aggregator_br.Base.{
  ℕ, zero, suc, ◌≤◌, ◌<◌, ◌≡◌, refl, ap, ◌∙◌, false, ◌&&◌, Option, some, List, [], ◌∷◌, ◌++◌,
  length, take, drop, length-append, length-take, length-drop, take-append, drop-append, ltb, inl,
  inr, Bool-cases, if◌then◌else◌, ◌==◌, nat_eq, arith,
}
use gridtokenx_aggregator_br.Frame.Bytes.{from_be_bytes}
use gridtokenx_aggregator_br.Frame.Tlv.{DlmsBinaryFrame, set_field, tlv_loop, read_tlvs}

-- A tag with the bytes of its value.
abbrev pub Tlv : Type 0
Tlv = ℕ × List ℕ

-- A block holds a row of records; the first one that is cut short ends it.
pub data Holds : List ℕ → List Tlv → Type 0 where
  at_end : Holds [] []
  lone_tag : (tag : ℕ) → Holds (tag ∷ []) []
  cut_short : (tag n : ℕ) (rest : List ℕ) → length rest < n → Holds (tag ∷ n ∷ rest) []
  entry :
      (tag n : ℕ) (val rest block : List ℕ) {tlvs : List Tlv}
      → n ≡ length val
      → block ≡ val ++ rest
      → Holds rest tlvs
      → Holds (tag ∷ n ∷ block) ((tag, val) ∷ tlvs)

-- The number in the last record that has this tag and this many bytes, if one has.
abbrev pub last_value : ℕ → ℕ → List Tlv → Option ℕ → Option ℕ
last_value tag size [] before = before
last_value tag size ((t, val) ∷ tlvs) before =
    last_value tag size tlvs
      (if t == tag && length val == size then some (from_be_bytes val) else before)

-- The header with the five values that the records give.
abbrev pub with_values : List Tlv → DlmsBinaryFrame → DlmsBinaryFrame
with_values tlvs f = record f {
  active_energy_import_wh = last_value 1 8 tlvs f.active_energy_import_wh;
  active_energy_export_wh = last_value 2 8 tlvs f.active_energy_export_wh;
  voltage_cv = last_value 3 4 tlvs f.voltage_cv;
  current_ma = last_value 4 4 tlvs f.current_ma;
  battery_soc_bps = last_value 5 4 tlvs f.battery_soc_bps;
}

set_field-with_values :
    (tag : ℕ) (val : List ℕ) (f : DlmsBinaryFrame)
    → set_field tag val f ≡ with_values ((tag, val) ∷ []) f
unfolding set_field
set_field-with_values tag val f = ground arith

take-drop : (n : ℕ) (xs : List ℕ) → xs ≡ take n xs ++ drop n xs
take-drop zero xs = refl
take-drop (suc n) [] = refl
take-drop (suc n) (x ∷ xs) = ap (λ l. x ∷ l) (take-drop n xs)

with_values-cons :
    (tag : ℕ) (val : List ℕ) (tlvs : List Tlv) (f : DlmsBinaryFrame)
    → with_values tlvs (set_field tag val f) ≡ with_values ((tag, val) ∷ tlvs) f
with_values-cons tag val tlvs f = ap (with_values tlvs) (set_field-with_values tag val f)

-- Every block holds a row of records.
Holds-exists :
    (fuel : ℕ) (bytes : List ℕ) → length bytes ≤ fuel → (tlvs : List Tlv) × Holds bytes tlvs
Holds-exists zero [] h = ([], at_end)
Holds-exists zero (b ∷ bytes) h = absurd (omega arith)
Holds-exists (suc fuel) [] h = ([], at_end)
Holds-exists (suc fuel) (tag ∷ []) h = ([], lone_tag tag)
Holds-exists (suc fuel) (tag ∷ n ∷ bytes) h = elim (Bool-cases (ltb (length bytes) n)) [
  | inl short ↦ ([], cut_short tag n bytes (ground arith))
  | inr fits ↦
      let (tlvs, holds) = Holds-exists fuel (drop n bytes) (omega (arith, length-drop n bytes)) in
      (
        (tag, take n bytes) ∷ tlvs,
        entry tag n (take n bytes) (drop n bytes) bytes (ground (arith, length-take n bytes))
            (take-drop n bytes) holds,
      )
]

take-drop_parts :
    (n : ℕ) (val rest block : List ℕ)
    → n ≡ length val
    → block ≡ val ++ rest
    → (take n block ≡ val) × (drop n block ≡ rest) × (ltb (length block) n ≡ false)
take-drop_parts n val rest block hn hb =
    rw (hn, hb) (take-append val rest, drop-append val rest, ground (arith, length-append val rest))

-- With as many rounds as there are bytes, the loop sets what the records of the block say.
pub tlv_loop-Holds :
    (fuel : ℕ) (f : DlmsBinaryFrame) {bytes : List ℕ} {tlvs : List Tlv}
    → Holds bytes tlvs
    → length bytes ≤ fuel
    → tlv_loop fuel bytes f ≡ with_values tlvs f
unfolding tlv_loop
tlv_loop-Holds zero f at_end h = refl
tlv_loop-Holds zero f (lone_tag tag) h = absurd (omega arith)
tlv_loop-Holds zero f (cut_short tag n rest short) h = absurd (omega arith)
tlv_loop-Holds zero f (entry tag n val rest block hn hb holds) h = absurd (omega arith)
tlv_loop-Holds (suc fuel) f at_end h = refl
tlv_loop-Holds (suc fuel) f (lone_tag tag) h = refl
tlv_loop-Holds (suc fuel) f (cut_short tag n rest short) h = ground arith
tlv_loop-Holds (suc fuel) f (entry tag n val rest block {tlvs} hn hb holds) h =
    let (taken, left, fits) = take-drop_parts n val rest block hn hb in
    rw (fits, taken, left)
      (tlv_loop-Holds fuel (set_field tag val f) holds
          (omega (arith, ap length hb, length-append val rest))
        ∙ with_values-cons tag val tlvs f)

-- Every block of bytes holds a row of records, up to the first that is cut short, and the loop sets exactly what
-- that row says: each of the five fields has the number in the last record with its tag and its length, and
-- keeps what it was if there is none.
pub read_tlvs-Holds :
    (bytes : List ℕ) (f : DlmsBinaryFrame)
    → ((tlvs : List Tlv) × Holds bytes tlvs)
      × ((tlvs : List Tlv) → Holds bytes tlvs → read_tlvs bytes f ≡ with_values tlvs f)
unfolding read_tlvs
read_tlvs-Holds bytes f = (
  Holds-exists (length bytes) bytes (omega arith),
  λ tlvs holds. tlv_loop-Holds (length bytes) f holds (omega arith),
)
