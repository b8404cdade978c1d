-- ===== src/Frame/RoundTrip.antt =====
-- Frames as a meter builds them, which the decoder of crates/aggregator-stacks/src/binary_decoder.rs reads back.
use gridtokenx_aggregator_br.Base.{
  ℕ, zero, suc, ◌+◌, ◌-◌, ◌^◌, ◌≤◌, ◌<◌, ◌≡◌, refl, sym, ap, ◌∙◌, true, Option, none, some, List,
  [], ◌∷◌, ◌++◌, length, take, drop, length-append, take-append, drop-append, append_assoc, arith,
}
use gridtokenx_aggregator_br.Base.Int.{as_i64}
use gridtokenx_aggregator_br.Frame.{Crates, ok, DlmsHeader, parse, encrypted_data, empty_frame}
use gridtokenx_aggregator_br.Frame.Bytes.{from_be_bytes, cut, trim_nul, be_bytes_32}
use gridtokenx_aggregator_br.Frame.Tlv.Laws.{Tlv, Holds, at_end, entry, with_values}
use gridtokenx_aggregator_br.Frame.Sound.{Checked, Opens, frame_bytes, parse_iff}

-- The records of a block, one after another.
abbrev pub encode_tlvs : List Tlv → List ℕ
encode_tlvs [] = []
encode_tlvs ((tag, val) ∷ tlvs) = tag ∷ length val ∷ (val ++ encode_tlvs tlvs)

encode_tlvs-Holds : (tlvs : List Tlv) → Holds (encode_tlvs tlvs) tlvs
encode_tlvs-Holds [] = at_end
encode_tlvs-Holds ((tag, val) ∷ tlvs) =
    entry tag (length val) val (encode_tlvs tlvs) (val ++ encode_tlvs tlvs) refl refl
      (encode_tlvs-Holds tlvs)

pub be_bytes_32_lem : (n : ℕ) → n < 2 ^ 32 → from_be_bytes (be_bytes_32 n) ≡ n
be_bytes_32_lem n h = omega arith

-- What a meter puts into a frame: manufacturer, device name and timestamp as bytes, and the block.
pub record Parts : Type 0 where
  pub manuf : List ℕ
  pub ldn : List ℕ
  pub ts : List ℕ
  pub block : List ℕ

-- The widths of the header's fields, and a block that leaves the length in one byte.
pub record Fit (p : Parts) : Type 0 where
  pub manuf_width : length p.manuf ≡ 3
  pub ldn_width : length p.ldn ≡ 8
  pub ts_width : length p.ts ≡ 8
  pub block_width : length p.block ≤ 232

-- The frame without its checksum, and with it.
abbrev pub sealed_bytes : Parts → List ℕ
sealed_bytes p = 4 ∷ (length p.block + 23) ∷ (p.manuf ++ (p.ldn ++ (p.ts ++ p.block)))

abbrev pub build : Crates → Parts → List ℕ
build c p = sealed_bytes p ++ be_bytes_32 (c.crc32 (sealed_bytes p))

drop_past : (n k : ℕ) (xs ys : List ℕ) → n ≡ length xs + k → drop n (xs ++ ys) ≡ drop k ys
drop_past n k [] ys e = ap (λ m. drop m ys) (omega arith)
drop_past zero k (x ∷ xs) ys e = absurd (omega arith)
drop_past (suc n) k (x ∷ xs) ys e = drop_past n k xs ys (omega arith)

take_first : (n : ℕ) (xs ys : List ℕ) → n ≡ length xs → take n (xs ++ ys) ≡ xs
take_first n xs ys e = rw e (take-append xs ys)

drop_first : (n : ℕ) (xs ys : List ℕ) → n ≡ length xs → drop n (xs ++ ys) ≡ ys
drop_first n xs ys e = rw e (drop-append xs ys)

module _ (c : Crates) (p : Parts) (fit : Fit p) (rest : List ℕ) where
  abbrev pub crc : List ℕ
  crc = be_bytes_32 (c.crc32 (sealed_bytes p))

  abbrev pub payload : List ℕ
  payload = build c p ++ rest

  payload-eq :
      payload
      ≡ 4 ∷ (length p.block + 23) ∷ (p.manuf ++ (p.ldn ++ (p.ts ++ (p.block ++ (crc ++ rest)))))
  payload-eq = simp append_assoc

  cut_manuf : cut 2 3 payload ≡ p.manuf
  cut_manuf = rw payload-eq (take_first 3 p.manuf _ (omega (arith, fit.manuf_width)))

  cut_ldn : cut 5 8 payload ≡ p.ldn
  cut_ldn = rw payload-eq (
      ap (take 8) (drop_first 3 p.manuf _ (omega (arith, fit.manuf_width)))
      ∙ take_first 8 p.ldn _ (omega (arith, fit.ldn_width)))

  cut_ts : cut 13 8 payload ≡ p.ts
  cut_ts = rw payload-eq (
      ap (take 8) (
        drop_past 11 8 p.manuf _ (omega (arith, fit.manuf_width))
        ∙ drop_first 8 p.ldn _ (omega (arith, fit.ldn_width)))
      ∙ take_first 8 p.ts _ (omega (arith, fit.ts_width)))

  cut_block : encrypted_data payload ≡ p.block
  cut_block = rw payload-eq (
      ap (take (length p.block + 23 - 2 - 21)) (
        drop_past 19 16 p.manuf _ (omega (arith, fit.manuf_width))
        ∙ drop_past 16 8 p.ldn _ (omega (arith, fit.ldn_width))
        ∙ drop_first 8 p.ts _ (omega (arith, fit.ts_width)))
      ∙ take_first _ p.block _ (omega arith))

  sealed_length : length (sealed_bytes p) ≡ length p.block + 21
  sealed_length = omega (
    arith,
    length-append p.manuf (p.ldn ++ (p.ts ++ p.block)),
    length-append p.ldn (p.ts ++ p.block),
    length-append p.ts p.block,
    fit.manuf_width,
    fit.ldn_width,
    fit.ts_width,
  )

  length-build : length (build c p) ≡ length p.block + 25
  length-build = omega (arith, sealed_length, length-append (sealed_bytes p) crc)

  payload_length : length payload ≡ length p.block + 25 + length rest
  payload_length = omega (arith, length-build, length-append (build c p) rest)

  -- The declared length ends the frame at its checksum.
  frame-eq : frame_bytes c payload ≡ build c p
  frame-eq = take_first _ (build c p) rest (omega (arith, length-build))

  abbrev pub header : DlmsHeader
  header = record {
    version = 4;
    manufacturer_id = c.utf8_lossy p.manuf;
    logical_device_name = trim_nul (c.utf8_lossy p.ldn);
    timestamp = as_i64 (from_be_bytes p.ts);
  }

  header-Checked :
      c.crc32 (sealed_bytes p) < 2 ^ 32
      → c.representable (as_i64 (from_be_bytes p.ts)) ≡ true
      → Checked c payload header
  header-Checked small reps = record {
    long_enough = omega (arith, payload_length);
    whole = omega arith;
    declared = omega (arith, payload_length);
    intact = rw frame-eq (
        ap from_be_bytes (drop_first _ (sealed_bytes p) crc (omega (arith, sealed_length)))
        ∙ be_bytes_32_lem _ small
        ∙ sym (ap c.crc32 (take_first _ (sealed_bytes p) crc (omega (arith, sealed_length)))));
    version_byte = refl;
    version = refl;
    manufacturer = rw cut_manuf;
    device = rw cut_ldn;
    time = rw cut_ts;
    in_range = reps;
  }

  -- The nonce of the frame: manufacturer, timestamp, version.
  abbrev pub nonce : List ℕ
  nonce = p.manuf ++ (p.ts ++ (4 ∷ []))

  -- What the block opens to.
  abbrev pub Decrypts : Option (List ℕ) → List ℕ → Type 0
  Decrypts none text = text ≡ p.block
  Decrypts (some key) text = (length key ≡ 32) × (c.decrypt key nonce p.block ≡ some text)

  Decrypts-Opens :
      (key : Option (List ℕ)) (text : List ℕ) → Decrypts key text → Opens c payload key text
  Decrypts-Opens none text d = d ∙ sym cut_block
  Decrypts-Opens (some key) text d = (d.0, rw (cut_manuf, cut_ts, cut_block) (d.1))

  -- A frame built from fields of the right width, whose block opens to the given records, is read back to the
  -- header's fields and the values of the records; bytes behind its declared end change nothing.
  pub parse-build :
      (key : Option (List ℕ)) (tlvs : List Tlv)
      → c.crc32 (sealed_bytes p) < 2 ^ 32
      → c.representable (as_i64 (from_be_bytes p.ts)) ≡ true
      → Decrypts key (encode_tlvs tlvs)
      → parse c payload key ≡ ok (with_values tlvs (empty_frame header))
  parse-build key tlvs small reps d = (parse_iff c payload key _).1 (record {
    header = header;
    text = encode_tlvs tlvs;
    tlvs = tlvs;
    checked = header-Checked small reps;
    room = omega arith;
    opens = Decrypts-Opens key (encode_tlvs tlvs) d;
    holds = encode_tlvs-Holds tlvs;
    values = refl;
  })
