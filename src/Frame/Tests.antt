-- ===== src/Frame/Tests.antt =====
-- Runs of the frame decoder on concrete frames, with a byte sum for the checksum and a cipher that changes nothing.
use gridtokenx_aggregator_br.Base.{
  ℕ, ◌+◌, ◌%◌, ◌^◌, ◌≤◌, ◌<◌, ◌≡◌, ◌↔◌, ◌⊎◌, refl, true, none, some, List, [], ◌∷◌, ◌++◌, length,
  drop, arith,
}
use gridtokenx_aggregator_br.Base.Int.{pos}
use gridtokenx_aggregator_br.Base.Text.{codes}
use gridtokenx_aggregator_br.Frame.{
  Crates, ok, bail, panic, crc_failed, parse_block, DlmsHeader, total_length, parse_header, parse,
  empty_frame,
}
use gridtokenx_aggregator_br.Frame.Bytes.{be_bytes_32, trim_nul}
use gridtokenx_aggregator_br.Frame.Tlv.{DlmsBinaryFrame, set_field, read_tlvs}
use gridtokenx_aggregator_br.Frame.Tlv.Laws.{Tlv, Holds, with_values, read_tlvs-Holds}
use gridtokenx_aggregator_br.Frame.Panic.{BadKey, parse_panics_iff}
use gridtokenx_aggregator_br.Frame.Sound.{Accepted, parse_iff}
use gridtokenx_aggregator_br.Frame.RoundTrip.{
  Parts, Fit, build, header, payload, encode_tlvs, parse-build,
}

abbrev byte_sum : List ℕ → ℕ
byte_sum [] = 0
byte_sum (b ∷ bs) = (b + byte_sum bs) % 2 ^ 32

abbrev crates : Crates
crates = record {
  crc32 = byte_sum;
  decrypt = λ key nonce block. some block;
  utf8_lossy = λ bytes. bytes;
  representable = λ t. true;
}

-- 5000 Wh imported, 230.5 V, a record of an unknown tag, and a second voltage.
abbrev records : List Tlv
records =
    (1, 0 ∷ 0 ∷ 0 ∷ 0 ∷ 0 ∷ 0 ∷ 19 ∷ 136 ∷ [])
    ∷ (3, 0 ∷ 0 ∷ 90 ∷ 10 ∷ [])
    ∷ (9, 7 ∷ [])
    ∷ (3, 0 ∷ 0 ∷ 90 ∷ 11 ∷ [])
    ∷ []

abbrev block : List ℕ
block = encode_tlvs records

abbrev parts : Parts
parts = record {
  manuf = codes "INC";
  ldn = codes "METER042";
  ts = 0 ∷ 0 ∷ 0 ∷ 0 ∷ 101 ∷ 83 ∷ 241 ∷ 0 ∷ [];
  block = block;
}

abbrev key : List ℕ
key = codes "0123456789abcdef0123456789abcdef"

parts-Fit : Fit parts
parts-Fit = omega arith

parse-build_example :
    parse crates (payload crates parts parts-Fit (1 ∷ 2 ∷ [])) (some key)
    ≡ ok (with_values records (empty_frame (header crates parts parts-Fit (1 ∷ 2 ∷ []))))
parse-build_example =
    parse-build crates parts parts-Fit (1 ∷ 2 ∷ []) (some key) records (omega arith) refl
      (refl, refl)

abbrev frame : List ℕ
frame = build crates parts

-- What the decoder makes of it.
abbrev decoded : DlmsBinaryFrame
decoded = record {
  version = 4;
  manufacturer_id = codes "INC";
  logical_device_name = codes "METER042";
  timestamp = pos 1_700_000_000;
  active_energy_import_wh = some 5000;
  active_energy_export_wh = none;
  voltage_cv = some 23051;
  current_ma = none;
  battery_soc_bps = none;
}

frame_decoded : parse crates frame (some key) ≡ ok decoded
unfolding parse parse_header parse_block read_tlvs trim_nul set_field
frame_decoded = refl

-- A changed byte fails the checksum.
frame_corrupted : parse crates (4 ∷ 48 ∷ 0 ∷ drop 3 frame) (some key) ≡ bail crc_failed
unfolding parse parse_header
frame_corrupted = refl

parse_iff_example :
    (parse crates frame (some key) ≡ ok decoded) ↔ Accepted crates frame (some key) decoded
parse_iff_example = parse_iff crates frame (some key) decoded

read_tlvs_example :
    ((tlvs : List Tlv) × Holds block tlvs)
    × ((tlvs : List Tlv) → Holds block tlvs → read_tlvs block decoded ≡ with_values tlvs decoded)
read_tlvs_example = read_tlvs-Holds block decoded

-- A frame with the declared length 20, a right checksum, and bytes behind its end.
abbrev short_frame : List ℕ
short_frame =
    let body : List ℕ =
      4 ∷ 20 ∷ (codes "INC" ++ (codes "METER042" ++ (0 ∷ 0 ∷ 0 ∷ 0 ∷ 101 ∷ []))) in
    body ++ (be_bytes_32 (byte_sum body) ++ (9 ∷ 9 ∷ 9 ∷ []))

short_frame_panics : parse crates short_frame none ≡ panic
unfolding parse parse_header parse_block trim_nul
short_frame_panics = refl

parse_panics_example : (parse crates short_frame none ≡ panic) ↔ (
    ((25 ≤ length short_frame) × (total_length short_frame < 2))
    ⊎ ((h : DlmsHeader) × (parse_header crates short_frame ≡ ok h)
        × ((total_length short_frame < 23) ⊎ BadKey none)))
parse_panics_example = parse_panics_iff crates short_frame none
