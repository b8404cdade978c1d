-- ===== src/Frame.antt =====
-- `DlmsBinaryFrame` of crates/aggregator-stacks/src/binary_decoder.rs: the decoder of a Secure DLMS-lite v4
-- frame. A payload is a list of bytes; an index or a slice out of range is the outcome `panic`. CRC-32,
-- AES-256-GCM, the lossy UTF-8 decoder and the range of chrono are parameters. A `DateTime<Utc>` at a whole
-- second is its Unix time in seconds.
pub mod Tlv
pub mod Bytes
pub mod Sound
pub mod RoundTrip
pub mod Panic
pub mod Tests
use gridtokenx_aggregator_br.Base.{
  ℕ, ◌+◌, ◌-◌, ◌*◌, Bool, true, false, not, Option, none, some, List, [], ◌∷◌, ◌++◌, length, get_or,
  take, drop, ltb, if◌then◌else◌, ◌==◌, nat_eq,
}
use gridtokenx_aggregator_br.Base.Int.{ℤ, as_i64}
use gridtokenx_aggregator_br.Billing.Bin.{Text}
use Tlv.{DlmsBinaryFrame, read_tlvs}
use Bytes.{from_be_bytes, cut, trim_nul}

abbrev pub protocol_version_v4 : ℕ
protocol_version_v4 = 4

-- The reasons for which the decoder gives up.
pub data Reason : Type 0 where
  payload_too_small length_exceeds_payload crc_failed invalid_ts decryption_failed : Reason
  unsupported_version : ℕ → Reason

pub data Decoded (A : Type 0) : Type 0 where
  ok : A → Decoded A
  bail : Reason → Decoded A
  panic : Decoded A

-- What other crates give: the checksum, `Aes256Gcm::decrypt` (key, nonce, ciphertext), `from_utf8_lossy`, and
-- whether chrono can represent a Unix time.
pub record Crates : Type 0 where
  pub crc32 : List ℕ → ℕ
  pub decrypt : List ℕ → List ℕ → List ℕ → Option (List ℕ)
  pub utf8_lossy : List ℕ → Text
  pub representable : ℤ → Bool

pub record DlmsHeader : Type 0 where
  pub version : ℕ
  pub manufacturer_id : Text
  pub logical_device_name : Text
  pub timestamp : ℤ

abbrev pub total_length : List ℕ → ℕ
total_length payload = get_or payload 1 0

-- Manufacturer, timestamp and version: 12 bytes.
abbrev pub nonce_bytes : List ℕ → List ℕ
nonce_bytes payload = cut 2 3 payload ++ (cut 13 8 payload ++ (get_or payload 0 0 ∷ []))

-- The frame before the first TLV.
abbrev pub empty_frame : DlmsHeader → DlmsBinaryFrame
empty_frame h = record {
  version = h.version;
  manufacturer_id = h.manufacturer_id;
  logical_device_name = h.logical_device_name;
  timestamp = h.timestamp;
  active_energy_import_wh = none;
  active_energy_export_wh = none;
  voltage_cv = none;
  current_ma = none;
  battery_soc_bps = none;
}

-- `&payload[21..total_length + 2 - 4]` panics where it would end before it begins.
abbrev pub encrypted_data : List ℕ → List ℕ
encrypted_data payload = cut 21 (total_length payload - 2 - 21) payload

module _ (c : Crates) where
  -- What `parse_header` reads once the checksum and the version are right.
  unfoldable pub read_header : List ℕ → Decoded DlmsHeader
  read_header payload =
      let ts = as_i64 (from_be_bytes (cut 13 8 payload)) in
      if c.representable ts
      then ok (record {
        version = get_or payload 0 0;
        manufacturer_id = c.utf8_lossy (cut 2 3 payload);
        logical_device_name = trim_nul (c.utf8_lossy (cut 5 8 payload));
        timestamp = ts;
      })
      else bail invalid_ts

  -- `frame_data.split_at(frame_data.len() - 4)` panics on a frame of less than 4 bytes.
  unfoldable pub check_frame : List ℕ → List ℕ → Decoded DlmsHeader
  unfolding read_header
  check_frame frame_data payload =
      let body = length frame_data - 4 in
      if ltb (length frame_data) 4
      then panic
      else if not (from_be_bytes (drop body frame_data) == c.crc32 (take body frame_data))
      then bail crc_failed
      else if not (get_or payload 0 0 == protocol_version_v4)
      then bail (unsupported_version (get_or payload 0 0))
      else read_header payload

  unfoldable pub parse_header : List ℕ → Decoded DlmsHeader
  unfolding check_frame
  parse_header payload =
      if ltb (length payload) 25
      then bail payload_too_small
      else if ltb (length payload) (total_length payload + 2)
      then bail length_exceeds_payload
      else check_frame (take (total_length payload + 2) payload) payload

  -- A key of another length than 32 bytes makes `Key::from_slice` panic.
  unfoldable pub open_block : List ℕ → Option (List ℕ) → List ℕ → Decoded (List ℕ)
  open_block payload none block = ok block
  open_block payload (some key) block =
      if not (length key == 32) then panic else elim (c.decrypt key (nonce_bytes payload) block) [
        | none ↦ bail decryption_failed
        | some data' ↦ ok data'
      ]

  unfoldable pub parse_block : List ℕ → Option (List ℕ) → DlmsHeader → Decoded DlmsBinaryFrame
  unfolding open_block
  parse_block payload key h =
      if ltb (total_length payload - 2) 21
      then panic
      else elim (open_block payload key (encrypted_data payload)) [
        | ok data' ↦ ok (read_tlvs data' (empty_frame h))
        | bail why ↦ bail why
        | panic ↦ panic
      ]

  unfoldable pub parse : List ℕ → Option (List ℕ) → Decoded DlmsBinaryFrame
  parse payload key = elim (parse_header payload) [
    | ok h ↦ parse_block payload key h
    | bail why ↦ bail why
    | panic ↦ panic
  ]
