-- ===== src/Frame/Sound.antt =====
-- What a frame that `DlmsBinaryFrame::parse` (crates/aggregator-stacks/src/binary_decoder.rs) accepts has
-- passed, and where each of its fields comes from.
use gridtokenx_aggregator_br.Base.{
  ℕ, ◌+◌, ◌-◌, ◌≤◌, ◌≡◌, refl, sym, ap, ◌∙◌, ◌↔◌, true, Option, none, some, List, length, get_or,
  take, drop, length-take, nat_eq, arith,
}
use gridtokenx_aggregator_br.Base.Int.{as_i64}
use gridtokenx_aggregator_br.Frame.{
  Crates, Decoded, ok, bail, panic, DlmsHeader, total_length, read_header, check_frame,
  parse_header, open_block, parse_block, parse, encrypted_data, nonce_bytes, empty_frame,
}
use gridtokenx_aggregator_br.Frame.Bytes.{from_be_bytes, cut, trim_nul}
use gridtokenx_aggregator_br.Frame.Tlv.{DlmsBinaryFrame, read_tlvs}
use gridtokenx_aggregator_br.Frame.Panic.{parse_after_header}
use gridtokenx_aggregator_br.Frame.Tlv.Laws.{Tlv, Holds, with_values, read_tlvs-Holds}

module _ (c : Crates) (payload : List ℕ) where
  -- The bytes up to the declared length, and the number in the last four of them.
  abbrev pub frame_bytes : List ℕ
  frame_bytes = take (total_length payload + 2) payload

  -- The checks that stand before decryption, and the header's bytes.
  pub record Checked (h : DlmsHeader) : Type 0 where
    pub long_enough : 25 ≤ length payload
    pub whole : 2 ≤ total_length payload
    pub declared : total_length payload + 2 ≤ length payload
    pub intact :
        from_be_bytes (drop (total_length payload - 2) frame_bytes)
        ≡ c.crc32 (take (total_length payload - 2) frame_bytes)
    pub version_byte : get_or payload 0 0 ≡ 4
    pub version : h.version ≡ 4
    pub manufacturer : h.manufacturer_id ≡ c.utf8_lossy (cut 2 3 payload)
    pub device : h.logical_device_name ≡ trim_nul (c.utf8_lossy (cut 5 8 payload))
    pub time : h.timestamp ≡ as_i64 (from_be_bytes (cut 13 8 payload))
    pub in_range : c.representable h.timestamp ≡ true

  -- What the encrypted block opens to under a key; with no key it is the text itself.
  abbrev pub Opens : Option (List ℕ) → List ℕ → Type 0
  Opens none text = text ≡ encrypted_data payload
  Opens (some key) text =
      (length key ≡ 32) × (c.decrypt key (nonce_bytes payload) (encrypted_data payload) ≡ some text)

  check_frame-ok :
      (frame : List ℕ) {h : DlmsHeader}
      → check_frame c frame payload ≡ ok h
      → (4 ≤ length frame)
        × (from_be_bytes (drop (length frame - 4) frame) ≡ c.crc32 (take (length frame - 4) frame))
        × (get_or payload 0 0 ≡ 4)
        × (read_header c payload ≡ ok h)
  unfolding check_frame
  check_frame-ok frame e = ground arith

  parse_header-ok :
      {h : DlmsHeader}
      → parse_header c payload ≡ ok h
      → (25 ≤ length payload)
        × (total_length payload + 2 ≤ length payload)
        × (check_frame c frame_bytes payload ≡ ok h)
  unfolding parse_header
  parse_header-ok e = ground arith

  frame_length :
      total_length payload + 2 ≤ length payload → length frame_bytes - 4 ≡ total_length payload - 2
  frame_length e = omega (arith, length-take (total_length payload + 2) payload)

  check_frame-Checked : {h : DlmsHeader} → parse_header c payload ≡ ok h → Checked h
  unfolding read_header
  check_frame-Checked e =
      let (long, declared, framed) = parse_header-ok e in
      let (four, crc, version, reads) = check_frame-ok frame_bytes framed in
      record {
        long_enough = long;
        whole = omega (arith, length-take (total_length payload + 2) payload);
        declared = declared;
        intact = rw (frame_length declared) at crc;
        version_byte = version;
        version = ground arith;
        manufacturer = ground arith;
        device = ground arith;
        time = ground arith;
        in_range = ground arith;
      }

  open_block-Opens :
      (key : Option (List ℕ)) {text : List ℕ}
      → open_block c payload key (encrypted_data payload) ≡ ok text
      → Opens key text
  unfolding open_block
  open_block-Opens none e = ground arith
  open_block-Opens (some key) e = ground arith

  header-eq : {h : DlmsHeader} → Checked h → parse_header c payload ≡ ok h
  unfolding parse_header check_frame read_header
  header-eq k = ground (arith, length-take (total_length payload + 2) payload)

  Opens-open_block :
      (key : Option (List ℕ)) {text : List ℕ}
      → Opens key text
      → open_block c payload key (encrypted_data payload) ≡ ok text
  unfolding open_block
  Opens-open_block none o = ground arith
  Opens-open_block (some key) o = ground arith

  parse_block_opened :
      (key : Option (List ℕ)) (h : DlmsHeader) {text : List ℕ}
      → 23 ≤ total_length payload
      → open_block c payload key (encrypted_data payload) ≡ ok text
      → parse_block c payload key h ≡ ok (read_tlvs text (empty_frame h))
  unfolding parse_block
  parse_block_opened key h room e = ground arith

  parse_block_ok :
      (key : Option (List ℕ)) (h : DlmsHeader) {f : DlmsBinaryFrame}
      → parse_block c payload key h ≡ ok f
      → (text : List ℕ) × (open_block c payload key (encrypted_data payload) ≡ ok text)
        × (23 ≤ total_length payload)
        × (f ≡ read_tlvs text (empty_frame h))
  unfolding parse_block
  parse_block_ok key h = go (open_block c payload key (encrypted_data payload)) refl
    where
      go :
          (r : Decoded (List ℕ))
          → open_block c payload key (encrypted_data payload) ≡ r
          → {f : DlmsBinaryFrame} → parse_block c payload key h ≡ ok f
          → (text : List ℕ) × (open_block c payload key (encrypted_data payload) ≡ ok text)
            × (23 ≤ total_length payload)
            × (f ≡ read_tlvs text (empty_frame h))
      go (ok text) e p = (text, e, ground arith, ground arith)
      go (bail why) e p = ground arith
      go panic e p = ground arith

  parse_ok :
      (key : Option (List ℕ)) {f : DlmsBinaryFrame}
      → parse c payload key ≡ ok f
      → (h : DlmsHeader) × (parse_header c payload ≡ ok h) × (parse_block c payload key h ≡ ok f)
  unfolding parse
  parse_ok key = go (parse_header c payload) refl
    where
      go :
          (r : Decoded DlmsHeader)
          → parse_header c payload ≡ r
          → {f : DlmsBinaryFrame} → parse c payload key ≡ ok f
          → (h : DlmsHeader) × (parse_header c payload ≡ ok h)
            × (parse_block c payload key h ≡ ok f)
      go (ok h) e p = (h, e, ground arith)
      go (bail why) e p = cc
      go panic e p = cc

  -- What an accepted frame has passed and holds.
  pub record Accepted (key : Option (List ℕ)) (f : DlmsBinaryFrame) : Type 0 where
    pub header : DlmsHeader
    pub text : List ℕ
    pub tlvs : List Tlv
    pub checked : Checked header
    pub room : 23 ≤ total_length payload
    pub opens : Opens key text
    pub holds : Holds text tlvs
    pub values : f ≡ with_values tlvs (empty_frame header)

  -- `parse` gives a frame exactly if the payload has passed the length, checksum and version checks, its block
  -- opens under the key (of 32 bytes, with the nonce of manufacturer, timestamp and version), and the frame has the
  -- header's bytes and, for each value, the number in the last record of its tag and length.
  pub parse_iff :
      (key : Option (List ℕ)) (f : DlmsBinaryFrame) → (parse c payload key ≡ ok f) ↔ Accepted key f
  parse_iff key f = (
    λ p.
        let (h, e, b) = parse_ok key p in
        let (text, opened, room, eq) = parse_block_ok key h b in
        let (some_tlvs, reads) = read_tlvs-Holds text (empty_frame h) in
        record {
          header = h;
          text = text;
          tlvs = some_tlvs.0;
          checked = check_frame-Checked e;
          room = room;
          opens = open_block-Opens key opened;
          holds = some_tlvs.1;
          values = eq ∙ reads some_tlvs.0 some_tlvs.1;
        },
    λ a.
        parse_after_header c payload key a.header (header-eq a.checked)
        ∙ parse_block_opened key a.header a.room (Opens-open_block key a.opens)
        ∙ ap ok ((read_tlvs-Holds a.text (empty_frame a.header)).1 a.tlvs a.holds ∙ sym a.values),
  )

  -- The device of a frame is that of its header.
  pub device-parse :
      (key : Option (List ℕ)) (h : DlmsHeader) (f : DlmsBinaryFrame)
      → parse_header c payload ≡ ok h
      → parse c payload key ≡ ok f
      → f.logical_device_name ≡ h.logical_device_name
  device-parse key h f e p =
      let a = (parse_iff key f).0 p in
      let same : h ≡ a.header = cc (header-eq a.checked) in
      ap (λ g. g.logical_device_name) a.values ∙ ap (λ g. g.logical_device_name) (sym same)
