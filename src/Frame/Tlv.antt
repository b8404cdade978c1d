-- ===== src/Frame/Tlv.antt =====
-- The TLV loop of `DlmsBinaryFrame::parse` (crates/aggregator-stacks/src/binary_decoder.rs). The cursor is
-- modelled by the bytes that are left behind it.
pub mod Laws
use gridtokenx_aggregator_br.Base.{
  ℕ, zero, suc, Bool, true, false, ◌&&◌, Option, none, some, List, [], ◌∷◌, length, take, drop, ltb,
  if◌then◌else◌, ◌==◌, nat_eq,
}
use gridtokenx_aggregator_br.Base.Int.{ℤ}
use gridtokenx_aggregator_br.Billing.Bin.{Text}
use gridtokenx_aggregator_br.Frame.Bytes.{from_be_bytes}

pub record DlmsBinaryFrame : Type 0 where
  pub version : ℕ
  pub manufacturer_id : Text
  pub logical_device_name : Text
  pub timestamp : ℤ
  pub active_energy_import_wh : Option ℕ
  pub active_energy_export_wh : Option ℕ
  pub voltage_cv : Option ℕ
  pub current_ma : Option ℕ
  pub battery_soc_bps : Option ℕ

-- `match tag`, with its guards on the length.
unfoldable pub set_field : ℕ → List ℕ → DlmsBinaryFrame → DlmsBinaryFrame
set_field tag val frame =
    if tag == 1 && length val == 8
    then record frame { active_energy_import_wh = some (from_be_bytes val) }
    else if tag == 2 && length val == 8
    then record frame { active_energy_export_wh = some (from_be_bytes val) }
    else if tag == 3 && length val == 4
    then record frame { voltage_cv = some (from_be_bytes val) }
    else if tag == 4 && length val == 4
    then record frame { current_ma = some (from_be_bytes val) }
    else if tag == 5 && length val == 4
    then record frame { battery_soc_bps = some (from_be_bytes val) }
    else frame

-- The loop, with a bound on its rounds.
unfoldable pub tlv_loop : ℕ → List ℕ → DlmsBinaryFrame → DlmsBinaryFrame
tlv_loop zero bytes frame = frame
tlv_loop (suc fuel) [] frame = frame
tlv_loop (suc fuel) (tag ∷ []) frame = frame
tlv_loop (suc fuel) (tag ∷ tag_len ∷ bytes) frame =
    let rest = tlv_loop fuel (drop tag_len bytes) (set_field tag (take tag_len bytes) frame) in
    if ltb (length bytes) tag_len then frame else rest

-- Each round takes two bytes at least, so as many rounds as there are bytes are enough.
unfoldable pub read_tlvs : List ℕ → DlmsBinaryFrame → DlmsBinaryFrame
unfolding tlv_loop
read_tlvs bytes frame = tlv_loop (length bytes) bytes frame
