-- ===== src/Dlms.antt =====
-- `DlmsStack` of crates/aggregator-stacks/src/stacks/dlms.rs: the registers of a JSON payload become the energies and the
-- metadata of a reading. A payload is a `HashMap`, whose iteration order is not fixed: it is a list of its entries in
-- the order in which one run visits them. JSON values, `f64`, the clock and the random id are parameters.
pub mod Energies
pub mod Tests
use gridtokenx_aggregator_br.Base.{
  ℕ, Bool, true, false, Option, none, some, List, [], ◌∷◌, if◌then◌else◌, ◌==◌, nat_eq, list_eq,
}
use gridtokenx_aggregator_br.Base.Dict.{Dict, lookup, insert}
use gridtokenx_aggregator_br.Base.Text.{codes}
use gridtokenx_aggregator_br.Billing.Bin.{Uuid, Text, F64, unwrap_or, f64_zero}
use gridtokenx_aggregator_br.Billing.Time.{Timestamp}
use gridtokenx_aggregator_br.Stream.Readings.{Value, smart_meter, DeviceReading, energy}

-- serde_json, chrono and the floats: the conversions of a value, `from` of a number and of a text, the product with and
-- the quotient by 1000, and the difference.
pub record DlmsCrates : Type 0 where
  pub as_f64 : Value → Option F64
  pub as_str : Value → Option Text
  pub as_u64_text : Value → Option Text
  pub from_f64 : F64 → Value
  pub from_str : Text → Value
  pub mul_thousand : F64 → F64
  pub div_thousand : F64 → F64
  pub sub : F64 → F64 → F64
  pub from_slice : List ℕ → Option (Dict Text Value)
  pub parse_from_rfc3339 : Text → Option Timestamp

-- The arms of the match that touch the energies, and the rest.
pub data Arm : Type 0 where
  import_total export_total plain_generated plain_consumed gas_volume water_volume metadata_only :
      Arm

abbrev pub elec_active_import_total : Text
elec_active_import_total = codes "1.1.1.8.0.255"

abbrev pub elec_active_export_total : Text
elec_active_export_total = codes "1.1.2.8.0.255"

abbrev pub gas_volume_total : Text
gas_volume_total = codes "7.0.11.0.0.255"

abbrev pub water_volume_total : Text
water_volume_total = codes "8.0.11.0.0.255"

-- The patterns are distinct texts, so their order is of no account.
unfoldable pub arm_of : Text → Arm
arm_of key =
    if key == elec_active_import_total
    then import_total
    else if key == elec_active_export_total
    then export_total
    else if key == codes "energy_generated"
    then plain_generated
    else if key == codes "energy_consumed"
    then plain_consumed
    else if key == gas_volume_total
    then gas_volume
    else if key == water_volume_total
    then water_volume
    else metadata_only

-- How a register that does not drive the energies is kept: its value under one or two names, or a thousandth of it.
pub data Kept : Type 0 where
  under : Text → Kept
  under_both : Text → Text → Kept
  thousandth : Text → Kept

abbrev pub registers : Dict Text Kept
registers =
    (codes "1.1.1.8.1.255", thousandth (codes "active_import_rate1_kwh"))
    ∷ (codes "1.1.1.8.2.255", thousandth (codes "active_import_rate2_kwh"))
    ∷ (codes "1.1.2.8.1.255", thousandth (codes "active_export_rate1_kwh"))
    ∷ (codes "1.1.2.8.2.255", thousandth (codes "active_export_rate2_kwh"))
    ∷ (codes "1.1.1.6.0.255", under (codes "max_demand_import_kw"))
    ∷ (codes "1.1.16.7.0.255", under (codes "sum_active_power_kw"))
    ∷ (codes "1.1.3.8.0.255", thousandth (codes "reactive_energy_import_kvarh"))
    ∷ (codes "1.1.4.8.0.255", thousandth (codes "reactive_energy_export_kvarh"))
    ∷ (codes "1.1.32.7.0.255", under_both (codes "voltage_l1_v") (codes "voltage_v"))
    ∷ (codes "1.1.52.7.0.255", under (codes "voltage_l2_v"))
    ∷ (codes "1.1.72.7.0.255", under (codes "voltage_l3_v"))
    ∷ (codes "1.1.31.7.0.255", under_both (codes "current_l1_a") (codes "current_a"))
    ∷ (codes "1.1.51.7.0.255", under (codes "current_l2_a"))
    ∷ (codes "1.1.71.7.0.255", under (codes "current_l3_a"))
    ∷ (codes "1.1.1.7.0.255", under (codes "total_active_power_w"))
    ∷ (codes "1.1.14.7.0.255", under (codes "frequency_hz"))
    ∷ (codes "1.1.13.7.0.255", under (codes "power_factor"))
    ∷ (codes "0.0.96.10.0.255", under (codes "demand_response_status"))
    ∷ (codes "0.0.96.14.0.255", under (codes "active_tariff"))
    ∷ (codes "0.0.96.130.0.255", under (codes "battery_soc_percent"))
    ∷ (codes "0.0.96.131.0.255", under (codes "battery_dispatch_kw"))
    ∷ (codes "0.0.96.132.0.255", under (codes "ev_charging_kw"))
    ∷ []

-- The variables of the loop.
pub record Mapping : Type 0 where
  pub generated_wh : F64
  pub consumed_wh : F64
  pub metadata : Dict Text Value
  pub plain_generated_kwh : Option F64
  pub plain_consumed_kwh : Option F64
  pub obis_generated : Bool
  pub obis_consumed : Bool

abbrev pub unmapped : Mapping
unmapped = record {
  generated_wh = f64_zero;
  consumed_wh = f64_zero;
  metadata = [];
  plain_generated_kwh = none;
  plain_consumed_kwh = none;
  obis_generated = false;
  obis_consumed = false;
}

module _ (o : DlmsCrates) where
  abbrev pub number_or_zero : Value → F64
  number_or_zero v = unwrap_or (o.as_f64 v) f64_zero

  abbrev pub put_kept : Option Kept → Text → Value → Dict Text Value → Dict Text Value
  put_kept none key v d = insert key v d
  put_kept (some (under name)) key v d = insert name v d
  put_kept (some (under_both name legacy)) key v d = insert legacy v (insert name v d)
  put_kept (some (thousandth name)) key v d =
      insert name (o.from_f64 (o.div_thousand (number_or_zero v))) d

  abbrev pub put_volume : Text → Value → Dict Text Value → Dict Text Value
  put_volume utility v d =
      insert (codes "volume_m3") v (insert (codes "utility_type") (o.from_str utility) d)

  -- The body of the match.
  abbrev pub map_arm : Arm → Text → Value → Mapping → Mapping
  map_arm import_total key v m = record m {
    consumed_wh = number_or_zero v;
    obis_consumed = true;
    metadata = insert (codes "obis_active_import") v m.metadata;
  }
  map_arm export_total key v m = record m {
    generated_wh = number_or_zero v;
    obis_generated = true;
    metadata = insert (codes "obis_active_export") v m.metadata;
  }
  map_arm plain_generated key v m = record m {
    plain_generated_kwh = o.as_f64 v;
    metadata = insert key v m.metadata;
  }
  map_arm plain_consumed key v m = record m {
    plain_consumed_kwh = o.as_f64 v;
    metadata = insert key v m.metadata;
  }
  map_arm gas_volume key v m = record m {
    consumed_wh = number_or_zero v;
    metadata = put_volume (codes "gas") v m.metadata;
  }
  map_arm water_volume key v m = record m {
    consumed_wh = number_or_zero v;
    metadata = put_volume (codes "water") v m.metadata;
  }
  map_arm metadata_only key v m = record m {
    metadata = put_kept (lookup key registers) key v m.metadata;
  }

  unfoldable pub map_entry : Text → Value → Mapping → Mapping
  map_entry key v m = map_arm (arm_of key) key v m

  unfoldable pub map_entries : Dict Text Value → Mapping → Mapping
  unfolding map_entry
  map_entries [] m = m
  map_entries ((key, v) ∷ payload) m = map_entries payload (map_entry key v m)

  -- The plain key counts only if the register did not come.
  abbrev pub plain_or : Bool → Option F64 → F64 → F64
  plain_or true plain wh = wh
  plain_or false none wh = wh
  plain_or false (some kwh) wh = o.mul_thousand kwh

  abbrev pub energies_of : Mapping → F64 × F64
  energies_of m = (
    o.div_thousand (plain_or m.obis_generated m.plain_generated_kwh m.generated_wh),
    o.div_thousand (plain_or m.obis_consumed m.plain_consumed_kwh m.consumed_wh),
  )

  unfoldable pub map_payload : Dict Text Value → (F64 × F64) × Dict Text Value
  unfolding map_entries
  map_payload payload = let m = map_entries payload unmapped in (energies_of m, m.metadata)

  abbrev pub zone_code_of : Option Value → Option Text
  zone_code_of none = none
  zone_code_of (some v) = elim (o.as_str v) [ some s ↦ some s | none ↦ o.as_u64_text v ]

  abbrev pub timestamp_of : Timestamp → Option Value → Timestamp
  timestamp_of now none = now
  timestamp_of now (some v) = elim (o.as_str v) [
    | none ↦ now
    | some s ↦ unwrap_or (o.parse_from_rfc3339 s) now
  ]

  -- `handle_message`, with the time of arrival and the id that is drawn.
  unfoldable pub handle_message : Timestamp → Uuid → Text → List ℕ → Option DeviceReading
  unfolding map_payload
  handle_message now id device_id raw_data = elim (o.from_slice raw_data) [
    | none ↦ none
    | some payload ↦
        let ((generated, consumed), metadata) = map_payload payload in
        some (record {
          reading_id = id;
          device_id = device_id;
          device_type = smart_meter;
          serial_number = device_id;
          zone_code = zone_code_of (lookup (codes "zone_code") payload);
          timestamp = timestamp_of now (lookup (codes "timestamp") payload);
          metrics = energy generated consumed (o.sub generated consumed);
          metadata = insert (codes "cosem_modeling") (o.from_str (codes "active_attribute_proxy")) (
              insert (codes "protocol_standard") (o.from_str (codes "IEC 62056 (DLMS/COSEM)"))
                metadata);
        })
  ]
