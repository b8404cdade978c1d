-- ===== src/Router/Points.antt =====
-- What the router of crates/aggregator-logic/src/router.rs hands to the history sinks: `reading_to_point` for InfluxDB
-- and `reading_to_row` for Postgres. Numbers of JSON and of `f64` are parameters.
use gridtokenx_aggregator_br.Base.{
  ℕ, ◌^◌, Option, none, some, List, [], ◌∷◌, ltb, if◌then◌else◌, nat_eq, list_eq,
}
use gridtokenx_aggregator_br.Base.Dict.{Dict, lookup}
use gridtokenx_aggregator_br.Base.Text.{codes}
use gridtokenx_aggregator_br.Billing.Bin.{Text, F64}
use gridtokenx_aggregator_br.Billing.Time.{Timestamp, timestamp_millis}
use gridtokenx_aggregator_br.Stream.Readings.{
  EvStatus, available, ev_charging, suspended_ev, suspended_evse, finishing, faulted, BatteryMode,
  idle, charging, discharging, DeviceMetrics, energy, ev_session, battery_state, DeviceType,
  smart_meter, ev_charger, battery, DeviceReading, Value,
}

pub record Numbers : Type 0 where
  pub as_f64 : Value → Option F64
  pub of_int : ℕ → F64
  pub max_zero : F64 → F64
  pub neg : F64 → F64

pub record TelemetryPoint : Type 0 where
  pub measurement : Text
  pub device_id : Text
  pub device_type : Text
  pub serial_number : Text
  pub zone_code : Option Text
  pub extra_tags : List (Text × Text)
  pub fields : List (Text × F64)
  pub timestamp_ns : ℕ

pub record ReadingRow : Type 0 where
  pub serial_number : Text
  pub timestamp_ms : ℕ
  pub generated_kwh : F64
  pub consumed_kwh : F64
  pub surplus_kwh : F64
  pub deficit_kwh : F64
  pub voltage : Option F64
  pub power_factor : Option F64
  pub frequency : Option F64

-- The derived `Debug` texts.
abbrev pub ev_status_text : EvStatus → Text
ev_status_text available = codes "Available"
ev_status_text ev_charging = codes "Charging"
ev_status_text suspended_ev = codes "SuspendedEv"
ev_status_text suspended_evse = codes "SuspendedEvse"
ev_status_text finishing = codes "Finishing"
ev_status_text faulted = codes "Faulted"

abbrev pub battery_mode_text : BatteryMode → Text
battery_mode_text idle = codes "Idle"
battery_mode_text charging = codes "Charging"
battery_mode_text discharging = codes "Discharging"

abbrev pub device_type_text : DeviceType → Text
device_type_text smart_meter = codes "smart_meter"
device_type_text ev_charger = codes "ev_charger"
device_type_text battery = codes "battery"

abbrev pub measurement_of : DeviceMetrics → Text
measurement_of (energy g u n) = codes "energy"
measurement_of (ev_session d s c v) = codes "ev_session"
measurement_of (battery_state b p t m) = codes "battery"

abbrev pub tags_of : DeviceMetrics → List (Text × Text)
tags_of (energy g u n) = []
tags_of (ev_session d s c v) = (codes "session_id", s) ∷ (codes "status", ev_status_text v) ∷ []
tags_of (battery_state b p t m) = (codes "mode", battery_mode_text m) ∷ []

abbrev pub extra_fields : List Text
extra_fields =
    codes "sum_active_power_kw"
    ∷ codes "max_demand_import_kw"
    ∷ codes "active_tariff"
    ∷ codes "active_import_rate1_kwh"
    ∷ codes "active_import_rate2_kwh"
    ∷ codes "active_export_rate1_kwh"
    ∷ codes "active_export_rate2_kwh"
    ∷ codes "reactive_energy_import_kvarh"
    ∷ codes "reactive_energy_export_kvarh"
    ∷ codes "voltage_l1_v"
    ∷ codes "frequency_hz"
    ∷ codes "power_factor"
    ∷ codes "battery_soc_percent"
    ∷ codes "battery_dispatch_kw"
    ∷ codes "ev_charging_kw"
    ∷ []

-- `timestamp_nanos_opt`: the nanoseconds, if they fit an `i64`.
abbrev pub timestamp_nanos_opt : Timestamp → Option ℕ
timestamp_nanos_opt t = if ltb t (2 ^ 63) then some t else none

module _ (nums : Numbers) where
  -- A register of the metadata that is there and numeric.
  abbrev pub meta : Dict Text Value → Text → Option F64
  meta metadata name = elim (lookup name metadata) [ none ↦ none | some v ↦ nums.as_f64 v ]

  unfoldable pub promote : Dict Text Value → List Text → List (Text × F64)
  promote metadata [] = []
  promote metadata (name ∷ names) =
      let rest = promote metadata names in
      elim (meta metadata name) [ none ↦ rest | some v ↦ (name, v) ∷ rest ]

  abbrev pub fields_of : DeviceMetrics → Dict Text Value → List (Text × F64)
  fields_of (energy g u n) metadata =
      (codes "generated_kwh", g)
      ∷ (codes "consumed_kwh", u)
      ∷ (codes "net_kwh", n)
      ∷ promote metadata extra_fields
  fields_of (ev_session d s c v) metadata =
      (codes "energy_delivered_kwh", d) ∷ (codes "connector_id", nums.of_int c) ∷ []
  fields_of (battery_state b p t m) metadata =
      (codes "soc_percent", b) ∷ (codes "power_kw", p) ∷ (codes "temperature_c", t) ∷ []

  unfoldable pub reading_to_point : DeviceReading → Option TelemetryPoint
  unfolding promote
  reading_to_point r = elim (timestamp_nanos_opt r.timestamp) [
    | none ↦ none
    | some ns ↦ some (record {
      measurement = measurement_of r.metrics;
      device_id = r.device_id;
      device_type = device_type_text r.device_type;
      serial_number = r.serial_number;
      zone_code = r.zone_code;
      extra_tags = tags_of r.metrics;
      fields = fields_of r.metrics r.metadata;
      timestamp_ns = ns;
    })
  ]

  abbrev pub row_of : DeviceReading → DeviceMetrics → Option ReadingRow
  row_of r (energy generated consumed net) = some (record {
    serial_number = r.serial_number;
    timestamp_ms = timestamp_millis r.timestamp;
    generated_kwh = generated;
    consumed_kwh = consumed;
    surplus_kwh = nums.max_zero net;
    deficit_kwh = nums.max_zero (nums.neg net);
    voltage = meta r.metadata (codes "voltage_l1_v");
    power_factor = meta r.metadata (codes "power_factor");
    frequency = meta r.metadata (codes "frequency_hz");
  })
  row_of r (ev_session d s c v) = none
  row_of r (battery_state b p t m) = none

  unfoldable pub reading_to_row : DeviceReading → Option ReadingRow
  reading_to_row r = row_of r r.metrics
