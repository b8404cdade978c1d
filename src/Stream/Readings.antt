-- ===== src/Stream/Readings.antt =====
-- The reading that a stream entry carries (crates/aggregator-core/src/models.rs), the event around it
-- (crates/aggregator-api/src/ingester/mod.rs), and the numbers that the zone
-- ingester (crates/aggregator-api/src/ingester/zone_ingester.rs) takes from it for the aggregator.
use gridtokenx_aggregator_br.Base.{
  ℕ, ◌%◌, ◌^◌, Bool, ◌||◌, Option, none, some, if◌then◌else◌, ◌==◌, nat_eq, list_eq,
}
use gridtokenx_aggregator_br.Base.Dict.{Dict, lookup}
use gridtokenx_aggregator_br.Base.Text.{codes}
use gridtokenx_aggregator_br.Base.Int.{ltb_ℤ}
use gridtokenx_aggregator_br.Billing.Time.{Timestamp}
use gridtokenx_aggregator_br.Billing.Bin.{
  Decimals, Uuid, Text, F64, Decimal, decimal_zero, unwrap_or,
}
use gridtokenx_aggregator_br.Billing.Aggregator.{Reading}

pub data EvStatus : Type 0 where
  available ev_charging suspended_ev suspended_evse finishing faulted : EvStatus

pub data BatteryMode : Type 0 where
  idle charging discharging : BatteryMode

-- In the source's order of the fields.
pub data DeviceMetrics : Type 0 where
  energy : (generated_kwh consumed_kwh net_kwh : F64) → DeviceMetrics
  ev_session :
      (energy_delivered_kwh : F64) (session_id : Text) (connector_id : ℕ) (ev : EvStatus)
      → DeviceMetrics
  battery_state : (soc_percent power_kw temperature_c : F64) (mode : BatteryMode) → DeviceMetrics

-- A `serde_json::Value` by its text.
abbrev pub Value : Type 0
Value = Text

pub data DeviceType : Type 0 where
  smart_meter ev_charger battery : DeviceType

unfoldable pub target_stream : DeviceType → Text
target_stream smart_meter = codes "gridtokenx:events:v1"
target_stream ev_charger = codes "gridtokenx:ev:v1"
target_stream battery = codes "gridtokenx:battery:v1"

pub record DeviceReading : Type 0 where
  pub reading_id : Uuid
  pub device_id : Text
  pub device_type : DeviceType
  pub serial_number : Text
  pub zone_code : Option Text
  pub timestamp : Timestamp
  pub metrics : DeviceMetrics
  pub metadata : Dict Text Value

pub data Event : Type 0 where
  smart_meter_reading ev_charging_event battery_state_update : DeviceReading → Event
  order_matched order_update settlement_requested peak_price_update trigger_execution
        order_created :
      Value → Event
  unknown : Event

-- The `event_type` tags that serde derives for `Event`: the variant that a tag names, of a payload that is the reading
-- and, as a `serde_json::Value`, the value. The tags that name no variant are left to the parser.
unfoldable pub event_of_type : Text → Value → DeviceReading → Option Event
event_of_type tag value r =
    if tag == codes "SmartMeterReading"
    then some (smart_meter_reading r)
    else if tag == codes "EvCharging"
    then some (ev_charging_event r)
    else if tag == codes "BatteryStateUpdate"
    then some (battery_state_update r)
    else if tag == codes "OrderMatched"
    then some (order_matched value)
    else if tag == codes "OrderUpdate"
    then some (order_update value)
    else if tag == codes "SettlementRequested"
    then some (settlement_requested value)
    else if tag == codes "PeakPriceUpdate"
    then some (peak_price_update value)
    else if tag == codes "TriggerExecution"
    then some (trigger_execution value)
    else if tag == codes "OrderCreated"
    then some (order_created value)
    else none

-- The `enc` envelope of an entry with its event type, the missing texts being empty.
pub record Sealed : Type 0 where
  pub event_type : Text
  pub nonce : Text
  pub ciphertext : Text

-- What the ingester calls of other crates, and its configured cipher.
pub record Outside : Type 0 where
  pub decimals : Decimals
  pub parse_json : Text → Option (Option Sealed)
  pub cipher : Option (Text → Text → Text → Option Text)
  pub rebuild_json : Text → Text → Option Text
  pub parse_event : Text → Option Event
  pub new_v5 : Text → Uuid
  pub trim_parse_u16 : Text → Option ℕ
  pub as_u64 : Value → Option ℕ
  pub as_f64 : Value → Option F64
  pub parse_f64_str : Value → Option F64
  pub is_nan : F64 → Bool
  pub is_infinite : F64 → Bool
  pub is_above_zero : F64 → Bool
  pub abs : F64 → F64
  pub from_f64_retain : F64 → Option Decimal

abbrev pub nil_uuid : Uuid
nil_uuid = 0

module _ (o : Outside) where
  unfoldable pub to_positive_decimal : F64 → Option Decimal
  to_positive_decimal val =
      if o.is_nan val || o.is_infinite val then none else elim (o.from_f64_retain val) [
        | none ↦ none
        | some dec ↦ if ltb_ℤ dec decimal_zero then none else some dec
      ]

  abbrev pub decimal_of : F64 → Decimal
  decimal_of val = unwrap_or (to_positive_decimal val) decimal_zero

  -- The energy generated and consumed.
  unfoldable pub energies : DeviceMetrics → Decimal × Decimal
  energies (energy generated consumed net) = (decimal_of generated, decimal_of consumed)
  energies (ev_session delivered session connector ev) = (decimal_zero, decimal_of delivered)
  energies (battery_state soc power temperature charging) = (decimal_zero, decimal_of (o.abs power))
  energies (battery_state soc power temperature discharging) =
      (decimal_of (o.abs power), decimal_zero)
  energies (battery_state soc power temperature idle) = (decimal_zero, decimal_zero)

  -- `t as u8` keeps the low byte.
  unfoldable pub tariff_period_of : Dict Text Value → Option ℕ
  tariff_period_of metadata = elim (lookup (codes "active_tariff") metadata) [
    | none ↦ none
    | some v ↦ elim (o.as_u64 v) [ none ↦ none | some t ↦ some (t % 2 ^ 8) ]
  ]

  unfoldable pub demand_of : Dict Text Value → Option Decimal
  demand_of metadata = elim (lookup (codes "sum_active_power_kw") metadata) [
    | none ↦ none
    | some v ↦ elim (o.as_f64 v) [
      | none ↦ none
      | some p ↦ if o.is_above_zero p then o.from_f64_retain p else none
    ]
  ]

  abbrev pub extract_tariff_demand : Dict Text Value → Option ℕ × Option Decimal
  extract_tariff_demand metadata = (tariff_period_of metadata, demand_of metadata)

  abbrev pub hz_of : Option Value → Option F64
  hz_of none = none
  hz_of (some v) = elim (o.as_f64 v) [ some hz ↦ some hz | none ↦ o.parse_f64_str v ]

  unfoldable pub extract_frequency : Dict Text Value → Option F64
  extract_frequency metadata = elim (lookup (codes "frequency") metadata) [
    | some v ↦ hz_of (some v)
    | none ↦ hz_of (lookup (codes "frequency_hz") metadata)
  ]

  abbrev pub zone_of : Option Text → Option ℕ
  zone_of none = none
  zone_of (some z) = o.trim_parse_u16 z

  -- The arguments with which the aggregator is called.
  unfoldable pub aggregator_reading : Option Uuid → DeviceReading → Reading
  unfolding energies tariff_period_of demand_of
  aggregator_reading user r = record {
    meter_id = o.new_v5 r.serial_number;
    user_id = unwrap_or user nil_uuid;
    meter_serial = r.serial_number;
    generated = (energies r.metrics).0;
    consumed = (energies r.metrics).1;
    timestamp = r.timestamp;
    tariff_period = (extract_tariff_demand r.metadata).0;
    demand_kw = (extract_tariff_demand r.metadata).1;
    zone_code = zone_of r.zone_code;
  }
