-- ===== src/Billing/Sink.antt =====
-- crates/aggregator-logic/src/billing_sink.rs: what the settlement loop does with a completed bin. The
-- number formatting of `Uuid` and the conversions to `f64` are parameters.
pub mod Laws
use gridtokenx_aggregator_br.Base.{
  ℕ, ◌^◌, Bool, true, false, not, Option, none, some, List, [], ◌∷◌, ltb, if◌then◌else◌,
}
use gridtokenx_aggregator_br.Base.Text.{codes}
use gridtokenx_aggregator_br.Billing.Bin.{
  Uuid, Text, F64, f64_zero, Decimal, BillingBin, unwrap_or, net_surplus_kwh,
}
use gridtokenx_aggregator_br.Billing.Time.{Timestamp}

-- crates/aggregator-persistence/src/infra/influxdb.rs, `TelemetryPoint`
pub record TelemetryPoint : Type 0 where
  pub measurement : Text
  pub device_id : Text
  pub device_type : Text
  pub serial_number : Text
  pub zone_code : Option Text
  pub extra_tags : List (Text × Text)
  pub fields : List (Text × F64)
  pub timestamp_ns : ℕ

-- The result fits an `i64`.
abbrev pub timestamp_nanos_opt : Timestamp → Option ℕ
timestamp_nanos_opt t = if ltb t (2 ^ 63) then some t else none

module _ (to_f64 : Decimal → Option F64) (count_to_f64 : ℕ → F64)
    (uuid_to_string : Uuid → Text) where
  abbrev pub billing_point : BillingBin → ℕ → TelemetryPoint
  billing_point bin timestamp_ns =
      let f = λ (d : Decimal). unwrap_or (to_f64 d) f64_zero in
      record {
        measurement = codes "billing";
        device_id = uuid_to_string bin.meter_id;
        device_type = codes "smart_meter";
        serial_number = bin.meter_serial;
        zone_code = none;
        extra_tags = (codes "user_id", uuid_to_string bin.user_id) ∷ [];
        fields =
            (codes "energy_generated", f bin.energy_generated)
            ∷ (codes "energy_consumed", f bin.energy_consumed)
            ∷ (codes "energy_generated_peak", f bin.energy_generated_peak)
            ∷ (codes "energy_generated_offpeak", f bin.energy_generated_offpeak)
            ∷ (codes "energy_consumed_peak", f bin.energy_consumed_peak)
            ∷ (codes "energy_consumed_offpeak", f bin.energy_consumed_offpeak)
            ∷ (codes "max_demand_kw", f bin.max_demand_kw)
            ∷ (codes "reading_count", count_to_f64 bin.reading_count)
            ∷ [];
        timestamp_ns = timestamp_ns;
      }

  unfoldable pub bin_to_billing_point : BillingBin → Option TelemetryPoint
  bin_to_billing_point bin = elim (timestamp_nanos_opt bin.end_time) [
    | none ↦ none
    | some timestamp_ns ↦ some (billing_point bin timestamp_ns)
  ]

pub data MintDecision : Type 0 where
  surplus : F64 → MintDecision
  no_surplus disabled : MintDecision

unfoldable pub plan_mint : (Decimal → Option F64) → BillingBin → Bool → MintDecision
plan_mint to_f64 bin mint_enabled =
    if not mint_enabled
    then disabled
    else elim (net_surplus_kwh to_f64 bin) [ some kwh ↦ surplus kwh | none ↦ no_surplus ]

pub data MintHandoff : Type 0 where
  not_applicable enqueued minted_directly best_effort_only lost : MintHandoff

unfoldable pub bin_durably_settled : MintHandoff → Bool
bin_durably_settled lost = false
bin_durably_settled _ = true
