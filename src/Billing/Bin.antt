-- ===== src/Billing/Bin.antt =====
-- `BillingBin` of crates/aggregator-logic/src/aggregator.rs: one meter's energy over one window.
-- Energies are `Decimal`s in units of 1e-28, with the addition of rust_decimal as a parameter. `f64` is its 64 bits,
-- and the conversion of a `Decimal` to it is a parameter.
use gridtokenx_aggregator_br.Base.{ℕ, List, Option, none, some, if◌then◌else◌}
use gridtokenx_aggregator_br.Base.Int.{ℤ, pos, ◌-ℤ◌, ltb_ℤ}
use gridtokenx_aggregator_br.Billing.Time.{Timestamp, timestamp_millis}

abbrev pub Uuid : Type 0
Uuid = ℕ

-- The bytes of a UTF-8 text.
abbrev pub Text : Type 0
Text = List ℕ

abbrev pub F64 : Type 0
F64 = ℕ

-- The bits of 0.0.
abbrev pub f64_zero : F64
f64_zero = 0

abbrev pub Decimal : Type 0
Decimal = ℤ

-- The addition of `rust_decimal`, which rounds a sum that its 96 bits of mantissa do not hold; an overflow, on which
-- it panics, is left out.
pub record Decimals : Type 0 where
  pub add : Decimal → Decimal → Decimal

abbrev pub decimal_zero : Decimal
decimal_zero = pos 0

abbrev pub BinKey : Type 0
BinKey = Uuid × Timestamp

pub record BillingBin : Type 0 where
  pub meter_id : Uuid
  pub user_id : Uuid
  pub meter_serial : Text
  pub start_time : Timestamp
  pub end_time : Timestamp
  pub energy_generated : Decimal
  pub energy_consumed : Decimal
  pub reading_count : ℕ
  pub energy_generated_peak : Decimal
  pub energy_generated_offpeak : Decimal
  pub energy_consumed_peak : Decimal
  pub energy_consumed_offpeak : Decimal
  pub max_demand_kw : Decimal
  pub zone_code : Option ℕ

abbrev pub key : BillingBin → BinKey
key bin = (bin.meter_id, bin.start_time)

abbrev pub window_start_ms : BillingBin → ℤ
window_start_ms bin = pos (timestamp_millis bin.start_time)

-- `unwrap_or`.
abbrev pub unwrap_or {ℓ} : {A : Type ℓ} → Option A → A → A
unwrap_or none d = d
unwrap_or (some a) d = a

module _ (to_f64 : Decimal → Option F64) where
  unfoldable pub net_surplus_kwh : BillingBin → Option F64
  net_surplus_kwh bin =
      let net = bin.energy_generated -ℤ bin.energy_consumed in
      if ltb_ℤ decimal_zero net then to_f64 net else none

  unfoldable pub net_deficit_kwh : BillingBin → Option F64
  net_deficit_kwh bin =
      let net = bin.energy_consumed -ℤ bin.energy_generated in
      if ltb_ℤ decimal_zero net then to_f64 net else none

  unfoldable pub net_energy_kwh : BillingBin → F64
  net_energy_kwh bin = unwrap_or (to_f64 (bin.energy_generated -ℤ bin.energy_consumed)) f64_zero
