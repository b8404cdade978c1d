-- ===== src/Billing/Zones.antt =====
-- crates/aggregator-logic/src/zone_balance.rs: the energy balance of each zone over completed bins. The
-- `BTreeMap` is a list in strictly increasing order of zone, no zone first.
pub mod Laws
use gridtokenx_aggregator_br.Base.{
  ℕ, ◌+◌, Bool, true, false, Option, none, some, List, [], ◌∷◌, ltb, if◌then◌else◌, ◌==◌, nat_eq,
  option_eq,
}
use gridtokenx_aggregator_br.Billing.Bin.{
  F64, f64_zero, Decimal, BillingBin, unwrap_or, net_energy_kwh,
}
use gridtokenx_aggregator_br.Billing.Float.{FloatOps}

abbrev pub Zone : Type 0
Zone = Option ℕ

pub record ZoneBalance : Type 0 where
  pub zone_code : Zone
  pub generated_kwh : F64
  pub consumed_kwh : F64
  pub net_kwh : F64
  pub bin_count : ℕ

-- The order of `Option<u16>`.
abbrev pub zone_lt : Zone → Zone → Bool
zone_lt none none = false
zone_lt none (some b) = true
zone_lt (some a) none = false
zone_lt (some a) (some b) = ltb a b

module _ (ops : FloatOps) where
  open ops use {to_f64, add, div, abs, lt}

  unfoldable pub imbalance_kwh : ZoneBalance → F64
  imbalance_kwh zb = abs zb.net_kwh

  unfoldable pub imbalance_ratio : ZoneBalance → Option F64
  imbalance_ratio zb =
      let throughput = add zb.generated_kwh zb.consumed_kwh in
      if lt f64_zero throughput then some (div (abs zb.net_kwh) throughput) else none

  -- `to_f64` of the module: a decimal with no double counts as 0.
  unfoldable pub decimal_or_zero : Decimal → F64
  decimal_or_zero d = unwrap_or (to_f64 d) f64_zero

  -- The value that `or_insert` puts in.
  unfoldable pub empty_zone : Zone → ZoneBalance
  empty_zone zone = record {
    zone_code = zone;
    generated_kwh = f64_zero;
    consumed_kwh = f64_zero;
    net_kwh = f64_zero;
    bin_count = 0;
  }

  -- The four updates of `entry`. `bin_count` cannot overflow: it counts elements of a slice.
  unfoldable pub add_bin : BillingBin → ZoneBalance → ZoneBalance
  add_bin bin zb = record zb {
    generated_kwh = add zb.generated_kwh (decimal_or_zero bin.energy_generated);
    consumed_kwh = add zb.consumed_kwh (decimal_or_zero bin.energy_consumed);
    net_kwh = add zb.net_kwh (net_energy_kwh to_f64 bin);
    bin_count = zb.bin_count + 1;
  }

  -- `by_zone.entry(bin.zone_code).or_insert(..)` and the update.
  unfoldable pub add_to_zone : BillingBin → List ZoneBalance → List ZoneBalance
  add_to_zone bin [] = add_bin bin (empty_zone bin.zone_code) ∷ []
  add_to_zone bin (z ∷ zs) =
      let rest = add_to_zone bin zs in
      if bin.zone_code == z.zone_code
      then add_bin bin z ∷ zs
      else if zone_lt bin.zone_code z.zone_code
      then add_bin bin (empty_zone bin.zone_code) ∷ z ∷ zs
      else z ∷ rest

  unfoldable pub balances_from : List BillingBin → List ZoneBalance → List ZoneBalance
  balances_from [] zs = zs
  balances_from (bin ∷ bins) zs = balances_from bins (add_to_zone bin zs)

  unfoldable pub zone_balances : List BillingBin → List ZoneBalance
  unfolding balances_from
  zone_balances bins = balances_from bins []

  -- `Iterator::sum` over `f64` folds from the left; its start value is a parameter.
  unfoldable pub system_net_kwh : F64 → List ZoneBalance → F64
  system_net_kwh acc [] = acc
  system_net_kwh acc (b ∷ bs) = system_net_kwh (add acc b.net_kwh) bs
