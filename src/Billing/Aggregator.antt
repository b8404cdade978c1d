-- ===== src/Billing/Aggregator.antt =====
-- `Aggregator` of crates/aggregator-logic/src/aggregator.rs: open bins, the progress of each meter, and
-- the windows already settled. A method takes the service clock as `now` and returns the new state;
-- `settled` holds each `BTreeSet` as a list without repeats.
pub mod Window
pub mod Ingest
pub mod Accounting
pub mod Settled
pub mod Sweep
pub mod Completion
use gridtokenx_aggregator_br.Base.{
  ℕ, ◌+◌, ◌-◌, ◌*◌, ◌/◌, ◌%◌, ◌^◌, Bool, true, false, not, ◌&&◌, ◌||◌, Option, none, some, List, [],
  ◌∷◌, map, ltb, leb, if◌then◌else◌, any, keep, ◌==◌, nat_eq, pair_eq,
}
use gridtokenx_aggregator_br.Base.Dict.{Dict, lookup, insert, remove}
use gridtokenx_aggregator_br.Base.Int.{ltb_ℤ}
use gridtokenx_aggregator_br.Billing.Time.{
  Timestamp, minute, with_minute, with_second, with_nanosecond, minute_ns, hour_ns,
}
use gridtokenx_aggregator_br.Billing.Bin.{
  Decimals, Uuid, Text, Decimal, decimal_zero, BinKey, BillingBin, key, unwrap_or,
}

abbrev pub window_minutes : ℕ
window_minutes = 15

abbrev pub settled_retention_hours : ℕ
settled_retention_hours = 24

pub record MeterProgress : Type 0 where
  pub watermark : Timestamp
  pub last_arrival : Timestamp

pub record Aggregator : Type 0 where
  pub active_bins : Dict BinKey BillingBin
  pub progress : Dict Uuid MeterProgress
  pub settled : Dict Uuid (List Timestamp)

-- The arguments of `handle_reading`.
pub record Reading : Type 0 where
  pub meter_id : Uuid
  pub user_id : Uuid
  pub meter_serial : Text
  pub generated : Decimal
  pub consumed : Decimal
  pub timestamp : Timestamp
  pub tariff_period : Option ℕ
  pub demand_kw : Option Decimal
  pub zone_code : Option ℕ

unfoldable pub new : Aggregator
new = record { active_bins = []; progress = []; settled = [] }

unfoldable pub get_window_start : Timestamp → Timestamp
get_window_start time =
    let start = minute time / window_minutes * window_minutes in
    with_nanosecond (with_second (with_minute time start) 0) 0

-- The bin and map key that a reading falls to.
abbrev pub reading_key : Reading → BinKey
reading_key r = (r.meter_id, get_window_start r.timestamp)

-- `progress.entry(meter_id).or_insert(..)`, then the two assignments.
unfoldable pub advance : Timestamp → Timestamp → Option MeterProgress → MeterProgress
advance now timestamp none = record { watermark = timestamp; last_arrival = now }
advance now timestamp (some p) = record {
  watermark = if ltb p.watermark timestamp then timestamp else p.watermark;
  last_arrival = now;
}

unfoldable pub empty_bin : Reading → BillingBin
empty_bin r = record {
  meter_id = r.meter_id;
  user_id = r.user_id;
  meter_serial = r.meter_serial;
  start_time = get_window_start r.timestamp;
  end_time = get_window_start r.timestamp + window_minutes * minute_ns;
  energy_generated = decimal_zero;
  energy_consumed = decimal_zero;
  reading_count = 0;
  energy_generated_peak = decimal_zero;
  energy_generated_offpeak = decimal_zero;
  energy_consumed_peak = decimal_zero;
  energy_consumed_offpeak = decimal_zero;
  max_demand_kw = decimal_zero;
  zone_code = r.zone_code;
}

module _ ⦃decimals : Decimals⦄ where
  -- The totals, the reading counter (`u64`) and the zone backfill.
  unfoldable pub add_energy : Reading → BillingBin → BillingBin
  add_energy r bin = record bin {
    energy_generated = decimals.add bin.energy_generated r.generated;
    energy_consumed = decimals.add bin.energy_consumed r.consumed;
    reading_count = (bin.reading_count + 1) % 2 ^ 64;
    zone_code = elim bin.zone_code [ none ↦ r.zone_code | some z ↦ some z ];
  }

  -- `match tariff_period`: rate 1 is peak, rate 2 is off-peak.
  unfoldable pub split_tariff : Reading → Option ℕ → BillingBin → BillingBin
  split_tariff r none bin = bin
  split_tariff r (some rate) bin =
      if rate == 1
      then record bin {
        energy_generated_peak = decimals.add bin.energy_generated_peak r.generated;
        energy_consumed_peak = decimals.add bin.energy_consumed_peak r.consumed;
      }
      else if rate == 2
      then record bin {
        energy_generated_offpeak = decimals.add bin.energy_generated_offpeak r.generated;
        energy_consumed_offpeak = decimals.add bin.energy_consumed_offpeak r.consumed;
      }
      else bin

unfoldable pub track_demand : Option Decimal → BillingBin → BillingBin
track_demand none bin = bin
track_demand (some d) bin =
    if ltb_ℤ bin.max_demand_kw d then record bin { max_demand_kw = d } else bin

module _ ⦃decimals : Decimals⦄ where
  unfoldable pub absorb : Reading → BillingBin → BillingBin
  unfolding add_energy split_tariff track_demand
  absorb r bin = track_demand r.demand_kw (split_tariff r r.tariff_period (add_energy r bin))

-- `settled.get(&meter_id).is_some_and(|w| w.contains(&start))`.
unfoldable pub is_settled : Dict Uuid (List Timestamp) → BinKey → Bool
is_settled settled (meter, start) = elim (lookup meter settled) [
  | none ↦ false
  | some windows ↦ any (λ w. w == start) windows
]

module _ ⦃decimals : Decimals⦄ where
  unfoldable pub handle_reading : Timestamp → Reading → Aggregator → Aggregator × Option BillingBin
  handle_reading now r a =
      let p = advance now r.timestamp (lookup r.meter_id a.progress) in
      let progress' = insert r.meter_id p a.progress in
      let k : BinKey = (r.meter_id, get_window_start r.timestamp) in
      if is_settled a.settled k
      then (record a { progress = progress' }, none)
      else let bin = absorb r (unwrap_or (lookup k a.active_bins) (empty_bin r)) in
        (record a { active_bins = insert k bin a.active_bins; progress = progress' }, some bin)

-- The test of the `filter` in `peek_completed_bins_at`. `grace` is configured in whole seconds.
unfoldable pub is_complete : Timestamp → ℕ → Aggregator → BillingBin → Bool
is_complete now grace a bin = elim (lookup bin.meter_id a.progress) [
  | some p ↦
      leb (bin.end_time + grace) p.watermark
      || (ltb 0 grace && leb grace (now - p.last_arrival) && leb bin.end_time now)
  | none ↦ leb (bin.end_time + grace) now
]

unfoldable pub peek_completed_bins_at : Timestamp → ℕ → Aggregator → List BillingBin
peek_completed_bins_at now grace a = keep (is_complete now grace a) (map (λ e. e.1) a.active_bins)

-- `BTreeSet::insert`.
unfoldable pub insert_window : Timestamp → List Timestamp → List Timestamp
insert_window w ws = if any (λ v. v == w) ws then ws else w ∷ ws

-- `windows.retain(|w| *w >= horizon)`, where the meter has made progress.
unfoldable pub retain_windows : Option MeterProgress → List Timestamp → List Timestamp
retain_windows none ws = ws
retain_windows (some p) ws = keep (λ w. leb (p.watermark - settled_retention_hours * hour_ns) w) ws

-- One round of the loop in `remove_bins`.
unfoldable pub remove_bin : BinKey → Aggregator → Aggregator
remove_bin (meter, start) a =
    let windows = insert_window start (unwrap_or (lookup meter a.settled) []) in
    record a {
      active_bins = remove (meter, start) a.active_bins;
      settled = insert meter (retain_windows (lookup meter a.progress) windows) a.settled;
    }

unfoldable pub remove_bins : List BinKey → Aggregator → Aggregator
remove_bins [] a = a
remove_bins (k ∷ ks) a = remove_bins ks (remove_bin k a)

unfoldable pub restore_bins : List BillingBin → Aggregator → Aggregator
restore_bins [] a = a
restore_bins (bin ∷ bins) a =
    restore_bins bins (record a { active_bins = insert (key bin) bin a.active_bins })
