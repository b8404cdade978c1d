-- ===== src/Billing/Tests.antt =====
-- Runs of the billing modules at concrete readings.
use gridtokenx_aggregator_br.Base.{
  List, ◌+◌, ◌*◌, ◌^◌, ◌<◌, ◌≡◌, ◌≢◌, ◌↔◌, refl, true, false, Option, none, some, [], ◌∷◌, In, inl,
  arith, list_eq, nat_eq, pair_eq,
}
use gridtokenx_aggregator_br.Base.Text.{codes}
use gridtokenx_aggregator_br.Base.Int.{pos, pos_part, ◌+ℤ◌}
use gridtokenx_aggregator_br.Base.Dict.{lookup, insert, remove}
use gridtokenx_aggregator_br.Billing.Bin.{
  Decimals, BillingBin, BinKey, Decimal, F64, Text, Uuid, key,
}
use gridtokenx_aggregator_br.Billing.Float.{FloatOps}
use gridtokenx_aggregator_br.Billing.Aggregator.{
  Aggregator, Reading, new, get_window_start, handle_reading, remove_bin, is_settled, is_complete,
  advance, empty_bin, absorb, add_energy, split_tariff, track_demand, remove_bins, insert_window,
  retain_windows, peek_completed_bins_at,
}
use gridtokenx_aggregator_br.Billing.Aggregator.Ingest.{Arrivals, ingest}
use gridtokenx_aggregator_br.Billing.Aggregator.Accounting.{Accounts, count_of, ingest-Accounts}
use gridtokenx_aggregator_br.Billing.Aggregator.Settled.{remembered}
use gridtokenx_aggregator_br.Billing.Aggregator.Sweep.{KeyedBins, sweep}
use gridtokenx_aggregator_br.Billing.Aggregator.Sweep.Runs.{
  LockStep, arrives, sweeps, taken, RememberedThrough, sweep_once,
}
use gridtokenx_aggregator_br.Billing.Aggregator.Completion.{Over, is_complete_iff}
use gridtokenx_aggregator_br.Billing.Sink.Laws.{Converts}
use gridtokenx_aggregator_br.Billing.Zones.{Zone, zone_balances}
use gridtokenx_aggregator_br.Billing.Zones.Laws.{
  Ordered, count_bins, find_zone, balance_of, zone_balances_lem,
}
use gridtokenx_aggregator_br.Billing.BinStore.{write}
use gridtokenx_aggregator_br.Redis.{applied, ok}

-- The sums of the runs fit the mantissa, where the addition is exact.
instance abbrev exact : Decimals
exact = record { add = ◌+ℤ◌ }

-- A meter's reading in the window from 900 s, under the peak rate, and one in the window from 1800 s.
abbrev early : Reading
early = record {
  meter_id = 7;
  user_id = 1;
  meter_serial = codes "mtr-7";
  generated = pos 500;
  consumed = pos 200;
  timestamp = 1000 * 10 ^ 9;
  tariff_period = some 1;
  demand_kw = some (pos 3);
  zone_code = some 4;
}

abbrev later_reading : Reading
later_reading = record early { timestamp = 2000 * 10 ^ 9; tariff_period = some 2 }

abbrev arrivals : Arrivals
arrivals = (1000 * 10 ^ 9, early) ∷ (2000 * 10 ^ 9, later_reading) ∷ []

abbrev window : BinKey
window = (7, 900 * 10 ^ 9)

abbrev some_bin : BillingBin
some_bin = record {
  meter_id = 7;
  user_id = 1;
  meter_serial = codes "mtr-7";
  start_time = 900 * 10 ^ 9;
  end_time = 1800 * 10 ^ 9;
  energy_generated = pos 500;
  energy_consumed = pos 200;
  reading_count = 1;
  energy_generated_peak = pos 500;
  energy_generated_offpeak = pos 0;
  energy_consumed_peak = pos 200;
  energy_consumed_offpeak = pos 0;
  max_demand_kw = pos 3;
  zone_code = some 4;
}

-- The aggregator after the early reading.
abbrev one_bin : Aggregator
one_bin = record {
  active_bins = (window, some_bin) ∷ [];
  progress = (7, record { watermark = 1000 * 10 ^ 9; last_arrival = 1000 * 10 ^ 9 }) ∷ [];
  settled = [];
}

abbrev whole_units : Decimal → Option F64
whole_units d = some (pos_part d)

abbrev ops : FloatOps
ops = record {
  to_f64 = whole_units;
  add = λ a b. a + b;
  mul = λ a b. a * b;
  div = λ a b. a;
  sub = λ a b. a;
  abs = λ a. a;
  lt = λ a b. false;
}

abbrev print_uuid : Uuid → Text
print_uuid u = u ∷ []

abbrev bin_json : BillingBin → Option Text
bin_json bin = some (codes "bin")

abbrev bin_of_json : Text → Option BillingBin
bin_of_json json = some some_bin

unsettled : is_settled one_bin.settled window ≡ false
unfolding is_settled lookup
unsettled = refl

counter_in_range : count_of (lookup window one_bin.active_bins) < 2 ^ 64
unfolding lookup
counter_in_range = omega arith

ingest-Accounts_example :
    Accounts window arrivals
      (lookup window one_bin.active_bins)
      (lookup window (ingest arrivals one_bin).active_bins)
ingest-Accounts_example = ingest-Accounts window arrivals one_bin unsettled counter_in_range

window_remembered : remembered (lookup 7 one_bin.progress) (900 * 10 ^ 9) ≡ true
unfolding lookup
window_remembered = refl

one_bin_keyed : KeyedBins one_bin.active_bins
one_bin_keyed = (refl, tt)

is_complete_example :
    (is_complete (2000 * 10 ^ 9) 0 (ingest arrivals new) some_bin ≡ true)
    ↔ Over (2000 * 10 ^ 9) 0 arrivals some_bin
is_complete_example = is_complete_iff (2000 * 10 ^ 9) 0 arrivals some_bin

converts : Converts whole_units
converts d = ground arith

zone_balances_example :
    Ordered (zone_balances ops (some_bin ∷ []))
    × (count_bins (zone_balances ops (some_bin ∷ [])) ≡ 1)
    × ((w : Zone)
        → find_zone w (zone_balances ops (some_bin ∷ [])) ≡ balance_of ops w (some_bin ∷ []) none)
zone_balances_example = zone_balances_lem ops (some_bin ∷ [])

json_written : (write print_uuid bin_json applied some_bin []).1 ≡ ok
unfolding write
json_written = refl

-- A sweep after the meter has reported past the window, and one after it has reported past the next.
abbrev past_window : Aggregator
past_window = record one_bin {
  progress = (7, record { watermark = 2000 * 10 ^ 9; last_arrival = 2000 * 10 ^ 9 }) ∷ [];
}

abbrev after_sweep : List LockStep
after_sweep =
    arrives (2000 * 10 ^ 9) later_reading
    ∷ sweeps (2100 * 10 ^ 9) 0
    ∷ arrives (4000 * 10 ^ 9) (record early { timestamp = 4000 * 10 ^ 9 })
    ∷ sweeps (4000 * 10 ^ 9) 0
    ∷ []

abbrev next_bin : BillingBin
next_bin = record some_bin {
  start_time = 1800 * 10 ^ 9;
  end_time = 2700 * 10 ^ 9;
  energy_generated_peak = pos 0;
  energy_generated_offpeak = pos 500;
  energy_consumed_peak = pos 0;
  energy_consumed_offpeak = pos 200;
}

swept_first : In some_bin (sweep (2000 * 10 ^ 9) 0 past_window).1
unfolding sweep peek_completed_bins_at is_complete lookup
swept_first = inl refl

remembered_through :
    RememberedThrough (key some_bin) (sweeps (2000 * 10 ^ 9) 0 ∷ after_sweep) past_window
unfolding sweep peek_completed_bins_at is_complete lookup insert remove ingest handle_reading
    remove_bins remove_bin insert_window retain_windows is_settled get_window_start advance absorb
    add_energy split_tariff track_demand empty_bin ◌+ℤ◌
remembered_through = (refl, (refl, (refl, tt)))

swept_later : In next_bin (taken after_sweep (sweep (2000 * 10 ^ 9) 0 past_window).0)
unfolding sweep peek_completed_bins_at is_complete lookup insert remove ingest handle_reading
    remove_bins remove_bin insert_window retain_windows is_settled get_window_start advance absorb
    add_energy split_tariff track_demand empty_bin ◌+ℤ◌
swept_later = inl refl

sweep_once_example : key next_bin ≢ key some_bin
sweep_once_example =
    sweep_once (2000 * 10 ^ 9) 0 after_sweep past_window some_bin next_bin one_bin_keyed swept_first
      remembered_through swept_later
