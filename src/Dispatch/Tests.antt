-- ===== src/Dispatch/Tests.antt =====
-- Runs of the dispatch engine at a low frequency with one adapter that fires and one that fails.
use gridtokenx_aggregator_br.Base.{
  leb, keep, length, ℕ, ◌≡◌, refl, true, some, List, [], ◌∷◌, In, inl, arith, ltb,
}
use gridtokenx_aggregator_br.Base.Text.{codes}
use gridtokenx_aggregator_br.Base.Int.{pos, ◌+ℤ◌}
use gridtokenx_aggregator_br.Base.Dict.{lookup}
use gridtokenx_aggregator_br.Billing.Bin.{F64, Text, BillingBin}
use gridtokenx_aggregator_br.Billing.Aggregator.{Aggregator, peek_completed_bins_at, is_complete}
use gridtokenx_aggregator_br.Dispatch.Frequency.{Arithmetic, Sample, mean, mean_of, record_all}
use gridtokenx_aggregator_br.Dispatch.Frequency.Window.{is_fresh, plausible, mean-record_all}
use gridtokenx_aggregator_br.Dispatch.{
  flex_up, Engine, Joined, fired, failed, Message, eligible, last_dispatch_of,
  has_dispatch_capacity, select_adapters_from, split_commas, pick_all, pick,
}
use gridtokenx_aggregator_br.Dispatch.Cooldown.{evaluate_all, cooldown_blocks_repeat}

abbrev registered : List Text
registered = codes "grpc" ∷ codes "ieee" ∷ []

abbrev untrimmed : Text → Text
untrimmed t = t

abbrev configured : Text
configured = codes "grpc,none,ieee,grpc"

configured_adapters : select_adapters_from untrimmed configured registered ≡ registered
unfolding select_adapters_from split_commas pick_all pick
configured_adapters = refl

abbrev engine : Engine
engine = record {
  adapters = registered;
  active_adapters = registered;
  freq_low_hz = 498;
  freq_high_hz = 502;
  cooldown = 900;
  last_dispatch = [];
}

abbrev full_bin : BillingBin
full_bin = record {
  meter_id = 7;
  user_id = 1;
  meter_serial = codes "mtr-7";
  start_time = 0;
  end_time = 900;
  energy_generated = pos 500;
  energy_consumed = pos 200;
  reading_count = 1;
  energy_generated_peak = pos 500;
  energy_generated_offpeak = pos 0;
  energy_consumed_peak = pos 200;
  energy_consumed_offpeak = pos 0;
  max_demand_kw = pos 3;
  zone_code = some 4;
}

abbrev fleet : Aggregator
fleet = record { active_bins = ((7, 0), full_bin) ∷ []; progress = []; settled = [] }

abbrev joined : List (ℕ × Joined)
joined = (1010, fired (codes "grpc")) ∷ (1020, failed (codes "ieee")) ∷ []

abbrev low : Message
low = record { frequency = 497; now = 1000; utc = 5000; aggregator = fleet; join = λ names. joined }

abbrev still_low : Message
still_low = record low { now = 1500; join = λ names. [] }

capable : has_dispatch_capacity low.utc fleet ≡ true
unfolding has_dispatch_capacity peek_completed_bins_at is_complete lookup ◌+ℤ◌
capable = refl

both_eligible : eligible flex_up 1000 engine ≡ registered
unfolding eligible last_dispatch_of
both_eligible = refl

cooldown_blocks_repeat_example :
    ¬ In (codes "grpc") (eligible flex_up 1600 (evaluate_all ltb (low ∷ still_low ∷ []) engine))
unfolding eligible last_dispatch_of
cooldown_blocks_repeat_example =
    cooldown_blocks_repeat ltb engine low (still_low ∷ []) flex_up (codes "grpc") 1010 1600
      (λ names. (omega arith, (omega arith, tt))) refl capable (inl refl) (inl refl)
      ((omega arith, λ names. tt), tt) (omega arith) (omega arith)

-- The bits of infinity; the comparison of bits stands for that of positive numbers.
abbrev f64_infinite : F64
f64_infinite = 0x7ff0000000000000

abbrev arithmetic : Arithmetic
arithmetic = record {
  is_finite = λ x. ltb x f64_infinite;
  le = λ x y. leb x y;
  sum = λ xs. length xs;
  of_len = λ n. n;
  div = λ x y. x;
}

-- Fifty hertz, zero, and fifty hertz again.
abbrev recorded : List Sample
recorded = (5, 0x4049000000000000) ∷ (20, 0) ∷ (21, 0x4049000000000000) ∷ []

mean-record_all_example :
    (mean arithmetic 10 30 (record_all arithmetic 10 recorded [])).0
    ≡ mean_of arithmetic (keep (is_fresh 10 30) (keep (plausible arithmetic 10) recorded))
mean-record_all_example =
    mean-record_all arithmetic 10 recorded 30
      (omega arith, (omega arith, (omega arith, omega arith)))

one_is_left : (mean arithmetic 10 30 (record_all arithmetic 10 recorded [])).0 ≡ some 1
unfolding mean record_all
one_is_left = refl
