-- ===== src/Stream/Tests.antt =====
-- Runs of the zone ingester over one entry whose first acknowledgement is refused.
use gridtokenx_aggregator_br.Base.{
  ℕ, ◌+◌, ◌≡◌, inl, refl, false, true, Option, none, some, List, [], ◌∷◌, nat_eq, list_eq, ◌==◌,
}
use gridtokenx_aggregator_br.Base.Dict.{lookup, insert, remove}
use gridtokenx_aggregator_br.Base.Text.{codes}
use gridtokenx_aggregator_br.Base.Int.{pos, ◌+ℤ◌}
use gridtokenx_aggregator_br.Billing.Aggregator.Ingest.{ingest}
use gridtokenx_aggregator_br.Redis.{applied, refused}
use gridtokenx_aggregator_br.Stream.Readings.{
  smart_meter, DeviceReading, energy, battery_state, discharging, smart_meter_reading, Outside,
  energies, to_positive_decimal,
}
use gridtokenx_aggregator_br.Stream.{
  Zone, Meets, Action, deliver, reclaim, act, act_all, decode_entry, process_entry, reclaim_entry,
  handle_iot_reading, absorb_reading, ack_entry,
}
use gridtokenx_aggregator_br.Stream.Delivery.{times, reading_in, handled_all, arrivals}
use gridtokenx_aggregator_br.Stream.Balance.{flag, failed_all}
use gridtokenx_aggregator_br.Stream.Once.{Carries, handled_once_per_failure}

abbrev reading : DeviceReading
reading = record {
  reading_id = 1;
  device_id = codes "mtr-7";
  device_type = smart_meter;
  serial_number = codes "mtr-7";
  zone_code = some (codes "4");
  timestamp = 1000;
  metrics = energy 5 2 3;
  metadata = [];
}

abbrev outside : Outside
outside = record {
  decimals = record { add = ◌+ℤ◌ };
  parse_json = λ raw. some none;
  cipher = none;
  rebuild_json = λ kind plaintext. none;
  parse_event = λ json. some (smart_meter_reading reading);
  new_v5 = λ name. 7;
  trim_parse_u16 = λ z. some 4;
  as_u64 = λ v. none;
  as_f64 = λ v. none;
  parse_f64_str = λ v. none;
  is_nan = λ x. x == 999;
  is_infinite = λ x. false;
  is_above_zero = λ x. true;
  abs = λ x. x;
  from_f64_retain = λ x. some (pos x);
}

abbrev quiet : Zone
quiet = record {
  aggregator = record { active_bins = []; progress = []; settled = [] };
  bin_writes = [];
  frequencies = [];
  pending = [];
}

abbrev meets_refusal : Meets
meets_refusal = record { now = 2000; user = none; ack = refused }

abbrev meets_success : Meets
meets_success = record { now = 3000; user = none; ack = applied }

abbrev entry : Option (List ℕ)
entry = some (codes "event")

abbrev first_delivery : Action
first_delivery = deliver meets_refusal (codes "1-0") entry

abbrev then_reclaimed : List Action
then_reclaimed = reclaim meets_success (codes "1-0") ∷ reclaim meets_success (codes "1-0") ∷ []

holds_reading : reading_in outside entry ≡ some reading
unfolding decode_entry
holds_reading = refl

-- The reading is counted twice, since the first acknowledgement was refused.
twice : times (codes "1-0") (handled_all outside (first_delivery ∷ then_reclaimed) quiet) ≡ 2
unfolding decode_entry act process_entry reclaim_entry handle_iot_reading absorb_reading ack_entry
    lookup insert remove
twice = refl

discharge_generates : energies outside (battery_state 80 6 25 discharging) ≡ (pos 6, pos 0)
unfolding energies to_positive_decimal
discharge_generates = refl

handled_once_per_failure_example :
    let handled = handled_all outside (first_delivery ∷ then_reclaimed) quiet in
    let z' = act_all outside (first_delivery ∷ then_reclaimed) quiet in
    (z'.aggregator ≡ ingest ⦃decimals = outside.decimals⦄ (arrivals handled) quiet.aggregator)
    × Carries outside (codes "1-0") reading handled
    × (times (codes "1-0") handled + flag (lookup (codes "1-0") z'.pending)
        ≡ 1 + failed_all outside (codes "1-0") (first_delivery ∷ then_reclaimed) quiet)
handled_once_per_failure_example =
    handled_once_per_failure outside (codes "1-0") entry reading first_delivery then_reclaimed quiet
      holds_reading (inl (meets_refusal, refl)) tt
