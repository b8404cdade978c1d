-- ===== src/Router/Tests.antt =====
-- Runs of the router: a lost reply and its retry, and a reading that reaches the aggregator in the clear.
use gridtokenx_aggregator_br.Base.{
  ◌≡◌, ◌∙◌, ap, sym, inr, refl, false, true, none, some, [], arith, nat_eq, list_eq,
}
use gridtokenx_aggregator_br.Base.Text.{codes}
use gridtokenx_aggregator_br.Base.Int.{pos, ◌+ℤ◌}
use gridtokenx_aggregator_br.Billing.Aggregator.{handle_reading}
use gridtokenx_aggregator_br.Redis.{applied, reply_lost}
use gridtokenx_aggregator_br.Stream.{Zone, Meets, deliver, act}
use gridtokenx_aggregator_br.Stream.Readings.{
  smart_meter, DeviceReading, energy, event_of_type, Outside, aggregator_reading,
}
use gridtokenx_aggregator_br.Router.{
  Codec, RouterSettings, RouterState, Weather, encode, disseminate, zone_index, named_zone,
}
use gridtokenx_aggregator_br.Router.Points.{Numbers}
use gridtokenx_aggregator_br.Router.Delivery.{Disseminates, copies, disseminate-Disseminates}
use gridtokenx_aggregator_br.Router.Arrival.{Agrees, published_is_handled}

abbrev reading : DeviceReading
reading = record {
  reading_id = 1;
  device_id = codes "mtr-7";
  device_type = smart_meter;
  serial_number = codes "mtr-7";
  zone_code = some (codes "zone_2");
  timestamp = 1000;
  metrics = energy 5 2 3;
  metadata = [];
}

abbrev pub codec : Codec
codec = record {
  to_vec = λ r. none;
  plain_envelope = λ event_type r. some event_type;
  enc_envelope = λ event_type n t. none;
  stream_cipher = none;
  hash = λ s. 17;
}

abbrev pub numbers : Numbers
numbers = record { as_f64 = λ v. none; of_int = λ n. n; max_zero = λ x. x; neg = λ x. 0 }

abbrev pub settings : RouterSettings
settings = record { num_zones = 10; has_influx = true; has_pg_readings = true }

abbrev pub start : RouterState
start = record { cached = false; streams = []; points = []; rows = [] }

abbrev pub lost_reply : Weather
lost_reply = record {
  connects = true;
  zone_add = reply_lost;
  reconnects = true;
  zone_add_again = applied;
  unified_add = applied;
}

abbrev outside : Outside
outside = record {
  decimals = record { add = ◌+ℤ◌ };
  parse_json = λ raw. some none;
  cipher = none;
  rebuild_json = λ event_type plaintext. none;
  parse_event = λ json. event_of_type json (codes "value") reading;
  new_v5 = λ name. 7;
  trim_parse_u16 = λ z. none;
  as_u64 = λ v. none;
  as_f64 = λ v. none;
  parse_f64_str = λ v. none;
  is_nan = λ x. false;
  is_infinite = λ x. false;
  is_above_zero = λ x. true;
  abs = λ x. x;
  from_f64_retain = λ x. some (pos x);
}

agreement : Agrees codec outside reading
agreement = record {
  value = codes "value";
  plain = λ tag json made. (
    refl,
    λ e named. ap (λ t. event_of_type t (codes "value") reading) (sym (ground arith)) ∙ named,
  );
  seals = λ tag n t json e. absurd (ground arith);
  opens = λ encrypt e. absurd (ground arith);
  rebuilds = λ tag payload e. absurd (ground arith);
}

abbrev quiet : Zone
quiet = record {
  aggregator = record { active_bins = []; progress = []; settled = [] };
  bin_writes = [];
  frequencies = [];
  pending = [];
}

abbrev meets : Meets
meets = record { now = 2000; user = none; ack = applied }

encoded : encode codec reading ≡ some (codes "SmartMeterReading")
unfolding encode
encoded = refl

zone_of_reading : zone_index codec.hash 10 (some (codes "zone_2")) (codes "mtr-7") ≡ 2
unfolding zone_index named_zone
zone_of_reading = refl

-- The lost reply leaves two copies.
two_copies : copies lost_reply ≡ 2
two_copies = refl

disseminate-Disseminates_example :
    Disseminates codec numbers settings lost_reply reading
      (codes "SmartMeterReading")
      start
      (disseminate codec numbers settings lost_reply reading start)
disseminate-Disseminates_example =
    disseminate-Disseminates codec numbers settings lost_reply reading (codes "SmartMeterReading")
      start encoded (inr refl)

published_is_handled_example :
    (act outside (deliver meets (codes "1-0") (some (codes "SmartMeterReading"))) quiet).aggregator
    ≡ (handle_reading ⦃decimals = outside.decimals⦄ 2000
        (aggregator_reading outside none reading)
        quiet.aggregator).0
published_is_handled_example =
    published_is_handled codec outside reading agreement (codes "SmartMeterReading") (codes "1-0")
      meets quiet encoded
