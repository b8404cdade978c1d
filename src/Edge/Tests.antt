-- ===== src/Edge/Tests.antt =====
-- Runs of the gRPC requests: a signed reading with its frame, an unsigned one, and a signed one for another serial.
use gridtokenx_aggregator_br.Base.{
  ℕ, ◌≡◌, refl, true, false, none, some, List, [], ◌∷◌, All, list_eq, nat_eq, map,
}
use gridtokenx_aggregator_br.Base.Int.{pos, pos_part}
use gridtokenx_aggregator_br.Base.Print.{digits, value}
use gridtokenx_aggregator_br.Base.Text.{codes}
use gridtokenx_aggregator_br.Edge.{Services}
use gridtokenx_aggregator_br.Edge.Counts.{Reported, ingest_batch-Reported}
use gridtokenx_aggregator_br.Edge.Signed.{Attested}
use gridtokenx_aggregator_br.Edge.Signed.Request.{BeforeOrOfRequest, ingest-OfRequest}
use gridtokenx_aggregator_br.Edge.Signed.Batch.{ingest_batch-Attested}
use gridtokenx_aggregator_br.Edge.Unified.{
  MeterReading, Visit, Parsers, State, IngestOutcome, accepted,
}
use gridtokenx_aggregator_br.Edge.Requests.{Api, ingest, ingest_batch}
use gridtokenx_aggregator_br.Ingest.Tests as Frames
use gridtokenx_aggregator_br.Base.Dict.{lookup}
use gridtokenx_aggregator_br.Keys.Verifier.{
  verify_telemetry_signature, resolve_pubkey, keep_pubkey, parse_ed25519_pubkey,
}
use gridtokenx_aggregator_br.Router.{disseminate, zone_stream}
use gridtokenx_aggregator_br.Router.Points.{reading_to_row, reading_to_point}
use gridtokenx_aggregator_br.Stream.Readings.{target_stream}
use gridtokenx_aggregator_br.Keys.Cache.{
  cache_get, get_with_retry, Ttl, new_cache, pubkey_ttl, enckey_ttl,
}
use gridtokenx_aggregator_br.Keys.Latency.{at}
use gridtokenx_aggregator_br.Router.Tests as Routes

abbrev pub parsers : Parsers
parsers = record {
  parse_f64 = λ s. value 0 s;
  parse_uuid = λ s. none;
  timestamp_opt = λ t. some (pos_part t);
  frame_instant = λ t. pos_part t;
  json_f64 = λ x. digits 20 x;
  json_str = λ s. s;
}

abbrev pub services : Services
services = record {
  codec = Routes.codec;
  numbers = Routes.numbers;
  settings = Routes.settings;
  kafka = true;
  rabbitmq = true;
  as_str = λ value. some value;
}

abbrev pub pubkeys : Ttl
pubkeys = pubkey_ttl none none

abbrev pub enckeys : Ttl
enckeys = enckey_ttl none none

abbrev pub api : Api (List ℕ)
api = record {
  parsers = parsers;
  floats = Frames.floats;
  codec = Frames.codec;
  crates = Frames.crates;
  enckeys = enckeys;
  pubkeys = pubkeys;
  env = Frames.env;
  allow_unverified = false;
  services = services;
}

abbrev pub visit : Visit
visit = record {
  call = at Frames.crates pubkeys Frames.past 5 Frames.healthy;
  weather = Routes.lost_reply;
  drawn_id = 11;
  receipt_id = 12;
}

abbrev signed : MeterReading
signed = record {
  reading_id = codes "r1";
  meter_id = codes "METER042";
  meter_serial = codes "METER042";
  zone_code = some (codes "zone_2");
  kwh = codes "3";
  energy_generated = some (codes "5");
  energy_consumed = some (codes "2");
  timestamp = pos 1700000000;
  raw_payload = Frames.frame;
  signature = some Frames.sig;
}

abbrev unsigned : MeterReading
unsigned = record signed { raw_payload = []; signature = none }

-- The signature is over the id, the energy and the time, so it fits another serial and other energies.
abbrev other_serial : MeterReading
other_serial = record signed {
  meter_serial = codes "METER999";
  energy_generated = some (codes "900");
  raw_payload = [];
}

abbrev pub state : State (List ℕ)
state = record {
  sinks = record { router = Routes.start; events = []; jobs = [] };
  keys = new_cache 0;
  pubs = new_cache 0;
}

ingest-OfRequest_example :
    All
      (BeforeOrOfRequest api Frames.past 5 signed [])
      (ingest api visit signed state).1.sinks.events
ingest-OfRequest_example =
    ingest-OfRequest api Frames.past 5 Frames.healthy visit signed state refl tt

ingest_batch-Attested_example :
    All
      (Attested api Frames.past 5)
      (ingest_batch api ((visit, signed) ∷ (visit, unsigned) ∷ []) state).1.sinks.events
ingest_batch-Attested_example =
    ingest_batch-Attested api Frames.past 5 ((visit, signed) ∷ (visit, unsigned) ∷ []) state
      ((Frames.healthy, refl), ((Frames.healthy, refl), tt)) tt tt

ingest_batch-Reported_example :
    Reported
      ((visit, unsigned) ∷ (visit, other_serial) ∷ [])
      (ingest_batch api ((visit, unsigned) ∷ (visit, other_serial) ∷ []) state).0
ingest_batch-Reported_example =
    ingest_batch-Reported api ((visit, unsigned) ∷ (visit, other_serial) ∷ []) state

abbrev run_of_other : IngestOutcome × State (List ℕ)
run_of_other = ingest api visit other_serial state

other_serial_accepted : run_of_other.0 ≡ accepted 12
unfolding ingest verify_telemetry_signature resolve_pubkey cache_get lookup keep_pubkey
    get_with_retry parse_ed25519_pubkey disseminate
other_serial_accepted = refl

-- It is handed on as verified, under the serial that was not signed.
other_serial_verified : map (λ e. e.verified) run_of_other.1.sinks.events ≡ true ∷ []
unfolding ingest verify_telemetry_signature resolve_pubkey cache_get lookup keep_pubkey
    get_with_retry parse_ed25519_pubkey disseminate
other_serial_verified = refl

other_serial_stored :
    map (λ r. r.serial_number) run_of_other.1.sinks.router.rows ≡ codes "METER999" ∷ []
unfolding ingest verify_telemetry_signature resolve_pubkey cache_get lookup keep_pubkey
    get_with_retry parse_ed25519_pubkey disseminate reading_to_row reading_to_point target_stream
    zone_stream
other_serial_stored = refl
