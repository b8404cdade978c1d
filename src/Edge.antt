-- ===== src/Edge.antt =====
-- Where a reading leaves the API: `disseminate_reading` of crates/aggregator-api/src/handlers.rs, over the router, and
-- `MeterReadingEvent` of crates/aggregator-persistence/src/infra/kafka.rs. The tasks that it spawns for Kafka and
-- RabbitMQ are queued in the state.
pub mod Unified
pub mod Requests
pub mod Signed
pub mod Counts
pub mod Tests
use gridtokenx_aggregator_br.Base.{
  ℕ, Bool, true, false, Option, none, some, List, [], ◌∷◌, ◌++◌, if◌then◌else◌, nat_eq, list_eq,
}
use gridtokenx_aggregator_br.Base.Dict.{Dict, lookup}
use gridtokenx_aggregator_br.Base.Text.{codes}
use gridtokenx_aggregator_br.Billing.Bin.{Text, F64, f64_zero, unwrap_or}
use gridtokenx_aggregator_br.Billing.Time.{timestamp_millis}
use gridtokenx_aggregator_br.Router.{
  Codec, RouterSettings, RouterState, Weather, Disseminated, sent, failed, disseminate,
}
use gridtokenx_aggregator_br.Router.Points.{Numbers}
use gridtokenx_aggregator_br.Stream.Readings.{
  Value, DeviceMetrics, energy, ev_session, battery_state, DeviceReading,
}

pub record MeterReadingEvent : Type 0 where
  pub meter_id : Text
  pub timestamp : ℕ
  pub energy_generated : F64
  pub energy_consumed : F64
  pub surplus : F64
  pub voltage : F64
  pub frequency : F64
  pub power_factor : F64
  pub signature : Text
  pub verified : Bool
  pub confidence_score : F64

-- The bits of 230.0, 50.0 and 1.0.
abbrev pub nominal_voltage : F64
nominal_voltage = 0x406cc00000000000

abbrev pub nominal_frequency : F64
nominal_frequency = 0x4049000000000000

abbrev pub f64_one : F64
f64_one = 0x3ff0000000000000

-- The router, what is configured beside it, and how a JSON value reads as a text.
pub record Services : Type 0 where
  pub codec : Codec
  pub numbers : Numbers
  pub settings : RouterSettings
  pub kafka : Bool
  pub rabbitmq : Bool
  pub as_str : Value → Option Text

-- What the router keeps, the events that were handed to Kafka and the meters whose validation was asked for.
pub record Sinks : Type 0 where
  pub router : RouterState
  pub events : List MeterReadingEvent
  pub jobs : List Text

abbrev pub energies : DeviceMetrics → F64 × F64 × F64
energies (energy generated consumed net) = (generated, consumed, net)
energies (ev_session delivered session connector status) = (f64_zero, f64_zero, f64_zero)
energies (battery_state soc power temperature mode) = (f64_zero, f64_zero, f64_zero)

module _ (v : Services) where
  abbrev pub metadata_or : DeviceReading → Text → F64 → F64
  metadata_or r name default = elim (lookup name r.metadata) [
    | none ↦ default
    | some value ↦ unwrap_or (v.numbers.as_f64 value) default
  ]

  abbrev pub signature_of : Option Value → Text
  signature_of none = []
  signature_of (some value) = unwrap_or (v.as_str value) []

  unfoldable pub event_of : DeviceReading → Bool → MeterReadingEvent
  event_of r is_verified =
      let (generated, consumed, net) = energies r.metrics in
      record {
        meter_id = r.device_id;
        timestamp = timestamp_millis r.timestamp;
        energy_generated = generated;
        energy_consumed = consumed;
        surplus = net;
        voltage = metadata_or r (codes "voltage_v") nominal_voltage;
        frequency = metadata_or r (codes "frequency_hz") nominal_frequency;
        power_factor = metadata_or r (codes "power_factor") f64_one;
        signature = signature_of (lookup (codes "signature") r.metadata);
        verified = is_verified;
        confidence_score = if is_verified then f64_one else f64_zero;
      }

  abbrev pub publish_event : DeviceReading → Bool → Sinks → Sinks
  publish_event r is_verified s =
      if v.kafka then record s { events = s.events ++ (event_of r is_verified ∷ []) } else s

  abbrev pub submit_job : DeviceReading → Sinks → Sinks
  submit_job r s = if v.rabbitmq then record s { jobs = s.jobs ++ (r.device_id ∷ []) } else s

  abbrev pub after_router : DeviceReading → Bool → Sinks → Disseminated × RouterState → Bool × Sinks
  after_router r is_verified s (failed, router) = (false, record s { router = router })
  after_router r is_verified s (sent, router) =
      (true, submit_job r (publish_event r is_verified (record s { router = router })))

  -- Whether the response is a success: `ACCEPTED`, or `INTERNAL_SERVER_ERROR`.
  unfoldable pub disseminate_reading : Weather → DeviceReading → Bool → Sinks → Bool × Sinks
  unfolding event_of
  disseminate_reading w r is_verified s =
      after_router r is_verified s (disseminate v.codec v.numbers v.settings w r s.router)
