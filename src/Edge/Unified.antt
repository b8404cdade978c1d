-- ===== src/Edge/Unified.antt =====
-- `ingest` and `ingest_batch` of crates/aggregator-api/src/grpc/service.rs. The environment variables are Booleans; a
-- reading is handled at one instant, with the random ids that it draws.
use gridtokenx_aggregator_br.Base.{
  ℕ, Bool, not, ◌&&◌, Option, none, some, List, [], ◌∷◌, ◌++◌, if◌then◌else◌, nat_eq, list_eq,
}
use gridtokenx_aggregator_br.Base.Dict.{Dict, insert}
use gridtokenx_aggregator_br.Base.Int.{ℤ}
use gridtokenx_aggregator_br.Base.Print.{to_string}
use gridtokenx_aggregator_br.Base.Text.{codes}
use gridtokenx_aggregator_br.Billing.Bin.{Uuid, Text, F64, f64_zero, unwrap_or}
use gridtokenx_aggregator_br.Billing.Time.{Timestamp}
use gridtokenx_aggregator_br.Edge.{Sinks}
use gridtokenx_aggregator_br.Frame.Tlv.{DlmsBinaryFrame}
use gridtokenx_aggregator_br.Ingest.{
  Env, Secured, decoded, skipped, panicked, Floats, f64_thousand, f64_hundred,
}
use gridtokenx_aggregator_br.Keys.Cache.{PrunedCache}
use gridtokenx_aggregator_br.Keys.Registry.{Key}
use gridtokenx_aggregator_br.Keys.Verifier.{Call}
use gridtokenx_aggregator_br.Router.{Weather}
use gridtokenx_aggregator_br.Stream.Readings.{Value, smart_meter, DeviceReading, energy}

-- The fields of the request message that the service reads.
pub record MeterReading : Type 0 where
  pub reading_id : Text
  pub meter_id : Text
  pub meter_serial : Text
  pub zone_code : Option Text
  pub kwh : Text
  pub energy_generated : Option Text
  pub energy_consumed : Option Text
  pub timestamp : ℤ
  pub raw_payload : List ℕ
  pub signature : Option Text

-- What one reading meets: Redis and the clock, the fates of the router's commands, and a random reading id and receipt.
pub record Visit : Type 0 where
  pub call : Call
  pub weather : Weather
  pub drawn_id : Uuid
  pub receipt_id : Uuid

-- Numbers, uuids, instants and JSON: `parse` of an `f64` and of a `Uuid`, `Utc.timestamp_opt` of seconds, the instant of a
-- frame, and `json!`.
pub record Parsers : Type 0 where
  pub parse_f64 : Text → Option F64
  pub parse_uuid : Text → Option Uuid
  pub timestamp_opt : ℤ → Option Timestamp
  pub frame_instant : ℤ → Timestamp
  pub json_f64 : F64 → Value
  pub json_str : Text → Value

pub data ConnectError : Type 0 where
  permission_denied unauthenticated invalid_argument internal : ConnectError

-- Past the signature gate: with a verified signature or not.
pub data Gate : Type 0 where
  admitted : Bool → Gate
  denied : ConnectError → Gate

pub data IngestOutcome : Type 0 where
  accepted : Uuid → IngestOutcome
  error : ConnectError → IngestOutcome
  request_panicked : IngestOutcome

-- The sinks, the cache of device keys and that of public keys.
pub record State (V : Type 0) : Type 0 where
  pub sinks : Sinks
  pub keys : PrunedCache Key
  pub pubs : PrunedCache V

-- The counts are far below 2^31.
pub record BatchResponse : Type 0 where
  pub receipt_ids : List Uuid
  pub status : Text
  pub accepted_count : ℕ
  pub rejected_count : ℕ

unfoldable pub grpc_sign_target : Text → Text → ℤ → Text
unfolding to_string
grpc_sign_target meter_id kwh timestamp =
    meter_id ++ (codes ":" ++ (kwh ++ (codes ":" ++ to_string timestamp)))

-- `allow_unverified`: `AGGREGATOR_ALLOW_UNVERIFIED_TELEMETRY` is `true`.
abbrev pub signature_enforcement_disabled : Bool → Env → Bool
signature_enforcement_disabled allow_unverified env = not env.require_secure && allow_unverified

-- The canonical target, then the binary payload if there is one.
unfoldable pub candidates : MeterReading → List Text
unfolding grpc_sign_target
candidates q =
    grpc_sign_target q.meter_id q.kwh q.timestamp
    ∷ elim q.raw_payload [ [] ↦ [] | b ∷ bytes ↦ (b ∷ bytes) ∷ [] ]

abbrev pub parsed_or : (Text → Option F64) → Option Text → F64 → F64
parsed_or parse none default = default
parsed_or parse (some s) default = unwrap_or (parse s) default

-- The fields that a frame may overwrite.
pub record Figures : Type 0 where
  pub generated_kwh : F64
  pub consumed_kwh : F64
  pub timestamp : Timestamp
  pub metadata : Dict Text Value

module _ (pa : Parsers) (fl : Floats) where
  unfoldable pub stated : ℕ → MeterReading → Figures
  stated now q = record {
    generated_kwh = parsed_or pa.parse_f64 q.energy_generated f64_zero;
    consumed_kwh = parsed_or pa.parse_f64 q.energy_consumed f64_zero;
    timestamp = unwrap_or (pa.timestamp_opt q.timestamp) now;
    metadata = [];
  }

  abbrev pub scaled_or : Option ℕ → F64 → F64
  scaled_or none default = default
  scaled_or (some wh) default = fl.div (fl.of_int wh) f64_thousand

  abbrev pub insert_figure : Text → Option ℕ → F64 → Dict Text Value → Dict Text Value
  insert_figure name none divisor m = m
  insert_figure name (some n) divisor m = insert name (pa.json_f64 (fl.div (fl.of_int n) divisor)) m

  -- What a decoded frame overwrites; a single request keeps more of its registers than a batch.
  unfoldable pub framed : Bool → DlmsBinaryFrame → Figures → Figures
  framed single f g = record {
    generated_kwh = scaled_or f.active_energy_export_wh g.generated_kwh;
    consumed_kwh = scaled_or f.active_energy_import_wh g.consumed_kwh;
    timestamp = pa.frame_instant f.timestamp;
    metadata =
        let registers =
          if single
          then insert_figure (codes "battery_level_pct") f.battery_soc_bps f64_hundred (
              insert_figure (codes "current_a") f.current_ma f64_thousand
                (insert_figure (codes "voltage_v") f.voltage_cv f64_hundred g.metadata))
          else g.metadata in
        insert (codes "dlms_manufacturer_id") (pa.json_str f.manufacturer_id) registers;
  }

  unfoldable pub reading_of_request : Uuid → MeterReading → Figures → DeviceReading
  reading_of_request drawn_id q g = record {
    reading_id = unwrap_or (pa.parse_uuid q.reading_id) drawn_id;
    device_id = q.meter_id;
    device_type = smart_meter;
    serial_number = q.meter_serial;
    zone_code = q.zone_code;
    timestamp = g.timestamp;
    metrics =
        energy g.generated_kwh g.consumed_kwh
          (unwrap_or (pa.parse_f64 q.kwh) (fl.sub g.generated_kwh g.consumed_kwh));
    metadata = g.metadata;
  }

  -- What the decoding of the raw payload leaves of the figures; a panic of the decoder leaves none.
  abbrev pub secured_figures : Bool → Secured → Figures → Option Figures
  secured_figures single (decoded f) g = some (framed single f g)
  secured_figures single skipped g = some g
  secured_figures single panicked g = none
