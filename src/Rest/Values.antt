-- ===== src/Rest/Values.antt =====
-- The values that the REST handlers of crates/aggregator-api/src/handlers.rs read from a payload: the signed forms, the envelope
-- and the readings; and what a status stands for. serde_json, chrono, base64, AES-256-GCM and the text of an `f64` are
-- parameters.
use gridtokenx_aggregator_br.Base.{
  ℕ, ◌/◌, Bool, true, false, not, ◌&&◌, ◌||◌, Option, none, some, List, [], ◌∷◌, ◌++◌, length,
  if◌then◌else◌, ◌==◌, nat_eq, list_eq,
}
use gridtokenx_aggregator_br.Base.Dict.{Dict, lookup, remove}
use gridtokenx_aggregator_br.Base.Int.{ℤ, pos}
use gridtokenx_aggregator_br.Base.Print.{to_string}
use gridtokenx_aggregator_br.Base.Text.{codes}
use gridtokenx_aggregator_br.Billing.Bin.{Text, F64, f64_zero, unwrap_or}
use gridtokenx_aggregator_br.Billing.Time.{Timestamp, timestamp_millis}
use gridtokenx_aggregator_br.Dlms.{
  DlmsCrates, elec_active_import_total, elec_active_export_total, handle_message,
}
use gridtokenx_aggregator_br.Edge.Unified.{Visit, grpc_sign_target}
use gridtokenx_aggregator_br.Keys.Cache.{Result, ok, err}
use gridtokenx_aggregator_br.Keys.Counter.{Doubles}
use gridtokenx_aggregator_br.Keys.Registry.{Key}
use gridtokenx_aggregator_br.Stream.Readings.{Value, DeviceReading, smart_meter, energy}

-- The crates; `decrypt` takes the key, the nonce, the associated data and the ciphertext.
pub record RestCrates : Type 0 where
  pub as_object : Value → Option (Dict Text Value)
  pub as_f64 : Value → Option F64
  pub as_str : Value → Option Text
  pub as_i64 : Value → Option ℤ
  pub to_vec : Value → Option (List ℕ)
  pub object_to_vec : Dict Text Value → Option (List ℕ)
  pub from_slice : List ℕ → Option Value
  pub parse_f64 : Text → Option F64
  pub print_f64 : F64 → Text
  pub div_thousand : F64 → F64
  pub parse_from_rfc3339 : Text → Option Timestamp
  pub to_lowercase : Text → Text
  pub decode_base64 : Text → Option (List ℕ)
  pub decrypt : Key → List ℕ → List ℕ → List ℕ → Option (List ℕ)
  pub doubles : Doubles
  pub dlms : DlmsCrates
  pub vault : Option (Text → Option Key)

pub record PrivateNetworkPayload : Type 0 where
  pub protocol : Text
  pub device_id : Text
  pub payload : Value

pub data StatusCode : Type 0 where
  accepted internal_server_error bad_request conflict upgrade_required forbidden unauthorized :
      StatusCode

abbrev pub secure_mode_gate : Bool → Bool → Option StatusCode
secure_mode_gate secure_mode was_encrypted =
    if secure_mode && not was_encrypted then some upgrade_required else none

abbrev pub failure_of : Result Bool → Option StatusCode
failure_of (ok true) = none
failure_of (ok false) = some forbidden
failure_of err = some unauthorized

abbrev pub sig_failure_status : Result Bool → Bool → Option StatusCode
sig_failure_status verified enforcement_disabled =
    if enforcement_disabled then none else failure_of verified

abbrev pub is_supported_protocol : Text → Bool
is_supported_protocol resolved = resolved == codes "dlms" || resolved == codes "simulator"

abbrev pub or_else : {A : Type 0} → Option A → Option A → Option A
or_else none other = other
or_else (some a) other = some a

abbrev pub and_then : {A B : Type 0} → Option A → (A → Option B) → Option B
and_then none f = none
and_then (some a) f = f a

pub record Envelope : Type 0 where
  pub counter : ℤ
  pub kid : Option ℤ
  pub nonce : List ℕ
  pub ciphertext : List ℕ

pub data DecryptOutcome : Type 0 where
  recovered : Value → DecryptOutcome
  replay bad : DecryptOutcome

-- A nonce has 12 bytes.
abbrev pub envelope_of : Option ℤ → Option ℤ → Option (List ℕ) → Option (List ℕ) → Option Envelope
envelope_of (some counter) kid (some nonce) (some ciphertext) =
    if length nonce == 12
    then some (record { counter = counter; kid = kid; nonce = nonce; ciphertext = ciphertext })
    else none
envelope_of _ _ _ _ = none

module _ (r : RestCrates) where
  abbrev pub resolve_protocol : Text → Text
  resolve_protocol raw =
      let p = r.to_lowercase raw in if p == [] || p == codes "auto" then codes "dlms" else p

  abbrev pub member : Text → Value → Option Value
  member name v = and_then (r.as_object v) (lookup name)

  abbrev pub text_at : Text → Value → Option Text
  text_at name v = and_then (member name v) r.as_str

  abbrev pub f64_at : Text → Value → Option F64
  f64_at name v = and_then (member name v) r.as_f64

  -- A number, or a text that parses as one.
  abbrev pub num : Text → Value → Option F64
  num name v =
      and_then (member name v) (λ x. or_else (r.as_f64 x) (and_then (r.as_str x) r.parse_f64))

  abbrev pub in_kwh : Option F64 → Option F64
  in_kwh none = none
  in_kwh (some wh) = some (r.div_thousand wh)

  unfoldable pub canonical_sign_value : Value → Text
  canonical_sign_value v = r.print_f64 (
      unwrap_or
        (or_else (num (codes "kwh") v) (
          or_else (num (codes "energy_consumed") v) (
            or_else (num (codes "energy_generated") v) (
              or_else (in_kwh (num elec_active_import_total v))
                (in_kwh (num elec_active_export_total v))))))
        f64_zero)

  unfoldable pub kwh_text : Value → Text
  kwh_text v = r.print_f64 (
      unwrap_or
        (or_else (num (codes "kwh") v)
          (or_else (f64_at (codes "energy_consumed") v) (f64_at (codes "energy_generated") v)))
        f64_zero)

  abbrev pub stated_instant : Value → Option Timestamp
  stated_instant v = r.parse_from_rfc3339 (unwrap_or (text_at (codes "timestamp") v) [])

  abbrev pub signed_ms : Option Timestamp → ℕ
  signed_ms none = 0
  signed_ms (some t) = timestamp_millis t

  -- The object without its signature.
  abbrev pub json_form : Option (Dict Text Value) → List Text
  json_form none = []
  json_form (some members) = elim (r.object_to_vec (remove (codes "signature") members)) [
    | none ↦ []
    | some bytes ↦ bytes ∷ []
  ]

  unfoldable pub rest_sign_candidates : Text → Text → ℕ → Value → List Text
  unfolding grpc_sign_target
  rest_sign_candidates device_id kwh ms payload =
      grpc_sign_target device_id kwh (pos ms)
      ∷ grpc_sign_target device_id kwh (pos (ms / 1000))
      ∷ json_form (r.as_object payload)

  -- What a payload is signed as.
  abbrev pub signed_forms : Text → Value → List Text
  signed_forms device_id payload =
      rest_sign_candidates device_id (canonical_sign_value payload)
        (signed_ms (stated_instant payload)) payload

  abbrev pub parse_envelope : Value → Option Envelope
  parse_envelope payload = and_then (member (codes "enc") payload) (λ enc.
      envelope_of (and_then (member (codes "counter") enc) r.as_i64)
        (and_then (member (codes "kid") enc) r.as_i64)
        (r.decode_base64 (unwrap_or (text_at (codes "nonce") enc) []))
        (r.decode_base64 (unwrap_or (text_at (codes "ciphertext") enc) [])))

  abbrev pub aad : Text → ℤ → List ℕ
  aad device_id counter = device_id ++ (codes ":" ++ to_string counter)

  -- An unsigned reading of the simulator; the net energy is the printed one, read back.
  unfoldable pub simulator_reading : Visit → Text → Value → DeviceReading
  simulator_reading m device_id payload = record {
    reading_id = m.drawn_id;
    device_id = device_id;
    device_type = smart_meter;
    serial_number = device_id;
    zone_code = text_at (codes "zone_code") payload;
    timestamp = unwrap_or (stated_instant payload) m.call.now;
    metrics =
        energy (unwrap_or (f64_at (codes "energy_generated") payload) f64_zero)
          (unwrap_or (f64_at (codes "energy_consumed") payload) f64_zero)
          (unwrap_or (r.parse_f64 (kwh_text payload)) f64_zero);
    metadata = unwrap_or (r.as_object payload) [];
  }

  -- The reading of a past_protocol payload.
  unfoldable pub rest_reading : Visit → Text → Text → Value → Option DeviceReading
  rest_reading m protocol device_id payload =
      if protocol == codes "simulator"
      then some (simulator_reading m device_id payload)
      else handle_message r.dlms m.call.now m.drawn_id device_id (unwrap_or (r.to_vec payload) [])
