-- ===== src/Rest/Batch.antt =====
-- The batch handlers `ingest_private_network_batch` and `ingest_legacy_batch` of crates/aggregator-api/src/handlers.rs. Their
-- readings go to the router alone. Those of the first are sent at most 64 at a time; here one after another, in
-- their order. `visits` gives what each reading meets.
use gridtokenx_aggregator_br.Base.{
  ℕ, suc, Bool, true, false, not, ◌&&◌, ◌||◌, Option, none, some, List, [], ◌∷◌, ◌⊎◌, inl, inr,
  if◌then◌else◌, ◌==◌, nat_eq, list_eq,
}
use gridtokenx_aggregator_br.Base.Text.{codes}
use gridtokenx_aggregator_br.Billing.Bin.{Uuid, Text, f64_zero, unwrap_or}
use gridtokenx_aggregator_br.Edge.{Services}
use gridtokenx_aggregator_br.Edge.Requests.{Api}
use gridtokenx_aggregator_br.Edge.Unified.{Visit, signature_enforcement_disabled}
use gridtokenx_aggregator_br.Keys.Cache.{PrunedCache}
use gridtokenx_aggregator_br.Router.{Disseminated, sent, failed, RouterState, disseminate}
use gridtokenx_aggregator_br.Rest.Values.{
  RestCrates, StatusCode, bad_request, or_else, and_then, member, text_at, f64_at, stated_instant,
  resolve_protocol, is_supported_protocol, secure_mode_gate, rest_reading,
}
use gridtokenx_aggregator_br.Rest.{verify_rest_signature, is_true}
use gridtokenx_aggregator_br.Stream.Readings.{
  Value, DeviceType, DeviceReading, smart_meter, energy, target_stream,
}

pub record IngestResponse : Type 0 where
  pub status : Text
  pub reading_id : Uuid
  pub device_type : DeviceType
  pub stream : Text

abbrev pub status_of : Disseminated → Text
status_of sent = codes "accepted"
status_of failed = codes "failed"

module _ (r : RestCrates) where
  abbrev pub named : Option Value → Text
  named none = codes "unknown"
  named (some v) = unwrap_or (r.as_str v) (codes "unknown")

  abbrev pub legacy_device : Value → Text
  legacy_device item =
      named (or_else (member r (codes "meter_serial") item) (member r (codes "meter_id") item))

  abbrev pub batch_device : Value → Text
  batch_device item = named (
      or_else (member r (codes "device_id") item)
        (or_else (member r (codes "meter_id") item) (member r (codes "meter_serial") item)))

  unfoldable pub legacy_reading : Visit → Value → DeviceReading
  legacy_reading m item =
      let kwh = unwrap_or (f64_at r (codes "kwh") item) f64_zero in
      record {
        reading_id = m.drawn_id;
        device_id = legacy_device item;
        device_type = smart_meter;
        serial_number = legacy_device item;
        zone_code = text_at r (codes "zone_code") item;
        timestamp = unwrap_or (stated_instant r item) m.call.now;
        metrics =
            energy (unwrap_or (f64_at r (codes "energy_generated") item) kwh)
              (unwrap_or (f64_at r (codes "energy_consumed") item) f64_zero) kwh;
        metadata = unwrap_or (r.as_object item) [];
      }

module _ (v : Services) where
  abbrev pub response_of : DeviceReading → Disseminated → IngestResponse
  response_of reading d = record {
    status = status_of d;
    reading_id = reading.reading_id;
    device_type = reading.device_type;
    stream = target_stream reading.device_type;
  }

  unfoldable pub disseminate_all :
      List (Visit × DeviceReading) → RouterState → List IngestResponse × RouterState
  unfolding target_stream
  disseminate_all [] router = ([], router)
  disseminate_all ((m, reading) ∷ readings) router =
      let (d, router') = disseminate v.codec v.numbers v.settings m.weather reading router in
      let (responses, router'') = disseminate_all readings router' in
      (response_of reading d ∷ responses, router'')

  abbrev pub legacy_readings :
      RestCrates → (ℕ → Visit) → ℕ → List Value → List (Visit × DeviceReading)
  legacy_readings r visits i [] = []
  legacy_readings r visits i (item ∷ items) =
      (visits i, legacy_reading r (visits i) item) ∷ legacy_readings r visits (suc i) items

  -- Without an array of readings the request is bad. No signature, no protocol and no mode is looked at.
  unfoldable pub ingest_legacy_batch :
      RestCrates
      → (Value → Option (List Value))
      → (ℕ → Visit)
      → Value
      → RouterState
      → Option (List IngestResponse) × RouterState
  unfolding legacy_reading disseminate_all
  ingest_legacy_batch r as_array visits payload router =
      elim (and_then (member r (codes "readings") payload) as_array) [
        | none ↦ (none, router)
        | some items ↦
            let (responses, router') = disseminate_all (legacy_readings r visits 0 items) router in
            (some responses, router')
      ]

module _ {V : Type 0} (a : Api V) (r : RestCrates) where
  -- Whether an item passes, from the verdict on it.
  abbrev pub passes : Bool → Bool
  passes verified = verified || signature_enforcement_disabled a.allow_unverified a.env

  abbrev pub bypasses : Text → Bool
  bypasses protocol = protocol == codes "simulator" && not a.env.require_secure

  abbrev pub add_reading :
      Visit → Option DeviceReading → List (Visit × DeviceReading) → List (Visit × DeviceReading)
  add_reading m none readings = readings
  add_reading m (some reading) readings = (m, reading) ∷ readings

  abbrev pub item_verdict : Visit → Text → Value → PrunedCache V → Bool × PrunedCache V
  item_verdict m protocol item c =
      if bypasses protocol
      then (true, c)
      else let (verdict, c') = verify_rest_signature a r m.call (batch_device r item) item c in
        (is_true a r verdict, c')

  -- The readings to disseminate, an item that does not pass being skipped.
  unfoldable pub collect_readings :
      (ℕ → Visit)
      → ℕ
      → Text
      → List Value
      → PrunedCache V
      → List (Visit × DeviceReading) × PrunedCache V
  unfolding verify_rest_signature rest_reading
  collect_readings visits i protocol [] c = ([], c)
  collect_readings visits i protocol (item ∷ items) c =
      let (verified, c') = item_verdict (visits i) protocol item c in
      let (readings, c'') = collect_readings visits (suc i) protocol items c' in
      (
        if passes verified
            then add_reading (visits i)
                (rest_reading r (visits i) protocol (batch_device r item) item) readings
            else readings,
        c'',
      )

  abbrev pub top_ok : Text → Bool
  top_ok top = top == [] || top == codes "auto" || is_supported_protocol top

  abbrev pub batch_responses :
      (ℕ → Visit)
      → Text
      → List Value
      → PrunedCache V × RouterState
      → (StatusCode ⊎ List IngestResponse) × PrunedCache V × RouterState
  batch_responses visits top items (c, router) =
      let (readings, c') = collect_readings visits 0 (resolve_protocol r top) items c in
      let (responses, router') = disseminate_all a.services readings router in
      (inr responses, c', router')

  -- An error status, or the responses.
  unfoldable pub ingest_private_network_batch :
      (ℕ → Visit)
      → Text
      → List Value
      → PrunedCache V × RouterState
      → (StatusCode ⊎ List IngestResponse) × PrunedCache V × RouterState
  unfolding collect_readings disseminate_all
  ingest_private_network_batch visits protocol items s =
      elim (secure_mode_gate a.env.require_secure false) [
        | some code ↦ (inl code, s.0, s.1)
        | none ↦
            if top_ok (r.to_lowercase protocol)
            then batch_responses visits (r.to_lowercase protocol) items s
            else (inl bad_request, s.0, s.1)
      ]
