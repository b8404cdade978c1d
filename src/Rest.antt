-- ===== src/Rest.antt =====
-- The REST handler `ingest_private_network` of crates/aggregator-api/src/handlers.rs and what it calls: the decryption of an
-- envelope, the gate of secure mode, the ladder of signed forms and the dissemination. serde_json, chrono, base64,
-- AES-256-GCM and the text of an `f64` are parameters. A request is handled at one instant.
pub mod Values
pub mod Batch
pub mod Checked
pub mod Opened
pub mod Secure
pub mod Counted
pub mod Replayed
pub mod Tests
use gridtokenx_aggregator_br.Base.{
  ℕ, ◌/◌, Bool, true, false, not, ◌&&◌, ◌||◌, Option, none, some, List, [], ◌∷◌, ◌++◌, length,
  if◌then◌else◌, ◌==◌, nat_eq, list_eq,
}
use gridtokenx_aggregator_br.Base.Dict.{Dict, lookup, remove}
use gridtokenx_aggregator_br.Base.Int.{ℤ, pos}
use gridtokenx_aggregator_br.Base.Print.{to_string}
use gridtokenx_aggregator_br.Base.Text.{codes}
use gridtokenx_aggregator_br.Billing.Bin.{Text, F64, f64_zero, unwrap_or}
use gridtokenx_aggregator_br.Billing.Time.{Timestamp, timestamp_millis}
use gridtokenx_aggregator_br.Dlms.{
  DlmsCrates, elec_active_import_total, elec_active_export_total, handle_message,
}
use gridtokenx_aggregator_br.Edge.{disseminate_reading}
use gridtokenx_aggregator_br.Edge.Requests.{Api, try_candidates}
use gridtokenx_aggregator_br.Edge.Unified.{
  Visit, State, grpc_sign_target, signature_enforcement_disabled,
}
use gridtokenx_aggregator_br.Keys.Cache.{Result, ok, err, PrunedCache}
use gridtokenx_aggregator_br.Keys.Counter.{Doubles, check_and_bump_counter}
use gridtokenx_aggregator_br.Keys.Registry.{
  Key, VersionedKeyCache, get_device_aes_key, get_device_aes_key_versioned,
}
use gridtokenx_aggregator_br.Keys.Verifier.{Call}
use gridtokenx_aggregator_br.Redis.{Fate}
use gridtokenx_aggregator_br.Stream.Readings.{Value, DeviceReading, smart_meter, energy}
use gridtokenx_aggregator_br.Rest.Values.{
  DecryptOutcome, Envelope, PrivateNetworkPayload, RestCrates, StatusCode, aad, accepted, and_then,
  bad, bad_request, canonical_sign_value, conflict, envelope_of, f64_at, failure_of, forbidden,
  in_kwh, internal_server_error, is_supported_protocol, json_form, kwh_text, member, num, or_else,
  parse_envelope, recovered, replay, resolve_protocol, rest_reading, rest_sign_candidates,
  secure_mode_gate, sig_failure_status, signed_forms, signed_ms, simulator_reading, stated_instant,
  text_at, unauthorized, upgrade_required,
}

-- What the handlers keep between requests: beside the gRPC service's state the rotated keys and, in Redis, the counters.
pub record RestState (V : Type 0) : Type 0 where
  pub edge : State V
  pub versioned : VersionedKeyCache
  pub counters : Dict Text ℤ

module _ {V : Type 0} (a : Api V) (r : RestCrates) where
  abbrev pub envelope_key : Call → Text → Option ℤ → RestState V → Result (Option Key) × RestState V
  envelope_key call id (some kid) s =
      let (key, c) =
        get_device_aes_key_versioned a.crates a.enckeys call r.vault id kid s.versioned in
      (key, record s { versioned = c })
  envelope_key call id none s =
      let (key, c) = get_device_aes_key a.crates a.enckeys call id s.edge.keys in
      (key, record s { edge = record s.edge { keys = c } })

  abbrev pub counted : Result Bool → List ℕ → DecryptOutcome
  counted err p = bad
  counted (ok false) p = replay
  counted (ok true) p = elim (r.from_slice p) [ none ↦ bad | some v ↦ recovered v ]

  -- Only a plaintext that was authenticated reaches the counter.
  abbrev pub opened : Fate → Text → ℤ → Option (List ℕ) → RestState V → DecryptOutcome × RestState V
  opened fate id counter none s = (bad, s)
  opened fate id counter (some p) s =
      let (verdict, ics) = check_and_bump_counter r.doubles fate id counter s.counters in
      (counted verdict p, record s { counters = ics })

  abbrev pub with_aes_key :
      Fate → Text → Envelope → Result (Option Key) → RestState V → DecryptOutcome × RestState V
  with_aes_key fate id e err s = (bad, s)
  with_aes_key fate id e (ok none) s = (bad, s)
  with_aes_key fate id e (ok (some k)) s =
      opened fate id e.counter (r.decrypt k e.nonce (aad r id e.counter) e.ciphertext) s

  abbrev pub open_envelope :
      Fate → Call → Text → Option Envelope → RestState V → DecryptOutcome × RestState V
  open_envelope fate call id none s = (bad, s)
  open_envelope fate call id (some e) s =
      let (key, s') = envelope_key call id e.kid s in with_aes_key fate id e key s'

  unfoldable pub decrypt_dlms_envelope :
      Fate → Call → Text → Value → RestState V → DecryptOutcome × RestState V
  decrypt_dlms_envelope fate call id payload s =
      open_envelope fate call id (parse_envelope r payload) s

  unfoldable pub verify_rest_signature :
      Call → Text → Value → PrunedCache V → Result Bool × PrunedCache V
  unfolding try_candidates rest_sign_candidates canonical_sign_value
  verify_rest_signature call id payload c =
      try_candidates a call id (unwrap_or (text_at r (codes "signature") payload) [])
        (signed_forms r id payload) c

  abbrev pub disseminated :
      Visit → Option DeviceReading → Bool → RestState V → StatusCode × RestState V
  disseminated m none verified s = (bad_request, s)
  disseminated m (some reading) verified s =
      let (success, sinks) =
        disseminate_reading a.services m.weather reading verified s.edge.sinks in
      (
        if success then accepted else internal_server_error,
        record s { edge = record s.edge { sinks = sinks } },
      )

  abbrev pub is_true : Result Bool → Bool
  is_true (ok true) = true
  is_true _ = false

  -- With the verdict on the signature.
  abbrev pub after_verdict :
      Visit → Option DeviceReading → Result Bool → RestState V → StatusCode × RestState V
  after_verdict m reading verdict s =
      elim (sig_failure_status verdict (signature_enforcement_disabled a.allow_unverified a.env)) [
        | some code ↦ (code, s)
        | none ↦ disseminated m reading (is_true verdict) s
      ]

  abbrev pub past_protocol : Visit → Text → Text → Value → RestState V → StatusCode × RestState V
  past_protocol m protocol id payload s =
      if protocol == codes "simulator" && not a.env.require_secure
      then disseminated m (rest_reading r m protocol id payload) true s
      else let (verdict, pubs) = verify_rest_signature m.call id payload s.edge.pubs in
        after_verdict m (rest_reading r m protocol id payload) verdict
          (record s { edge = record s.edge { pubs = pubs } })

  -- From the gate of secure mode on.
  unfoldable pub past_decryption :
      Visit → Bool → PrivateNetworkPayload → RestState V → StatusCode × RestState V
  unfolding verify_rest_signature rest_reading disseminate_reading
  past_decryption m was_encrypted q s = elim (secure_mode_gate a.env.require_secure was_encrypted) [
    | some code ↦ (code, s)
    | none ↦
        let protocol = resolve_protocol r q.protocol in
        if is_supported_protocol protocol
        then past_protocol m protocol q.device_id q.payload s
        else (bad_request, s)
  ]

  abbrev pub decrypted :
      Visit → PrivateNetworkPayload → DecryptOutcome × RestState V → StatusCode × RestState V
  decrypted m q (bad, s) = (bad_request, s)
  decrypted m q (replay, s) = (conflict, s)
  decrypted m q (recovered v, s) =
      past_decryption m true (record q { payload = v; protocol = codes "dlms" }) s

  -- With the fate of the counter's command.
  unfoldable pub ingest_private_network :
      Visit → Fate → PrivateNetworkPayload → RestState V → StatusCode × RestState V
  unfolding past_decryption decrypt_dlms_envelope
  ingest_private_network m fate q s =
      if r.to_lowercase q.protocol == codes "dlms-enc"
      then decrypted m q (decrypt_dlms_envelope fate m.call q.device_id q.payload s)
      else past_decryption m false q s
