-- ===== src/Rest/Tests.antt =====
-- Runs of the REST handlers in secure mode: an encrypted request, its replay, and a batch. A JSON value is a name for an
-- object or a text, and the cipher changes nothing.
use gridtokenx_aggregator_br.Base.{
  ℕ, ◌≡◌, ◌≢◌, refl, Option, none, some, List, [], ◌∷◌, All, if◌then◌else◌, ◌==◌, nat_eq, list_eq,
  arith,
}
use gridtokenx_aggregator_br.Base.Dict.{Dict, lookup, remove}
use gridtokenx_aggregator_br.Base.Int.{pos}
use gridtokenx_aggregator_br.Base.Print.{digits}
use gridtokenx_aggregator_br.Base.Text.{codes}
use gridtokenx_aggregator_br.Billing.Bin.{Text}
use gridtokenx_aggregator_br.Dlms.{handle_message}
use gridtokenx_aggregator_br.Dlms.Tests as Meters
use gridtokenx_aggregator_br.Edge.Tests as Requests
use gridtokenx_aggregator_br.Ingest.Tests as Frames
use gridtokenx_aggregator_br.Keys.Cache.{cache_get, get_with_retry}
use gridtokenx_aggregator_br.Keys.Counter.{check_and_bump_counter, bump_script}
use gridtokenx_aggregator_br.Keys.Registry.{get_device_aes_key, keep_enckey, decode_aes_key_hex}
use gridtokenx_aggregator_br.Keys.Tests as Counters
use gridtokenx_aggregator_br.Keys.Verifier.{
  verify_telemetry_signature, resolve_pubkey, keep_pubkey, parse_ed25519_pubkey,
}
use gridtokenx_aggregator_br.Redis.{applied}
use gridtokenx_aggregator_br.Rest.Values.{RestCrates, PrivateNetworkPayload, StatusCode, accepted}
use gridtokenx_aggregator_br.Rest.{RestState, ingest_private_network}
use gridtokenx_aggregator_br.Rest.Batch.{collect_readings, ingest_legacy_batch}
use gridtokenx_aggregator_br.Rest.Checked.{OfChecked, collect_readings-OfChecked}
use gridtokenx_aggregator_br.Rest.Replayed.{ingest_run, replay_not_accepted}
use gridtokenx_aggregator_br.Rest.Secure.{Evidence, accepted_in_secure_mode}
use gridtokenx_aggregator_br.Router.{disseminate}
use gridtokenx_aggregator_br.Stream.Readings.{Value, smart_meter, target_stream}

abbrev members : Value → Option (Dict Text Value)
members v =
    if v == codes "request"
    then some ((codes "enc", codes "envelope") ∷ [])
    else if v == codes "envelope"
    then some (
        (codes "counter", codes "7")
        ∷ (codes "nonce", codes "nonce_of_12b")
        ∷ (codes "ciphertext", codes "registers")
        ∷ [])
    else if v == codes "registers"
    then some ((codes "signature", Frames.sig) ∷ (codes "device_id", codes "METER042") ∷ [])
    else none

abbrev rest_crates : RestCrates
rest_crates = record {
  as_object = members;
  as_f64 = λ v. none;
  as_str = λ v. some v;
  as_i64 = λ v. if v == codes "7" then some (pos 7) else none;
  to_vec = λ v. some v;
  object_to_vec = λ m. none;
  from_slice = λ bytes. some bytes;
  parse_f64 = λ s. none;
  print_f64 = λ x. digits 20 x;
  div_thousand = λ x. x;
  parse_from_rfc3339 = λ s. none;
  to_lowercase = λ s. s;
  decode_base64 = λ s. some s;
  decrypt = λ key nonce aad ciphertext. some ciphertext;
  doubles = Counters.doubles;
  dlms = record Meters.dlms_crates { from_slice = λ raw. some [] };
  vault = none;
}

abbrev request : PrivateNetworkPayload
request = record {
  protocol = codes "dlms-enc";
  device_id = codes "METER042";
  payload = codes "request";
}

abbrev rest_state : RestState (List ℕ)
rest_state = record { edge = Requests.state; versioned = []; counters = [] }

abbrev answer : StatusCode × RestState (List ℕ)
answer = ingest_private_network Requests.api rest_crates Requests.visit applied request rest_state

is_accepted : answer.0 ≡ accepted
unfolding ingest_private_network get_device_aes_key cache_get lookup keep_enckey decode_aes_key_hex
    get_with_retry check_and_bump_counter bump_script verify_telemetry_signature resolve_pubkey
    keep_pubkey parse_ed25519_pubkey handle_message disseminate remove
is_accepted = refl

accepted_in_secure_mode_example :
    Evidence Requests.api rest_crates Frames.past 5 Requests.visit applied request rest_state
      answer.1
accepted_in_secure_mode_example =
    accepted_in_secure_mode Requests.api rest_crates Frames.past 5 Frames.healthy Requests.visit
      applied request rest_state refl refl tt is_accepted

-- The same request again, after another one.
replay_not_accepted_example :
    (ingest_private_network Requests.api rest_crates Requests.visit applied request (
      ingest_run Requests.api rest_crates
        ((Requests.visit, applied, record request { device_id = codes "METER999" }) ∷ [])
        answer.1)).0
    ≢ accepted
unfolding lookup
replay_not_accepted_example =
    replay_not_accepted Requests.api rest_crates Requests.visit Requests.visit applied applied
      request request
      (record {
        counter = pos 7;
        kid = none;
        nonce = codes "nonce_of_12b";
        ciphertext = codes "registers";
      })
      (record {
        counter = pos 7;
        kid = none;
        nonce = codes "nonce_of_12b";
        ciphertext = codes "registers";
      })
      ((Requests.visit, applied, record request { device_id = codes "METER999" }) ∷ []) rest_state
      refl refl refl refl refl (omega arith) is_accepted

-- A signed item, and one of a device without a key.
collect_readings-OfChecked_example :
    All
      (OfChecked Requests.api rest_crates Frames.past 5 (codes "dlms"))
      (collect_readings Requests.api rest_crates
        (λ i. Requests.visit)
        0
        (codes "dlms")
        (codes "registers" ∷ codes "envelope" ∷ [])
        Requests.state.pubs).0
collect_readings-OfChecked_example =
    collect_readings-OfChecked Requests.api rest_crates Frames.past 5 (λ i. Frames.healthy)
      (λ i. Requests.visit) 0 (codes "dlms") (codes "registers" ∷ codes "envelope" ∷ [])
      Requests.state.pubs (λ k. refl) refl tt

-- In secure mode too, an unsigned reading of the legacy batch is accepted.
legacy_unsigned :
    (ingest_legacy_batch Requests.services
      (record rest_crates { as_object = λ v. some ((codes "readings", codes "array") ∷ []) })
      (λ v. some (codes "unsigned" ∷ []))
      (λ i. Requests.visit)
      (codes "batch")
      Requests.state.sinks.router).0
    ≡ some (
        record {
          status = codes "accepted";
          reading_id = 11;
          device_type = smart_meter;
          stream = codes "gridtokenx:events:v1";
        }
        ∷ [])
unfolding ingest_legacy_batch lookup disseminate target_stream
legacy_unsigned = refl
