-- ===== src/Ingest.antt =====
-- The bulk path of `AggregatorServiceImpl` (crates/aggregator-api/src/grpc/service.rs): a payload is cut into
-- signed frames, each frame is decoded under its device key, the signatures are verified in one batch, and what
-- is verified becomes readings. A request is handled at one instant. The environment variables are Booleans, the
-- floating-point operations a parameter. What becomes of a reading that is disseminated is not modelled here.
pub mod Split
pub mod Origin
pub mod Panic
pub mod Tests
use gridtokenx_aggregator_br.Base.{
  ℕ, zero, suc, ◌+◌, Bool, true, false, not, ◌&&◌, Option, none, some, List, [], ◌∷◌, map, length,
  take, drop, ltb, if◌then◌else◌, list_eq, nat_eq,
}
use gridtokenx_aggregator_br.Base.Text.{codes}
use gridtokenx_aggregator_br.Base.Int.{ℤ}
use gridtokenx_aggregator_br.Base.Dict.{Dict, insert}
use gridtokenx_aggregator_br.Billing.Bin.{Text, F64, unwrap_or}
use gridtokenx_aggregator_br.Frame.{Decoded, DlmsHeader, parse_header, parse}
use gridtokenx_aggregator_br.Frame as Frame
use gridtokenx_aggregator_br.Frame.Tlv.{DlmsBinaryFrame}
use gridtokenx_aggregator_br.Keys.Cache.{Result, ok, err, PrunedCache, Ttl}
use gridtokenx_aggregator_br.Keys.Verifier as Verifier
use gridtokenx_aggregator_br.Keys.Verifier.{Call, verify_telemetry_signature_batch}
use gridtokenx_aggregator_br.Keys.Registry.{Key, get_device_aes_key}

-- One round of `split_bulk_frames` takes the length byte, the frame and its 64 bytes of signature.
unfoldable pub split_loop : ℕ → List ℕ → List (List ℕ × List ℕ)
split_loop zero bytes = []
split_loop (suc fuel) [] = []
split_loop (suc fuel) (frame_len ∷ bytes) =
    let rest = split_loop fuel (drop 64 (drop frame_len bytes)) in
    if ltb (length bytes) (frame_len + 64)
    then []
    else (take frame_len bytes, take 64 (drop frame_len bytes)) ∷ rest

-- A round takes a byte at least, so as many rounds as there are bytes are enough.
unfoldable pub split_bulk_frames : List ℕ → List (List ℕ × List ℕ)
unfolding split_loop
split_bulk_frames payload = split_loop (length payload) payload

abbrev pub plaintext_dlms_allowed : Bool → Bool → Bool
plaintext_dlms_allowed allow_plaintext_env secure_mode = not secure_mode && allow_plaintext_env

abbrev pub bulk_skip_verify_allowed : Bool → Bool → Bool
bulk_skip_verify_allowed skip_verify_env secure_mode = not secure_mode && skip_verify_env

-- `ENVIRONMENT` is `production`, and which of `ALLOW_PLAINTEXT_DLMS`, `SKIP_SIG_VERIFY` and
-- `AGGREGATOR_REQUIRE_SECURE` are `true`.
pub record Env : Type 0 where
  pub production : Bool
  pub allow_plaintext_dlms : Bool
  pub skip_sig_verify : Bool
  pub require_secure : Bool

abbrev pub skip_verify : Env → Bool
skip_verify env = bulk_skip_verify_allowed env.skip_sig_verify env.require_secure

-- A frame that was decoded or is skipped; or the decoder panicked.
pub data Secured : Type 0 where
  decoded : DlmsBinaryFrame → Secured
  skipped : Secured
  panicked : Secured

-- The `f64` operations of the readings: the cast of an integer, division and subtraction.
pub record Floats : Type 0 where
  pub of_int : ℕ → F64
  pub div : F64 → F64 → F64
  pub sub : F64 → F64 → F64

-- The bits of 1000.0 and 100.0.
abbrev pub f64_thousand : F64
f64_thousand = 0x408f400000000000

abbrev pub f64_hundred : F64
f64_hundred = 0x4059000000000000

pub data Json : Type 0 where
  number : F64 → Json
  text : Text → Json

-- The fields of a `DeviceReading` that are not the same for every frame.
pub record FrameReading : Type 0 where
  pub meter_id : Text
  pub timestamp : ℤ
  pub generated_kwh : F64
  pub consumed_kwh : F64
  pub net_kwh : F64
  pub metadata : Dict Text Json

-- A frame that was decoded, with what its signature is checked against.
pub record Pending : Type 0 where
  pub meter_id : Text
  pub payload : List ℕ
  pub signature : List ℕ
  pub frame : DlmsBinaryFrame

pub data BulkOutcome : Type 0 where
  processed : List FrameReading → BulkOutcome
  internal_error : BulkOutcome
  request_panicked : BulkOutcome

abbrev pub of_parse : Decoded DlmsBinaryFrame → Secured
of_parse (Decoded.ok f) = decoded f
of_parse (Decoded.bail why) = skipped
of_parse Decoded.panic = panicked

module _ (codec : Frame.Crates) where
  unfoldable pub apply_dlms_key_policy : Bool → Bool → List ℕ → Option Key → Secured
  apply_dlms_key_policy is_production allow_plaintext frame_bytes (some k) =
      of_parse (parse codec frame_bytes (some k))
  apply_dlms_key_policy is_production allow_plaintext frame_bytes none =
      if is_production
      then skipped
      else if allow_plaintext
      then of_parse (parse codec frame_bytes none)
      else skipped

  module _ {V : Type 0} (o : Verifier.Crates V) (enckeys : Ttl) (env : Env) where
    -- With the answer of the key registry.
    unfoldable pub decode_with : List ℕ → Result (Option Key) → Secured
    decode_with frame_bytes err = skipped
    decode_with frame_bytes (ok key) =
        apply_dlms_key_policy env.production
          (plaintext_dlms_allowed env.allow_plaintext_dlms env.require_secure) frame_bytes key

    -- With the header, or the reason why there is none.
    unfoldable pub decode_after :
        Call → List ℕ → Decoded DlmsHeader → PrunedCache Key → Secured × PrunedCache Key
    unfolding decode_with
    decode_after call frame_bytes (Decoded.bail why) c = (skipped, c)
    decode_after call frame_bytes Decoded.panic c = (panicked, c)
    decode_after call frame_bytes (Decoded.ok header) c =
        let (key, c') = get_device_aes_key o enckeys call header.logical_device_name c in
        (decode_with frame_bytes key, c')

    unfoldable pub decode_secure_frame : Call → List ℕ → PrunedCache Key → Secured × PrunedCache Key
    unfolding decode_after
    decode_secure_frame call frame_bytes c =
        decode_after call frame_bytes (parse_header codec frame_bytes) c

    abbrev pub with_first : Pending → Option (List Pending) → Option (List Pending)
    with_first p none = none
    with_first p (some rest) = some (p ∷ rest)

    -- One round of the loop that unpacks the frames, before the rest of them; a panic ends the request.
    abbrev pub unpack_one :
        List ℕ
        → List ℕ
        → Secured
        → PrunedCache Key
        → Option (List Pending) × PrunedCache Key
        → Option (List Pending) × PrunedCache Key
    unpack_one frame_bytes sig panicked c later = (none, c)
    unpack_one frame_bytes sig skipped c later = later
    unpack_one frame_bytes sig (decoded f) c later = (
      with_first
          (record {
            meter_id = f.logical_device_name;
            payload = frame_bytes;
            signature = sig;
            frame = f;
          })
          later.0,
      later.1,
    )

    unfoldable pub unpack_frames :
        Call → List (List ℕ × List ℕ) → PrunedCache Key → Option (List Pending) × PrunedCache Key
    unpack_frames call [] c = (some [], c)
    unpack_frames call ((frame_bytes, sig) ∷ entries) c =
        let (secured, c') = decode_secure_frame call frame_bytes c in
        unpack_one frame_bytes sig secured c' (unpack_frames call entries c')

  -- The readings.
  module _ (fl : Floats) where
    abbrev pub scaled : ℕ → F64 → F64
    scaled n divisor = fl.div (fl.of_int n) divisor

    abbrev pub insert_scaled : Text → Option ℕ → F64 → Dict Text Json → Dict Text Json
    insert_scaled name none divisor m = m
    insert_scaled name (some n) divisor m = insert name (number (scaled n divisor)) m

    unfoldable pub frame_metadata : DlmsBinaryFrame → Dict Text Json
    frame_metadata frame = insert (codes "ingest_mode") (text (codes "bulk_raw")) (
        insert (codes "dlms_manufacturer_id") (text frame.manufacturer_id) (
          insert_scaled (codes "battery_level_pct") frame.battery_soc_bps f64_hundred (
            insert_scaled (codes "current_a") frame.current_ma f64_thousand
              (insert_scaled (codes "voltage_v") frame.voltage_cv f64_hundred []))))

    unfoldable pub reading_of : Pending → FrameReading
    reading_of p =
        let generated = scaled (unwrap_or p.frame.active_energy_export_wh 0) f64_thousand in
        let consumed = scaled (unwrap_or p.frame.active_energy_import_wh 0) f64_thousand in
        record {
          meter_id = p.meter_id;
          timestamp = p.frame.timestamp;
          generated_kwh = generated;
          consumed_kwh = consumed;
          net_kwh = fl.sub generated consumed;
          metadata = frame_metadata p.frame;
        }

    -- The third loop: one result for each frame.
    abbrev pub process_verified : List Bool → List Pending → List FrameReading
    process_verified (true ∷ results) (p ∷ pendings) =
        reading_of p ∷ process_verified results pendings
    process_verified (false ∷ results) (p ∷ pendings) = process_verified results pendings
    process_verified _ _ = []

    -- The request succeeds, and its processed count is the number of readings; or the batch cannot be verified.
    abbrev pub outcome_of : Result (List Bool) → List Pending → BulkOutcome
    outcome_of err pendings = internal_error
    outcome_of (ok results) pendings = processed (process_verified results pendings)

    module _ {V : Type 0} (o : Verifier.Crates V) (enckeys pubkeys : Ttl) (env : Env) where
      -- The frames that were decoded, with the cache of public keys.
      unfoldable pub verify_bulk :
          Call → List Pending → PrunedCache V → Result (List Bool) × PrunedCache V
      verify_bulk call pendings c =
          if skip_verify env
          then (ok (map (λ p. true) pendings), c)
          else verify_telemetry_signature_batch o pubkeys call (map (λ p. p.meter_id) pendings)
              (map (λ p. p.payload) pendings) (map (λ p. p.signature) pendings) c

      abbrev pub bulk_verified :
          Call
          → Option (List Pending)
          → PrunedCache Key
          → PrunedCache V
          → BulkOutcome × PrunedCache Key × PrunedCache V
      bulk_verified call none keys pubs = (request_panicked, keys, pubs)
      bulk_verified call (some pendings) keys pubs =
          let (results, pubs') = verify_bulk call pendings pubs in
          (outcome_of results pendings, keys, pubs')

      unfoldable pub bulk_raw_ingest :
          Call
          → List ℕ
          → PrunedCache Key
          → PrunedCache V
          → BulkOutcome × PrunedCache Key × PrunedCache V
      bulk_raw_ingest call payload keys pubs =
          let (pendings, keys') =
            unpack_frames o enckeys env call (split_bulk_frames payload) keys in
          bulk_verified call pendings keys' pubs
