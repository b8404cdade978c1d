-- ===== src/Edge/Requests.antt =====
-- The handlers `ingest` and `ingest_batch` of crates/aggregator-api/src/grpc/service.rs. A reading is handled at one
-- instant.
use gridtokenx_aggregator_br.Base.{
  ℕ, suc, Bool, true, false, Option, none, some, List, [], ◌∷◌, if◌then◌else◌, ◌==◌, nat_eq,
  list_eq,
}
use gridtokenx_aggregator_br.Base.Text.{codes}
use gridtokenx_aggregator_br.Billing.Bin.{Uuid, Text}
use gridtokenx_aggregator_br.Edge.{Services, disseminate_reading}
use gridtokenx_aggregator_br.Frame as Frame
use gridtokenx_aggregator_br.Ingest.{Env, Floats, decode_secure_frame}
use gridtokenx_aggregator_br.Keys.Cache.{Result, ok, err, PrunedCache, Ttl}
use gridtokenx_aggregator_br.Keys.Registry.{Key}
use gridtokenx_aggregator_br.Keys.Verifier as Verifier
use gridtokenx_aggregator_br.Keys.Verifier.{Call, verify_telemetry_signature}
use gridtokenx_aggregator_br.Edge.Unified.{
  MeterReading, Visit, Parsers, Gate, IngestOutcome, State, BatchResponse, grpc_sign_target,
  signature_enforcement_disabled, candidates, Figures, stated, framed, reading_of_request,
  secured_figures, permission_denied, unauthenticated, invalid_argument, internal, admitted, denied,
  accepted, error, request_panicked,
}

-- What a deployment of the service works with: the parsers, the crates, the lifetimes of cached keys, the environment, with
-- whether `AGGREGATOR_ALLOW_UNVERIFIED_TELEMETRY` is `true`, and the services behind it.
pub record Api (V : Type 0) : Type 0 where
  pub parsers : Parsers
  pub floats : Floats
  pub codec : Frame.Crates
  pub crates : Verifier.Crates V
  pub enckeys : Ttl
  pub pubkeys : Ttl
  pub env : Env
  pub allow_unverified : Bool
  pub services : Services

module _ {V : Type 0} (a : Api V) where
  -- After the verdict on a candidate, with what the others would give: an error ends the ladder, a mismatch falls
  -- through to them.
  abbrev pub next_candidate :
      Result Bool → PrunedCache V → Result Bool × PrunedCache V → Result Bool × PrunedCache V
  next_candidate err c rest = (err, c)
  next_candidate (ok true) c rest = (ok true, c)
  next_candidate (ok false) c rest = rest

  unfoldable pub try_candidates :
      Call → Text → Text → List Text → PrunedCache V → Result Bool × PrunedCache V
  try_candidates call id sig [] c = (ok false, c)
  try_candidates call id sig (target ∷ targets) c =
      let (verdict, c') = verify_telemetry_signature a.crates a.pubkeys call id target sig c in
      next_candidate verdict c' (try_candidates call id sig targets c')

  abbrev pub gate_of : Result Bool → Gate
  gate_of err = denied unauthenticated
  gate_of (ok true) = admitted true
  gate_of (ok false) = denied permission_denied

  abbrev pub unsigned_gate : Gate
  unsigned_gate =
      if signature_enforcement_disabled a.allow_unverified a.env
      then admitted false
      else denied invalid_argument

  abbrev pub signature_gate :
      Call → MeterReading → Option Text → PrunedCache V → Gate × PrunedCache V
  signature_gate call q none c = (unsigned_gate, c)
  signature_gate call q (some sig) c =
      let (verdict, c') = try_candidates call q.meter_id sig (candidates q) c in
      (gate_of verdict, c')

  -- Only a raw payload that is not empty is decoded.
  abbrev pub figures_of :
      Bool → Call → MeterReading → List ℕ → PrunedCache Key → Option Figures × PrunedCache Key
  figures_of single call q [] c = (some (stated a.parsers a.floats call.now q), c)
  figures_of single call q (b ∷ bytes) c =
      let (secured, c') = decode_secure_frame a.codec a.crates a.enckeys a.env call (b ∷ bytes) c in
      (secured_figures a.parsers a.floats single secured (stated a.parsers a.floats call.now q), c')

  -- From the figures on: whether the reading is disseminated, or there was a panic.
  abbrev pub submit : Visit → MeterReading → Bool → Option Figures → State V → Option Bool × State V
  submit m q verified none s = (none, s)
  submit m q verified (some g) s =
      let (success, sinks) =
        disseminate_reading a.services m.weather
          (reading_of_request a.parsers a.floats m.drawn_id q g) verified s.sinks in
      (some success, record s { sinks = sinks })

  unfoldable pub process : Bool → Visit → MeterReading → Bool → State V → Option Bool × State V
  unfolding stated framed reading_of_request disseminate_reading
  process single m q verified s =
      let (figures, keys) = figures_of single m.call q q.raw_payload s.keys in
      submit m q verified figures (record s { keys = keys })

  abbrev pub ingest_outcome : Uuid → Option Bool → IngestOutcome
  ingest_outcome receipt none = request_panicked
  ingest_outcome receipt (some true) = accepted receipt
  ingest_outcome receipt (some false) = error internal

  abbrev pub past_gate : Visit → MeterReading → Gate → State V → IngestOutcome × State V
  past_gate m q (denied e) s = (error e, s)
  past_gate m q (admitted verified) s =
      let (success, s') = process true m q verified s in (ingest_outcome m.receipt_id success, s')

  unfoldable pub ingest : Visit → MeterReading → State V → IngestOutcome × State V
  unfolding try_candidates candidates process
  ingest m q s =
      let (gate, pubs) = signature_gate m.call q q.signature s.pubs in
      past_gate m q gate (record s { pubs = pubs })

  -- The batch checks the canonical target alone, and rejects on an error as on a mismatch.
  abbrev pub verdict_gate : Result Bool → Gate
  verdict_gate err = denied unauthenticated
  verdict_gate (ok true) = admitted true
  verdict_gate (ok false) = denied permission_denied

  abbrev pub batch_gate : Call → MeterReading → Option Text → PrunedCache V → Gate × PrunedCache V
  batch_gate call q none c = (unsigned_gate, c)
  batch_gate call q (some sig) c =
      let (verdict, c') =
        verify_telemetry_signature a.crates a.pubkeys call q.meter_id
          (grpc_sign_target q.meter_id q.kwh q.timestamp) sig c in
      (verdict_gate verdict, c')

  -- Whether one reading of a batch is accepted, or there was a panic.
  abbrev pub past_batch_gate : Visit → MeterReading → Gate → State V → Option Bool × State V
  past_batch_gate m q (denied e) s = (some false, s)
  past_batch_gate m q (admitted verified) s = process false m q verified s

  unfoldable pub ingest_one : Visit → MeterReading → State V → Option Bool × State V
  unfolding grpc_sign_target process
  ingest_one m q s =
      let (gate, pubs) = batch_gate m.call q q.signature s.pubs in
      past_batch_gate m q gate (record s { pubs = pubs })

  abbrev pub count_one : Visit → Bool → BatchResponse → BatchResponse
  count_one m true b = record b {
    receipt_ids = m.receipt_id ∷ b.receipt_ids;
    accepted_count = suc b.accepted_count;
  }
  count_one m false b = record b { rejected_count = suc b.rejected_count }

  abbrev pub add_one :
      Visit
      → Option Bool
      → Option BatchResponse × State V
      → State V
      → Option BatchResponse × State V
  add_one m none later s = (none, s)
  add_one m (some success) (none, s') s = (none, s')
  add_one m (some success) (some b, s') s = (some (count_one m success b), s')

  -- The loop; a panic ends the request where it is.
  unfoldable pub ingest_all : List (Visit × MeterReading) → State V → Option BatchResponse × State V
  unfolding ingest_one
  ingest_all [] s =
      (some (record { receipt_ids = []; status = []; accepted_count = 0; rejected_count = 0 }), s)
  ingest_all ((m, q) ∷ readings) s =
      let (success, s') = ingest_one m q s in
      let later = ingest_all readings s' in add_one m success later s'

  abbrev pub with_status : Option BatchResponse → Option BatchResponse
  with_status none = none
  with_status (some b) = some (record b {
    status = if b.rejected_count == 0 then codes "all_accepted" else codes "partially_accepted";
  })

  -- Nothing is returned if the decoder panics.
  unfoldable pub ingest_batch :
      List (Visit × MeterReading) → State V → Option BatchResponse × State V
  unfolding ingest_all
  ingest_batch readings s = let (response, s') = ingest_all readings s in (with_status response, s')
