-- ===== src/Edge/Signed.antt =====
-- What stands behind a reading that the API hands on as verified (`ingest` and `ingest_batch` of
-- crates/aggregator-api/src/grpc/service.rs).
pub mod Batch
pub mod Request
use gridtokenx_aggregator_br.Base.{
  ℕ, ◌≡◌, ◌≢◌, ◌∙◌, ◌⊎◌, inl, inr, refl, sym, subst, Bool, true, false, Option, none, some, List,
  [], ◌∷◌, ◌++◌, All, In, Bool-cases, nat_eq, list_eq, arith,
}
use gridtokenx_aggregator_br.Base.Int.{ℤ}
use gridtokenx_aggregator_br.Billing.Bin.{Uuid, Text, F64, unwrap_or}
use gridtokenx_aggregator_br.Edge.{
  MeterReadingEvent, Services, Sinks, event_of, publish_event, submit_job, after_router,
  disseminate_reading,
}
use gridtokenx_aggregator_br.Edge.Unified.{
  MeterReading, Visit, Parsers, Gate, admitted, denied, IngestOutcome, State, Figures,
  grpc_sign_target, candidates, reading_of_request, secured_figures, signature_enforcement_disabled,
}
use gridtokenx_aggregator_br.Edge.Requests.{
  next_candidate, try_candidates, gate_of, unsigned_gate, signature_gate, figures_of, submit,
  process, past_gate, ingest, verdict_gate, batch_gate, past_batch_gate, ingest_one, add_one,
  ingest_all, ingest_batch, with_status, Api,
}
use gridtokenx_aggregator_br.Base.Members.{All-snoc, All-intro}
use gridtokenx_aggregator_br.Frame as Frame
use gridtokenx_aggregator_br.Ingest.{Env, Floats}
use gridtokenx_aggregator_br.Keys.Cache.{Result, ok, err, PrunedCache, Ttl, Faults, Store}
use gridtokenx_aggregator_br.Keys.Latency.{AllDated, Signed, at, verify_telemetry_signature-Signed}
use gridtokenx_aggregator_br.Keys.Verifier as Verifier
use gridtokenx_aggregator_br.Keys.Verifier.{Call, verify_telemetry_signature}
use gridtokenx_aggregator_br.Router.{Disseminated, sent, failed, RouterState, Weather, disseminate}
use gridtokenx_aggregator_br.Stream.Readings.{DeviceReading}

module _ (v : Services) (P : MeterReadingEvent → Type 0) where
  after_router-All :
      (r : DeviceReading) (verified : Bool) (s : Sinks) (p : Disseminated × RouterState)
      → All P s.events
      → P (event_of v r verified)
      → All P (after_router v r verified s p).1.events
  unfolding event_of
  after_router-All r verified s (failed, router) h new = h
  after_router-All r verified s (sent, router) h new = elim (Bool-cases v.kafka) [
    | inl on ↦ elim (Bool-cases v.rabbitmq) [
      | inl jobs ↦ rw (on, jobs) (All-snoc P s.events (event_of v r verified) h new)
      | inr off ↦ rw (on, off) (All-snoc P s.events (event_of v r verified) h new)
    ]
    | inr off ↦ elim (Bool-cases v.rabbitmq) [
      | inl jobs ↦ rw (off, jobs) h
      | inr idle ↦ rw (off, idle) h
    ]
  ]

  disseminate_reading-All :
      (w : Weather) (r : DeviceReading) (verified : Bool) (s : Sinks)
      → All P s.events
      → P (event_of v r verified)
      → All P (disseminate_reading v w r verified s).1.events
  unfolding disseminate_reading
  disseminate_reading-All w r verified s h new =
      after_router-All r verified s (disseminate v.codec v.numbers v.settings w r s.router) h new

module _ {V : Type 0} (a : Api V) (past : ℕ → Store) where
  -- A signature of the meter over its id, the stated energy and a time, and that energy is the surplus of the event, unless
  -- it is no number.
  abbrev pub Canonical : ℕ → MeterReadingEvent → Type 0
  Canonical now e =
      (kwh : Text) × (timestamp : ℤ) × (sig : Text) × (net : F64) × Signed a.crates a.pubkeys past
        now e.meter_id (grpc_sign_target e.meter_id kwh timestamp) sig
      × (e.surplus ≡ unwrap_or (a.parsers.parse_f64 kwh) net)

  abbrev pub Attested : ℕ → MeterReadingEvent → Type 0
  Attested now e = (e.verified ≡ false) ⊎ Canonical now e

  submit-All :
      (P : MeterReadingEvent → Type 0) (m : Visit) (q : MeterReading) (verified : Bool)
      (figures : Option Figures) (s : State V)
      → All P s.sinks.events
      → ((g : Figures)
          → P (event_of a.services (reading_of_request a.parsers a.floats m.drawn_id q g) verified))
      → All P (submit a m q verified figures s).1.sinks.events
  submit-All P m q verified none s h new = h
  submit-All P m q verified (some g) s h new =
      disseminate_reading-All a.services P m.weather
        (reading_of_request a.parsers a.floats m.drawn_id q g) verified s.sinks h (new g)

  pub process-All :
      (P : MeterReadingEvent → Type 0) (single : Bool) (m : Visit) (q : MeterReading)
      (verified : Bool) (s : State V)
      → All P s.sinks.events
      → ((g : Figures)
          → P (event_of a.services (reading_of_request a.parsers a.floats m.drawn_id q g) verified))
      → All P (process a single m q verified s).1.sinks.events
  unfolding process
  process-All P single m q verified s h new =
      let (figures, keys) = figures_of a single m.call q q.raw_payload s.keys in
      submit-All P m q verified figures (record s { keys = keys }) h new

  pub event-Attested :
      (now : ℕ) (drawn_id : Uuid) (q : MeterReading) (g : Figures) (sig : Text)
      → Signed a.crates a.pubkeys past now q.meter_id
          (grpc_sign_target q.meter_id q.kwh q.timestamp)
          sig
      → Attested now (event_of a.services (reading_of_request a.parsers a.floats drawn_id q g) true)
  unfolding event_of reading_of_request
  event-Attested now drawn_id q g sig signed =
      inr (q.kwh, q.timestamp, sig, a.floats.sub g.generated_kwh g.consumed_kwh, signed, refl)

  pub event-unverified :
      (now : ℕ) (drawn_id : Uuid) (q : MeterReading) (g : Figures)
      → Attested now
          (event_of a.services (reading_of_request a.parsers a.floats drawn_id q g) false)
  unfolding event_of
  event-unverified now drawn_id q g = inl refl

  abbrev pub SignedIn : ℕ → Text → Text → List Text → Result Bool → Type 0
  SignedIn now id sig targets (ok true) =
      (target : Text) × In target targets × Signed a.crates a.pubkeys past now id target sig
  SignedIn now id sig targets (ok false) = Unit
  SignedIn now id sig targets err = Unit

  next_candidate-SignedIn :
      (now : ℕ) (id sig target : Text) (targets : List Text) (verdict : Result Bool)
      (c : PrunedCache V) (rest : Result Bool × PrunedCache V)
      → AllDated a.crates a.pubkeys past now c
      → (verdict ≡ ok true → Signed a.crates a.pubkeys past now id target sig)
      → AllDated a.crates a.pubkeys past now rest.1 × SignedIn now id sig targets rest.0
      → AllDated a.crates a.pubkeys past now (next_candidate a verdict c rest).1
        × SignedIn now id sig (target ∷ targets) (next_candidate a verdict c rest).0
  next_candidate-SignedIn now id sig target targets err c rest h signed later = (h, tt)
  next_candidate-SignedIn now id sig target targets (ok true) c rest h signed later =
      (h, (target, inl refl, signed refl))
  next_candidate-SignedIn now id sig target targets (ok false) c (ok true, c') h signed later =
      let (left, (other, there, its)) = later in (left, (other, inr there, its))
  next_candidate-SignedIn now id sig target targets (ok false) c (ok false, c') h signed later =
      later
  next_candidate-SignedIn now id sig target targets (ok false) c (err, c') h signed later = later

  pub try_candidates-SignedIn :
      (now : ℕ) (faults : Faults) (id sig : Text) (targets : List Text) (c : PrunedCache V)
      → AllDated a.crates a.pubkeys past now c
      → AllDated a.crates a.pubkeys past now
          (try_candidates a (at a.crates a.pubkeys past now faults) id sig targets c).1
        × SignedIn now id sig targets
            (try_candidates a (at a.crates a.pubkeys past now faults) id sig targets c).0
  unfolding try_candidates
  try_candidates-SignedIn now faults id sig [] c h = (h, tt)
  try_candidates-SignedIn now faults id sig (target ∷ targets) c h =
      let (verdict, c') =
        verify_telemetry_signature a.crates a.pubkeys (at a.crates a.pubkeys past now faults) id
          target sig c in
      let (left, signed) =
        verify_telemetry_signature-Signed a.crates a.pubkeys past now faults id target sig c h in
      next_candidate-SignedIn now id sig target targets verdict c'
        (try_candidates a (at a.crates a.pubkeys past now faults) id sig targets c') left signed
        (try_candidates-SignedIn now faults id sig targets c' left)
