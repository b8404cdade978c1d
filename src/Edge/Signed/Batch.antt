-- ===== src/Edge/Signed/Batch.antt =====
-- What stands behind the readings that a batch hands on as verified (`ingest_batch` of
-- crates/aggregator-api/src/grpc/service.rs).
use gridtokenx_aggregator_br.Base.{
  ℕ, ◌≡◌, inl, inr, refl, sym, subst, Bool, true, false, Option, none, some, List, [], ◌∷◌, All,
  Bool-cases, nat_eq, list_eq,
}
use gridtokenx_aggregator_br.Billing.Bin.{Text}
use gridtokenx_aggregator_br.Edge.{event_of}
use gridtokenx_aggregator_br.Edge.Unified.{
  MeterReading, BatchResponse, Visit, Gate, admitted, denied, State, Figures, grpc_sign_target,
  reading_of_request, signature_enforcement_disabled,
}
use gridtokenx_aggregator_br.Edge.Requests.{
  unsigned_gate, figures_of, submit, process, verdict_gate, batch_gate, past_batch_gate, ingest_one,
  add_one, ingest_all, ingest_batch, Api,
}
use gridtokenx_aggregator_br.Keys.Cache.{Result, ok, err, PrunedCache, Faults, Store}
use gridtokenx_aggregator_br.Keys.Latency.{AllDated, Signed, at, verify_telemetry_signature-Signed}
use gridtokenx_aggregator_br.Edge.Signed.{Attested, process-All, event-Attested, event-unverified}

module _ {V : Type 0} (a : Api V) (past : ℕ → Store) where
  -- The readings of one request are handled at one instant.
  abbrev pub At : ℕ → Visit × MeterReading → Type 0
  At now (m, q) = (faults : Faults) × (m.call ≡ at a.crates a.pubkeys past now faults)

  -- What holds between two readings.
  abbrev pub Between : ℕ → State V → Type 0
  Between now s =
      AllDated a.crates a.pubkeys past now s.pubs × All (Attested a past now) s.sinks.events

  abbrev GateSigned : ℕ → MeterReading → Gate → Type 0
  GateSigned now q (denied e) = Unit
  GateSigned now q (admitted false) = Unit
  GateSigned now q (admitted true) =
      (sig : Text) × Signed a.crates a.pubkeys past now q.meter_id
        (grpc_sign_target q.meter_id q.kwh q.timestamp) sig

  verdict_gate-GateSigned :
      (now : ℕ) (q : MeterReading) (sig : Text) (verdict : Result Bool)
      → (verdict ≡ ok true
          → Signed a.crates a.pubkeys past now q.meter_id
              (grpc_sign_target q.meter_id q.kwh q.timestamp)
              sig)
      → GateSigned now q (verdict_gate a verdict)
  verdict_gate-GateSigned now q sig err h = tt
  verdict_gate-GateSigned now q sig (ok false) h = tt
  verdict_gate-GateSigned now q sig (ok true) h = (sig, h refl)

  unsigned_gate-GateSigned : (now : ℕ) (q : MeterReading) → GateSigned now q (unsigned_gate a)
  unsigned_gate-GateSigned now q =
      elim (Bool-cases (signature_enforcement_disabled a.allow_unverified a.env)) [
        | inl off ↦ rw off tt
        | inr enforced ↦ rw enforced tt
      ]

  batch_gate-GateSigned :
      (now : ℕ) (faults : Faults) (q : MeterReading) (signature : Option Text) (c : PrunedCache V)
      → AllDated a.crates a.pubkeys past now c
      → AllDated a.crates a.pubkeys past now
          (batch_gate a (at a.crates a.pubkeys past now faults) q signature c).1
        × GateSigned now q (batch_gate a (at a.crates a.pubkeys past now faults) q signature c).0
  batch_gate-GateSigned now faults q none c h = (h, unsigned_gate-GateSigned now q)
  batch_gate-GateSigned now faults q (some sig) c h =
      let (left, signed) =
        verify_telemetry_signature-Signed a.crates a.pubkeys past now faults q.meter_id
          (grpc_sign_target q.meter_id q.kwh q.timestamp) sig c h in
      (left, verdict_gate-GateSigned now q sig _ signed)

  submit-pubs :
      (m : Visit) (q : MeterReading) (verified : Bool) (figures : Option Figures) (s : State V)
      → (submit a m q verified figures s).1.pubs ≡ s.pubs
  submit-pubs m q verified none s = refl
  submit-pubs m q verified (some g) s = refl

  process-Between :
      (now : ℕ) (m : Visit) (q : MeterReading) (verified : Bool) (s : State V)
      → ((g : Figures)
          → Attested a past now
              (event_of a.services (reading_of_request a.parsers a.floats m.drawn_id q g) verified))
      → Between now s
      → Between now (process a false m q verified s).1
  unfolding process
  process-Between now m q verified s new h =
      let (figures, keys) = figures_of a false m.call q q.raw_payload s.keys in
      (
        subst (AllDated a.crates a.pubkeys past now)
            (sym (submit-pubs m q verified figures (record s { keys = keys }))) h.0,
        process-All a past (Attested a past now) false m q verified s h.1 new,
      )

  past_batch_gate-Between :
      (now : ℕ) (m : Visit) (q : MeterReading) (gate : Gate) (s : State V)
      → GateSigned now q gate
      → Between now s
      → Between now (past_batch_gate a m q gate s).1
  past_batch_gate-Between now m q (denied e) s signed h = h
  past_batch_gate-Between now m q (admitted false) s signed h =
      process-Between now m q false s (λ g. event-unverified a past now m.drawn_id q g) h
  past_batch_gate-Between now m q (admitted true) s signed h =
      let (sig, its) = signed in
      process-Between now m q true s (λ g. event-Attested a past now m.drawn_id q g sig its) h

  ingest_one-Between :
      (now : ℕ) (m : Visit) (q : MeterReading) (s : State V)
      → At now (m, q)
      → Between now s
      → Between now (ingest_one a m q s).1
  unfolding ingest_one
  ingest_one-Between now m q s (faults, here) h =
      let (gate, pubs) = batch_gate a m.call q q.signature s.pubs in
      let (left, signed) =
        subst
          (λ call.
            AllDated a.crates a.pubkeys past now (batch_gate a call q q.signature s.pubs).1
            × GateSigned now q (batch_gate a call q q.signature s.pubs).0)
          (sym here) (batch_gate-GateSigned now faults q q.signature s.pubs h.0) in
      past_batch_gate-Between now m q gate (record s { pubs = pubs }) signed (left, h.1)

  add_one-Between :
      (now : ℕ) (m : Visit) (success : Option Bool) (later : Option BatchResponse × State V)
      (s : State V)
      → Between now s
      → Between now later.1
      → Between now (add_one a m success later s).1
  add_one-Between now m none later s h end = h
  add_one-Between now m (some success) (none, s') s h end = end
  add_one-Between now m (some success) (some b, s') s h end = end

  ingest_all-Between :
      (now : ℕ) (readings : List (Visit × MeterReading)) (s : State V)
      → All (At now) readings
      → Between now s
      → Between now (ingest_all a readings s).1
  unfolding ingest_all
  ingest_all-Between now [] s here h = h
  ingest_all-Between now ((m, q) ∷ readings) s here h =
      let (success, s') = ingest_one a m q s in
      let mid = ingest_one-Between now m q s here.0 h in
      add_one-Between now m success (ingest_all a readings s') s' mid
        (ingest_all-Between now readings s' here.1 mid)

  -- If the cached public keys are no older than their lifetimes and every event so far is marked unverified or
  -- signed, so is every event after a batch handled at one instant, whether it is answered or its decoder panics.
  -- Signed: a key that Redis held for the meter no longer ago than the positive lifetime verifies a signature over
  -- a canonical target of the meter, whose energy is the surplus of the event, unless it is no number.
  pub ingest_batch-Attested :
      (now : ℕ) (readings : List (Visit × MeterReading)) (s : State V)
      → All (At now) readings
      → AllDated a.crates a.pubkeys past now s.pubs
      → All (Attested a past now) s.sinks.events
      → All (Attested a past now) (ingest_batch a readings s).1.sinks.events
  unfolding ingest_batch
  ingest_batch-Attested now readings s here dated h =
      (ingest_all-Between now readings s here (dated, h)).1
