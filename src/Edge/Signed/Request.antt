-- ===== src/Edge/Signed/Request.antt =====
-- What stands behind the events that one request adds (`ingest` of crates/aggregator-api/src/grpc/service.rs).
use gridtokenx_aggregator_br.Base.{
  ℕ, ◌≡◌, ◌≢◌, ◌∙◌, ◌⊎◌, inl, inr, refl, sym, subst, Bool, true, false, Option, none, some, List,
  [], ◌∷◌, All, In, Bool-cases, nat_eq, list_eq, arith,
}
use gridtokenx_aggregator_br.Billing.Bin.{Text, F64, unwrap_or}
use gridtokenx_aggregator_br.Edge.{MeterReadingEvent, event_of}
use gridtokenx_aggregator_br.Edge.Unified.{
  MeterReading, Visit, Gate, admitted, denied, State, grpc_sign_target, candidates,
  reading_of_request, signature_enforcement_disabled,
}
use gridtokenx_aggregator_br.Edge.Requests.{
  try_candidates, gate_of, unsigned_gate, signature_gate, past_gate, ingest, Api,
}
use gridtokenx_aggregator_br.Base.Members.{All-intro}
use gridtokenx_aggregator_br.Keys.Cache.{Result, ok, err, PrunedCache, Faults, Store}
use gridtokenx_aggregator_br.Keys.Latency.{AllDated, Signed, at}
use gridtokenx_aggregator_br.Edge.Signed.{process-All, SignedIn, try_candidates-SignedIn}

module _ {V : Type 0} (a : Api V) (past : ℕ → Store) where
  -- What a signature of the request may be over: the canonical target of its own fields, or its own raw payload.
  abbrev pub SignedRequest : ℕ → MeterReading → Text → Type 0
  SignedRequest now q sig =
      Signed a.crates a.pubkeys past now q.meter_id (grpc_sign_target q.meter_id q.kwh q.timestamp)
        sig
      ⊎ ((q.raw_payload ≢ []) × Signed a.crates a.pubkeys past now q.meter_id q.raw_payload sig)

  -- What stands behind an event that a request adds: it has the meter of the request, and its stated energy as the
  -- surplus, unless that is no number. It is marked unverified, where the request has no signature and enforcement is
  -- off; or the request's signature is over one of the two texts.
  abbrev pub OfRequest : ℕ → MeterReading → MeterReadingEvent → Type 0
  OfRequest now q e =
      (e.meter_id ≡ q.meter_id)
      × ((net : F64) × (e.surplus ≡ unwrap_or (a.parsers.parse_f64 q.kwh) net))
      × (((e.verified ≡ false)
            × (q.signature ≡ none)
            × (signature_enforcement_disabled a.allow_unverified a.env ≡ true))
          ⊎ ((sig : Text) × (q.signature ≡ some sig) × SignedRequest now q sig))

  -- What a request is admitted with.
  abbrev GateSigned : ℕ → MeterReading → Gate → Type 0
  GateSigned now q (denied e) = Unit
  GateSigned now q (admitted false) =
      (q.signature ≡ none) × (signature_enforcement_disabled a.allow_unverified a.env ≡ true)
  GateSigned now q (admitted true) =
      (sig : Text) × (q.signature ≡ some sig) × SignedRequest now q sig

  candidates-SignedRequest :
      (now : ℕ) (q : MeterReading) (sig target : Text)
      → In target (candidates q)
      → Signed a.crates a.pubkeys past now q.meter_id target sig
      → SignedRequest now q sig
  unfolding candidates
  candidates-SignedRequest now q sig target there signed = by_payload q.raw_payload refl there
    where
      of_text :
          (text : Text) → text ≡ target → Signed a.crates a.pubkeys past now q.meter_id text sig
      of_text text same =
          subst (λ t. Signed a.crates a.pubkeys past now q.meter_id t sig) (sym same) signed

      by_payload :
          (payload : List ℕ)
          → q.raw_payload ≡ payload
          → In target (
              grpc_sign_target q.meter_id q.kwh q.timestamp
              ∷ elim payload [ [] ↦ [] | b ∷ bytes ↦ (b ∷ bytes) ∷ [] ])
          → SignedRequest now q sig
      by_payload payload e (inl canonical) = inl (of_text _ canonical)
      by_payload [] e (inr there) = absurd there
      by_payload (b ∷ bytes) e (inr (inr there)) = absurd there
      by_payload (b ∷ bytes) e (inr (inl payload)) =
          inr (ground (arith, e), of_text q.raw_payload (e ∙ payload))

  gate_of-GateSigned :
      (now : ℕ) (q : MeterReading) (sig : Text) (verdict : Result Bool)
      → q.signature ≡ some sig
      → SignedIn a past now q.meter_id sig (candidates q) verdict
      → GateSigned now q (gate_of a verdict)
  gate_of-GateSigned now q sig err given h = tt
  gate_of-GateSigned now q sig (ok false) given h = tt
  gate_of-GateSigned now q sig (ok true) given h =
      let (target, there, signed) = h in
      (sig, given, candidates-SignedRequest now q sig target there signed)

  unsigned_gate-GateSigned :
      (now : ℕ) (q : MeterReading) → q.signature ≡ none → GateSigned now q (unsigned_gate a)
  unsigned_gate-GateSigned now q given =
      elim (Bool-cases (signature_enforcement_disabled a.allow_unverified a.env)) [
        | inl off ↦ rw off (given, off)
        | inr enforced ↦ rw enforced tt
      ]

  signature_gate-GateSigned :
      (now : ℕ) (faults : Faults) (q : MeterReading) (signature : Option Text) (c : PrunedCache V)
      → q.signature ≡ signature
      → AllDated a.crates a.pubkeys past now c
      → GateSigned now q (signature_gate a (at a.crates a.pubkeys past now faults) q signature c).0
  signature_gate-GateSigned now faults q none c given h = unsigned_gate-GateSigned now q given
  signature_gate-GateSigned now faults q (some sig) c given h =
      let (verdict, c') =
        try_candidates a (at a.crates a.pubkeys past now faults) q.meter_id sig (candidates q) c in
      gate_of-GateSigned now q sig verdict given
        (try_candidates-SignedIn a past now faults q.meter_id sig (candidates q) c h).1

  module _ (now : ℕ) (q : MeterReading) (before : List MeterReadingEvent) where
    -- The event was there before, or the request adds it.
    abbrev pub BeforeOrOfRequest : MeterReadingEvent → Type 0
    BeforeOrOfRequest e = In e before ⊎ OfRequest now q e

    past_gate-All :
        (m : Visit) (gate : Gate) (s : State V)
        → GateSigned now q gate
        → All BeforeOrOfRequest s.sinks.events
        → All BeforeOrOfRequest (past_gate a m q gate s).1.sinks.events
    unfolding event_of reading_of_request
    past_gate-All m (denied e) s signed h = h
    past_gate-All m (admitted false) s (unsigned, off) h =
        process-All a past BeforeOrOfRequest true m q false s h (λ g.
          inr
            (refl, (a.floats.sub g.generated_kwh g.consumed_kwh, refl), inl (refl, unsigned, off)))
    past_gate-All m (admitted true) s signed h =
        process-All a past BeforeOrOfRequest true m q true s h
          (λ g. inr (refl, (a.floats.sub g.generated_kwh g.consumed_kwh, refl), inr signed))

  -- If the cached public keys are no older than their lifetimes, every event after a request was there before it, or
  -- has the meter and, unless it is no number, the stated energy of the request, and is marked unverified, where the
  -- request has no signature and enforcement is off, or rests on the request's signature: a key that Redis held for the
  -- meter no longer ago than the positive lifetime verifies it over the canonical target of the request's id, energy and
  -- time, or over its raw payload, which is not empty.
  pub ingest-OfRequest :
      (now : ℕ) (faults : Faults) (m : Visit) (q : MeterReading) (s : State V)
      → m.call ≡ at a.crates a.pubkeys past now faults
      → AllDated a.crates a.pubkeys past now s.pubs
      → All (BeforeOrOfRequest now q s.sinks.events) (ingest a m q s).1.sinks.events
  unfolding ingest
  ingest-OfRequest now faults m q s here dated =
      let (gate, pubs) = signature_gate a m.call q q.signature s.pubs in
      past_gate-All now q s.sinks.events m gate (record s { pubs = pubs })
        (subst (λ call. GateSigned now q (signature_gate a call q q.signature s.pubs).0) (sym here)
          (signature_gate-GateSigned now faults q q.signature s.pubs refl dated))
        (All-intro (BeforeOrOfRequest now q s.sinks.events) s.sinks.events (λ e there. inl there))
