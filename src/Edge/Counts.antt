-- ===== src/Edge/Counts.antt =====
-- What a batch reports (`ingest_batch` of crates/aggregator-api/src/grpc/service.rs).
use gridtokenx_aggregator_br.Base.{
  ℕ, ◌+◌, ◌≡◌, ◌≢◌, ◌↔◌, ◌⊎◌, inl, inr, refl, Bool, true, false, Option, none, some, List, [], ◌∷◌,
  length, if◌then◌else◌, ◌==◌, nat_eq, arith,
}
use gridtokenx_aggregator_br.Base.Text.{codes}
use gridtokenx_aggregator_br.Edge.Unified.{
  MeterReading, Visit, State, BatchResponse, Gate, admitted, denied,
}
use gridtokenx_aggregator_br.Edge.Requests.{
  figures_of, submit, process, batch_gate, past_batch_gate, ingest_one, ingest_all, ingest_batch,
  add_one, with_status, Api,
}
use gridtokenx_aggregator_br.Keys.Cache.{PrunedCache}
use gridtokenx_aggregator_br.Keys.Registry.{Key}

-- Every reading is counted once, and each that is accepted has a receipt.
abbrev pub Counted : ℕ → BatchResponse → Type 0
Counted n b = (b.accepted_count + b.rejected_count ≡ n) × (length b.receipt_ids ≡ b.accepted_count)

-- Some reading has a raw payload, which the decoder is run on.
abbrev pub Carries : List (Visit × MeterReading) → Type 0
Carries [] = ⊥
Carries ((m, q) ∷ readings) = (q.raw_payload ≢ []) ⊎ Carries readings

abbrev pub CountedIf : List (Visit × MeterReading) → Option BatchResponse → Type 0
CountedIf readings none = Carries readings
CountedIf readings (some b) = Counted (length readings) b

abbrev pub Reported : List (Visit × MeterReading) → Option BatchResponse → Type 0
Reported readings none = Carries readings
Reported readings (some b) =
    Counted (length readings) b × ((b.status ≡ codes "all_accepted") ↔ (b.rejected_count ≡ 0))

module _ {V : Type 0} (a : Api V) where
  -- Only the decoder can keep a reading from being answered.
  submit-figures_of :
      (m : Visit) (q : MeterReading) (verified : Bool) (raw : List ℕ) (keys : PrunedCache Key)
      (s : State V)
      → (submit a m q verified (figures_of a false m.call q raw keys).0 s).0 ≡ none
      → raw ≢ []
  submit-figures_of m q verified [] keys s unanswered = λ e. cc
  submit-figures_of m q verified (b ∷ bytes) keys s unanswered = λ e. cc

  past_batch_gate-none :
      (m : Visit) (q : MeterReading) (gate : Gate) (s : State V)
      → (past_batch_gate a m q gate s).0 ≡ none
      → q.raw_payload ≢ []
  unfolding process
  past_batch_gate-none m q (denied e) s unanswered = λ x. cc
  past_batch_gate-none m q (admitted verified) s unanswered =
      submit-figures_of m q verified q.raw_payload s.keys
        (record s { keys = (figures_of a false m.call q q.raw_payload s.keys).1 }) unanswered

  ingest_one-none :
      (m : Visit) (q : MeterReading) (s : State V)
      → (ingest_one a m q s).0 ≡ none
      → q.raw_payload ≢ []
  unfolding ingest_one
  ingest_one-none m q s unanswered =
      let (gate, pubs) = batch_gate a m.call q q.signature s.pubs in
      past_batch_gate-none m q gate (record s { pubs = pubs }) unanswered

  add_one-CountedIf :
      (m : Visit) (q : MeterReading) (success : Option Bool)
      (readings : List (Visit × MeterReading)) (later : Option BatchResponse × State V)
      (s : State V)
      → (success ≡ none → q.raw_payload ≢ [])
      → CountedIf readings later.0
      → CountedIf ((m, q) ∷ readings) (add_one a m success later s).0
  add_one-CountedIf m q none readings later s stopped h = inl (stopped refl)
  add_one-CountedIf m q (some success) readings (none, s') s stopped h = inr h
  add_one-CountedIf m q (some true) readings (some b, s') s stopped h =
      (omega (arith, h.0), omega (arith, h.1))
  add_one-CountedIf m q (some false) readings (some b, s') s stopped h = (omega (arith, h.0), h.1)

  ingest_all-CountedIf :
      (readings : List (Visit × MeterReading)) (s : State V)
      → CountedIf readings (ingest_all a readings s).0
  unfolding ingest_all
  ingest_all-CountedIf [] s = (refl, refl)
  ingest_all-CountedIf ((m, q) ∷ readings) s =
      let (success, s') = ingest_one a m q s in
      add_one-CountedIf m q success readings (ingest_all a readings s') s' (ingest_one-none m q s)
        (ingest_all-CountedIf readings s')

  status_iff :
      (rejected : ℕ)
      → ((if rejected == 0 then codes "all_accepted" else codes "partially_accepted")
          ≡ codes "all_accepted")
        ↔ (rejected ≡ 0)
  status_iff rejected = ground arith

  with_status-Reported :
      (readings : List (Visit × MeterReading)) (b : Option BatchResponse)
      → CountedIf readings b
      → Reported readings (with_status a b)
  with_status-Reported readings none h = h
  with_status-Reported readings (some b) h = (h, status_iff b.rejected_count)

  -- A batch that is not answered has a reading with a raw payload. One that is
  -- answered accepts or rejects each of its readings, draws a receipt for each that it accepts and for no other,
  -- and reports that all were accepted exactly if it rejected none.
  pub ingest_batch-Reported :
      (readings : List (Visit × MeterReading)) (s : State V)
      → Reported readings (ingest_batch a readings s).0
  unfolding ingest_batch
  ingest_batch-Reported readings s =
      with_status-Reported readings (ingest_all a readings s).0 (ingest_all-CountedIf readings s)
