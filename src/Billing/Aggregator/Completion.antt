-- ===== src/Billing/Aggregator/Completion.antt =====
-- When a window counts as over: event time per meter, with the two fallbacks of
-- `peek_completed_bins_at` (crates/aggregator-logic/src/aggregator.rs).
use gridtokenx_aggregator_br.Base.{
  ℕ, ◌+◌, ◌-◌, ◌≤◌, ◌<◌, ◌≡◌, refl, ◌∙◌, ap, ◌↔◌, ◌⊎◌, inl, inr, true, Option, none, some, [], ◌∷◌,
  arith, if◌then◌else◌, ◌==◌, nat_eq, Option-cases,
}
use gridtokenx_aggregator_br.Base.Dict.{lookup, lookup-insert}
use gridtokenx_aggregator_br.Billing.Time.{Timestamp}
use gridtokenx_aggregator_br.Billing.Bin.{Decimals, Uuid, BillingBin}
use gridtokenx_aggregator_br.Billing.Aggregator.{
  MeterProgress, Aggregator, Reading, new, advance, handle_reading, is_complete,
}
use gridtokenx_aggregator_br.Billing.Aggregator.Ingest.{Arrivals, ingest}

-- What a run of arrivals makes of the progress of one meter.
abbrev pub progress_after : Uuid → Timestamp → Reading → Option MeterProgress → Option MeterProgress
progress_after m now r o = if r.meter_id == m then some (advance now r.timestamp o) else o

module _ ⦃decimals : Decimals⦄ where
  lookup-progress :
      (m : Uuid) (now : Timestamp) (r : Reading) (a : Aggregator)
      → lookup m (handle_reading now r a).0.progress ≡ progress_after m now r (lookup m a.progress)
  unfolding handle_reading
  lookup-progress m now r a = ground (
    arith,
    lookup-insert r.meter_id m (advance now r.timestamp (lookup r.meter_id a.progress)) a.progress,
  )

progress_after_all : Uuid → Arrivals → Option MeterProgress → Option MeterProgress
progress_after_all m [] o = o
progress_after_all m ((now, r) ∷ rs) o = progress_after_all m rs (progress_after m now r o)

module _ ⦃decimals : Decimals⦄ where
  progress-ingest :
      (m : Uuid) (rs : Arrivals) (a : Aggregator)
      → lookup m (ingest rs a).progress ≡ progress_after_all m rs (lookup m a.progress)
  unfolding ingest progress_after_all
  progress-ingest m [] a = refl
  progress-ingest m ((now, r) ∷ rs) a =
      progress-ingest m rs (handle_reading now r a).0
      ∙ ap (progress_after_all m rs) (lookup-progress m now r a)

-- Some reading of the meter carries a timestamp of at least `t`.
abbrev pub Reached : Uuid → Timestamp → Arrivals → Type 0
Reached m t [] = ⊥
Reached m t ((_, r) ∷ rs) = ((r.meter_id ≡ m) × (t ≤ r.timestamp)) ⊎ Reached m t rs

-- When the last reading of a meter arrived.
pub last_arrival_of : Uuid → Arrivals → Option Timestamp
last_arrival_of m [] = none
last_arrival_of m ((now, r) ∷ rs) = elim (last_arrival_of m rs) [
  | some t ↦ some t
  | none ↦ if r.meter_id == m then some now else none
]

-- The watermark, if there is one, is at least `t`.
abbrev AtLeast : Timestamp → Option MeterProgress → Type 0
AtLeast t none = ⊥
AtLeast t (some p) = t ≤ p.watermark

abbrev arrival_of : Option MeterProgress → Option Timestamp
arrival_of none = none
arrival_of (some p) = some p.last_arrival

AtLeast-step :
    (t : Timestamp) (m : Uuid) (now : Timestamp) (r : Reading) (o : Option MeterProgress)
    → AtLeast t (progress_after m now r o) ↔ (((r.meter_id ≡ m) × (t ≤ r.timestamp)) ⊎ AtLeast t o)
unfolding advance
AtLeast-step t m now r none = ground arith
AtLeast-step t m now r (some p) = ground arith

AtLeast-Reached :
    (t : Timestamp) (m : Uuid) (rs : Arrivals) (o : Option MeterProgress)
    → AtLeast t (progress_after_all m rs o) ↔ (Reached m t rs ⊎ AtLeast t o)
unfolding progress_after_all
AtLeast-Reached t m [] o = (inr, λ h. elim h [ inl x ↦ absurd x | inr y ↦ y ])
AtLeast-Reached t m ((now, r) ∷ rs) o =
    ground (arith, AtLeast-step t m now r o, AtLeast-Reached t m rs (progress_after m now r o))

arrival-step :
    (m : Uuid) (now : Timestamp) (r : Reading) (o : Option MeterProgress)
    → arrival_of (progress_after m now r o) ≡ (if r.meter_id == m then some now else arrival_of o)
unfolding advance
arrival-step m now r none = ground arith
arrival-step m now r (some p) = ground arith

arrival-progress :
    (m : Uuid) (rs : Arrivals) (o : Option MeterProgress)
    → arrival_of (progress_after_all m rs o)
      ≡ elim (last_arrival_of m rs) [ some t ↦ some t | none ↦ arrival_of o ]
unfolding progress_after_all last_arrival_of
arrival-progress m [] o = refl
arrival-progress m ((now, r) ∷ rs) o =
    ground (arith, arrival-progress m rs (progress_after m now r o), arrival-step m now r o)

-- The window of `bin` is over at `now`, by the readings that its meter has sent.
pub data Over (now grace : ℕ) (rs : Arrivals) (bin : BillingBin) : Type 0 where
  passed : Reached bin.meter_id (bin.end_time + grace) rs → Over now grace rs bin
  idle :
      (t : Timestamp)
      → last_arrival_of bin.meter_id rs ≡ some t
      → 0 < grace
      → grace ≤ now - t
      → bin.end_time ≤ now
      → Over now grace rs bin
  silent :
      last_arrival_of bin.meter_id rs ≡ none → bin.end_time + grace ≤ now → Over now grace rs bin

is_complete-AtLeast :
    (now grace : ℕ) (a : Aggregator) (bin : BillingBin) (p : MeterProgress)
    → lookup bin.meter_id a.progress ≡ some p
    → (is_complete now grace a bin ≡ true) ↔ (
        (bin.end_time + grace ≤ p.watermark)
        ⊎ ((0 < grace) × (grace ≤ now - p.last_arrival) × (bin.end_time ≤ now)))
unfolding is_complete
is_complete-AtLeast now grace a bin p e = ground arith

is_complete-silent :
    (now grace : ℕ) (a : Aggregator) (bin : BillingBin)
    → lookup bin.meter_id a.progress ≡ none
    → (is_complete now grace a bin ≡ true) ↔ (bin.end_time + grace ≤ now)
unfolding is_complete
is_complete-silent now grace a bin e = ground arith

module _ ⦃decimals : Decimals⦄ where
  -- The history of a process that started empty, as far as one meter's progress goes.
  progress_cases :
      (m : Uuid) (rs : Arrivals)
      → ((lookup m (ingest rs new).progress ≡ none)
          × (last_arrival_of m rs ≡ none)
          × ((t : ℕ) → ¬ Reached m t rs))
        ⊎ ((p : MeterProgress) × (lookup m (ingest rs new).progress ≡ some p)
            × (last_arrival_of m rs ≡ some p.last_arrival)
            × ((t : ℕ) → (t ≤ p.watermark) ↔ Reached m t rs))
  unfolding new lookup
  progress_cases m rs = elim (Option-cases (progress_after_all m rs none)) [
    | inl e ↦ inl (
      progress-ingest m rs new ∙ e,
      ground (arith, arrival-progress m rs none),
      λ t h. rw e at ((AtLeast-Reached t m rs none).1 (inl h)),
    )
    | inr (p, e) ↦ inr (
      p,
      progress-ingest m rs new ∙ e,
      ground (arith, arrival-progress m rs none),
      λ t. (
        λ h. elim ((AtLeast-Reached t m rs none).0 (rw e h)) [ inl x ↦ x | inr y ↦ absurd y ],
        λ h. rw e at ((AtLeast-Reached t m rs none).1 (inl h)),
      ),
    )
  ]

  -- In a process that started empty, a window counts as complete exactly when its meter has sent a
  -- reading past the end of the window and the grace, or (with a positive grace) has been quiet for the
  -- grace with the window past, or has sent nothing at all and the window and the grace are past.
  pub is_complete_iff :
      (now grace : ℕ) (rs : Arrivals) (bin : BillingBin)
      → (is_complete now grace (ingest rs new) bin ≡ true) ↔ Over now grace rs bin
  is_complete_iff now grace rs bin = elim (progress_cases bin.meter_id rs) [
    | inl (e, quiet, unreached) ↦
        let iff = is_complete-silent now grace (ingest rs new) bin e in
        (λ h. silent quiet (iff.0 h), λ over. iff.1 (from_silent quiet unreached over))
    | inr (p, e, last, reached) ↦
        let iff = is_complete-AtLeast now grace (ingest rs new) bin p e in
        (
          λ h. elim (iff.0 h) [
            | inl past ↦ passed ((reached _).0 past)
            | inr (g, quiet, ended) ↦ idle p.last_arrival last g quiet ended
          ],
          λ over. iff.1 (from_progress p last reached over),
        )
  ]
    where
      from_silent :
          last_arrival_of bin.meter_id rs ≡ none
          → ((t : ℕ) → ¬ Reached bin.meter_id t rs)
          → Over now grace rs bin
          → bin.end_time + grace ≤ now
      from_silent quiet unreached (passed x) = absurd (unreached _ x)
      from_silent quiet unreached (idle t e _ _ _) = cc
      from_silent quiet unreached (silent _ h) = h

      from_progress :
          (p : MeterProgress)
          → last_arrival_of bin.meter_id rs ≡ some p.last_arrival
          → ((t : ℕ) → (t ≤ p.watermark) ↔ Reached bin.meter_id t rs)
          → Over now grace rs bin
          → (bin.end_time + grace ≤ p.watermark)
            ⊎ ((0 < grace) × (grace ≤ now - p.last_arrival) × (bin.end_time ≤ now))
      from_progress p last reached (passed x) = inl ((reached _).1 x)
      from_progress p last reached (idle t e g q d) = ground arith
      from_progress p last reached (silent e _) = cc
