-- ===== src/Billing/Aggregator/Sweep/Runs.antt =====
-- The settlement sweeps of src/main.rs between the readings that arrive.
use gridtokenx_aggregator_br.Base.{
  ℕ, ◌≡◌, ◌≢◌, ◌∙◌, inl, inr, true, none, List, nat_eq, pair_eq, [], ◌∷◌, ◌++◌, map, In,
}
use gridtokenx_aggregator_br.Base.Members.{In-append_inv}
use gridtokenx_aggregator_br.Base.Dict.{lookup}
use gridtokenx_aggregator_br.Billing.Time.{Timestamp}
use gridtokenx_aggregator_br.Billing.Bin.{Decimals, BinKey, BillingBin, key}
use gridtokenx_aggregator_br.Billing.Aggregator.{
  Aggregator, Reading, is_settled, handle_reading, peek_completed_bins_at,
}
use gridtokenx_aggregator_br.Billing.Aggregator.Ingest.{
  ingest, lookup-ingest, settled-handle_reading,
}
use gridtokenx_aggregator_br.Billing.Aggregator.Settled.{remembered, remove_bins_keep}
use gridtokenx_aggregator_br.Billing.Aggregator.Sweep.{
  KeyedBins, handle_reading-KeyedBins, remove_bins-KeyedBins, lookup_of_In, remove_bins_settle,
  sweep, In-map-key,
}

-- A reading arrives, or the loop sweeps with a grace, each at a clock time.
pub data LockStep : Type 0 where
  arrives : Timestamp → Reading → LockStep
  sweeps : Timestamp → ℕ → LockStep

module _ ⦃decimals : Decimals⦄ where
  abbrev pub after : LockStep → Aggregator → Aggregator
  after (arrives now r) a = (handle_reading now r a).0
  after (sweeps now grace) a = (sweep now grace a).0

abbrev pub taken_by : LockStep → Aggregator → List BillingBin
taken_by (arrives now r) a = []
taken_by (sweeps now grace) a = (sweep now grace a).1

module _ ⦃decimals : Decimals⦄ where
  -- All the bins that the sweeps of a run take.
  abbrev pub taken : List LockStep → Aggregator → List BillingBin
  taken [] a = []
  taken (s ∷ steps) a = taken_by s a ++ taken steps (after s a)

  -- The aggregator remembers the window at each sweep of the run.
  abbrev pub RememberedThrough : BinKey → List LockStep → Aggregator → Type 0
  RememberedThrough k [] a = Unit
  RememberedThrough k (arrives now r ∷ steps) a =
      RememberedThrough k steps (after (arrives now r) a)
  RememberedThrough k (sweeps now grace ∷ steps) a =
      (remembered (lookup k.0 a.progress) k.1 ≡ true)
      × RememberedThrough k steps (after (sweeps now grace) a)

-- A window that was settled has no bin.
abbrev SettledAway : BinKey → Aggregator → Type 0
SettledAway k a =
    KeyedBins a.active_bins × (is_settled a.settled k ≡ true) × (lookup k a.active_bins ≡ none)

module _ ⦃decimals : Decimals⦄ where
  arrives-SettledAway :
      (k : BinKey) (now : Timestamp) (r : Reading) (a : Aggregator)
      → SettledAway k a
      → SettledAway k (handle_reading now r a).0
  unfolding ingest
  arrives-SettledAway k now r a (keyed, settled, gone) = (
    handle_reading-KeyedBins now r a keyed,
    rw (settled-handle_reading now r a) settled,
    lookup-ingest k ((now, r) ∷ []) a ∙ rw settled gone,
  )

sweeps-SettledAway :
    (k : BinKey) (now : Timestamp) (grace : ℕ) (a : Aggregator)
    → remembered (lookup k.0 a.progress) k.1 ≡ true
    → SettledAway k a
    → SettledAway k (sweep now grace a).0
unfolding sweep
sweeps-SettledAway k now grace a kept (keyed, settled, gone) =
    let ks = map key (peek_completed_bins_at now grace a) in
    let away = remove_bins_keep ks k a kept settled gone in
    (remove_bins-KeyedBins ks a keyed, away.0, away.1)

-- A sweep does not take a window that has no bin.
not_swept :
    (k : BinKey) (now : Timestamp) (grace : ℕ) (a : Aggregator) (c : BillingBin)
    → SettledAway k a
    → In c (sweep now grace a).1
    → key c ≢ k
unfolding sweep peek_completed_bins_at
not_swept k now grace a c (keyed, settled, gone) i same =
    lookup_of_In _ c a.active_bins keyed i (rw same gone)

module _ ⦃decimals : Decimals⦄ where
  not_taken :
      (k : BinKey) (steps : List LockStep) (a : Aggregator) (c : BillingBin)
      → SettledAway k a
      → RememberedThrough k steps a
      → In c (taken steps a)
      → key c ≢ k
  not_taken k [] a c away kept i same = absurd i
  not_taken k (arrives now r ∷ steps) a c away kept i same =
      not_taken k steps (handle_reading now r a).0 c (arrives-SettledAway k now r a away) kept i
        same
  not_taken k (sweeps now grace ∷ steps) a c away (here, kept) i same =
      elim (In-append_inv c (sweep now grace a).1 (taken steps (sweep now grace a).0) i) [
        | inl now_taken ↦ not_swept k now grace a c away now_taken same
        | inr later ↦
            not_taken k steps (sweep now grace a).0 c (sweeps-SettledAway k now grace a here away)
              kept later same
      ]

  -- A bin that a sweep has taken is taken by no later sweep of a run of readings and sweeps, whatever their times, their
  -- graces and their order, if every bin stood under its own key at the start, and the aggregator remembers the window at
  -- that sweep and at each later one.
  pub sweep_once :
      (now : Timestamp) (grace : ℕ) (steps : List LockStep) (a : Aggregator) (b c : BillingBin)
      → KeyedBins a.active_bins
      → In b (sweep now grace a).1
      → RememberedThrough (key b) (sweeps now grace ∷ steps) a
      → In c (taken steps (sweep now grace a).0)
      → key c ≢ key b
  unfolding sweep
  sweep_once now grace steps a b c keyed i (here, kept) later =
      let ks = map key (peek_completed_bins_at now grace a) in
      let away = remove_bins_settle ks (key b) a (In-map-key b _ i) here in
      not_taken (key b) steps (sweep now grace a).0 c
        (remove_bins-KeyedBins ks a keyed, away.0, away.1) kept later
