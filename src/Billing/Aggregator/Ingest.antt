-- ===== src/Billing/Aggregator/Ingest.antt =====
-- A run of `handle_reading` over a list of arrivals, and what it does to one key of the map.
use gridtokenx_aggregator_br.Base.{
  ℕ, ◌≡◌, refl, ap, ◌∙◌, Option, some, List, [], ◌∷◌, arith, if◌then◌else◌, ◌==◌, nat_eq, pair_eq,
  Bool-cases, inl, inr,
}
use gridtokenx_aggregator_br.Base.Dict.{lookup, lookup-insert}
use gridtokenx_aggregator_br.Billing.Time.{Timestamp}
use gridtokenx_aggregator_br.Billing.Bin.{Decimals, BinKey, BillingBin, unwrap_or}
use gridtokenx_aggregator_br.Billing.Aggregator.{
  Aggregator, Reading, reading_key, empty_bin, absorb, is_settled, handle_reading,
}

-- Readings with the clock time of their arrival.
abbrev pub Arrivals : Type 0
Arrivals = List (Timestamp × Reading)

module _ ⦃decimals : Decimals⦄ where
  unfoldable pub ingest : Arrivals → Aggregator → Aggregator
  ingest [] a = a
  ingest ((now, r) ∷ rs) a = ingest rs (handle_reading now r a).0

  pub settled-handle_reading :
      (now : Timestamp) (r : Reading) (a : Aggregator)
      → (handle_reading now r a).0.settled ≡ a.settled
  unfolding handle_reading
  settled-handle_reading now r a = ground arith

  pub settled-ingest : (rs : Arrivals) (a : Aggregator) → (ingest rs a).settled ≡ a.settled
  unfolding ingest
  settled-ingest [] a = refl
  settled-ingest ((now, r) ∷ rs) a =
      settled-ingest rs (handle_reading now r a).0 ∙ settled-handle_reading now r a

  -- What a reading makes of the bin under a key that is not settled.
  abbrev pub bin_after : BinKey → Reading → Option BillingBin → Option BillingBin
  bin_after k r o = if reading_key r == k then some (absorb r (unwrap_or o (empty_bin r))) else o

  pub lookup-handle_reading :
      (k : BinKey) (now : Timestamp) (r : Reading) (a : Aggregator)
      → lookup k (handle_reading now r a).0.active_bins ≡ (
          if is_settled a.settled (reading_key r)
          then lookup k a.active_bins
          else bin_after k r (lookup k a.active_bins))
  unfolding handle_reading
  lookup-handle_reading k now r a = elim (Bool-cases (is_settled a.settled (reading_key r))) [
    | inl late ↦ rw late
    | inr open_window ↦ rw open_window (
        ground (
          arith,
          (pair_eq {A = ℕ} {B = ℕ}).same_iff (reading_key r) k,
          lookup-insert (reading_key r) k
              (absorb r (unwrap_or (lookup (reading_key r) a.active_bins) (empty_bin r)))
              a.active_bins,
        ))
  ]

  -- The bin under a key after a run: the readings of that key, in order, and no other.
  unfoldable pub bin_after_all : BinKey → Arrivals → Option BillingBin → Option BillingBin
  bin_after_all k [] o = o
  bin_after_all k ((_, r) ∷ rs) o = bin_after_all k rs (bin_after k r o)

  -- A settled window keeps whatever it had; any other is made by the readings of its own key alone.
  pub lookup-ingest :
      (k : BinKey) (rs : Arrivals) (a : Aggregator)
      → lookup k (ingest rs a).active_bins ≡ (
          if is_settled a.settled k
          then lookup k a.active_bins
          else bin_after_all k rs (lookup k a.active_bins))
  unfolding ingest bin_after_all
  lookup-ingest k [] a = ground arith
  lookup-ingest k ((now, r) ∷ rs) a =
      rw
        (
          lookup-ingest k rs (handle_reading now r a).0,
          lookup-handle_reading k now r a,
          settled-handle_reading now r a,
        )
        (ground (
          arith,
          (pair_eq {A = ℕ} {B = ℕ}).same_iff (reading_key r) k,
          ap (is_settled a.settled) {x = reading_key r} {y = k},
        ))
