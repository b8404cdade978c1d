-- ===== src/Billing/Aggregator/Accounting.antt =====
-- What the energies of a bin add up to (crates/aggregator-logic/src/aggregator.rs, `handle_reading`).
use gridtokenx_aggregator_br.Base.{
  ℕ, ◌+◌, ◌%◌, ◌^◌, ◌<◌, ◌≡◌, refl, ap, ◌∙◌, Bool, true, false, ◌&&◌, Option, none, some, [], ◌∷◌,
  arith, if◌then◌else◌, ◌==◌, nat_eq, pair_eq, option_eq,
}
use gridtokenx_aggregator_br.Base.Dict.{lookup}
use gridtokenx_aggregator_br.Billing.Bin.{Decimals, Decimal, decimal_zero, BinKey, BillingBin}
use gridtokenx_aggregator_br.Billing.Aggregator.{
  Aggregator, Reading, reading_key, empty_bin, absorb, is_settled,
}
use gridtokenx_aggregator_br.Billing.Aggregator.Ingest.{
  Arrivals, ingest, bin_after, bin_after_all, lookup-ingest,
}

module _ ⦃decimals : Decimals⦄ where
  -- The sum that starts with an amount and adds, in the order of their arrival, the amounts of the readings of one key that
  -- count towards it.
  abbrev pub summed : (Reading → Bool) → (Reading → Decimal) → BinKey → Arrivals → Decimal → Decimal
  summed counts amount k [] d = d
  summed counts amount k ((_, r) ∷ rs) d =
      summed counts amount k rs
        (if (reading_key r == k) && counts r then decimals.add d (amount r) else d)

-- The number of readings of one key.
abbrev pub tally_count : BinKey → Arrivals → ℕ
tally_count k [] = 0
tally_count k ((_, r) ∷ rs) = (if reading_key r == k then 1 else 0) + tally_count k rs

abbrev pub every : Reading → Bool
every r = true

-- The readings under one tariff rate.
abbrev pub at_rate : ℕ → Reading → Bool
at_rate rate r = r.tariff_period == some rate

-- A field of a bin that may be missing.
abbrev pub field_of : (BillingBin → Decimal) → Option BillingBin → Decimal
field_of f none = decimal_zero
field_of f (some bin) = f bin

module _ ⦃decimals : Decimals⦄ (f : BillingBin → Decimal) (counts : Reading → Bool)
    (amount : Reading → Decimal) (fresh : (r : Reading) → f (empty_bin r) ≡ decimal_zero)
    (adds : (r : Reading) (bin : BillingBin)
      → f (absorb r bin) ≡ (if counts r then decimals.add (f bin) (amount r) else f bin)) where
  field-bin_after :
      (k : BinKey) (r : Reading) (o : Option BillingBin)
      → field_of f (bin_after k r o) ≡ (
          if (reading_key r == k) && counts r
          then decimals.add (field_of f o) (amount r)
          else field_of f o)
  field-bin_after k r none = ground (arith, fresh r, adds r (empty_bin r))
  field-bin_after k r (some bin) = ground (arith, adds r bin)

  field-bin_after_all :
      (k : BinKey) (rs : Arrivals) (o : Option BillingBin)
      → field_of f (bin_after_all k rs o) ≡ summed counts amount k rs (field_of f o)
  unfolding bin_after_all
  field-bin_after_all k [] o = refl
  field-bin_after_all k ((_, r) ∷ rs) o =
      field-bin_after_all k rs (bin_after k r o)
      ∙ ap (summed counts amount k rs) (field-bin_after k r o)

module _ ⦃decimals : Decimals⦄ where
  generated-absorb :
      (r : Reading) (bin : BillingBin)
      → (absorb r bin).energy_generated ≡ decimals.add bin.energy_generated r.generated
  unfolding absorb
  generated-absorb r bin = ground arith

  consumed-absorb :
      (r : Reading) (bin : BillingBin)
      → (absorb r bin).energy_consumed ≡ decimals.add bin.energy_consumed r.consumed
  unfolding absorb
  consumed-absorb r bin = ground arith

  generated_peak-absorb :
      (r : Reading) (bin : BillingBin)
      → (absorb r bin).energy_generated_peak ≡ (
          if at_rate 1 r
          then decimals.add bin.energy_generated_peak r.generated
          else bin.energy_generated_peak)
  unfolding absorb
  generated_peak-absorb r bin = ground arith

  generated_offpeak-absorb :
      (r : Reading) (bin : BillingBin)
      → (absorb r bin).energy_generated_offpeak ≡ (
          if at_rate 2 r
          then decimals.add bin.energy_generated_offpeak r.generated
          else bin.energy_generated_offpeak)
  unfolding absorb
  generated_offpeak-absorb r bin = ground arith

  consumed_peak-absorb :
      (r : Reading) (bin : BillingBin)
      → (absorb r bin).energy_consumed_peak ≡ (
          if at_rate 1 r
          then decimals.add bin.energy_consumed_peak r.consumed
          else bin.energy_consumed_peak)
  unfolding absorb
  consumed_peak-absorb r bin = ground arith

  consumed_offpeak-absorb :
      (r : Reading) (bin : BillingBin)
      → (absorb r bin).energy_consumed_offpeak ≡ (
          if at_rate 2 r
          then decimals.add bin.energy_consumed_offpeak r.consumed
          else bin.energy_consumed_offpeak)
  unfolding absorb
  consumed_offpeak-absorb r bin = ground arith

-- The counter of a bin that may be missing.
abbrev pub count_of : Option BillingBin → ℕ
count_of none = 0
count_of (some bin) = bin.reading_count

module _ ⦃decimals : Decimals⦄ where
  count-bin_after :
      (k : BinKey) (r : Reading) (o : Option BillingBin)
      → count_of o < 2 ^ 64
      → count_of (bin_after k r o) ≡ (count_of o + (if reading_key r == k then 1 else 0)) % 2 ^ 64
  unfolding absorb empty_bin
  count-bin_after k r none h = ground arith
  count-bin_after k r (some bin) h = ground arith

  count-bin_after_all :
      (k : BinKey) (rs : Arrivals) (o : Option BillingBin)
      → count_of o < 2 ^ 64
      → count_of (bin_after_all k rs o) ≡ (count_of o + tally_count k rs) % 2 ^ 64
  unfolding bin_after_all
  count-bin_after_all k [] o h = omega arith
  count-bin_after_all k ((_, r) ∷ rs) o h = omega (
    arith,
    count-bin_after k r o h,
    count-bin_after_all k rs (bin_after k r o) (omega (arith, count-bin_after k r o h)),
  )

-- What a run of readings has added to the bin of one key, against the bin before it.
pub record Accounts ⦃decimals : Decimals⦄ (k : BinKey) (rs : Arrivals)
    (before after : Option BillingBin) : Type 0 where
  pub generated :
      field_of (λ b. b.energy_generated) after
      ≡ summed every (λ r. r.generated) k rs (field_of (λ b. b.energy_generated) before)
  pub consumed :
      field_of (λ b. b.energy_consumed) after
      ≡ summed every (λ r. r.consumed) k rs (field_of (λ b. b.energy_consumed) before)
  pub generated_peak :
      field_of (λ b. b.energy_generated_peak) after
      ≡ summed (at_rate 1) (λ r. r.generated) k rs (field_of (λ b. b.energy_generated_peak) before)
  pub generated_offpeak :
      field_of (λ b. b.energy_generated_offpeak) after
      ≡ summed
          (at_rate 2)
          (λ r. r.generated)
          k
          rs
          (field_of (λ b. b.energy_generated_offpeak) before)
  pub consumed_peak :
      field_of (λ b. b.energy_consumed_peak) after
      ≡ summed (at_rate 1) (λ r. r.consumed) k rs (field_of (λ b. b.energy_consumed_peak) before)
  pub consumed_offpeak :
      field_of (λ b. b.energy_consumed_offpeak) after
      ≡ summed (at_rate 2) (λ r. r.consumed) k rs (field_of (λ b. b.energy_consumed_offpeak) before)
  pub count : count_of after ≡ (count_of before + tally_count k rs) % 2 ^ 64

module _ ⦃decimals : Decimals⦄ where
  bin_after_all-Accounts :
      (k : BinKey) (rs : Arrivals) (o : Option BillingBin)
      → count_of o < 2 ^ 64
      → Accounts k rs o (bin_after_all k rs o)
  unfolding empty_bin
  bin_after_all-Accounts k rs o h = record {
    generated = field-bin_after_all _ _ _ (λ r. refl) generated-absorb k rs o;
    consumed = field-bin_after_all _ _ _ (λ r. refl) consumed-absorb k rs o;
    generated_peak = field-bin_after_all _ _ _ (λ r. refl) generated_peak-absorb k rs o;
    generated_offpeak = field-bin_after_all _ _ _ (λ r. refl) generated_offpeak-absorb k rs o;
    consumed_peak = field-bin_after_all _ _ _ (λ r. refl) consumed_peak-absorb k rs o;
    consumed_offpeak = field-bin_after_all _ _ _ (λ r. refl) consumed_offpeak-absorb k rs o;
    count = count-bin_after_all k rs o h;
  }

  -- For a window that is not settled, a run of readings adds to its bin the readings of that meter and
  -- window, in the order of their arrival and no other, with the addition of `rust_decimal`: to the two
  -- totals each of them, to the peak sums those of rate 1, to the off-peak sums those of rate 2; and the
  -- counter goes up by their number modulo 2^64, if it was in range before.
  pub ingest-Accounts :
      (k : BinKey) (rs : Arrivals) (a : Aggregator)
      → is_settled a.settled k ≡ false
      → count_of (lookup k a.active_bins) < 2 ^ 64
      → Accounts k rs (lookup k a.active_bins) (lookup k (ingest rs a).active_bins)
  ingest-Accounts k rs a unsettled h =
      rw (lookup-ingest k rs a, unsettled) (bin_after_all-Accounts k rs (lookup k a.active_bins) h)
