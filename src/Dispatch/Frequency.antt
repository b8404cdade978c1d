-- ===== src/Dispatch/Frequency.antt =====
-- `FrequencyMonitor` of crates/aggregator-logic/src/grid_status.rs: a rolling window of samples that is pruned at its
-- front. An instant is a number of nanoseconds since the clock's origin; the operations on `f64` are parameters.
pub mod Window
use gridtokenx_aggregator_br.Base.{
  ℕ, ◌-◌, Bool, true, false, ◌&&◌, Option, none, some, List, [], ◌∷◌, ◌++◌, map, ltb, leb, length,
  if◌then◌else◌,
}
use gridtokenx_aggregator_br.Billing.Bin.{F64}

-- The bits of 40.0 and 70.0.
abbrev pub min_plausible_hz : F64
min_plausible_hz = 0x4044000000000000

abbrev pub max_plausible_hz : F64
max_plausible_hz = 0x4051800000000000

-- `is_finite`, `<=`, the sum of an iterator, the cast of a length and the quotient.
pub record Arithmetic : Type 0 where
  pub is_finite : F64 → Bool
  pub le : F64 → F64 → Bool
  pub sum : List F64 → F64
  pub of_len : ℕ → F64
  pub div : F64 → F64 → F64

abbrev pub Sample : Type 0
Sample = ℕ × F64

unfoldable pub drop_stale : ℕ → List Sample → List Sample
drop_stale cutoff [] = []
drop_stale cutoff (e ∷ samples) =
    let rest = drop_stale cutoff samples in if ltb e.0 cutoff then rest else e ∷ samples

-- Nothing is evicted while the clock has not run for a whole window.
unfoldable pub evict : ℕ → ℕ → List Sample → List Sample
unfolding drop_stale
evict window now samples = if leb window now then drop_stale (now - window) samples else samples

module _ (f : Arithmetic) where
  abbrev pub is_plausible : F64 → Bool
  is_plausible hz = f.is_finite hz && (f.le min_plausible_hz hz && f.le hz max_plausible_hz)

  unfoldable pub record_sample : ℕ → ℕ → F64 → List Sample → List Sample
  unfolding evict
  record_sample window now hz samples =
      if is_plausible hz then evict window now (samples ++ ((now, hz) ∷ [])) else samples

  abbrev pub mean_of : List Sample → Option F64
  mean_of [] = none
  mean_of (e ∷ samples) =
      some (f.div (f.sum (map (λ x. x.1) (e ∷ samples))) (f.of_len (length (e ∷ samples))))

  unfoldable pub mean : ℕ → ℕ → List Sample → Option F64 × List Sample
  unfolding evict
  mean window now samples = let samples' = evict window now samples in (mean_of samples', samples')

  -- The samples that a monitor keeps after recording some, from the first to the last.
  unfoldable pub record_all : ℕ → List Sample → List Sample → List Sample
  unfolding record_sample
  record_all window [] samples = samples
  record_all window (e ∷ more) samples =
      record_all window more (record_sample window e.0 e.1 samples)
