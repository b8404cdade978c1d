-- ===== src/Billing/Aggregator/Sweep.antt =====
-- The settlement sweep of src/main.rs takes the completed bins and removes them, under one lock.
pub mod Runs
use gridtokenx_aggregator_br.Base.{
  ℕ, ◌≡◌, ◌≢◌, refl, ◌∙◌, ap, inl, inr, Bool, true, none, some, List, [], ◌∷◌, map, arith, keep,
  ◌==◌, nat_eq, pair_eq, In, Bool-cases, Option-cases,
}
use gridtokenx_aggregator_br.Base.Dict.{Dict, lookup, insert, remove}
use gridtokenx_aggregator_br.Billing.Time.{Timestamp}
use gridtokenx_aggregator_br.Billing.Bin.{Decimals, BinKey, BillingBin, key, unwrap_or}
use gridtokenx_aggregator_br.Billing.Aggregator.{
  Aggregator, Reading, reading_key, empty_bin, absorb, is_settled, handle_reading,
  peek_completed_bins_at, remove_bin, remove_bins,
}
use gridtokenx_aggregator_br.Billing.Aggregator.Ingest.{Arrivals, ingest, lookup-ingest}
use gridtokenx_aggregator_br.Billing.Aggregator.Settled.{
  remembered, is_settled-remove_bin, lookup-remove_bin, progress-remove_bin, remove_bins_keep,
}

-- Every bin stands under its own key.
abbrev pub KeyedBins : Dict BinKey BillingBin → Type 0
KeyedBins [] = Unit
KeyedBins ((k, bin) ∷ d) = (key bin ≡ k) × KeyedBins d

insert-KeyedBins :
    (k : BinKey) (bin : BillingBin) (d : Dict BinKey BillingBin)
    → key bin ≡ k
    → KeyedBins d
    → KeyedBins (insert k bin d)
unfolding insert
insert-KeyedBins k bin [] e h = (e, tt)
insert-KeyedBins k bin ((j, b) ∷ d) e h = elim (Bool-cases (j == k)) [
  | inl same ↦ rw same (e, h.1)
  | inr other ↦ rw other (h.0, insert-KeyedBins k bin d e h.1)
]

remove-KeyedBins : (k : BinKey) (d : Dict BinKey BillingBin) → KeyedBins d → KeyedBins (remove k d)
unfolding remove
remove-KeyedBins k [] h = tt
remove-KeyedBins k ((j, b) ∷ d) h = elim (Bool-cases (j == k)) [
  | inl same ↦ rw same (remove-KeyedBins k d h.1)
  | inr other ↦ rw other (h.0, remove-KeyedBins k d h.1)
]

lookup-KeyedBins :
    (k : BinKey) (d : Dict BinKey BillingBin) (bin : BillingBin)
    → KeyedBins d
    → lookup k d ≡ some bin
    → key bin ≡ k
unfolding lookup
lookup-KeyedBins k [] bin h e = cc
lookup-KeyedBins k ((j, b) ∷ d) bin h e =
    ground (arith, lookup-KeyedBins k d bin h.1, (pair_eq {A = ℕ} {B = ℕ}).same_iff j k)

module _ ⦃decimals : Decimals⦄ where
  key-absorb : (r : Reading) (bin : BillingBin) → key (absorb r bin) ≡ key bin
  unfolding absorb
  key-absorb r bin = ground arith

key-unwrap_or :
    (k : BinKey) (d : Dict BinKey BillingBin) (fresh : BillingBin)
    → KeyedBins d
    → key fresh ≡ k
    → key (unwrap_or (lookup k d) fresh) ≡ k
key-unwrap_or k d fresh h e = elim (Option-cases (lookup k d)) [
  | inl missing ↦ rw missing e
  | inr (bin, found) ↦ rw found (lookup-KeyedBins k d bin h found)
]

module _ ⦃decimals : Decimals⦄ where
  -- `handle_reading` files every bin under its own key.
  pub handle_reading-KeyedBins :
      (now : Timestamp) (r : Reading) (a : Aggregator)
      → KeyedBins a.active_bins
      → KeyedBins (handle_reading now r a).0.active_bins
  unfolding handle_reading empty_bin
  handle_reading-KeyedBins now r a h = elim (Bool-cases (is_settled a.settled (reading_key r))) [
    | inl late ↦ rw late h
    | inr open_window ↦ rw open_window (
        insert-KeyedBins (reading_key r) _ a.active_bins
          (key-absorb r _ ∙ key-unwrap_or (reading_key r) a.active_bins (empty_bin r) h refl) h)
  ]

pub remove_bins-KeyedBins :
    (ks : List BinKey) (a : Aggregator)
    → KeyedBins a.active_bins
    → KeyedBins (remove_bins ks a).active_bins
unfolding remove_bins remove_bin
remove_bins-KeyedBins [] a h = h
remove_bins-KeyedBins (k ∷ ks) a h =
    remove_bins-KeyedBins ks (remove_bin k a) (remove-KeyedBins k a.active_bins h)

-- A bin that a filter of the values yields is found under its key.
pub lookup_of_In :
    (p : BillingBin → Bool) (b : BillingBin) (d : Dict BinKey BillingBin)
    → KeyedBins d
    → In b (keep p (map (λ e. e.1) d))
    → lookup (key b) d ≢ none
unfolding lookup
lookup_of_In p b [] h i = absurd i
lookup_of_In p b ((j, c) ∷ d) h i = ground (
  arith,
  lookup_of_In p b d h.1,
  (pair_eq {A = ℕ} {B = ℕ}).same_iff j (key b),
  ap key {x = c} {y = b},
)

-- `remove_bins` settles each remembered window of its list.
pub remove_bins_settle :
    (ks : List BinKey) (k : BinKey) (a : Aggregator)
    → In k ks
    → remembered (lookup k.0 a.progress) k.1 ≡ true
    → (is_settled (remove_bins ks a).settled k ≡ true)
      × (lookup k (remove_bins ks a).active_bins ≡ none)
unfolding remove_bins
remove_bins_settle [] k a i kept = absurd i
remove_bins_settle (j ∷ ks) k a (inl e) kept =
    remove_bins_keep ks k (remove_bin j a) (rw (progress-remove_bin j a) kept)
      (ground (
        arith,
        is_settled-remove_bin j.0 j.1 k.0 k.1 a,
        ap (λ m. lookup m a.progress) {x = j.0} {y = k.0},
      ))
      (ground (arith, lookup-remove_bin j k a, (pair_eq {A = ℕ} {B = ℕ}).same_iff j k))
remove_bins_settle (j ∷ ks) k a (inr i) kept =
    remove_bins_settle ks k (remove_bin j a) i (rw (progress-remove_bin j a) kept)

-- What the sweep does under the lock of the aggregator.
unfoldable pub sweep : Timestamp → ℕ → Aggregator → Aggregator × List BillingBin
sweep now grace a =
    let bins = peek_completed_bins_at now grace a in (remove_bins (map key bins) a, bins)

pub In-map-key : (b : BillingBin) (bins : List BillingBin) → In b bins → In (key b) (map key bins)
In-map-key b [] i = absurd i
In-map-key b (c ∷ bins) (inl e) = inl (ap key e)
In-map-key b (c ∷ bins) (inr i) = inr (In-map-key b bins i)
