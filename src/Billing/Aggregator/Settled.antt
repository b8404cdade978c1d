-- ===== src/Billing/Aggregator/Settled.antt =====
-- A window is settled once: `remove_bins` against the readings that come after
-- (crates/aggregator-logic/src/aggregator.rs).
use gridtokenx_aggregator_br.Base.{
  ℕ, ◌-◌, ◌*◌, ◌≡◌, refl, ap, ◌↔◌, Bool, true, false, Option, none, some, List, [], ◌∷◌, arith, leb,
  if◌then◌else◌, any, keep, ◌==◌, nat_eq, pair_eq,
}
use gridtokenx_aggregator_br.Base.Dict.{lookup, lookup-insert, lookup-remove}
use gridtokenx_aggregator_br.Billing.Time.{Timestamp, hour_ns}
use gridtokenx_aggregator_br.Billing.Bin.{Decimals, BinKey, unwrap_or}
use gridtokenx_aggregator_br.Billing.Aggregator.{
  settled_retention_hours, MeterProgress, Aggregator, Reading, get_window_start, reading_key,
  is_settled, handle_reading, insert_window, retain_windows, remove_bin, remove_bins,
}
use gridtokenx_aggregator_br.Billing.Aggregator.Ingest.{Arrivals, ingest, lookup-ingest}

-- A window that `remove_bins` still remembers: it starts at most 24 hours before the newest
-- reading of its meter, or the meter has sent nothing since the start of the process.
abbrev pub remembered : Option MeterProgress → Timestamp → Bool
remembered none start = true
remembered (some p) start = leb (p.watermark - settled_retention_hours * hour_ns) start

any-keep :
    (p : ℕ → Bool) (w : ℕ) (ws : List ℕ)
    → any (λ v. v == w) (keep p ws) ≡ (if p w then any (λ v. v == w) ws else false)
any-keep p w [] = ground arith
any-keep p w (x ∷ xs) = ground (arith, any-keep p w xs, ap p {x = x} {y = w})

any-insert_window :
    (w v : ℕ) (ws : List ℕ)
    → any (λ u. u == v) (insert_window w ws) ≡ (if w == v then true else any (λ u. u == v) ws)
unfolding insert_window
any-insert_window w v ws = ground (arith, ap (λ t. any (λ u. u == t) ws) {x = w} {y = v})

any-retain_windows :
    (o : Option MeterProgress) (w : ℕ) (ws : List ℕ)
    → any (λ v. v == w) (retain_windows o ws)
      ≡ (if remembered o w then any (λ v. v == w) ws else false)
unfolding retain_windows
any-retain_windows none w ws = refl
any-retain_windows (some p) w ws = any-keep _ w ws

-- One round of `remove_bins` on the settled windows: what is remembered of that meter's windows is
-- what was there, with the new one; no other meter is touched.
pub is_settled-remove_bin :
    (m s n t : ℕ) (a : Aggregator)
    → is_settled (remove_bin (m, s) a).settled (n, t) ≡ (
        if m == n
        then (if remembered (lookup m a.progress) t
            then (if s == t then true else is_settled a.settled (m, t))
            else false)
        else is_settled a.settled (n, t))
unfolding remove_bin is_settled
is_settled-remove_bin m s n t a = ground (
  arith,
  lookup-insert m n (retain_windows o (insert_window s ws)) a.settled,
  any-retain_windows o t (insert_window s ws),
  any-insert_window s t ws,
)
  where
    o : Option MeterProgress
    o = lookup m a.progress

    ws : List ℕ
    ws = unwrap_or (lookup m a.settled) []

pub lookup-remove_bin :
    (k j : BinKey) (a : Aggregator)
    → lookup j (remove_bin k a).active_bins ≡ (if k == j then none else lookup j a.active_bins)
unfolding remove_bin
lookup-remove_bin k j a = lookup-remove k j a.active_bins

module _ ⦃decimals : Decimals⦄ where
  -- Once a window is settled and remembered, no run of readings forms its bin again: the bin is gone
  -- after the run, whatever arrives.
  pub remove_bin-ingest :
      (k : BinKey) (a : Aggregator) (rs : Arrivals)
      → remembered (lookup k.0 a.progress) k.1 ≡ true
      → lookup k (ingest rs (remove_bin k a)).active_bins ≡ none
  remove_bin-ingest k a rs kept =
      rw (lookup-ingest k rs (remove_bin k a), is_settled-remove_bin k.0 k.1 k.0 k.1 a, kept)
        (ground (arith, lookup-remove_bin k k a, (pair_eq {A = ℕ} {B = ℕ}).same_iff k k))

  -- A reading for a window that was just settled is excluded from billing exactly while the window is
  -- remembered; a reading of a forgotten window forms its bin again.
  pub late_reading_iff :
      (now : Timestamp) (r : Reading) (a : Aggregator)
      → ((handle_reading now r (remove_bin (reading_key r) a)).1 ≡ none)
        ↔ (remembered (lookup r.meter_id a.progress) (get_window_start r.timestamp) ≡ true)
  unfolding handle_reading
  late_reading_iff now r a = ground (
    arith,
    is_settled-remove_bin r.meter_id (get_window_start r.timestamp) r.meter_id
        (get_window_start r.timestamp) a,
  )

pub progress-remove_bin : (k : BinKey) (a : Aggregator) → (remove_bin k a).progress ≡ a.progress
unfolding remove_bin
progress-remove_bin k a = refl

-- Later rounds of one call of `remove_bins` neither forget a remembered window nor bring its bin
-- back.
pub remove_bins_keep :
    (ks : List BinKey) (k : BinKey) (a : Aggregator)
    → remembered (lookup k.0 a.progress) k.1 ≡ true
    → is_settled a.settled k ≡ true
    → lookup k a.active_bins ≡ none
    → (is_settled (remove_bins ks a).settled k ≡ true)
      × (lookup k (remove_bins ks a).active_bins ≡ none)
unfolding remove_bins
remove_bins_keep [] k a kept s l = (s, l)
remove_bins_keep (j ∷ ks) k a kept s l =
    remove_bins_keep ks k (remove_bin j a) (rw (progress-remove_bin j a) kept)
      (ground (
        arith,
        is_settled-remove_bin j.0 j.1 k.0 k.1 a,
        ap (λ m. lookup m a.progress) {x = j.0} {y = k.0},
        ap (λ m. is_settled a.settled (m, k.1)) {x = j.0} {y = k.0},
      ))
      (ground (arith, lookup-remove_bin j k a))
