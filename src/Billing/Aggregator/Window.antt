-- ===== src/Billing/Aggregator/Window.antt =====
-- The 15-minute windows of `get_window_start` (crates/aggregator-logic/src/aggregator.rs).
use gridtokenx_aggregator_br.Base.{ℕ, ◌+◌, ◌*◌, ◌%◌, ◌≤◌, ◌<◌, ◌≡◌, ◌↔◌, arith}
use gridtokenx_aggregator_br.Billing.Time.{Timestamp, minute_ns}
use gridtokenx_aggregator_br.Billing.Aggregator.{window_minutes, get_window_start}

abbrev pub window_ns : ℕ
window_ns = window_minutes * minute_ns

-- Clearing the components below the window is rounding down to a multiple of its length.
pub get_window_start-floor :
    (t : Timestamp)
    → (get_window_start t % window_ns ≡ 0)
      × (get_window_start t ≤ t)
      × (t < get_window_start t + window_ns)
unfolding get_window_start
get_window_start-floor t = (omega arith, omega arith, omega arith)

-- The window start of an instant is the one multiple of 15 minutes that lies at most 15 minutes
-- before it.
pub get_window_start_iff :
    (t s : Timestamp)
    → (s ≡ get_window_start t) ↔ ((s % window_ns ≡ 0) × (s ≤ t) × (t < s + window_ns))
get_window_start_iff t s =
    (λ e. rw e (get_window_start-floor t), λ h. omega (arith, get_window_start-floor t))
