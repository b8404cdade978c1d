-- ===== src/Billing/Time.antt =====
-- `chrono::DateTime<Utc>` as nanoseconds since the Unix epoch, with the accessors that
-- `get_window_start` calls. Instants before 1970 lie outside the model.
use gridtokenx_aggregator_br.Base.{ℕ, ◌+◌, ◌-◌, ◌*◌, ◌/◌, ◌%◌}

abbrev pub Timestamp : Type 0
Timestamp = ℕ

abbrev pub second_ns : ℕ
second_ns = 1_000_000_000

abbrev pub minute_ns : ℕ
minute_ns = 60_000_000_000

abbrev pub hour_ns : ℕ
hour_ns = 3_600_000_000_000

abbrev pub minute : Timestamp → ℕ
minute t = t / minute_ns % 60

abbrev pub second : Timestamp → ℕ
second t = t / second_ns % 60

abbrev pub nanosecond : Timestamp → ℕ
nanosecond t = t % second_ns

-- Each setter replaces one component and leaves the others; its argument is in range where the
-- program calls it, so the `unwrap` on its result cannot fail.
abbrev pub with_minute : Timestamp → ℕ → Timestamp
with_minute t m = t - minute t * minute_ns + m * minute_ns

abbrev pub with_second : Timestamp → ℕ → Timestamp
with_second t s = t - second t * second_ns + s * second_ns

abbrev pub with_nanosecond : Timestamp → ℕ → Timestamp
with_nanosecond t n = t - nanosecond t + n

abbrev pub timestamp_millis : Timestamp → ℕ
timestamp_millis t = t / 1_000_000
