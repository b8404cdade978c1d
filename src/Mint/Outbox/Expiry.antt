-- ===== src/Mint/Outbox/Expiry.antt =====
-- When `is_expired` (crates/aggregator-logic/src/mint_outbox.rs) takes a mint out of the retry path.
use gridtokenx_aggregator_br.Base.{ℕ, ◌+◌, ◌*◌, ◌^◌, ◌≤◌, ◌<◌, ◌≡◌, ◌↔◌, true, arith, nat_eq}
use gridtokenx_aggregator_br.Base.Int.{pos, ◌-ℤ◌}
use gridtokenx_aggregator_br.Mint.Field.{PendingMint}
use gridtokenx_aggregator_br.Mint.Outbox.{is_expired}

-- With times after 1970 and an age bound whose milliseconds fit `i64`, a mint expires exactly when the
-- bound is set and more time than it has passed since the enqueue.
pub is_expired_iff :
    (p : PendingMint) (enqueued now age : ℕ)
    → p.enqueued_at_ms ≡ pos enqueued
    → enqueued < 2 ^ 63
    → now < 2 ^ 63
    → age * 1000 < 2 ^ 63
    → (is_expired p (pos now) age ≡ true) ↔ ((0 < age) × (enqueued + age * 1000 < now))
unfolding is_expired ◌-ℤ◌
is_expired_iff p enqueued now age e he hn ha = rw e (ground arith)

-- The age bound is a `u64` that the code casts to `i64`: a bound of 2^63 seconds or more turns
-- negative, and every mint with times after 1970 expires at once, the moment it is enqueued.
pub is_expired_wraps :
    (p : PendingMint) (enqueued now age : ℕ)
    → p.enqueued_at_ms ≡ pos enqueued
    → enqueued ≤ now
    → now < 2 ^ 63
    → 2 ^ 63 ≤ age
    → age < 2 ^ 64
    → is_expired p (pos now) age ≡ true
unfolding is_expired ◌-ℤ◌
is_expired_wraps p enqueued now age e hm hn h1 h2 = rw e (ground arith)
