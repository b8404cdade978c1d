-- ===== src/Mint.antt =====
-- The minting of settled surplus: the idempotency key, the durable outbox, the attempts against Chain
-- Bridge, and the loops that hand surplus over and retry it.
pub mod Field
pub mod Outbox
pub mod Bridge
pub mod Attempt
pub mod Settlement
pub mod Drain
pub mod Loops
pub mod Tests
