-- ===== src/Keys.antt =====
-- The device keys of crates/aggregator-persistence/src/infra/crypto.rs: the pruned caches with their lifetimes,
-- the lookups behind them, `SignatureVerifier`, `DeviceKeyRegistry` and the replay counter. An instant is a
-- number of nanoseconds, and each method runs at one instant. The contents of Redis are a function of the key;
-- each round-trip meets faults. Hex decoding, the curve, Base58, Vault and the trimming of a text are parameters.
pub mod Cache
pub mod Registry
pub mod Verifier
pub mod Counter
pub mod Latency
pub mod Tests
