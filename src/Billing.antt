-- ===== src/Billing.antt =====
-- Billing: the 15-minute bins of crates/aggregator-logic/src/aggregator.rs and what reads them.
pub mod Time
pub mod Bin
pub mod Float
pub mod Sink
pub mod Zones
pub mod Aggregator
pub mod BinStore
pub mod Tests
