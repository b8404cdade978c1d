-- ===== src/Lib.antt =====
-- The core of the GridTokenX aggregator bridge: from a meter's signed frame to the tokens minted for its energy.
--
-- A head-end sends meter frames in bulk. Ingest splits a bulk payload at its length prefixes, looks up the key
-- and the public key of each frame's device, opens the frame, and checks its signature; Keys models the caches
-- and the Redis registry behind those lookups and the replay counter of a meter, Frame the binary frame itself.
-- A meter may also send one reading or a batch of readings in a gRPC request, which Edge checks and hands to the
-- router, or JSON over REST, encrypted or not, which Rest opens and checks and whose registers Dlms maps to a
-- reading; Auth is the API-key check before a REST request. Router
-- writes each reading to the stream of its zone and to the sinks, and Stream models how an entry of the stream
-- is decoded, handed to the aggregator and acknowledged, and how one that was not acknowledged is reclaimed. The
-- aggregator files a reading's energy under a 15-minute window of the meter. When a window is over the
-- settlement loop takes its bin out of the aggregator, writes a billing point, and hands the surplus over to be
-- minted on-chain: into the Redis outbox, or by an attempt at once. A drain loop retries what the outbox holds
-- until Chain Bridge confirms it, and parks what has expired. Registry finds the owner and the wallet of a meter
-- for both loops. Beside this the dispatch engine reads the completed bins of the aggregator to answer a grid
-- frequency that is out of its bounds. Sync is a buffer on disk that is replayed to a gateway; nothing else in the
-- program uses it.
--
-- Which file models which part:
--   Frame            crates/aggregator-stacks/src/binary_decoder.rs: `DlmsBinaryFrame::parse_header` and `parse`.
--   Keys/Cache       crates/aggregator-persistence/src/infra/crypto.rs: `PrunedCache`.
--   Keys/Verifier    `SignatureVerifier` of the same file, one meter and a batch; Keys/Registry its `DeviceKeyRegistry`;
--     Keys/Counter `check_and_bump_counter`; Keys/Latency how long a cached key outlives Redis.
--   Ingest           crates/aggregator-api/src/grpc/service.rs: the bulk path, `split_bulk_frames` and the stages of
--     `bulk_raw_ingest`.
--   Edge             crates/aggregator-api/src/handlers.rs: `disseminate_reading`; in Edge/Unified and Edge/Requests
--     `ingest` and `ingest_batch` of grpc/service.rs, from the signature gate to the sinks.
--   Stream           crates/aggregator-api/src/ingester/zone_ingester.rs: `decode_entry`, `handle_iot_reading`,
--     `ack_entry`, the task of an entry in `process_zone_stream`, and `reclaim_stale_messages`.
--   Auth             crates/aggregator-api/src/auth.rs: `api_key_auth`, its policy and its verdict cache.
--   Dlms             crates/aggregator-stacks/src/stacks/dlms.rs: `map_payload` and `handle_message`.
--   Router           crates/aggregator-logic/src/router.rs: `disseminate` and `calculate_zone_index`; in Router/Points
--     `reading_to_point` and `reading_to_row`; Router/Arrival follows a reading to the aggregator.
--   Registry         crates/aggregator-persistence/src/infra/meter_registry.rs: the methods of `MeterRegistry`;
--     Registry/Gate puts it behind the settlement loop.
--   Billing/Time, Billing/Bin, Billing/Aggregator   crates/aggregator-logic/src/aggregator.rs: the state of
--     `Aggregator` is a record of three maps, and each method is a function of the same name.
--   Billing/Sink     crates/aggregator-logic/src/billing_sink.rs: `bin_to_billing_point`, `plan_mint`,
--     `bin_durably_settled`.
--   Billing/Zones    crates/aggregator-logic/src/zone_balance.rs: `zone_balances`, `system_net_kwh`.
--   Billing/BinStore crates/aggregator-logic/src/bin_store.rs: `write`, `remove` (here `remove_keys`), `load_all`.
--   Redis            the fate of a Redis command, and crates/aggregator-logic/src/redis_hash.rs.
--   Mint/Field       `PendingMint::field`, `mint_idempotency_key` and `parse_mint_field`.
--   Mint/Outbox      crates/aggregator-logic/src/mint_outbox.rs: `enqueue`, `remove` (here `remove_field`), `park`,
--     `load_all`, `is_expired`.
--   Mint/Bridge      crates/aggregator-persistence/src/infra/mint.rs: the messages and `MintGateway`.
--   Mint/Attempt     crates/aggregator-logic/src/mint_settlement.rs: `MintInFlight`, `attempt_mint`; in
--     Mint/Attempt/Batch `attempt_mint_batch` and its helpers.
--   Mint/Settlement  the settlement loop of src/main.rs, one function for each stage of a bin.
--   Mint/Drain       the drain loop of src/main.rs.
--   Mint/Loops       the two loops and the spawned attempts as steps on one state.
--   Dispatch         crates/aggregator-logic/src/dispatch/engine.rs: `select_adapters`, `evaluate_and_dispatch` and
--     what they call; Dispatch/Frequency crates/aggregator-logic/src/grid_status.rs: `FrequencyMonitor`.
--   Rest             the REST handlers of crates/aggregator-api/src/handlers.rs: in Rest/Values what they read from a
--     payload, in Rest/Batch the two batches.
--   Sync             crates/aggregator-persistence/src/storage: `CircularBuffer`; Sync/Manager the events of
--     `SyncManager::run`.
--   Base             numbers, lists, maps, equality, decimal text. Each part's Tests hold its runs.
--
-- How the code is read: an instant is the number of nanoseconds since 1970, so earlier instants are outside the
-- model; a `Decimal` is an integer in units of 1e-28, of which every `Decimal` of rust_decimal is a multiple; the
-- addition of the aggregator is rust_decimal's, which rounds, and is a parameter, while its panic on an overflow
-- is left out; the difference of the two totals of a bin is exact here, where rust_decimal rounds beyond 96 bits;
-- an `f64` is its 64 bits and its operations are parameters; a `HashMap` is an association list that is only
-- looked up in; a `BTreeSet` is a list without repeats; the reading counter wraps at 2^64; a configured grace is
-- at least 0. A panic of an index or a slice is an outcome of the decoder and of the bulk path. Each Redis command
-- meets a fate (applied, refused, or applied with its reply lost), given as an argument, so that a theorem holds
-- for every failure. What Redis holds for a key over time is a function of the instant, and each operation of a
-- verifier or a registry happens at one instant; the double in which the Lua script compares counters is a
-- rounding function. The CRC, AES-GCM, Ed25519, UTF-8, hexadecimal and Base58 decoders, the stream cipher, the
-- unwrapping of keys by Vault, the JSON codec, the hash of a zone, the answers of Postgres and of IAM and the
-- bridge are parameters; the minting loops take the registry as one too. A request to the API and a call of the
-- registry happen at one instant; so requests under one API key that overlap, of which one may overwrite the
-- cached verdict of another after its call of IAM, are left out. A `HashMap` that a loop iterates over is a list
-- in the order of that iteration. A stream keeps all its entries: its trimming at a maximal length is left out.
-- The settlement sweep holds the aggregator's lock while it reads and removes bins, so it is one step. The tasks
-- that a drain tick spawns run one after another; those of a dispatch end in any order. The handling of a stream
-- entry is one step, so that a claim of it comes before or after. A loop that is
-- no structural recursion has fuel: that of `chunks` is the length of the list, and those of the records in a
-- frame and of the frames in a bulk payload are the number of bytes; each round takes at least one element. An
-- `i64` is printed with 19 digits of fuel, as many as it can have.
--
-- Not modelled: the HTTP, Kafka, RabbitMQ, InfluxDB and SQL calls, the metrics, the logging and the start-up; the
-- adapters that the dispatch calls, among them the OpenADR client; the read model of the owners and the batching
-- of readings for Postgres; the batch worker, to which nothing adds.
pub mod Base
pub mod Redis
pub mod Registry
pub mod Stream
pub mod Billing
pub mod Mint
pub mod Frame
pub mod Keys
pub mod Ingest
pub mod Edge
pub mod Rest
pub mod Dispatch
pub mod Sync
pub mod Auth
pub mod Router
pub mod Dlms
