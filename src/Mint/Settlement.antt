-- ===== src/Mint/Settlement.antt =====
-- The settlement loop of src/main.rs, for one swept bin: the billing point, the surplus hand-over with its
-- fallbacks, and the eviction from the durable bin store. Each attempt that the loop spawns is queued in
-- the state and run by `run_attempt`.
pub mod Laws
use gridtokenx_aggregator_br.Base.{
  ℕ, Bool, true, false, Option, none, some, List, [], ◌∷◌, ◌++◌, if◌then◌else◌,
}
use gridtokenx_aggregator_br.Base.Int.{ℤ}
use gridtokenx_aggregator_br.Base.Dict.{Dict}
use gridtokenx_aggregator_br.Billing.Bin.{
  Uuid, Text, F64, Decimal, BillingBin, key, window_start_ms,
}
use gridtokenx_aggregator_br.Billing.Sink.{
  TelemetryPoint, bin_to_billing_point, MintDecision, surplus, no_surplus, disabled, plan_mint,
  MintHandoff, not_applicable, enqueued, minted_directly, best_effort_only, lost,
  bin_durably_settled,
}
use gridtokenx_aggregator_br.Billing.BinStore.{remove_keys}
use gridtokenx_aggregator_br.Redis.{Fate, Status, ok, err}
use gridtokenx_aggregator_br.Mint.Field.{PendingMint, field}
use gridtokenx_aggregator_br.Mint.Outbox.{Hashes, enqueue, remove_field}
use gridtokenx_aggregator_br.Mint.Bridge.{is_enabled}
use gridtokenx_aggregator_br.Mint.Attempt.{
  Books, Outcome, Outside, Lookup, found, absent, failed, count_outcome, attempt_mint, queued_ok,
  queued_readmodel_stale, skipped_unattributed_meter, no_surplus_ok, lost_outbox_and_mint_failed,
}

-- What the loop works with: the outside of an attempt, the owner lookups, the codecs and conversions, which
-- services are there, and the clock that stamps an entry.
pub record Services : Type 0 where
  pub outside : Outside
  pub resolve_user_id : Text → Lookup Uuid
  pub owner_in_source_of_truth : Text → Lookup Uuid
  pub to_json : PendingMint → Option Text
  pub to_f64 : Decimal → Option F64
  pub count_to_f64 : ℕ → F64
  pub uuid_to_string : Uuid → Text
  pub influx : Bool
  pub outbox : Bool
  pub bin_store : Bool
  pub now_ms : ℤ

-- The fates of the Redis commands for one bin.
pub record Fates : Type 0 where
  pub enqueue_first : Fate
  pub enqueue_again : Fate
  pub evict : Fate

pub record World : Type 0 where
  pub books : Books
  pub hashes : Hashes
  pub store : Dict Text Text
  pub spawned : List PendingMint
  pub points : List TelemetryPoint
  pub marked_no_surplus : List (Text × ℤ)

abbrev pub count : Outcome → World → World
count o w = record w { books = count_outcome o w.books }

abbrev pub spawn : PendingMint → World → World
spawn p w = record w { spawned = p ∷ w.spawned }

module _ (v : Services) where
  -- Whether the surplus goes to someone, with the outcome that is counted.
  unfoldable pub owner_known : Text → World → Bool × World
  owner_known serial w = elim (v.resolve_user_id serial) [
    | found user ↦ (true, w)
    | failed ↦ (true, w)
    | absent ↦ elim (v.owner_in_source_of_truth serial) [
      | found user ↦ (true, count queued_readmodel_stale w)
      | absent ↦ (false, count skipped_unattributed_meter w)
      | failed ↦ (true, w)
    ]
  ]

  abbrev pub pending_mint : BillingBin → F64 → PendingMint
  pending_mint bin kwh = record {
    meter_serial = bin.meter_serial;
    meter_id = bin.meter_id;
    window_start_ms = window_start_ms bin;
    energy_kwh = kwh;
    enqueued_at_ms = v.now_ms;
  }

  -- Both enqueues failed: one attempt at once.
  abbrev pub last_resort : PendingMint → World → MintHandoff × World
  last_resort pending w =
      let (minted, books) = attempt_mint v.outside pending w.books in
      let w' = record w { books = books } in
      if minted then (minted_directly, w') else (lost, count lost_outbox_and_mint_failed w')

  abbrev pub enqueue_twice : Fates → PendingMint → World → MintHandoff × World
  enqueue_twice fates pending w =
      let (h, s) = enqueue v.to_json fates.enqueue_first pending w.hashes in
      let w' = record w { hashes = h } in
      elim s [
        | ok ↦ (enqueued, spawn pending (count queued_ok w'))
        | err ↦
            let (h', s') = enqueue v.to_json fates.enqueue_again pending h in
            let w'' = record w' { hashes = h' } in
            elim s' [ ok ↦ (enqueued, count queued_ok w'') | err ↦ last_resort pending w'' ]
      ]

  unfoldable pub hand_over : Fates → PendingMint → World → MintHandoff × World
  hand_over fates pending w =
      if v.outbox then enqueue_twice fates pending w else (best_effort_only, spawn pending w)

  abbrev pub mark_no_surplus : BillingBin → World → World
  mark_no_surplus bin w =
      if v.outside.writeback
      then record w {
        marked_no_surplus = (bin.meter_serial, window_start_ms bin) ∷ w.marked_no_surplus;
      }
      else w

  abbrev pub settle_surplus : Fates → BillingBin → F64 → World → MintHandoff × World
  settle_surplus fates bin kwh w =
      let (known, w') = owner_known bin.meter_serial w in
      if known then hand_over fates (pending_mint bin kwh) w' else (not_applicable, w')

  unfoldable pub settle_decision : Fates → BillingBin → MintDecision → World → MintHandoff × World
  settle_decision fates bin (surplus kwh) w = settle_surplus fates bin kwh w
  settle_decision fates bin no_surplus w =
      (not_applicable, mark_no_surplus bin (count no_surplus_ok w))
  settle_decision fates bin disabled w = (not_applicable, w)

  abbrev pub record_point : BillingBin → World → World
  record_point bin w =
      if v.influx
      then elim (bin_to_billing_point v.to_f64 v.count_to_f64 v.uuid_to_string bin) [
        | some point ↦ record w { points = point ∷ w.points }
        | none ↦ w
      ]
      else w

  unfoldable pub evict_bin : Fates → BillingBin → MintHandoff → World → World
  evict_bin fates bin handoff w =
      if bin_durably_settled handoff
      then (if v.bin_store
          then record w {
            store = (remove_keys v.uuid_to_string fates.evict (key bin ∷ []) w.store).0;
          }
          else w)
      else w

  unfoldable pub settle_bin : Fates → BillingBin → World → World
  settle_bin fates bin w =
      let decision = plan_mint v.to_f64 bin (is_enabled v.outside.gateway) in
      let (handoff, w') = settle_decision fates bin decision (record_point bin w) in
      evict_bin fates bin handoff w'

  -- The bins of a sweep, each with the fates of its commands.
  unfoldable pub settle_bins : List (Fates × BillingBin) → World → World
  settle_bins [] w = w
  settle_bins ((fates, bin) ∷ bins) w = settle_bins bins (settle_bin fates bin w)

  -- A spawned attempt, with what `acquire_owned` gives and the fates of its removal.
  unfoldable pub run_attempt : Bool → Fate → Fate → PendingMint → World → World
  run_attempt false first second pending w = w
  run_attempt true first second pending w =
      let (confirmed, books) = attempt_mint v.outside pending w.books in
      let w' = record w { books = books } in
      if v.outbox
      then (if confirmed
          then record w' { hashes = (remove_field first second (field pending) w.hashes).0 }
          else w')
      else w'
