-- ===== src/Stream.antt =====
-- `ZoneEventIngester` of crates/aggregator-api/src/ingester/zone_ingester.rs: what becomes of an entry of a zone's Redis
-- stream, from its decoding to the aggregator and the acknowledgement, and the reclaim of entries that were not
-- acknowledged. The models of a reading are in crates/aggregator-core/src/models.rs. JSON, the stream cipher, the
-- floats and the version 5 UUID are parameters; the registry's answer, the clock and the fate of the acknowledgement
-- come with each entry. The entries' ids are those of one stream.
pub mod Readings
pub mod Delivery
mod Pending
mod Balance
pub mod Once
pub mod Tests
use gridtokenx_aggregator_br.Base.{
  ℕ, ◌%◌, ◌^◌, Bool, true, false, ◌||◌, Option, none, some, List, [], ◌∷◌, ◌++◌, if◌then◌else◌,
  nat_eq, list_eq,
}
use gridtokenx_aggregator_br.Base.Dict.{Dict, lookup, insert, remove}
use gridtokenx_aggregator_br.Base.Text.{codes}
use gridtokenx_aggregator_br.Base.Int.{ltb_ℤ}
use gridtokenx_aggregator_br.Billing.Time.{Timestamp}
use gridtokenx_aggregator_br.Billing.Bin.{
  Uuid, Text, F64, Decimal, decimal_zero, BillingBin, unwrap_or,
}
use gridtokenx_aggregator_br.Billing.Aggregator.{Aggregator, Reading, handle_reading}
use gridtokenx_aggregator_br.Redis.{Fate, takes_effect}
use gridtokenx_aggregator_br.Stream.Readings.{
  EvStatus, BatteryMode, DeviceMetrics, Value, DeviceReading, Event, smart_meter_reading,
  ev_charging_event, battery_state_update, order_matched, order_update, settlement_requested,
  peak_price_update, trigger_execution, order_created, unknown, Sealed, Outside, aggregator_reading,
  extract_frequency, energies, tariff_period_of, demand_of, to_positive_decimal, energy,
  battery_state, discharging,
}

-- The aggregator, the bins sent to the ordered writer, the frequencies recorded, and the group's pending entries: each
-- id with the text of its `event` field, if it has one.
pub record Zone : Type 0 where
  pub aggregator : Aggregator
  pub bin_writes : List BillingBin
  pub frequencies : List F64
  pub pending : Dict Text (Option Text)

-- What the handling of an entry meets: the clock of the aggregator, the user that the registry gives, and the fate of
-- the acknowledgement.
pub record Meets : Type 0 where
  pub now : Timestamp
  pub user : Option Uuid
  pub ack : Fate

-- Redis hands an entry to the group and it is processed; or the process ends before its task runs; or an entry that
-- is still pending is claimed.
pub data Action : Type 0 where
  deliver : Meets → Text → Option Text → Action
  deliver_unhandled : Text → Option Text → Action
  reclaim : Meets → Text → Action

module _ (o : Outside) where
  -- XACK; its result is only logged by the callers.
  unfoldable pub ack_entry : Fate → Text → Zone → Zone
  ack_entry fate id z = if takes_effect fate then record z { pending = remove id z.pending } else z

  abbrev pub sent : Option BillingBin → List BillingBin → List BillingBin
  sent none writes = writes
  sent (some bin) writes = writes ++ (bin ∷ [])

  abbrev pub recorded : Option F64 → List F64 → List F64
  recorded none hzs = hzs
  recorded (some hz) hzs = hzs ++ (hz ∷ [])

  -- `handle_iot_reading` up to the acknowledgement.
  unfoldable pub absorb_reading : Meets → DeviceReading → Zone → Zone
  absorb_reading m r z =
      let (a, updated) =
        handle_reading ⦃decimals = o.decimals⦄ m.now (aggregator_reading o m.user r) z.aggregator in
      record z {
        aggregator = a;
        bin_writes = sent updated z.bin_writes;
        frequencies = recorded (extract_frequency o r.metadata) z.frequencies;
      }

  unfoldable pub handle_iot_reading : Meets → DeviceReading → Text → Zone → Zone
  unfolding absorb_reading ack_entry
  handle_iot_reading m r id z = ack_entry m.ack id (absorb_reading m r z)

  unfoldable pub decode_entry : Text → Option Text
  decode_entry raw = elim (o.parse_json raw) [
    | none ↦ none
    | some none ↦ some raw
    | some (some enc) ↦ elim o.cipher [
      | none ↦ none
      | some decrypt ↦ elim (decrypt enc.nonce enc.ciphertext enc.event_type) [
        | none ↦ none
        | some plaintext ↦ o.rebuild_json enc.event_type plaintext
      ]
    ]
  ]

  abbrev pub handle_event : Meets → Option Event → Text → Zone → Zone
  handle_event m none id z = z
  handle_event m (some (smart_meter_reading r)) id z = handle_iot_reading m r id z
  handle_event m (some (ev_charging_event r)) id z = handle_iot_reading m r id z
  handle_event m (some (battery_state_update r)) id z = handle_iot_reading m r id z
  handle_event m (some _) id z = ack_entry m.ack id z

  -- An entry that does not decode is acknowledged, so that it is not reclaimed for ever.
  abbrev pub handle_decoded : Meets → Option Text → Text → Zone → Zone
  handle_decoded m none id z = ack_entry m.ack id z
  handle_decoded m (some json) id z = handle_event m (o.parse_event json) id z

  -- The task that `process_zone_stream` spawns for an entry: one without the field is left alone.
  unfoldable pub process_entry : Meets → Option Text → Text → Zone → Zone
  process_entry m none id z = z
  process_entry m (some raw) id z = handle_decoded m (decode_entry raw) id z

  -- One claimed entry in `reclaim_stale_messages`: one without the field is acknowledged.
  unfoldable pub reclaim_entry : Meets → Option Text → Text → Zone → Zone
  reclaim_entry m none id z = handle_decoded m none id z
  reclaim_entry m (some raw) id z = handle_decoded m (decode_entry raw) id z

  abbrev pub claim : Meets → Text → Option (Option Text) → Zone → Zone
  claim m id none z = z
  claim m id (some field) z = reclaim_entry m field id z

  unfoldable pub act : Action → Zone → Zone
  unfolding process_entry reclaim_entry
  act (deliver m id field) z =
      process_entry m field id (record z { pending = insert id field z.pending })
  act (deliver_unhandled id field) z = record z { pending = insert id field z.pending }
  act (reclaim m id) z = claim m id (lookup id z.pending) z

  abbrev pub act_all : List Action → Zone → Zone
  act_all [] z = z
  act_all (a ∷ rest) z = act_all rest (act a z)
