-- ===== src/Stream/Pending.antt =====
-- Which handlings take an entry off the pending entries of its group
-- (crates/aggregator-api/src/ingester/zone_ingester.rs).
use gridtokenx_aggregator_br.Base.{
  ◌≡◌, inl, inr, refl, ◌∙◌, true, false, ◌&&◌, Option, none, some, if◌then◌else◌, ◌==◌, nat_eq,
  list_eq, list_beq_iff, arith, Bool-cases,
}
use gridtokenx_aggregator_br.Base.Dict.{lookup, insert, lookup-insert, lookup-remove}
use gridtokenx_aggregator_br.Billing.Bin.{Text}
use gridtokenx_aggregator_br.Redis.{Fate, takes_effect}
use gridtokenx_aggregator_br.Stream.Readings.{
  DeviceReading, Event, smart_meter_reading, ev_charging_event, battery_state_update, order_matched,
  order_update, settlement_requested, peak_price_update, trigger_execution, order_created, unknown,
  Outside,
}
use gridtokenx_aggregator_br.Stream.{
  Zone, Meets, deliver, ack_entry, absorb_reading, handle_iot_reading, decode_entry, handle_event,
  handle_decoded, process_entry, reclaim_entry, claim, act,
}
use gridtokenx_aggregator_br.Stream.Delivery.{event_reading, json_reading}

pub same_id : (id : Text) → (id == id) ≡ true
same_id id = (list_beq_iff nat_eq id id).1 refl

module _ (o : Outside) where
  pending-ack_entry :
      (fate : Fate) (id j : Text) (z : Zone)
      → lookup j (ack_entry o fate id z).pending
        ≡ (if takes_effect fate && id == j then none else lookup j z.pending)
  unfolding ack_entry
  pending-ack_entry fate id j z = elim (Bool-cases (takes_effect fate)) [
    | inl e ↦ rw (e, lookup-remove id j z.pending) refl
    | inr e ↦ rw e refl
  ]

  pending-handle_iot_reading :
      (m : Meets) (r : DeviceReading) (id j : Text) (z : Zone)
      → lookup j (handle_iot_reading o m r id z).pending
        ≡ (if takes_effect m.ack && id == j then none else lookup j z.pending)
  unfolding handle_iot_reading absorb_reading
  pending-handle_iot_reading m r id j z = pending-ack_entry m.ack id j (absorb_reading o m r z)

  -- The handling of another entry leaves this one.
  pub other_ack :
      (fate : Fate) (id j : Text) (z : Zone)
      → (id == j) ≡ false
      → lookup j (ack_entry o fate id z).pending ≡ lookup j z.pending
  other_ack fate id j z ne = ground (arith, pending-ack_entry fate id j z)

  pub other_event :
      (m : Meets) (e : Option Event) (id j : Text) (z : Zone)
      → (id == j) ≡ false
      → lookup j (handle_event o m e id z).pending ≡ lookup j z.pending
  other_event m none id j z ne = refl
  other_event m (some (smart_meter_reading r)) id j z ne =
      ground (arith, pending-handle_iot_reading m r id j z)
  other_event m (some (ev_charging_event r)) id j z ne =
      ground (arith, pending-handle_iot_reading m r id j z)
  other_event m (some (battery_state_update r)) id j z ne =
      ground (arith, pending-handle_iot_reading m r id j z)
  other_event m (some (order_matched v)) id j z ne = other_ack m.ack id j z ne
  other_event m (some (order_update v)) id j z ne = other_ack m.ack id j z ne
  other_event m (some (settlement_requested v)) id j z ne = other_ack m.ack id j z ne
  other_event m (some (peak_price_update v)) id j z ne = other_ack m.ack id j z ne
  other_event m (some (trigger_execution v)) id j z ne = other_ack m.ack id j z ne
  other_event m (some (order_created v)) id j z ne = other_ack m.ack id j z ne
  other_event m (some unknown) id j z ne = other_ack m.ack id j z ne

  pub other_decoded :
      (m : Meets) (decoded : Option Text) (id j : Text) (z : Zone)
      → (id == j) ≡ false
      → lookup j (handle_decoded o m decoded id z).pending ≡ lookup j z.pending
  other_decoded m none id j z ne = other_ack m.ack id j z ne
  other_decoded m (some json) id j z ne = other_event m (o.parse_event json) id j z ne

  -- The handling of a reading takes it off the pending entries unless the acknowledgement fails.
  pub own_event :
      (m : Meets) (e : Option Event) (r : DeviceReading) (id : Text) (z : Zone)
      → event_reading e ≡ some r
      → lookup id (handle_event o m e id z).pending
        ≡ (if takes_effect m.ack then none else lookup id z.pending)
  own_event m none r id z is = ground arith
  own_event m (some (smart_meter_reading q)) r id z is =
      ground (arith, pending-handle_iot_reading m q id id z, same_id id)
  own_event m (some (ev_charging_event q)) r id z is =
      ground (arith, pending-handle_iot_reading m q id id z, same_id id)
  own_event m (some (battery_state_update q)) r id z is =
      ground (arith, pending-handle_iot_reading m q id id z, same_id id)
  own_event m (some (order_matched v)) r id z is = ground arith
  own_event m (some (order_update v)) r id z is = ground arith
  own_event m (some (settlement_requested v)) r id z is = ground arith
  own_event m (some (peak_price_update v)) r id z is = ground arith
  own_event m (some (trigger_execution v)) r id z is = ground arith
  own_event m (some (order_created v)) r id z is = ground arith
  own_event m (some unknown) r id z is = ground arith

  pub own_decoded :
      (m : Meets) (decoded : Option Text) (r : DeviceReading) (id : Text) (z : Zone)
      → json_reading o decoded ≡ some r
      → lookup id (handle_decoded o m decoded id z).pending
        ≡ (if takes_effect m.ack then none else lookup id z.pending)
  own_decoded m none r id z is = ground arith
  own_decoded m (some json) r id z is = own_event m (o.parse_event json) r id z is

  pub other_claim :
      (m : Meets) (id j : Text) (p : Option (Option Text)) (z : Zone)
      → (id == j) ≡ false
      → lookup j (claim o m id p z).pending ≡ lookup j z.pending
  unfolding reclaim_entry
  other_claim m id j none z ne = refl
  other_claim m id j (some none) z ne = other_decoded m none id j z ne
  other_claim m id j (some (some raw)) z ne = other_decoded m (decode_entry o raw) id j z ne

  pub other_deliver :
      (m : Meets) (id j : Text) (field : Option Text) (z : Zone)
      → (id == j) ≡ false
      → lookup j (act o (deliver m id field) z).pending ≡ lookup j z.pending
  unfolding act process_entry
  other_deliver m id j none z ne = ground (arith, lookup-insert id j none z.pending)
  other_deliver m id j (some raw) z ne =
      other_decoded m (decode_entry o raw) id j
        (record z { pending = insert id (some raw) z.pending }) ne
      ∙ ground (arith, lookup-insert id j (some raw) z.pending)
