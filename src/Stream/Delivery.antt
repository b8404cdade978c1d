-- ===== src/Stream/Delivery.antt =====
-- How often the reading of a stream entry reaches the aggregator (crates/aggregator-api/src/ingester/zone_ingester.rs).
use gridtokenx_aggregator_br.Base.{
  ℕ, ◌+◌, ◌≡◌, inl, inr, refl, sym, ap, ◌∙◌, Option, none, some, List, [], ◌∷◌, ◌++◌, map,
  if◌then◌else◌, ◌==◌, nat_eq, list_eq, Bool-cases,
}
use gridtokenx_aggregator_br.Base.Dict.{lookup, insert}
use gridtokenx_aggregator_br.Billing.Time.{Timestamp}
use gridtokenx_aggregator_br.Billing.Bin.{Decimals, Text}
use gridtokenx_aggregator_br.Billing.Aggregator.{Aggregator, Reading, handle_reading}
use gridtokenx_aggregator_br.Billing.Aggregator.Ingest.{Arrivals, ingest}
use gridtokenx_aggregator_br.Redis.{Fate, takes_effect}
use gridtokenx_aggregator_br.Stream.Readings.{
  DeviceReading, Event, smart_meter_reading, ev_charging_event, battery_state_update, order_matched,
  order_update, settlement_requested, peak_price_update, trigger_execution, order_created, unknown,
  Outside, aggregator_reading,
}
use gridtokenx_aggregator_br.Stream.{
  Zone, Meets, Action, deliver, deliver_unhandled, reclaim, ack_entry, absorb_reading,
  handle_iot_reading, decode_entry, handle_event, handle_decoded, process_entry, reclaim_entry,
  claim, act, act_all,
}

-- The reading that an event carries.
abbrev pub event_reading : Option Event → Option DeviceReading
event_reading (some (smart_meter_reading r)) = some r
event_reading (some (ev_charging_event r)) = some r
event_reading (some (battery_state_update r)) = some r
event_reading _ = none

-- The handlings of the entries, each with its id.
abbrev pub Handled : Type 0
Handled = List (Text × (Timestamp × Reading))

abbrev pub times : Text → Handled → ℕ
times id [] = 0
times id ((j, arrival) ∷ rest) = let n = times id rest in if j == id then 1 + n else n

abbrev pub arrivals : Handled → Arrivals
arrivals handled = map (λ h. h.1) handled

arrivals-append : (xs ys : Handled) → arrivals (xs ++ ys) ≡ arrivals xs ++ arrivals ys
arrivals-append [] ys = refl
arrivals-append (x ∷ xs) ys = ap (λ l. x.1 ∷ l) (arrivals-append xs ys)

module _ ⦃decimals : Decimals⦄ where
  ingest-append :
      (xs ys : Arrivals) (a : Aggregator) → ingest (xs ++ ys) a ≡ ingest ys (ingest xs a)
  unfolding ingest
  ingest-append [] ys a = refl
  ingest-append ((now, r) ∷ xs) ys a = ingest-append xs ys (handle_reading now r a).0

module _ (o : Outside) where
  abbrev pub json_reading : Option Text → Option DeviceReading
  json_reading none = none
  json_reading (some json) = event_reading (o.parse_event json)

  -- The reading that the text of an `event` field holds.
  abbrev pub reading_in : Option Text → Option DeviceReading
  reading_in none = none
  reading_in (some raw) = json_reading (decode_entry o raw)

  abbrev pub handling : Meets → Text → Option DeviceReading → Handled
  handling m id none = []
  handling m id (some r) = (id, (m.now, aggregator_reading o m.user r)) ∷ []

  -- The readings of the entries that an action delivers to the task, or that it claims.
  abbrev pub claimed : Meets → Text → Option (Option Text) → Handled
  claimed m id none = []
  claimed m id (some field) = handling m id (reading_in field)

  abbrev pub handled_by : Action → Zone → Handled
  handled_by (deliver m id field) z = handling m id (reading_in field)
  handled_by (deliver_unhandled id field) z = []
  handled_by (reclaim m id) z = claimed m id (lookup id z.pending)

  abbrev pub handled_all : List Action → Zone → Handled
  handled_all [] z = []
  handled_all (a ∷ rest) z = handled_by a z ++ handled_all rest (act o a z)

  aggregator-ack_entry :
      (fate : Fate) (id : Text) (z : Zone) → (ack_entry o fate id z).aggregator ≡ z.aggregator
  unfolding ack_entry
  aggregator-ack_entry fate id z = elim (Bool-cases (takes_effect fate)) [
    | inl e ↦ rw e refl
    | inr e ↦ rw e refl
  ]

  aggregator-handle_iot_reading :
      (m : Meets) (r : DeviceReading) (id : Text) (z : Zone)
      → (handle_iot_reading o m r id z).aggregator
        ≡ (handle_reading ⦃decimals = o.decimals⦄ m.now
            (aggregator_reading o m.user r)
            z.aggregator).0
  unfolding handle_iot_reading absorb_reading
  aggregator-handle_iot_reading m r id z = aggregator-ack_entry m.ack id (absorb_reading o m r z)

  aggregator-handle_event :
      (m : Meets) (e : Option Event) (id : Text) (z : Zone)
      → (handle_event o m e id z).aggregator
        ≡ ingest ⦃decimals = o.decimals⦄ (arrivals (handling m id (event_reading e))) z.aggregator
  unfolding ingest
  aggregator-handle_event m none id z = refl
  aggregator-handle_event m (some (smart_meter_reading r)) id z =
      aggregator-handle_iot_reading m r id z
  aggregator-handle_event m (some (ev_charging_event r)) id z =
      aggregator-handle_iot_reading m r id z
  aggregator-handle_event m (some (battery_state_update r)) id z =
      aggregator-handle_iot_reading m r id z
  aggregator-handle_event m (some (order_matched v)) id z = aggregator-ack_entry m.ack id z
  aggregator-handle_event m (some (order_update v)) id z = aggregator-ack_entry m.ack id z
  aggregator-handle_event m (some (settlement_requested v)) id z = aggregator-ack_entry m.ack id z
  aggregator-handle_event m (some (peak_price_update v)) id z = aggregator-ack_entry m.ack id z
  aggregator-handle_event m (some (trigger_execution v)) id z = aggregator-ack_entry m.ack id z
  aggregator-handle_event m (some (order_created v)) id z = aggregator-ack_entry m.ack id z
  aggregator-handle_event m (some unknown) id z = aggregator-ack_entry m.ack id z

  aggregator-handle_decoded :
      (m : Meets) (decoded : Option Text) (id : Text) (z : Zone)
      → (handle_decoded o m decoded id z).aggregator
        ≡ ingest ⦃decimals = o.decimals⦄
            (arrivals (handling m id (json_reading decoded)))
            z.aggregator
  unfolding ingest
  aggregator-handle_decoded m none id z = aggregator-ack_entry m.ack id z
  aggregator-handle_decoded m (some json) id z = aggregator-handle_event m (o.parse_event json) id z

  aggregator-process_entry :
      (m : Meets) (field : Option Text) (id : Text) (z : Zone)
      → (process_entry o m field id z).aggregator
        ≡ ingest ⦃decimals = o.decimals⦄ (arrivals (handling m id (reading_in field))) z.aggregator
  unfolding process_entry ingest
  aggregator-process_entry m none id z = refl
  aggregator-process_entry m (some raw) id z = aggregator-handle_decoded m (decode_entry o raw) id z

  aggregator-reclaim_entry :
      (m : Meets) (field : Option Text) (id : Text) (z : Zone)
      → (reclaim_entry o m field id z).aggregator
        ≡ ingest ⦃decimals = o.decimals⦄ (arrivals (handling m id (reading_in field))) z.aggregator
  unfolding reclaim_entry ingest
  aggregator-reclaim_entry m none id z = aggregator-ack_entry m.ack id z
  aggregator-reclaim_entry m (some raw) id z = aggregator-handle_decoded m (decode_entry o raw) id z

  aggregator-claim :
      (m : Meets) (id : Text) (field : Option (Option Text)) (z : Zone)
      → (claim o m id field z).aggregator
        ≡ ingest ⦃decimals = o.decimals⦄ (arrivals (claimed m id field)) z.aggregator
  unfolding ingest
  aggregator-claim m id none z = refl
  aggregator-claim m id (some field) z = aggregator-reclaim_entry m field id z

  aggregator-act :
      (a : Action) (z : Zone)
      → (act o a z).aggregator
        ≡ ingest ⦃decimals = o.decimals⦄ (arrivals (handled_by a z)) z.aggregator
  unfolding act ingest
  aggregator-act (deliver m id field) z =
      aggregator-process_entry m field id (record z { pending = insert id field z.pending })
  aggregator-act (deliver_unhandled id field) z = refl
  aggregator-act (reclaim m id) z = aggregator-claim m id (lookup id z.pending) z

  -- Whatever is delivered, reclaimed, lost or refused, the aggregator is what the handled readings make of it, in the
  -- order in which they were handled, and nothing else of a zone's stream changes it.
  pub aggregator-act_all :
      (acts : List Action) (z : Zone)
      → (act_all o acts z).aggregator
        ≡ ingest ⦃decimals = o.decimals⦄ (arrivals (handled_all acts z)) z.aggregator
  unfolding ingest
  aggregator-act_all [] z = refl
  aggregator-act_all (a ∷ rest) z =
      aggregator-act_all rest (act o a z)
      ∙ ap (ingest ⦃decimals = o.decimals⦄ (arrivals (handled_all rest (act o a z))))
          (aggregator-act a z)
      ∙ sym (
          ingest-append ⦃decimals = o.decimals⦄ (arrivals (handled_by a z))
            (arrivals (handled_all rest (act o a z))) z.aggregator)
      ∙ ap (λ l. ingest ⦃decimals = o.decimals⦄ l z.aggregator)
          (sym (arrivals-append (handled_by a z) (handled_all rest (act o a z))))
