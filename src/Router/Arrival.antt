-- ===== src/Router/Arrival.antt =====
-- From the router (crates/aggregator-logic/src/router.rs) over the stream to the aggregator: the zone ingester
-- (crates/aggregator-api/src/ingester/zone_ingester.rs) reads back the reading that the router encoded.
use gridtokenx_aggregator_br.Base.{
  ◌≡◌, refl, ◌∙◌, Option, none, some, [], ◌∷◌, inl, inr, Option-cases, arith,
}
use gridtokenx_aggregator_br.Billing.Bin.{Text}
use gridtokenx_aggregator_br.Billing.Aggregator.{handle_reading}
use gridtokenx_aggregator_br.Billing.Aggregator.Ingest.{ingest}
use gridtokenx_aggregator_br.Stream.{decode_entry, Zone, Meets, deliver, act}
use gridtokenx_aggregator_br.Stream.Readings.{
  DeviceType, smart_meter, ev_charger, battery, DeviceReading, Value, event_of_type, Event,
  smart_meter_reading, ev_charging_event, battery_state_update, Outside, aggregator_reading,
}
use gridtokenx_aggregator_br.Stream.Delivery.{
  event_reading, reading_in, handling, handled_all, aggregator-act_all,
}
use gridtokenx_aggregator_br.Router.{Codec, event_type_name, sealed_envelope, encode}

abbrev pub event_for : DeviceType → DeviceReading → Event
event_for smart_meter r = smart_meter_reading r
event_for ev_charger r = ev_charging_event r
event_for battery r = battery_state_update r

event_reading-event_for :
    (t : DeviceType) (r : DeviceReading) → event_reading (some (event_for t r)) ≡ some r
event_reading-event_for smart_meter r = refl
event_reading-event_for ev_charger r = refl
event_reading-event_for battery r = refl

-- The event type that the router writes is the tag of the variant for the device.
event_of_type-event_type_name :
    (t : DeviceType) (value : Value) (r : DeviceReading)
    → event_of_type (event_type_name t) value r ≡ some (event_for t r)
unfolding event_of_type event_type_name
event_of_type-event_type_name smart_meter value r = refl
event_of_type-event_type_name ev_charger value r = refl
event_of_type-event_type_name battery value r = refl

abbrev pub kind : DeviceReading → Text
kind r = event_type_name r.device_type

-- What serde_json and AES-GCM document, at one reading and under any event type: an envelope whose event type is the tag
-- of a variant parses to that variant, the cipher of the ingester opens what that of the router sealed, and the
-- reading survives its serialisation.
pub record Agrees (c : Codec) (o : Outside) (r : DeviceReading) : Type 0 where
  pub value : Value
  pub plain :
      (tag json : Text)
      → c.plain_envelope tag r ≡ some json
      → (o.parse_json json ≡ some none)
        × ((e : Event) → event_of_type tag value r ≡ some e → o.parse_event json ≡ some e)
  pub seals :
      (tag n t json : Text)
      → c.enc_envelope tag n t ≡ some json
      → o.parse_json json ≡ some (some (record { event_type = tag; nonce = n; ciphertext = t }))
  pub opens :
      (encrypt : Text → Text → Option (Text × Text))
      → c.stream_cipher ≡ some encrypt
      → (decrypt : Text → Text → Text → Option Text) × (o.cipher ≡ some decrypt)
        × ((payload tag n t : Text)
            → encrypt payload tag ≡ some (n, t)
            → decrypt n t tag ≡ some payload)
  pub rebuilds :
      (tag payload : Text)
      → c.to_vec r ≡ some payload
      → (json : Text) × (o.rebuild_json tag payload ≡ some json)
        × ((e : Event) → event_of_type tag value r ≡ some e → o.parse_event json ≡ some e)

module _ (c : Codec) (o : Outside) (r : DeviceReading) (agrees : Agrees c o r) where
  written : event_of_type (kind r) agrees.value r ≡ some (event_for r.device_type r)
  written = event_of_type-event_type_name r.device_type agrees.value r

  sealed-reading :
      (encrypt : Text → Text → Option (Text × Text)) (payload json : Text)
      (box : Option (Text × Text))
      → c.stream_cipher ≡ some encrypt
      → c.to_vec r ≡ some payload
      → encrypt payload (kind r) ≡ box
      → sealed_envelope c (kind r) box ≡ some json
      → reading_in o (some json) ≡ some r
  unfolding decode_entry
  sealed-reading encrypt payload json none ciphered served boxed made = absurd (ground arith)
  sealed-reading encrypt payload json (some (n, t)) ciphered served boxed made =
      let parsed = agrees.seals (kind r) n t json made in
      let (decrypt, configured, undone) = agrees.opens encrypt ciphered in
      let opened = undone payload (kind r) n t boxed in
      let (rebuilt, built, reads) = agrees.rebuilds (kind r) payload served in
      let read = reads (event_for r.device_type r) written in
      rw (parsed, configured, opened, built, decode_entry)
        (rw read (event_reading-event_for r.device_type r))

  reading_in-encode : (json : Text) → encode c r ≡ some json → reading_in o (some json) ≡ some r
  unfolding encode decode_entry
  reading_in-encode json made = elim (Option-cases c.stream_cipher) [
    | inl clear ↦
        let (parsed, reads) = agrees.plain (kind r) json (rw clear at made) in
        let read = reads (event_for r.device_type r) written in
        rw (parsed, decode_entry) (rw read (event_reading-event_for r.device_type r))
    | inr (encrypt, ciphered) ↦ elim (Option-cases (c.to_vec r)) [
      | inl lost ↦ absurd (ground arith)
      | inr (payload, served) ↦
          sealed-reading encrypt payload json (encrypt payload (kind r)) ciphered served refl
            (ground arith)
    ]
  ]

  -- An entry that the router makes of a reading, in the clear or sealed, is handed to the aggregator by the task that
  -- it is delivered to, as that reading with its meter, energies, time, tariff, demand and zone, whatever becomes of
  -- the acknowledgement.
  pub published_is_handled :
      (json id : Text) (m : Meets) (z : Zone)
      → encode c r ≡ some json
      → (act o (deliver m id (some json)) z).aggregator
        ≡ (handle_reading ⦃decimals = o.decimals⦄ m.now
            (aggregator_reading o m.user r)
            z.aggregator).0
  unfolding ingest
  published_is_handled json id m z made =
      aggregator-act_all o (deliver m id (some json) ∷ []) z
      ∙ rw (reading_in-encode json made, handled_all, handling) refl
