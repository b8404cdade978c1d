-- ===== src/Stream/Balance.antt =====
-- How often an entry of the stream is handled, against its acknowledgements that failed
-- (crates/aggregator-api/src/ingester/zone_ingester.rs).
use gridtokenx_aggregator_br.Base.{
  ℕ, ◌+◌, ◌≡◌, ◌⊎◌, inl, inr, refl, ◌∙◌, false, Option, none, some, List, [], ◌∷◌, ◌++◌,
  if◌then◌else◌, ◌==◌, nat_eq, list_eq, list_beq_iff, arith, Bool-cases,
}
use gridtokenx_aggregator_br.Base.Dict.{lookup, insert, lookup-insert}
use gridtokenx_aggregator_br.Billing.Bin.{Text}
use gridtokenx_aggregator_br.Redis.{Fate, takes_effect}
use gridtokenx_aggregator_br.Stream.Readings.{DeviceReading, Outside}
use gridtokenx_aggregator_br.Stream.{
  Zone, Meets, Action, deliver, deliver_unhandled, reclaim, decode_entry, handle_decoded,
  process_entry, reclaim_entry, claim, act, act_all,
}
use gridtokenx_aggregator_br.Stream.Delivery.{
  Handled, times, json_reading, reading_in, handling, claimed, handled_by, handled_all,
}
use gridtokenx_aggregator_br.Stream.Pending.{same_id, own_decoded, other_claim, other_deliver}

pub times-append : (id : Text) (xs ys : Handled) → times id (xs ++ ys) ≡ times id xs + times id ys
times-append id [] ys = omega arith
times-append id ((j, arrival) ∷ xs) ys = ground (arith, times-append id xs ys)

-- One while the entry is pending.
abbrev pub flag : Option (Option Text) → ℕ
flag none = 0
flag (some field) = 1

-- One if the command did not take effect.
abbrev pub failure : Fate → ℕ
failure fate = if takes_effect fate then 0 else 1

-- The entry is not handed out by any of the actions.
abbrev pub NotDelivered : Text → List Action → Type 0
NotDelivered id [] = Unit
NotDelivered id (deliver m j field ∷ rest) = ((j == id) ≡ false) × NotDelivered id rest
NotDelivered id (deliver_unhandled j field ∷ rest) = ((j == id) ≡ false) × NotDelivered id rest
NotDelivered id (reclaim m j ∷ rest) = NotDelivered id rest

-- The entry is not pending, or it is with this field.
abbrev pub PendingAs : Text → Option Text → Zone → Type 0
PendingAs id field z = (lookup id z.pending ≡ none) ⊎ (lookup id z.pending ≡ some field)

module _ (o : Outside) where
  times-handling :
      (id j : Text) (m : Meets) (r : Option DeviceReading)
      → (j == id) ≡ false
      → times id (handling o m j r) ≡ 0
  times-handling id j m none ne = refl
  times-handling id j m (some r) ne = rw ne refl

  times-claimed :
      (id j : Text) (m : Meets) (p : Option (Option Text))
      → (j == id) ≡ false
      → times id (claimed o m j p) ≡ 0
  times-claimed id j m none ne = refl
  times-claimed id j m (some field) ne = times-handling id j m (reading_in o field) ne

  -- The acknowledgements of an entry that fail.
  abbrev pub failed_claim : Text → Meets → Text → Option (Option Text) → ℕ
  failed_claim id m j none = 0
  failed_claim id m j (some field) = if j == id then failure m.ack else 0

  abbrev pub failed_by : Text → Action → Zone → ℕ
  failed_by id (deliver m j field) z = if j == id then failure m.ack else 0
  failed_by id (deliver_unhandled j field) z = 0
  failed_by id (reclaim m j) z = failed_claim id m j (lookup j z.pending)

  abbrev pub failed_all : Text → List Action → Zone → ℕ
  failed_all id [] z = 0
  failed_all id (a ∷ rest) z = failed_by id a z + failed_all id rest (act o a z)

  failed_claim-other :
      (id j : Text) (m : Meets) (p : Option (Option Text))
      → (j == id) ≡ false
      → failed_claim id m j p ≡ 0
  failed_claim-other id j m none ne = refl
  failed_claim-other id j m (some field) ne = rw ne refl

  -- The handling of the entry itself, while it is pending.
  own_handled :
      (m : Meets) (id raw : Text) (r : DeviceReading) (z : Zone)
      → json_reading o (decode_entry o raw) ≡ some r
      → lookup id z.pending ≡ some (some raw)
      → (times id (handling o m id (json_reading o (decode_entry o raw)))
            + flag (lookup id (handle_decoded o m (decode_entry o raw) id z).pending)
          ≡ 1 + (if id == id then failure m.ack else 0))
        × PendingAs id (some raw) (handle_decoded o m (decode_entry o raw) id z)
  own_handled m id raw r z is e =
      let after = own_decoded o m (decode_entry o raw) r id z is in
      elim (Bool-cases (takes_effect m.ack)) [
        | inl done ↦ rw (is, after, done, same_id id) (omega arith, inl refl)
        | inr lost ↦ rw (is, after, lost, e, same_id id) (omega arith, inr refl)
      ]

  own_claim :
      (m : Meets) (id : Text) (field : Option Text) (r : DeviceReading) (p : Option (Option Text))
      (z : Zone)
      → reading_in o field ≡ some r
      → lookup id z.pending ≡ p
      → (p ≡ none) ⊎ (p ≡ some field)
      → (times id (claimed o m id p) + flag (lookup id (claim o m id p z).pending)
          ≡ flag p + failed_claim id m id p)
        × PendingAs id field (claim o m id p z)
  unfolding reclaim_entry
  own_claim m id field r none z is e which = (rw e (omega arith), inl e)
  own_claim m id field r (some f) z is e (inl missing) = ground arith
  own_claim m id none r (some f) z is e (inr same) = ground arith
  own_claim m id (some raw) r (some none) z is e (inr same) = ground arith
  own_claim m id (some raw) r (some (some text)) z is e (inr same) =
      let q : text ≡ raw = ground arith in rw q (own_handled m id raw r z is (e ∙ same))

  other_claims :
      (m : Meets) (id j : Text) (field : Option Text) (p : Option (Option Text)) (z : Zone)
      → (j == id) ≡ false
      → PendingAs id field z
      → (times id (claimed o m j p) + flag (lookup id (claim o m j p z).pending)
          ≡ flag (lookup id z.pending) + failed_claim id m j p)
        × PendingAs id field (claim o m j p z)
  other_claims m id j field p z ne as_field =
      rw (times-claimed id j m p ne, failed_claim-other id j m p ne, other_claim o m j id p z ne)
        (omega arith, as_field)

  -- What one action does to the balance of an entry that it does not hand out.
  pub act_balance :
      (id : Text) (field : Option Text) (r : DeviceReading) (a : Action) (z : Zone)
      → reading_in o field ≡ some r
      → NotDelivered id (a ∷ [])
      → PendingAs id field z
      → (times id (handled_by o a z) + flag (lookup id (act o a z).pending)
          ≡ flag (lookup id z.pending) + failed_by id a z)
        × PendingAs id field (act o a z)
  unfolding act
  act_balance id field r (deliver m j f) z is ne p =
      let kept = other_deliver o m j id f z ne.0 in
      rw (times-handling id j m (reading_in o f) ne.0, ne.0, kept) (omega arith, p)
  act_balance id field r (deliver_unhandled j f) z is ne p =
      let kept : lookup id (insert j f z.pending) ≡ lookup id z.pending =
        lookup-insert j id f z.pending ∙ rw ne.0 refl in
      rw kept (omega arith, p)
  act_balance id field r (reclaim m j) z is ne p = elim (Bool-cases (j == id)) [
    | inl same ↦
        let q : j ≡ id = (list_beq_iff nat_eq j id).0 same in
        rw q (own_claim m id field r (lookup id z.pending) z is refl p)
    | inr other ↦ other_claims m id j field (lookup j z.pending) z other p
  ]

  pub NotDelivered-head :
      (id : Text) (a : Action) (rest : List Action)
      → NotDelivered id (a ∷ rest)
      → NotDelivered id (a ∷ [])
  NotDelivered-head id (deliver m j f) rest ne = (ne.0, tt)
  NotDelivered-head id (deliver_unhandled j f) rest ne = (ne.0, tt)
  NotDelivered-head id (reclaim m j) rest ne = tt

  pub NotDelivered-tail :
      (id : Text) (a : Action) (rest : List Action)
      → NotDelivered id (a ∷ rest)
      → NotDelivered id rest
  NotDelivered-tail id (deliver m j f) rest ne = ne.1
  NotDelivered-tail id (deliver_unhandled j f) rest ne = ne.1
  NotDelivered-tail id (reclaim m j) rest ne = ne

  pub act_all_balance :
      (id : Text) (field : Option Text) (r : DeviceReading) (acts : List Action) (z : Zone)
      → reading_in o field ≡ some r
      → NotDelivered id acts
      → PendingAs id field z
      → times id (handled_all o acts z) + flag (lookup id (act_all o acts z).pending)
        ≡ flag (lookup id z.pending) + failed_all id acts z
  act_all_balance id field r [] z is ne p = omega arith
  act_all_balance id field r (a ∷ rest) z is ne p =
      let (first, p') = act_balance id field r a z is (NotDelivered-head id a rest ne) p in
      let later =
        act_all_balance id field r rest (act o a z) is (NotDelivered-tail id a rest ne) p' in
      omega
        (arith, first, later, times-append id (handled_by o a z) (handled_all o rest (act o a z)))

  -- The two ways in which an entry comes to the group.
  abbrev pub Delivery : Text → Option Text → Action → Type 0
  Delivery id field a = ((m : Meets) × (a ≡ deliver m id field)) ⊎ (a ≡ deliver_unhandled id field)

  deliver_balance :
      (id : Text) (field : Option Text) (r : DeviceReading) (m : Meets) (z : Zone)
      → reading_in o field ≡ some r
      → (times id (handled_by o (deliver m id field) z)
            + flag (lookup id (act o (deliver m id field) z).pending)
          ≡ 1 + failed_by id (deliver m id field) z)
        × PendingAs id field (act o (deliver m id field) z)
  unfolding act process_entry
  deliver_balance id none r m z is = ground arith
  deliver_balance id (some raw) r m z is =
      own_handled m id raw r (record z { pending = insert id (some raw) z.pending }) is
        (lookup-insert id id (some raw) z.pending ∙ rw (same_id id) refl)

  pub Delivery-balance :
      (id : Text) (field : Option Text) (r : DeviceReading) (a : Action) (z : Zone)
      → reading_in o field ≡ some r
      → Delivery id field a
      → (times id (handled_by o a z) + flag (lookup id (act o a z).pending) ≡ 1 + failed_by id a z)
        × PendingAs id field (act o a z)
  unfolding act
  Delivery-balance id field r a z is (inl (m, e)) = rw e (deliver_balance id field r m z is)
  Delivery-balance id field r a z is (inr e) =
      let found : lookup id (insert id field z.pending) ≡ some field =
        lookup-insert id id field z.pending ∙ rw (same_id id) refl in
      rw (e, found) (omega arith, inr refl)
