-- ===== src/Stream/Once.antt =====
-- That a reading of the stream is counted once for its delivery and once more for each acknowledgement that failed
-- (crates/aggregator-api/src/ingester/zone_ingester.rs).
use gridtokenx_aggregator_br.Base.{
  ◌+◌, ◌≡◌, ◌⊎◌, inl, inr, ap, true, Option, none, some, List, [], ◌∷◌, ◌++◌, ◌==◌, nat_eq, list_eq,
  list_beq_iff, arith,
}
use gridtokenx_aggregator_br.Base.Dict.{lookup}
use gridtokenx_aggregator_br.Billing.Bin.{Text, Uuid}
use gridtokenx_aggregator_br.Billing.Aggregator.Ingest.{ingest}
use gridtokenx_aggregator_br.Stream.Readings.{DeviceReading, Outside, aggregator_reading}
use gridtokenx_aggregator_br.Stream.{
  Zone, Meets, Action, deliver, deliver_unhandled, reclaim, act, act_all,
}
use gridtokenx_aggregator_br.Stream.Delivery.{
  Handled, times, reading_in, handling, claimed, handled_by, handled_all, arrivals,
  aggregator-act_all,
}
use gridtokenx_aggregator_br.Stream.Balance.{
  flag, failed_all, NotDelivered, PendingAs, Delivery, times-append, NotDelivered-head,
  NotDelivered-tail, act_balance, act_all_balance, Delivery-balance,
}

module _ (o : Outside) where
  -- Every handling of the entry is of this reading.
  abbrev pub Carries : Text → DeviceReading → Handled → Type 0
  Carries id r [] = Unit
  Carries id r ((j, (now, x)) ∷ rest) =
      ((j == id) ≡ true → (user : Option Uuid) × (x ≡ aggregator_reading o user r))
      × Carries id r rest

  Carries-append :
      (id : Text) (r : DeviceReading) (xs ys : Handled)
      → Carries id r xs
      → Carries id r ys
      → Carries id r (xs ++ ys)
  Carries-append id r [] ys hx hy = hy
  Carries-append id r ((j, (now, x)) ∷ xs) ys hx hy = (hx.0, Carries-append id r xs ys hx.1 hy)

  handling-Carries :
      (id j : Text) (r : DeviceReading) (m : Meets) (held : Option DeviceReading)
      → ((j == id) ≡ true → held ≡ some r)
      → Carries id r (handling o m j held)
  handling-Carries id j r m none is = tt
  handling-Carries id j r m (some x) is =
      (λ same. (m.user, ap (aggregator_reading o m.user) (ground (arith, is same))), tt)

  claimed-Carries :
      (id j : Text) (field : Option Text) (r : DeviceReading) (m : Meets) (p : Option (Option Text))
      → reading_in o field ≡ some r
      → ((j == id) ≡ true → (p ≡ none) ⊎ (p ≡ some field))
      → Carries id r (claimed o m j p)
  claimed-Carries id j field r m none is which = tt
  claimed-Carries id j field r m (some held) is which =
      handling-Carries id j r m (reading_in o held) (λ same. elim (which same) [
        | inl missing ↦ absurd (ground arith)
        | inr found ↦ let q : held ≡ field = ground arith in rw q is
      ])

  handled_by-Carries :
      (id : Text) (field : Option Text) (r : DeviceReading) (a : Action) (z : Zone)
      → reading_in o field ≡ some r
      → NotDelivered id (a ∷ [])
      → PendingAs id field z
      → Carries id r (handled_by o a z)
  handled_by-Carries id field r (deliver m j f) z is ne p =
      handling-Carries id j r m (reading_in o f) (λ same. absurd (ground arith))
  handled_by-Carries id field r (deliver_unhandled j f) z is ne p = tt
  handled_by-Carries id field r (reclaim m j) z is ne p =
      claimed-Carries id j field r m (lookup j z.pending) is
        (λ same. let q : j ≡ id = (list_beq_iff nat_eq j id).0 same in rw q p)

  handled_all-Carries :
      (id : Text) (field : Option Text) (r : DeviceReading) (acts : List Action) (z : Zone)
      → reading_in o field ≡ some r
      → NotDelivered id acts
      → PendingAs id field z
      → Carries id r (handled_all o acts z)
  handled_all-Carries id field r [] z is ne p = tt
  handled_all-Carries id field r (a ∷ rest) z is ne p =
      let head = NotDelivered-head o id a rest ne in
      Carries-append id r (handled_by o a z) (handled_all o rest (act o a z))
        (handled_by-Carries id field r a z is head p)
        (handled_all-Carries id field r rest (act o a z) is (NotDelivered-tail o id a rest ne)
          (act_balance o id field r a z is head p).1)

  Delivery-Carries :
      (id : Text) (field : Option Text) (r : DeviceReading) (a : Action) (z : Zone)
      → reading_in o field ≡ some r
      → Delivery o id field a
      → Carries id r (handled_by o a z)
  Delivery-Carries id field r a z is (inl (m, e)) =
      rw e (handling-Carries id id r m (reading_in o field) (λ same. is))
  Delivery-Carries id field r a z is (inr e) = rw e tt

  pub handled_once_per_failure :
      (id : Text) (field : Option Text) (r : DeviceReading) (a : Action) (acts : List Action)
      (z : Zone)
      → reading_in o field ≡ some r
      → Delivery o id field a
      → NotDelivered id acts
      → let handled = handled_all o (a ∷ acts) z in
        let z' = act_all o (a ∷ acts) z in
        (z'.aggregator ≡ ingest ⦃decimals = o.decimals⦄ (arrivals handled) z.aggregator)
        × Carries id r handled
        × (times id handled + flag (lookup id z'.pending) ≡ 1 + failed_all o id (a ∷ acts) z)
  handled_once_per_failure id field r a acts z is delivery ne =
      let (first, p) = Delivery-balance o id field r a z is delivery in
      let later = act_all_balance o id field r acts (act o a z) is ne p in
      let hs = handled_all o acts (act o a z) in
      (
        aggregator-act_all o (a ∷ acts) z,
        Carries-append id r (handled_by o a z) hs (Delivery-Carries id field r a z is delivery)
            (handled_all-Carries id field r acts (act o a z) is ne p),
        omega (arith, first, later, times-append id (handled_by o a z) hs),
      )
