-- ===== src/Sync/Links.antt =====
-- What the replay of the offline buffer keeps true (crates/aggregator-persistence/src/storage/): a record being sent
-- is a copy of its row, and an id to be marked is that of a reading the gateway has.
use gridtokenx_aggregator_br.Base.{
  ℕ, suc, ◌<◌, ◌≡◌, ◌⊎◌, inl, inr, sym, ap, ◌∙◌, subst, List, [], ◌∷◌, ◌++◌, map, All, All-mono, In,
  arith,
}
use gridtokenx_aggregator_br.Billing.Bin.{Text}
use gridtokenx_aggregator_br.Billing.Time.{Timestamp}
use gridtokenx_aggregator_br.Sync.{
  SerdeJson, Telemetry, CircularBuffer, new_row, insert_row, StoredReading, stored, Replayed,
  UnsyncedRecord, replayed_of,
}
use gridtokenx_aggregator_br.Sync.Manager.{Phase, waiting, sending, stopped, Site}
use gridtokenx_aggregator_br.Base.Members.{In-unsnoc}
use gridtokenx_aggregator_br.Sync.Rows.{Sub, Unsynced}

-- The ids are below the next one, an id names one reading, and every row was accepted.
pub record Table (rows : List Telemetry) (n : ℕ) (log : List StoredReading) : Type 0 where
  pub below : (r : Telemetry) → In r rows → r.id < n
  pub unique : (r q : Telemetry) → In r rows → In q rows → r.id ≡ q.id → stored r ≡ stored q
  pub logged : (r : Telemetry) → In r rows → In (stored r) log

pub Table-Sub :
    {xs ys : List Telemetry} {n : ℕ} {log : List StoredReading}
    → Sub xs ys
    → Table ys n log
    → Table xs n log
Table-Sub {n} {log} sub t = record {
  below = λ r h. let (q, inside, same, _) = sub r h in subst (λ i. i < n) same (t.below q inside);
  unique = λ r q h k e.
      let (r', r_in, r_id, r_stored) = sub r h in
      let (q', q_in, q_id, q_stored) = sub q k in
      sym r_stored ∙ t.unique r' q' r_in q_in (r_id ∙ e ∙ sym q_id) ∙ q_stored;
  logged =
      λ r h. let (q, inside, _, same) = sub r h in subst (λ x. In x log) same (t.logged q inside);
}

pub Table-insert :
    (meter_id : Text) (timestamp : Timestamp) (payload : Text) (b : CircularBuffer)
    (log : List StoredReading)
    → Table b.rows b.next_id log
    → Table
        (insert_row meter_id timestamp payload b).rows
        (suc b.next_id)
        ((meter_id, timestamp, payload) ∷ log)
Table-insert meter_id timestamp payload b log t = record {
  below = λ r h. elim (In-unsnoc r row b.rows h) [
    | inl old ↦ omega (arith, t.below r old)
    | inr new ↦ subst (λ q. q.id < suc b.next_id) new (omega arith)
  ];
  unique = λ r q h k e. elim (In-unsnoc r row b.rows h) [
    | inl old ↦ elim (In-unsnoc q row b.rows k) [
      | inl older ↦ t.unique r q old older e
      | inr new ↦ absurd (omega (arith, t.below r old, e, ap (λ x. x.id) new))
    ]
    | inr new ↦ elim (In-unsnoc q row b.rows k) [
      | inl older ↦ absurd (omega (arith, t.below q older, e, ap (λ x. x.id) new))
      | inr newer ↦ ap stored (sym new ∙ newer)
    ]
  ];
  logged = λ r h. elim (In-unsnoc r row b.rows h) [
    | inl old ↦ inr (t.logged r old)
    | inr new ↦ inl (ap stored new)
  ];
}
  where
    row : Telemetry
    row = new_row b.next_id meter_id timestamp payload

module _ (j : SerdeJson) where
  -- A record being sent was accepted, and every row with its id stores the same reading.
  pub record Copied (rows : List Telemetry) (n : ℕ) (log : List StoredReading)
      (u : UnsyncedRecord j) : Type 0 where
    pub given : u.0 < n
    pub copies : (r : Telemetry) → In r rows → r.id ≡ u.0 → replayed_of j (stored r) ≡ u.1
    pub origin : In u.1 (map (replayed_of j) log)

  -- The gateway has the reading of every row with the id.
  pub record Sent (rows : List Telemetry) (n : ℕ) (g : List (Replayed j)) (i : ℕ) : Type 0 where
    pub given : i < n
    pub arrived : (r : Telemetry) → In r rows → r.id ≡ i → In (replayed_of j (stored r)) g

  abbrev pub InFlight :
      List Telemetry → ℕ → List StoredReading → List (Replayed j) → Phase j → Type 0
  InFlight rows n log g waiting = Unit
  InFlight rows n log g stopped = Unit
  InFlight rows n log g (sending us ids) = All (Copied rows n log) us × All (Sent rows n g) ids

  Copied-Sub :
      {xs ys : List Telemetry} {n : ℕ} {log : List StoredReading}
      → Sub xs ys
      → (u : UnsyncedRecord j) → Copied ys n log u
      → Copied xs n log u
  Copied-Sub sub u c = record {
    given = c.given;
    copies = λ r h e.
        let (q, inside, same, content) = sub r h in
        ap (replayed_of j) (sym content) ∙ c.copies q inside (same ∙ e);
    origin = c.origin;
  }

  Sent-Sub :
      {xs ys : List Telemetry} {n : ℕ} {g : List (Replayed j)}
      → Sub xs ys
      → (i : ℕ) → Sent ys n g i
      → Sent xs n g i
  Sent-Sub {g} sub i s = record {
    given = s.given;
    arrived = λ r h e.
        let (q, inside, same, content) = sub r h in
        subst (λ x. In x g) (ap (replayed_of j) content) (s.arrived q inside (same ∙ e));
  }

  pub InFlight-Sub :
      (xs ys : List Telemetry) (n : ℕ) (log : List StoredReading) (g : List (Replayed j))
      (p : Phase j)
      → Sub xs ys
      → InFlight ys n log g p
      → InFlight xs n log g p
  InFlight-Sub xs ys n log g waiting sub f = tt
  InFlight-Sub xs ys n log g stopped sub f = tt
  InFlight-Sub xs ys n log g (sending us ids) sub (c, s) =
      (All-mono us (Copied-Sub sub) c, All-mono ids (Sent-Sub sub) s)

  pub InFlight-insert :
      (meter_id : Text) (timestamp : Timestamp) (payload : Text) (b : CircularBuffer)
      (log : List StoredReading) (g : List (Replayed j)) (p : Phase j)
      → InFlight b.rows b.next_id log g p
      → InFlight
          (insert_row meter_id timestamp payload b).rows
          (suc b.next_id)
          ((meter_id, timestamp, payload) ∷ log)
          g
          p
  InFlight-insert meter_id timestamp payload b log g waiting f = tt
  InFlight-insert meter_id timestamp payload b log g stopped f = tt
  InFlight-insert meter_id timestamp payload b log g (sending us ids) (c, s) =
      (All-mono us copied c, All-mono ids sent s)
    where
      row : Telemetry
      row = new_row b.next_id meter_id timestamp payload

      copied :
          (u : UnsyncedRecord j)
          → Copied b.rows b.next_id log u
          → Copied (b.rows ++ (row ∷ [])) (suc b.next_id) ((meter_id, timestamp, payload) ∷ log) u
      copied u k = record {
        given = omega (arith, k.given);
        copies = λ r h e. elim (In-unsnoc r row b.rows h) [
          | inl old ↦ k.copies r old e
          | inr new ↦ absurd (omega (arith, k.given, e, ap (λ x. x.id) new))
        ];
        origin = inr k.origin;
      }

      sent : (i : ℕ) → Sent b.rows b.next_id g i → Sent (b.rows ++ (row ∷ [])) (suc b.next_id) g i
      sent i k = record {
        given = omega (arith, k.given);
        arrived = λ r h e. elim (In-unsnoc r row b.rows h) [
          | inl old ↦ k.arrived r old e
          | inr new ↦ absurd (omega (arith, k.given, e, ap (λ x. x.id) new))
        ];
      }

  -- Every reading that was accepted waits in an unmarked row, or the gateway has it; and it has no other.
  pub record Inv (rows : List Telemetry) (n : ℕ) (log : List StoredReading) (g : List (Replayed j))
      (p : Phase j) : Type 0 where
    pub table : Table rows n log
    pub flight : InFlight rows n log g p
    pub safe : (x : StoredReading) → In x log → Unsynced x rows ⊎ In (replayed_of j x) g
    pub sound : (r : Replayed j) → In r g → In r (map (replayed_of j) log)

  abbrev pub SiteInv : Site j → Type 0
  SiteInv s = Inv s.buffer.rows s.buffer.next_id s.accepted s.received s.phase
