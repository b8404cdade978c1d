-- ===== src/Sync/Pushed.antt =====
-- A push and a clean-up keep what the replay relies on (crates/aggregator-persistence/src/storage/circular_buffer.rs).
use gridtokenx_aggregator_br.Base.{
  suc, ◌⊎◌, inl, inr, refl, Bool, true, false, Option, none, some, List, [], ◌∷◌, ◌++◌, In,
}
use gridtokenx_aggregator_br.Billing.Bin.{Text}
use gridtokenx_aggregator_br.Billing.Time.{Timestamp}
use gridtokenx_aggregator_br.Sync.{
  SerdeJson, Telemetry, CircularBuffer, cleanup, new_row, insert_row, push_str, StoredReading,
  Replayed, replayed_of,
}
use gridtokenx_aggregator_br.Sync.Manager.{Phase, accept}
use gridtokenx_aggregator_br.Base.Members.{In-append_left, In-snoc}
use gridtokenx_aggregator_br.Sync.Rows.{Unsynced, cleanup-Sub, cleanup-Unsynced, cleanup_due-keeps}
use gridtokenx_aggregator_br.Sync.Links.{
  Table-Sub, Table-insert, InFlight-Sub, InFlight-insert, Inv,
}

module _ (j : SerdeJson) where
  insert_row-Inv :
      (meter_id : Text) (timestamp : Timestamp) (payload : Text) (b : CircularBuffer)
      (log : List StoredReading) (g : List (Replayed j)) (p : Phase j)
      → Inv j b.rows b.next_id log g p
      → Inv j
          (insert_row meter_id timestamp payload b).rows
          (suc b.next_id)
          ((meter_id, timestamp, payload) ∷ log)
          g
          p
  insert_row-Inv meter_id timestamp payload b log g p inv = record {
    table = Table-insert meter_id timestamp payload b log inv.table;
    flight = InFlight-insert j meter_id timestamp payload b log g p inv.flight;
    safe = safe;
    sound = λ r h. inr (inv.sound r h);
  }
    where
      row : Telemetry
      row = new_row b.next_id meter_id timestamp payload

      safe :
          (x : StoredReading)
          → In x ((meter_id, timestamp, payload) ∷ log)
          → Unsynced x (b.rows ++ (row ∷ [])) ⊎ In (replayed_of j x) g
      safe x (inl new) = inl (row, In-snoc row b.rows, new, refl)
      safe x (inr old) = elim (inv.safe x old) [
        | inl (r, h, same, unsynced) ↦ inl (r, In-append_left r b.rows (row ∷ []) h, same, unsynced)
        | inr there ↦ inr there
      ]

  cleanup-Inv :
      (now : Timestamp) (b : CircularBuffer) (log : List StoredReading) (g : List (Replayed j))
      (p : Phase j)
      → Inv j b.rows b.next_id log g p
      → Inv j (cleanup now b).rows b.next_id log g p
  cleanup-Inv now b log g p inv = record {
    table = Table-Sub (cleanup-Sub now b) inv.table;
    flight =
        InFlight-Sub j (cleanup now b).rows b.rows b.next_id log g p (cleanup-Sub now b) inv.flight;
    safe = λ x h. elim (inv.safe x h) [
      | inl still ↦ inl (cleanup-Unsynced now b x still)
      | inr there ↦ inr there
    ];
    sound = inv.sound;
  }

  pub push_str-Inv :
      (insert_ok cleanup_ok : Bool) (now : Timestamp) (meter_id : Text) (timestamp : Timestamp)
      (payload : Option Text) (b : CircularBuffer) (log : List StoredReading)
      (g : List (Replayed j)) (p : Phase j)
      → Inv j b.rows b.next_id log g p
      → Inv j
          (push_str insert_ok cleanup_ok now meter_id timestamp payload b).1.rows
          (push_str insert_ok cleanup_ok now meter_id timestamp payload b).1.next_id
          (accept insert_ok meter_id timestamp payload log)
          g
          p
  unfolding push_str
  push_str-Inv true cleanup_ok now meter_id timestamp none b log g p inv = inv
  push_str-Inv false cleanup_ok now meter_id timestamp none b log g p inv = inv
  push_str-Inv false cleanup_ok now meter_id timestamp (some payload) b log g p inv = inv
  push_str-Inv true cleanup_ok now meter_id timestamp (some payload) b log g p inv =
      let b' = insert_row meter_id timestamp payload b in
      let log' : List StoredReading = (meter_id, timestamp, payload) ∷ log in
      let inserted = insert_row-Inv meter_id timestamp payload b log g p inv in
      cleanup_due-keeps (λ rows n. Inv j rows n log' g p) cleanup_ok now b' inserted
        (cleanup-Inv now b' log' g p inserted)
