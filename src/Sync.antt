-- ===== src/Sync.antt =====
-- The offline buffer and its replay: `CircularBuffer` of crates/aggregator-persistence/src/storage/circular_buffer.rs,
-- whose SQLite table is the list of its rows in the order of their ids. A statement on the table succeeds or fails.
-- The JSON codec is a parameter. Sync/Manager is sync_manager.rs beside it.
pub mod Manager
pub mod Rows
pub mod Links
pub mod Pushed
pub mod Round
pub mod Replay
pub mod Marked
pub mod Drained
pub mod Tests
use gridtokenx_aggregator_br.Base.{
  ℕ, suc, ◌+◌, ◌-◌, ◌*◌, ◌%◌, ◌^◌, Bool, true, false, not, ◌&&◌, Option, none, some, List, [], ◌∷◌,
  ◌++◌, map, keep, any, take, ltb, if◌then◌else◌, ◌==◌, nat_eq,
}
use gridtokenx_aggregator_br.Billing.Bin.{Text, unwrap_or}
use gridtokenx_aggregator_br.Billing.Time.{Timestamp, hour_ns}
use gridtokenx_aggregator_br.Redis.{Status, ok, err}

-- `serde_json`: printing may fail, and so may parsing.
pub record SerdeJson : Type 1 where
  pub Value : Type 0
  pub to_string : Value → Option Text
  pub from_str : Text → Option Value
  pub null : Value

-- A row of `telemetry`.
pub record Telemetry : Type 0 where
  pub id : ℕ
  pub meter_id : Text
  pub timestamp : Timestamp
  pub payload : Text
  pub synced : Bool

-- `next_id` is the id that AUTOINCREMENT gives next.
pub record CircularBuffer : Type 0 where
  pub rows : List Telemetry
  pub next_id : ℕ
  pub push_count : ℕ

abbrev pub empty_buffer : CircularBuffer
empty_buffer = record { rows = []; next_id = 1; push_count = 0 }

-- `CircularBuffer::new` on a file that an earlier process left: the table is created only if it is missing.
abbrev pub open_buffer : CircularBuffer → CircularBuffer
open_buffer b = record b { push_count = 0 }

abbrev pub retention_hours : ℕ
retention_hours = 24

-- `DELETE ... WHERE timestamp < cutoff AND synced = 1`.
unfoldable pub cleanup : Timestamp → CircularBuffer → CircularBuffer
cleanup now b = record b {
  rows = keep (λ r. not (ltb r.timestamp (now - retention_hours * hour_ns) && r.synced)) b.rows;
}

abbrev pub new_row : ℕ → Text → Timestamp → Text → Telemetry
new_row id meter_id timestamp payload = record {
  id = id;
  meter_id = meter_id;
  timestamp = timestamp;
  payload = payload;
  synced = false;
}

abbrev pub insert_row : Text → Timestamp → Text → CircularBuffer → CircularBuffer
insert_row meter_id timestamp payload b = record b {
  rows = b.rows ++ (new_row b.next_id meter_id timestamp payload ∷ []);
  next_id = suc b.next_id;
  push_count = (b.push_count + 1) % 2 ^ 64;
}

-- The hundredth push cleans up.
abbrev pub cleanup_due : Bool → Timestamp → CircularBuffer → Status × CircularBuffer
cleanup_due cleanup_ok now b =
    if b.push_count % 100 == 0
    then if cleanup_ok then (ok, cleanup now b) else (err, b)
    else (ok, b)

-- With the payload as it is printed, and whether the two statements succeed.
unfoldable pub push_str :
    Bool
    → Bool
    → Timestamp
    → Text
    → Timestamp
    → Option Text
    → CircularBuffer
    → Status × CircularBuffer
unfolding cleanup
push_str insert_ok cleanup_ok now meter_id timestamp none b = (err, b)
push_str insert_ok cleanup_ok now meter_id timestamp (some payload) b =
    if insert_ok
    then cleanup_due cleanup_ok now (insert_row meter_id timestamp payload b)
    else (err, b)

abbrev pub mark_row : List ℕ → Telemetry → Telemetry
mark_row ids r = if any (λ i. i == r.id) ids then record r { synced = true } else r

unfoldable pub mark_as_synced : Bool → List ℕ → CircularBuffer → Status × CircularBuffer
mark_as_synced update_ok [] b = (ok, b)
mark_as_synced update_ok (i ∷ ids) b =
    if update_ok then (ok, record b { rows = map (mark_row (i ∷ ids)) b.rows }) else (err, b)

-- What a row stores of a reading.
abbrev pub StoredReading : Type 0
StoredReading = Text × Timestamp × Text

abbrev pub stored : Telemetry → StoredReading
stored r = (r.meter_id, r.timestamp, r.payload)

module _ (j : SerdeJson) where
  abbrev pub push :
      Bool
      → Bool
      → Timestamp
      → Text
      → Timestamp
      → j.Value
      → CircularBuffer
      → Status × CircularBuffer
  push insert_ok cleanup_ok now meter_id timestamp payload b =
      push_str insert_ok cleanup_ok now meter_id timestamp (j.to_string payload) b

  abbrev pub Replayed : Type 0
  Replayed = Text × Timestamp × j.Value

  abbrev pub UnsyncedRecord : Type 0
  UnsyncedRecord = ℕ × Replayed

  -- A payload that does not parse is read as null.
  abbrev pub replayed_of : StoredReading → Replayed
  replayed_of (meter_id, timestamp, payload) =
      (meter_id, timestamp, unwrap_or (j.from_str payload) j.null)

  abbrev pub unsynced_record : Telemetry → UnsyncedRecord
  unsynced_record r = (r.id, replayed_of (stored r))

  unfoldable pub get_unsynced : ℕ → CircularBuffer → List UnsyncedRecord
  get_unsynced limit b = map unsynced_record (take limit (keep (λ r. not r.synced) b.rows))
