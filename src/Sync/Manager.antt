-- ===== src/Sync/Manager.antt =====
-- `SyncManager` of crates/aggregator-persistence/src/storage/sync_manager.rs. The buffer is locked for a read and for an
-- update, not while the batch is sent, so each is an event of its own and pushes may come between. A request to the
-- gateway meets a fate; an answer that is no success counts as a failure. Sleeping is left out.
use gridtokenx_aggregator_br.Base.{
  ℕ, Bool, true, false, Option, some, List, [], ◌∷◌, ◌++◌, if◌then◌else◌,
}
use gridtokenx_aggregator_br.Billing.Bin.{Text}
use gridtokenx_aggregator_br.Billing.Time.{Timestamp}
use gridtokenx_aggregator_br.Redis.{Fate, Status, ok, err, takes_effect, status}
use gridtokenx_aggregator_br.Sync.{
  SerdeJson, CircularBuffer, empty_buffer, open_buffer, push, mark_as_synced, StoredReading,
  Replayed, UnsyncedRecord, get_unsynced,
}

abbrev pub sync_batch_size : ℕ
sync_batch_size = 50

-- Where the loop stands: before its read, or in a round with the records to send and the ids sent, or ended by an
-- error of the table.
pub data Phase (j : SerdeJson) : Type 0 where
  waiting : Phase j
  sending : List (UnsyncedRecord j) → List ℕ → Phase j
  stopped : Phase j

-- `received` is what the gateway has received, in order, and `accepted` what pushes have written to the table.
pub record Site (j : SerdeJson) : Type 0 where
  pub buffer : CircularBuffer
  pub phase : Phase j
  pub received : List (Replayed j)
  pub accepted : List StoredReading

abbrev pub new_site : (j : SerdeJson) → Site j
new_site j = record { buffer = empty_buffer; phase = waiting; received = []; accepted = [] }

-- A push; the read of a round, one request of it and its update; a restart of the process at any instant.
pub data SiteEvent (j : SerdeJson) : Type 0 where
  pushing : Bool → Bool → Timestamp → Text → Timestamp → j.Value → SiteEvent j
  fetching : Bool → SiteEvent j
  posting : Fate → SiteEvent j
  marking : Bool → SiteEvent j
  restarting : SiteEvent j

abbrev pub accept : Bool → Text → Timestamp → Option Text → List StoredReading → List StoredReading
accept true meter_id timestamp (some payload) log = (meter_id, timestamp, payload) ∷ log
accept _ _ _ _ log = log

module _ (j : SerdeJson) where
  -- The members of the body are those of the reading.
  abbrev pub replay_body : Replayed j → Replayed j
  replay_body (meter_id, timestamp, payload) = (meter_id, timestamp, payload)

  abbrev pub send_to_gateway : Fate → Replayed j → List (Replayed j) → Status × List (Replayed j)
  send_to_gateway fate r g =
      (status fate, if takes_effect fate then g ++ (replay_body r ∷ []) else g)

  abbrev pub begin_round : List (UnsyncedRecord j) → Phase j
  begin_round [] = waiting
  begin_round (u ∷ us) = sending (u ∷ us) []

  unfoldable pub fetch : Bool → Phase j → Site j → Site j
  fetch true waiting s = record s { phase = begin_round (get_unsynced j sync_batch_size s.buffer) }
  fetch false waiting s = record s { phase = stopped }
  fetch read_ok (sending us ids) s = s
  fetch read_ok stopped s = s

  -- The batch stops at the first failure.
  abbrev pub after_send : Status → ℕ → List (UnsyncedRecord j) → List ℕ → Phase j
  after_send ok id us ids = sending us (ids ++ (id ∷ []))
  after_send err id us ids = sending [] ids

  unfoldable pub post : Fate → Phase j → Site j → Site j
  post fate (sending ((id, r) ∷ us) ids) s =
      let (result, g) = send_to_gateway fate r s.received in
      record s { received = g; phase = after_send result id us ids }
  post fate (sending [] ids) s = s
  post fate waiting s = s
  post fate stopped s = s

  abbrev pub after_mark : Status → Phase j
  after_mark ok = waiting
  after_mark err = stopped

  unfoldable pub mark : Bool → Phase j → Site j → Site j
  mark update_ok (sending [] ids) s =
      let (result, b) = mark_as_synced update_ok ids s.buffer in
      record s { buffer = b; phase = after_mark result }
  mark update_ok (sending (u ∷ us) ids) s = s
  mark update_ok waiting s = s
  mark update_ok stopped s = s

  -- An event that the phase does not admit changes nothing.
  unfoldable pub site_step : SiteEvent j → Site j → Site j
  unfolding fetch post mark
  site_step (pushing insert_ok cleanup_ok now meter_id timestamp payload) s = record s {
    buffer = (push j insert_ok cleanup_ok now meter_id timestamp payload s.buffer).1;
    accepted = accept insert_ok meter_id timestamp (j.to_string payload) s.accepted;
  }
  site_step (fetching read_ok) s = fetch read_ok s.phase s
  site_step (posting fate) s = post fate s.phase s
  site_step (marking update_ok) s = mark update_ok s.phase s
  site_step restarting s = record s { buffer = open_buffer s.buffer; phase = waiting }

  unfoldable pub run_site : List (SiteEvent j) → Site j → Site j
  unfolding site_step
  run_site [] s = s
  run_site (e ∷ es) s = run_site es (site_step e s)
