-- ===== src/Sync/Replay.antt =====
-- No reading is lost between the offline buffer and the gateway (crates/aggregator-persistence/src/storage/).
use gridtokenx_aggregator_br.Base.{◌⊎◌, refl, List, [], ◌∷◌, map, In}
use gridtokenx_aggregator_br.Sync.{SerdeJson, StoredReading, Replayed, replayed_of}
use gridtokenx_aggregator_br.Sync.Manager.{
  Site, new_site, SiteEvent, pushing, fetching, posting, marking, restarting, site_step, run_site,
}
use gridtokenx_aggregator_br.Sync.Rows.{Unsynced}
use gridtokenx_aggregator_br.Sync.Links.{SiteInv}
use gridtokenx_aggregator_br.Sync.Pushed.{push_str-Inv}
use gridtokenx_aggregator_br.Sync.Round.{fetch-Inv, post-Inv, mark-Inv}

module _ (j : SerdeJson) where
  pub site_step-Inv :
      (event : SiteEvent j) (s : Site j) → SiteInv j s → SiteInv j (site_step j event s)
  unfolding site_step
  site_step-Inv (pushing insert_ok cleanup_ok now meter_id timestamp payload) s inv =
      push_str-Inv j insert_ok cleanup_ok now meter_id timestamp (j.to_string payload) s.buffer
        s.accepted s.received s.phase inv
  site_step-Inv (fetching read_ok) s inv = fetch-Inv j read_ok s.phase s refl inv
  site_step-Inv (posting fate) s inv = post-Inv j fate s.phase s refl inv
  site_step-Inv (marking update_ok) s inv = mark-Inv j update_ok s.phase s refl inv
  site_step-Inv restarting s inv = record {
    table = inv.table;
    flight = tt;
    safe = inv.safe;
    sound = inv.sound;
  }

  pub run_site-Inv :
      (events : List (SiteEvent j)) (s : Site j) → SiteInv j s → SiteInv j (run_site j events s)
  unfolding run_site
  run_site-Inv [] s inv = inv
  run_site-Inv (e ∷ events) s inv = run_site-Inv events (site_step j e s) (site_step-Inv e s inv)

  pub new_site-Inv : SiteInv j (new_site j)
  new_site-Inv = record {
    table = record {
      below = λ r h. absurd h;
      unique = λ r q h k e. absurd h;
      logged = λ r h. absurd h;
    };
    flight = tt;
    safe = λ x h. absurd h;
    sound = λ r h. absurd h;
  }

  -- No reading that the buffer accepted is lost: in any order of pushes, reads, requests, updates and restarts from an
  -- empty buffer, whichever statements and requests fail, what a push wrote to the table is still in a row that is not
  -- marked as synced, or the gateway has received the reading that it is read back as. Pushes with their clean-ups may
  -- come between the read of a round and its update, and a restart forgets the round.
  pub run_no_loss :
      (events : List (SiteEvent j)) (x : StoredReading)
      → In x (run_site j events (new_site j)).accepted
      → Unsynced x (run_site j events (new_site j)).buffer.rows
        ⊎ In (replayed_of j x) (run_site j events (new_site j)).received
  run_no_loss events = (run_site-Inv events (new_site j) new_site-Inv).safe

  -- The gateway receives only readings that a push wrote to the table.
  received_was_accepted :
      (events : List (SiteEvent j)) (r : Replayed j)
      → In r (run_site j events (new_site j)).received
      → In r (map (replayed_of j) (run_site j events (new_site j)).accepted)
  received_was_accepted events = (run_site-Inv events (new_site j) new_site-Inv).sound
