-- ===== src/Sync/Tests.antt =====
-- Runs of the offline buffer (crates/aggregator-persistence/src/storage/).
use gridtokenx_aggregator_br.Base.{◌⊎◌, inl, inr, refl, true, false, some, List, [], ◌∷◌, In, arith}
use gridtokenx_aggregator_br.Billing.Bin.{Text}
use gridtokenx_aggregator_br.Redis.{applied, refused}
use gridtokenx_aggregator_br.Sync.{
  SerdeJson, push_str, mark_as_synced, StoredReading, replayed_of, get_unsynced,
}
use gridtokenx_aggregator_br.Sync.Manager.{
  new_site, SiteEvent, pushing, fetching, posting, marking, fetch, post, mark, site_step, run_site,
}
use gridtokenx_aggregator_br.Sync.Rows.{Unsynced}
use gridtokenx_aggregator_br.Sync.Replay.{run_no_loss}
use gridtokenx_aggregator_br.Sync.Drained.{clean_rounds, clean_rounds_deliver}

-- Values that are their own text.
abbrev text_json : SerdeJson
text_json = record { Value = Text; to_string = some; from_str = some; null = [] }

-- A push comes between the read of a round and its update; the second request of the round is refused.
abbrev interleaved : List (SiteEvent text_json)
interleaved =
    pushing true true 7 (1 ∷ []) 5 (123 ∷ [])
    ∷ pushing true true 8 (2 ∷ []) 6 (124 ∷ [])
    ∷ fetching true
    ∷ posting applied
    ∷ pushing true false 9 (3 ∷ []) 6 (125 ∷ [])
    ∷ posting refused
    ∷ marking true
    ∷ []

abbrev refused_reading : StoredReading
refused_reading = (2 ∷ [], 6, 124 ∷ [])

run_no_loss_example :
    Unsynced refused_reading (run_site text_json interleaved (new_site text_json)).buffer.rows
    ⊎ In
        (replayed_of text_json refused_reading)
        (run_site text_json interleaved (new_site text_json)).received
unfolding run_site site_step fetch post mark push_str mark_as_synced get_unsynced
run_no_loss_example = run_no_loss text_json interleaved refused_reading (inr (inl refl))

clean_rounds_deliver_example :
    In
      (replayed_of text_json refused_reading)
      (run_site text_json
        (clean_rounds text_json 1)
        (run_site text_json interleaved (new_site text_json))).received
unfolding run_site site_step fetch post mark push_str mark_as_synced get_unsynced
clean_rounds_deliver_example =
    clean_rounds_deliver text_json interleaved 1 refused_reading refl (omega arith) (inr (inl refl))
