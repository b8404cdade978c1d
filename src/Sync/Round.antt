-- ===== src/Sync/Round.antt =====
-- The read, the requests and the update of a round keep what the replay relies on
-- (crates/aggregator-persistence/src/storage/sync_manager.rs).
use gridtokenx_aggregator_br.Base.{
  ℕ, ◌≡◌, inl, inr, refl, sym, ap, subst, Bool, true, false, not, List, [], ◌∷◌, ◌++◌, map, All,
  All-mono, In,
}
use gridtokenx_aggregator_br.Redis.{Fate, applied, refused, reply_lost, Status, ok, err}
use gridtokenx_aggregator_br.Sync.{
  SerdeJson, Telemetry, CircularBuffer, mark_as_synced, StoredReading, stored, Replayed,
  UnsyncedRecord, replayed_of, unsynced_record, get_unsynced,
}
use gridtokenx_aggregator_br.Sync.Manager.{
  sync_batch_size, Phase, waiting, sending, stopped, Site, begin_round, fetch, post, mark,
  after_mark,
}
use gridtokenx_aggregator_br.Base.Members.{
  In-append_left, In-snoc, In-unsnoc, All-intro, All-keep, All-take, All-map, All-snoc, All-In,
  In-map,
}
use gridtokenx_aggregator_br.Sync.Rows.{Unsynced, mark_as_synced-Sub, mark_as_synced-Unsynced}
use gridtokenx_aggregator_br.Sync.Links.{Table, Table-Sub, Copied, Sent, InFlight, Inv, SiteInv}

module _ (j : SerdeJson) where
  abbrev Flying : Site j → Phase j → Type 0
  Flying s p = InFlight j s.buffer.rows s.buffer.next_id s.accepted s.received p

  flying : (p : Phase j) (s : Site j) → s.phase ≡ p → SiteInv j s → Flying s p
  flying p s e inv = subst (Flying s) e inv.flight

  get_unsynced-Copied :
      (limit : ℕ) (b : CircularBuffer) (log : List StoredReading)
      → Table b.rows b.next_id log
      → All (Copied j b.rows b.next_id log) (get_unsynced j limit b)
  unfolding get_unsynced
  get_unsynced-Copied limit b log t =
      All-map (Copied j b.rows b.next_id log) (unsynced_record j) _ (
        All-take (λ r. Copied j b.rows b.next_id log (unsynced_record j r)) limit _
          (All-keep (λ r. Copied j b.rows b.next_id log (unsynced_record j r)) (λ r. not r.synced)
            b.rows
            (All-intro (λ r. Copied j b.rows b.next_id log (unsynced_record j r)) b.rows
              (λ r h. record {
                given = t.below r h;
                copies = λ q k e. ap (replayed_of j) (t.unique q r k h e);
                origin = In-map (replayed_of j) (stored r) log (t.logged r h);
              }))))

  begin_round-InFlight :
      (rows : List Telemetry) (n : ℕ) (log : List StoredReading) (g : List (Replayed j))
      (us : List (UnsyncedRecord j))
      → All (Copied j rows n log) us
      → InFlight j rows n log g (begin_round j us)
  begin_round-InFlight rows n log g [] h = tt
  begin_round-InFlight rows n log g (u ∷ us) h = (h, tt)

  pub fetch-Inv :
      (read_ok : Bool) (p : Phase j) (s : Site j)
      → s.phase ≡ p
      → SiteInv j s
      → SiteInv j (fetch j read_ok p s)
  unfolding fetch
  fetch-Inv true waiting s e inv = record {
    table = inv.table;
    flight =
        begin_round-InFlight s.buffer.rows s.buffer.next_id s.accepted s.received _
          (get_unsynced-Copied sync_batch_size s.buffer s.accepted inv.table);
    safe = inv.safe;
    sound = inv.sound;
  }
  fetch-Inv false waiting s e inv = record {
    table = inv.table;
    flight = tt;
    safe = inv.safe;
    sound = inv.sound;
  }
  fetch-Inv true (sending us ids) s e inv = inv
  fetch-Inv true stopped s e inv = inv
  fetch-Inv false (sending us ids) s e inv = inv
  fetch-Inv false stopped s e inv = inv

  Sent-snoc :
      (rows : List Telemetry) (n : ℕ) (g : List (Replayed j)) (r : Replayed j) (i : ℕ)
      → Sent j rows n g i
      → Sent j rows n (g ++ (r ∷ [])) i
  Sent-snoc rows n g r i k = record {
    given = k.given;
    arrived = λ q h e. In-append_left (replayed_of j (stored q)) g (r ∷ []) (k.arrived q h e);
  }

  -- The request of a copied record arrives.
  post-Inv_of_arrival :
      (s : Site j) (id : ℕ) (r : Replayed j) (p : Phase j)
      → Copied j s.buffer.rows s.buffer.next_id s.accepted (id, r)
      → InFlight j s.buffer.rows s.buffer.next_id s.accepted (s.received ++ (r ∷ [])) p
      → SiteInv j s
      → Inv j s.buffer.rows s.buffer.next_id s.accepted (s.received ++ (r ∷ [])) p
  post-Inv_of_arrival s id r p c f inv = record {
    table = inv.table;
    flight = f;
    safe = λ x h. elim (inv.safe x h) [
      | inl still ↦ inl still
      | inr there ↦ inr (In-append_left (replayed_of j x) s.received (r ∷ []) there)
    ];
    sound = λ q h. elim (In-unsnoc q r s.received h) [
      | inl old ↦ inv.sound q old
      | inr new ↦ subst (λ x. In x (map (replayed_of j) s.accepted)) new c.origin
    ];
  }

  pub post-Inv :
      (fate : Fate) (p : Phase j) (s : Site j)
      → s.phase ≡ p
      → SiteInv j s
      → SiteInv j (post j fate p s)
  unfolding post
  post-Inv applied (sending ((id, r) ∷ us) ids) s e inv =
      let (c, sent) = flying (sending ((id, r) ∷ us) ids) s e inv in
      let g = s.received ++ (r ∷ []) in
      post-Inv_of_arrival s id r (sending us (ids ++ (id ∷ []))) c.0
        (
          c.1,
          All-snoc (Sent j s.buffer.rows s.buffer.next_id g) ids id
              (All-mono ids (Sent-snoc s.buffer.rows s.buffer.next_id s.received r) sent)
              (record {
                given = c.0.given;
                arrived =
                    λ q h k. subst (λ x. In x g) (sym (c.0.copies q h k)) (In-snoc r s.received);
              }),
        )
        inv
  post-Inv refused (sending ((id, r) ∷ us) ids) s e inv =
      let (c, sent) = flying (sending ((id, r) ∷ us) ids) s e inv in
      record { table = inv.table; flight = (tt, sent); safe = inv.safe; sound = inv.sound }
  post-Inv reply_lost (sending ((id, r) ∷ us) ids) s e inv =
      let (c, sent) = flying (sending ((id, r) ∷ us) ids) s e inv in
      post-Inv_of_arrival s id r (sending [] ids) c.0
        (tt, All-mono ids (Sent-snoc s.buffer.rows s.buffer.next_id s.received r) sent) inv
  post-Inv fate (sending [] ids) s e inv = inv
  post-Inv fate waiting s e inv = inv
  post-Inv fate stopped s e inv = inv

  after_mark-InFlight :
      (result : Status) (rows : List Telemetry) (n : ℕ) (log : List StoredReading)
      (g : List (Replayed j))
      → InFlight j rows n log g (after_mark j result)
  after_mark-InFlight ok rows n log g = tt
  after_mark-InFlight err rows n log g = tt

  mark_as_synced-next_id :
      (update_ok : Bool) (ids : List ℕ) (b : CircularBuffer)
      → b.next_id ≡ (mark_as_synced update_ok ids b).1.next_id
  unfolding mark_as_synced
  mark_as_synced-next_id update_ok [] b = refl
  mark_as_synced-next_id true (i ∷ ids) b = refl
  mark_as_synced-next_id false (i ∷ ids) b = refl

  pub mark-Inv :
      (update_ok : Bool) (p : Phase j) (s : Site j)
      → s.phase ≡ p
      → SiteInv j s
      → SiteInv j (mark j update_ok p s)
  unfolding mark
  mark-Inv update_ok (sending [] ids) s e inv = record {
    table =
        subst (λ n. Table marked n s.accepted) (mark_as_synced-next_id update_ok ids s.buffer)
          (Table-Sub (mark_as_synced-Sub update_ok ids s.buffer) inv.table);
    flight =
        after_mark-InFlight (mark_as_synced update_ok ids s.buffer).0 marked _ s.accepted
          s.received;
    safe = λ x h. elim (inv.safe x h) [
      | inr there ↦ inr there
      | inl (r, inside, same, unsynced) ↦
          elim (mark_as_synced-Unsynced update_ok ids s.buffer r inside unsynced) [
            | inl still ↦ inl (subst (λ y. Unsynced y marked) same still)
            | inr given ↦ inr (
                subst (λ y. In (replayed_of j y) s.received) same
                  ((All-In (Sent j s.buffer.rows s.buffer.next_id s.received) ids r.id sent.1
                      given).arrived
                    r inside refl))
          ]
    ];
    sound = inv.sound;
  }
    where
      marked : List Telemetry
      marked = (mark_as_synced update_ok ids s.buffer).1.rows

      sent : Flying s (sending [] ids)
      sent = flying (sending [] ids) s e inv
  mark-Inv update_ok (sending (u ∷ us) ids) s e inv = inv
  mark-Inv update_ok waiting s e inv = inv
  mark-Inv update_ok stopped s e inv = inv
