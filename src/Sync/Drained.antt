-- ===== src/Sync/Drained.antt =====
-- With a gateway that answers, the replay of the offline buffer ends (crates/aggregator-persistence/src/storage/).
use gridtokenx_aggregator_br.Base.{
  ℕ, zero, suc, ◌-◌, ◌*◌, ◌≤◌, ◌≡◌, inl, inr, refl, sym, ap, ◌∙◌, subst, true, List, [], ◌∷◌, ◌++◌,
  map, take, length, length-take, In, All, append-nil, append_assoc, ap₂, nat_eq, arith,
}
use gridtokenx_aggregator_br.Base.Members.{All-intro, In-map}
use gridtokenx_aggregator_br.Redis.{applied}
use gridtokenx_aggregator_br.Sync.{
  SerdeJson, Telemetry, CircularBuffer, mark_row, mark_as_synced, StoredReading, stored, Replayed,
  UnsyncedRecord, replayed_of, unsynced_record, get_unsynced,
}
use gridtokenx_aggregator_br.Sync.Manager.{
  sync_batch_size, Phase, waiting, sending, Site, new_site, SiteEvent, fetching, posting, marking,
  begin_round, fetch, post, mark, site_step, run_site,
}
use gridtokenx_aggregator_br.Sync.Links.{SiteInv}
use gridtokenx_aggregator_br.Sync.Replay.{run_site-Inv, new_site-Inv}
use gridtokenx_aggregator_br.Sync.Marked.{
  unsynced_count, unsynced_rows, Unsynced-nowhere, length-unsynced_rows, count-mark_first,
}

module _ (j : SerdeJson) where
  abbrev site : CircularBuffer → Phase j → List (Replayed j) → List StoredReading → Site j
  site b p g log = record { buffer = b; phase = p; received = g; accepted = log }

  -- Requests that all succeed.
  abbrev pub posts : ℕ → List (SiteEvent j) → List (SiteEvent j)
  posts zero rest = rest
  posts (suc n) rest = posting applied ∷ posts n rest

  -- A round in which nothing fails.
  abbrev pub clean_round : List (SiteEvent j) → List (SiteEvent j)
  clean_round rest = fetching true ∷ posts sync_batch_size (marking true ∷ rest)

  abbrev pub clean_rounds : ℕ → List (SiteEvent j)
  clean_rounds zero = []
  clean_rounds (suc n) = clean_round (clean_rounds n)

  posts-run :
      (n : ℕ) (us : List (UnsyncedRecord j)) (ids : List ℕ) (b : CircularBuffer)
      (g : List (Replayed j)) (log : List StoredReading) (rest : List (SiteEvent j))
      → length us ≤ n
      → run_site j (posts n rest) (site b (sending us ids) g log)
        ≡ run_site j rest
            (site b (sending [] (ids ++ map (λ u. u.0) us)) (g ++ map (λ u. u.1) us) log)
  unfolding run_site site_step post
  posts-run zero [] ids b g log rest h =
      ap₂ (λ i q. run_site j rest (site b (sending [] i) q log)) (sym (append-nil ids))
        (sym (append-nil g))
  posts-run zero (u ∷ us) ids b g log rest h = absurd (omega arith)
  posts-run (suc n) [] ids b g log rest h = posts-run n [] ids b g log rest (omega arith)
  posts-run (suc n) (u ∷ us) ids b g log rest h =
      posts-run n us (ids ++ (u.0 ∷ [])) b (g ++ (u.1 ∷ [])) log rest (omega arith)
      ∙ ap₂ (λ i q. run_site j rest (site b (sending [] i) q log))
          (append_assoc ids (u.0 ∷ []) (map (λ v. v.0) us))
          (append_assoc g (u.1 ∷ []) (map (λ v. v.1) us))

  idle_posts-run :
      (n : ℕ) (b : CircularBuffer) (g : List (Replayed j)) (log : List StoredReading)
      (rest : List (SiteEvent j))
      → run_site j (posts n rest) (site b waiting g log) ≡ run_site j rest (site b waiting g log)
  unfolding run_site site_step post
  idle_posts-run zero b g log rest = refl
  idle_posts-run (suc n) b g log rest = idle_posts-run n b g log rest

  -- What a round leads to: fewer unmarked rows by a whole batch, or none.
  abbrev Drains :
      CircularBuffer → List (Replayed j) → List StoredReading → List (SiteEvent j) → Type 0
  Drains b g log rest =
      (b' : CircularBuffer) × (g' : List (Replayed j)) × (run_site j (clean_round rest)
          (site b waiting g log)
        ≡ run_site j rest (site b' waiting g' log))
      × (unsynced_count b'.rows ≤ unsynced_count b.rows - sync_batch_size)

  fetched :
      (b : CircularBuffer) (g : List (Replayed j)) (log : List StoredReading)
      (rest : List (SiteEvent j)) (rows : List Telemetry)
      → unsynced_rows b.rows ≡ rows
      → run_site j (clean_round rest) (site b waiting g log)
        ≡ run_site j
            (posts sync_batch_size (marking true ∷ rest))
            (site b (begin_round j (map (unsynced_record j) (take sync_batch_size rows))) g log)
  unfolding get_unsynced run_site site_step fetch
  fetched b g log rest rows e =
      ap
        (λ l.
          run_site j (posts sync_batch_size (marking true ∷ rest))
            (site b (begin_round j (map (unsynced_record j) (take sync_batch_size l))) g log))
        e

  length-map : (rows : List Telemetry) → length (map (unsynced_record j) rows) ≡ length rows
  length-map [] = refl
  length-map (r ∷ rows) = ap suc (length-map rows)

  -- The round of a batch that starts with the record of the first unmarked row.
  sent_round :
      (b : CircularBuffer) (g : List (Replayed j)) (log : List StoredReading)
      (rest : List (SiteEvent j)) (q : Telemetry) (more : List Telemetry)
      → unsynced_rows b.rows ≡ q ∷ more
      → Drains b g log rest
  unfolding run_site site_step post mark mark_as_synced
  sent_round b g log rest q more e =
      let us = map (unsynced_record j) (take 49 more) in
      let ids = q.id ∷ map (λ u. u.0) us in
      let few : length us ≤ 49 = omega (arith, length-map (take 49 more), length-take 49 more) in
      let marked =
        subst (λ l. All (λ r. In r.id ids) (take sync_batch_size l)) (sym e)
          (
            inl refl,
            All-intro (λ r. In r.id ids) (take 49 more)
                (λ r h. inr (
                  In-map (λ u. u.0) (unsynced_record j r) us
                    (In-map (unsynced_record j) r (take 49 more) h))),
          ) in
      (
        record b { rows = map (mark_row ids) b.rows },
        (g ++ (replayed_of j (stored q) ∷ [])) ++ map (λ u. u.1) us,
        fetched b g log rest (q ∷ more) e
            ∙ posts-run 49 us (q.id ∷ []) b (g ++ (replayed_of j (stored q) ∷ [])) log
                (marking true ∷ rest) few,
        omega (
          arith,
          count-mark_first sync_batch_size ids b.rows marked,
          length-take sync_batch_size (unsynced_rows b.rows),
          length-unsynced_rows b.rows,
        ),
      )

  clean_round-Drains :
      (b : CircularBuffer) (g : List (Replayed j)) (log : List StoredReading)
      (rest : List (SiteEvent j)) (rows : List Telemetry)
      → unsynced_rows b.rows ≡ rows
      → Drains b g log rest
  unfolding run_site site_step mark
  clean_round-Drains b g log rest [] e = (
    b,
    g,
    fetched b g log rest [] e ∙ idle_posts-run sync_batch_size b g log (marking true ∷ rest),
    omega (arith, length-unsynced_rows b.rows, ap (λ l. length l) e),
  )
  clean_round-Drains b g log rest (q ∷ more) e = sent_round b g log rest q more e

  clean_rounds-run :
      (n : ℕ) (b : CircularBuffer) (g : List (Replayed j)) (log : List StoredReading)
      → unsynced_count b.rows ≤ sync_batch_size * n
      → (b' : CircularBuffer) × (g' : List (Replayed j)) × (run_site j
            (clean_rounds n)
            (site b waiting g log)
          ≡ site b' waiting g' log)
        × (unsynced_count b'.rows ≡ 0)
  clean_rounds-run zero b g log h = (b, g, unfold run_site in refl, omega arith)
  clean_rounds-run (suc n) b g log h =
      let (b1, g1, first, less) =
        clean_round-Drains b g log (clean_rounds n) (unsynced_rows b.rows) refl in
      let (b', g', later, none_left) = clean_rounds-run n b1 g1 log (omega (arith, less)) in
      (b', g', first ∙ later, none_left)

  -- Every accepted reading arrives: when the loop stands before a read, after any events, then rounds in which nothing
  -- fails, one for every 50 rows not marked as synced, leave the gateway with every reading that a push wrote to the
  -- table.
  pub clean_rounds_deliver :
      (events : List (SiteEvent j)) (n : ℕ) (x : StoredReading)
      → (run_site j events (new_site j)).phase ≡ waiting
      → unsynced_count (run_site j events (new_site j)).buffer.rows ≤ sync_batch_size * n
      → In x (run_site j events (new_site j)).accepted
      → In (replayed_of j x) (run_site j (clean_rounds n) (run_site j events (new_site j))).received
  clean_rounds_deliver events n x at few accepted =
      let s = run_site j events (new_site j) in
      let paused : s ≡ site s.buffer waiting s.received s.accepted =
        ap (λ p. site s.buffer p s.received s.accepted) at in
      let (b', g', ends, none_left) = clean_rounds-run n s.buffer s.received s.accepted few in
      let all_run = ap (run_site j (clean_rounds n)) paused ∙ ends in
      let inv =
        subst (SiteInv j) all_run (
          run_site-Inv j (clean_rounds n) s
            (run_site-Inv j events (new_site j) (new_site-Inv j))) in
      subst (λ t. In (replayed_of j x) t.received) (sym all_run)
        (elim (inv.safe x accepted) [
          | inl left ↦ absurd (Unsynced-nowhere b'.rows none_left x left)
          | inr there ↦ there
        ])
