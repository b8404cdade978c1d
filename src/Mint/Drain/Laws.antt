-- ===== src/Mint/Drain/Laws.antt =====
-- No tick of the drain loop (src/main.rs) loses an entry.
use gridtokenx_aggregator_br.Base.{
  ◌⊎◌, inl, inr, Option, List, [], ◌∷◌, In, ◌==◌, list_eq, list_beq_iff, nat_eq, arith, Bool-cases,
  Option-cases, length, ℕ,
}
use gridtokenx_aggregator_br.Base.Members.{In-append_left, In-append_right}
use gridtokenx_aggregator_br.Billing.Bin.{Text}
use gridtokenx_aggregator_br.Mint.Field.{PendingMint, field}
use gridtokenx_aggregator_br.Mint.Outbox.{load_all, remove_field, is_expired}
use gridtokenx_aggregator_br.Mint.Outbox.Laws.{Stored, park_no_loss}
use gridtokenx_aggregator_br.Mint.Attempt.Batch.{attempt_mint_batch}
use gridtokenx_aggregator_br.Mint.Settlement.{World}
use gridtokenx_aggregator_br.Mint.Drain.{
  Tick, park_one, park_expired, remove_fields, attempt_batch, attempt_batches, drain_tick, chunks,
  batch_size,
}
use gridtokenx_aggregator_br.Mint.Outbox.Laws.{remove_field-frame}

module _ (t : Tick) (f : Text) where
  park_one-Stored :
      (p : PendingMint) (w : World) → Stored f w.hashes → Stored f (park_one t p w).hashes
  park_one-Stored p w h =
      let (first, second) = t.fate (field p) in
      let (own, success, frame) = park_no_loss t.to_json first second p w.hashes in
      elim (Bool-cases (field p == f)) [
        | inl same ↦ ground (arith, own, (list_beq_iff nat_eq (field p) f).0 same, h)
        | inr other ↦ ground (arith, frame f other, h)
      ]

  park_expired-Stored :
      (pending : List PendingMint) (w : World)
      → Stored f w.hashes
      → Stored f (park_expired t pending w).1.hashes
  unfolding park_expired
  park_expired-Stored [] w h = h
  park_expired-Stored (p ∷ pending) w h = elim (Bool-cases (is_expired p t.now_ms t.max_age_secs)) [
    | inl expired ↦
        rw expired (park_expired-Stored pending (park_one t p w) (park_one-Stored p w h))
    | inr fresh ↦ rw fresh (park_expired-Stored pending w h)
  ]

  remove_fields-Stored :
      (fields : List Text) (w : World)
      → Stored f w.hashes
      → Stored f (remove_fields t fields w).hashes ⊎ In f fields
  unfolding remove_fields
  remove_fields-Stored [] w h = inl h
  remove_fields-Stored (g ∷ fields) w h =
      let (first, second) = t.fate g in
      let w' = record w { hashes = (remove_field first second g w.hashes).0 } in
      elim (Bool-cases (g == f)) [
        | inl same ↦ inr (inl ((list_beq_iff nat_eq g f).0 same))
        | inr other ↦
            elim (remove_fields-Stored fields w'
              (remove_field-frame first second g w.hashes f other h)) [
                | inl stored ↦ inl stored
                | inr later ↦ inr (inr later)
              ]
      ]

  attempt_batch-Stored :
      (batch : List PendingMint) (w : World)
      → Stored f w.hashes
      → Stored f (attempt_batch t batch w).1.hashes ⊎ In f (attempt_batch t batch w).0
  attempt_batch-Stored batch w h =
      let (confirmed, books) = attempt_mint_batch t.outside t.mint_batch batch w.books in
      elim (Bool-cases (t.permit batch)) [
        | inl granted ↦ rw granted (remove_fields-Stored confirmed (record w { books = books }) h)
        | inr closed ↦ rw closed (inl h)
      ]

  attempt_batches-Stored :
      (batches : List (List PendingMint)) (w : World)
      → Stored f w.hashes
      → Stored f (attempt_batches t batches w).1.hashes ⊎ In f (attempt_batches t batches w).0
  unfolding attempt_batches
  attempt_batches-Stored [] w h = inl h
  attempt_batches-Stored (batch ∷ batches) w h =
      let (confirmed, w') = attempt_batch t batch w in
      let (more, w'') = attempt_batches t batches w' in
      elim (attempt_batch-Stored batch w h) [
        | inr now ↦ inr (In-append_left f confirmed more now)
        | inl stored ↦ elim (attempt_batches-Stored batches w' stored) [
          | inl kept ↦ inl kept
          | inr later ↦ inr (In-append_right f confirmed more later)
        ]
      ]

-- A tick of the drain loop never loses an entry: what the outbox or the parked hash held is in one of them
-- afterwards, or an attempt of the tick reported its field as confirmed. This holds whatever the registry
-- and the bridge answer, whatever becomes of each Redis command, and for every setting of the batch
-- size.
pub drain_tick_no_loss :
    (t : Tick) (size_setting : Option ℕ) (w : World) (f : Text)
    → Stored f w.hashes
    → Stored f (drain_tick t size_setting w).1.hashes ⊎ In f (drain_tick t size_setting w).0
unfolding drain_tick
drain_tick_no_loss t size_setting w f h =
    elim (Option-cases (load_all t.load_fate t.of_json w.hashes)) [
      | inl failed_load ↦ rw (drain_tick, failed_load) (inl h)
      | inr (pending, loaded) ↦
          let (to_mint, w') = park_expired t pending w in
          let batches = chunks (length to_mint) (batch_size size_setting) to_mint in
          rw (drain_tick, loaded)
            (attempt_batches-Stored t f batches w' (park_expired-Stored t f pending w h))
    ]
