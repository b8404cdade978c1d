-- ===== src/Mint/Settlement/Laws.antt =====
-- Where a settled surplus ends up (the settlement loop of src/main.rs).
use gridtokenx_aggregator_br.Base.{
  ◌≡◌, ◌≢◌, ◌⊎◌, inl, inr, sym, ap, ◌∙◌, subst, true, false, Option, none, some, ◌∷◌, if◌then◌else◌,
  list_eq, nat_eq, arith, Option-cases,
}
use gridtokenx_aggregator_br.Base.Dict.{lookup, lookup-insert}
use gridtokenx_aggregator_br.Billing.Bin.{Text, F64, BillingBin, key}
use gridtokenx_aggregator_br.Billing.Sink.{
  surplus, plan_mint, MintHandoff, not_applicable, enqueued, minted_directly, best_effort_only,
  lost, bin_durably_settled,
}
use gridtokenx_aggregator_br.Redis.{Fate, ok}
use gridtokenx_aggregator_br.Mint.Field.{PendingMint, field}
use gridtokenx_aggregator_br.Mint.Bridge.{is_enabled}
use gridtokenx_aggregator_br.Mint.Outbox.{Hashes, enqueue}
use gridtokenx_aggregator_br.Mint.Outbox.Laws.{same_text}
use gridtokenx_aggregator_br.Mint.Attempt.{Outside, Books, absent, mint_input, attempt_mint}
use gridtokenx_aggregator_br.Billing.BinStore.{bin_field}
use gridtokenx_aggregator_br.Mint.Attempt.Laws.{MintedBy, mark_of, attempt_mint-MintedBy}
use gridtokenx_aggregator_br.Mint.Settlement.{
  Services, Fates, World, owner_known, pending_mint, enqueue_twice, hand_over, settle_decision,
  record_point, evict_bin, settle_bin, spawn,
}

pub enqueue-stored :
    (to_json : PendingMint → Option Text) (fate : Fate) (p : PendingMint) (h : Hashes)
    → (enqueue to_json fate p h).1 ≡ ok
    → lookup (field p) (enqueue to_json fate p h).0.outbox ≢ none
unfolding enqueue
enqueue-stored to_json fate p h e = elim (Option-cases (to_json p)) [
  | inl fails ↦ ground (arith, fails)
  | inr (json, e') ↦
      ground (arith, e', same_text (field p), lookup-insert (field p) (field p) json h.outbox)
]

module _ (v : Services) (fates : Fates) (p : PendingMint) (w : World) where
  -- What a hand-over with an outbox assures of the entry.
  abbrev Assured : MintHandoff × World → Type 0
  Assured (handoff, w') =
      (handoff ≡ enqueued → lookup (field p) w'.hashes.outbox ≢ none)
      × (handoff ≡ minted_directly
          → ((attempt_mint v.outside p w.books).0 ≡ true)
            × (w'.books ≡ (attempt_mint v.outside p w.books).1))
      × (handoff ≢ not_applicable)
      × (handoff ≢ best_effort_only)

  enqueue_twice-Assured : Assured (enqueue_twice v fates p w)
  enqueue_twice-Assured = ground (
    arith,
    enqueue-stored v.to_json fates.enqueue_first p w.hashes,
    enqueue-stored v.to_json fates.enqueue_again p
        (enqueue v.to_json fates.enqueue_first p w.hashes).0,
  )

  hand_over-Assured : v.outbox ≡ true → Assured (hand_over v fates p w)
  unfolding hand_over
  hand_over-Assured on =
      subst (λ b. Assured (if b then enqueue_twice v fates p w else (best_effort_only, spawn p w)))
        (sym on) enqueue_twice-Assured

  hand_over-store : (hand_over v fates p w).1.store ≡ w.store
  unfolding hand_over
  hand_over-store = ground arith

pub evict_bin-keeps :
    (v : Services) (fates : Fates) (bin : BillingBin) (handoff : MintHandoff) (w : World)
    → ((evict_bin v fates bin handoff w).hashes ≡ w.hashes)
      × ((evict_bin v fates bin handoff w).books ≡ w.books)
      × (handoff ≡ lost → (evict_bin v fates bin handoff w).store ≡ w.store)
unfolding evict_bin bin_durably_settled
evict_bin-keeps v fates bin handoff w = (ground arith, ground arith, λ e. ground arith)

MintHandoff-cases :
    (m : MintHandoff)
    → (m ≡ enqueued)
      ⊎ (m ≡ minted_directly)
      ⊎ (m ≡ lost)
      ⊎ (m ≡ not_applicable)
      ⊎ (m ≡ best_effort_only)
MintHandoff-cases m = ground arith

module _ (v : Services) (fates : Fates) (bin : BillingBin) (p : PendingMint) (w : World) where
  handed_over :
      v.outbox ≡ true
      → let (handoff, w') = hand_over v fates p w in
        let w'' = evict_bin v fates bin handoff w' in
        (lookup (field p) w''.hashes.outbox ≢ none)
        ⊎ (((attempt_mint v.outside p w.books).0 ≡ true)
            × (w''.books ≡ (attempt_mint v.outside p w.books).1))
        ⊎ (w''.store ≡ w.store)
  handed_over on =
      let (handoff, w') = hand_over v fates p w in
      ground (
        arith,
        hand_over-Assured v fates p w on,
        hand_over-store v fates p w,
        evict_bin-keeps v fates bin handoff w',
        MintHandoff-cases handoff,
      )

owner_known-cases :
    (v : Services) (serial : Text) (w : World)
    → let (known, w') = owner_known v serial w in
      ((known ≡ false)
        × (v.resolve_user_id serial ≡ absent)
        × (v.owner_in_source_of_truth serial ≡ absent))
      ⊎ ((known ≡ true)
          × (w'.store ≡ w.store)
          × (w'.books.in_flight ≡ w.books.in_flight)
          × (w'.books.published ≡ w.books.published)
          × (w'.books.marked ≡ w.books.marked))
unfolding owner_known
owner_known-cases v serial w = ground arith

record_point-frame :
    (v : Services) (bin : BillingBin) (w : World)
    → ((record_point v bin w).store ≡ w.store) × ((record_point v bin w).books ≡ w.books)
record_point-frame v bin w = ground arith

-- `MintedBy` reads only the claims, the published inputs and the marked rows of the books before.
MintedBy-frame :
    (o : Outside) (p : PendingMint) (s t u : Books)
    → t.in_flight ≡ s.in_flight
    → t.published ≡ s.published
    → t.marked ≡ s.marked
    → MintedBy o p t u
    → MintedBy o p s u
MintedBy-frame o p s t u claims inputs rows (free, (wallet, out, e, valid, g, m, now, marks)) = (
  ground (arith, free, claims),
  (
    wallet,
    out,
    e,
    valid,
    g,
    m,
    now ∙ ap (λ l. mint_input wallet p ∷ l) inputs,
    marks ∙ ap (λ l. if o.writeback then mark_of p out ∷ l else l) rows,
  ),
)

pub settle_bin_keeps_surplus :
    (v : Services) (fates : Fates) (bin : BillingBin) (kwh : F64) (json : Text) (w : World)
    → v.outbox ≡ true
    → lookup (bin_field v.uuid_to_string (key bin)) w.store ≡ some json
    → plan_mint v.to_f64 bin (is_enabled v.outside.gateway) ≡ surplus kwh
    → let w' = settle_bin v fates bin w in
      let p = pending_mint v bin kwh in
      (lookup (field p) w'.hashes.outbox ≢ none)
      ⊎ MintedBy v.outside p w.books w'.books
      ⊎ (lookup (bin_field v.uuid_to_string (key bin)) w'.store ≡ some json)
      ⊎ ((v.resolve_user_id bin.meter_serial ≡ absent)
          × (v.owner_in_source_of_truth bin.meter_serial ≡ absent))
unfolding settle_bin settle_decision
settle_bin_keeps_surplus v fates bin kwh json w on there plan =
    let w1 = record_point v bin w in
    let w2 = (owner_known v bin.meter_serial w1).1 in
    let p = pending_mint v bin kwh in
    let frame = record_point-frame v bin w in
    elim (owner_known-cases v bin.meter_serial w1) [
      | inl (unknown, a, b) ↦ inr (inr (inr (a, b)))
      | inr (known, same_store, claims, inputs, rows) ↦ elim (handed_over v fates bin p w2 on) [
        | inl stored ↦ inl (ground (arith, plan, known, stored))
        | inr (inl (minted, books)) ↦
            let before =
              MintedBy-frame v.outside p w.books w2.books (attempt_mint v.outside p w2.books).1
                (ground (arith, claims, frame)) (ground (arith, inputs, frame))
                (ground (arith, rows, frame)) (attempt_mint-MintedBy v.outside p w2.books minted) in
            let ends : (settle_bin v fates bin w).books ≡ (attempt_mint v.outside p w2.books).1 =
              ground (arith, plan, known, books) in
            inr (inl (subst (MintedBy v.outside p w.books) (sym ends) before))
        | inr (inr kept) ↦
            let same : (settle_bin v fates bin w).store ≡ w.store =
              ground (arith, plan, known, kept, same_store, frame) in
            inr (inr (inl (rw same there)))
      ]
    ]
