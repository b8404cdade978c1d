-- ===== src/Mint/Loops.antt =====
-- The settlement loop, the attempts it spawns and the drain loop (src/main.rs) acting on one state in any
-- order, as steps that carry the outbox fields they confirmed.
use gridtokenx_aggregator_br.Base.{
  ◌≡◌, ◌⊎◌, inl, inr, ℕ, Bool, true, false, Option, List, [], ◌∷◌, ◌++◌, In, if◌then◌else◌, list_eq,
  list_beq_iff, nat_eq, arith, Option-cases,
}
use gridtokenx_aggregator_br.Base.Dict.{lookup-insert}
use gridtokenx_aggregator_br.Base.Members.{In-append_left, In-append_right}
use gridtokenx_aggregator_br.Billing.Bin.{Text, BillingBin}
use gridtokenx_aggregator_br.Billing.Sink.{MintDecision, plan_mint}
use gridtokenx_aggregator_br.Redis.{Fate}
use gridtokenx_aggregator_br.Mint.Field.{PendingMint, field}
use gridtokenx_aggregator_br.Mint.Outbox.{Hashes, enqueue}
use gridtokenx_aggregator_br.Mint.Outbox.Laws.{Stored, remove_field-frame}
use gridtokenx_aggregator_br.Mint.Attempt.{attempt_mint}
use gridtokenx_aggregator_br.Mint.Bridge.{is_enabled}
use gridtokenx_aggregator_br.Mint.Settlement.{
  Services, Fates, World, owner_known, pending_mint, hand_over, settle_decision, record_point,
  settle_bin, run_attempt,
}
use gridtokenx_aggregator_br.Mint.Settlement.Laws.{evict_bin-keeps}
use gridtokenx_aggregator_br.Mint.Drain.{Tick, drain_tick}
use gridtokenx_aggregator_br.Mint.Drain.Laws.{drain_tick_no_loss}

-- The fields that a spawned attempt confirms.
abbrev pub confirmed_by : Services → Bool → PendingMint → World → List Text
confirmed_by v permit p w =
    if permit then (if (attempt_mint v.outside p w.books).0 then field p ∷ [] else []) else []

pub data Step (v : Services) : World → List Text → World → Type 0 where
  settles : (fates : Fates) (bin : BillingBin) {w : World} → Step v w [] (settle_bin v fates bin w)
  attempts :
      (permit : Bool) (first second : Fate) (p : PendingMint) {w : World}
      → Step v w (confirmed_by v permit p w) (run_attempt v permit first second p w)
  drains :
      (t : Tick) (size_setting : Option ℕ) {w : World}
      → Step v w (drain_tick t size_setting w).0 (drain_tick t size_setting w).1

pub data Run (v : Services) : World → List Text → World → Type 0 where
  stop : {w : World} → Run v w [] w
  step :
      {w w' w'' : World} {fs gs : List Text}
      → Step v w fs w'
      → Run v w' gs w''
      → Run v w (fs ++ gs) w''

module _ (f : Text) where
  enqueue-Stored :
      (to_json : PendingMint → Option Text) (fate : Fate) (p : PendingMint) (h : Hashes)
      → Stored f h
      → Stored f (enqueue to_json fate p h).0
  unfolding enqueue
  enqueue-Stored to_json fate p h x = elim (Option-cases (to_json p)) [
    | inl fails ↦ ground (arith, fails, x)
    | inr (json, e) ↦ ground (arith, e, lookup-insert (field p) f json h.outbox, x)
  ]

  hand_over-Stored :
      (v : Services) (fates : Fates) (p : PendingMint) (w : World)
      → Stored f w.hashes
      → Stored f (hand_over v fates p w).1.hashes
  unfolding hand_over
  hand_over-Stored v fates p w x =
      let h = (enqueue v.to_json fates.enqueue_first p w.hashes).0 in
      ground (
        arith,
        enqueue-Stored v.to_json fates.enqueue_first p w.hashes x,
        enqueue-Stored v.to_json fates.enqueue_again p h,
        x,
      )

  owner_known-hashes :
      (v : Services) (serial : Text) (w : World) → (owner_known v serial w).1.hashes ≡ w.hashes
  unfolding owner_known
  owner_known-hashes v serial w = ground arith

  settle_decision-Stored :
      (v : Services) (fates : Fates) (bin : BillingBin) (d : MintDecision) (w : World)
      → Stored f w.hashes
      → Stored f (settle_decision v fates bin d w).1.hashes
  unfolding settle_decision
  settle_decision-Stored v fates bin (MintDecision.surplus kwh) w x =
      let w' = (owner_known v bin.meter_serial w).1 in
      let p = pending_mint v bin kwh in
      ground (arith, owner_known-hashes v bin.meter_serial w, hand_over-Stored v fates p w', x)
  settle_decision-Stored v fates bin MintDecision.no_surplus w x = ground (arith, x)
  settle_decision-Stored v fates bin MintDecision.disabled w x = x

  record_point-hashes :
      (v : Services) (bin : BillingBin) (w : World) → (record_point v bin w).hashes ≡ w.hashes
  record_point-hashes v bin w = ground arith

  settle_bin-Stored :
      (v : Services) (fates : Fates) (bin : BillingBin) (w : World)
      → Stored f w.hashes
      → Stored f (settle_bin v fates bin w).hashes
  unfolding settle_bin
  settle_bin-Stored v fates bin w x =
      let d = plan_mint v.to_f64 bin (is_enabled v.outside.gateway) in
      let w1 = record_point v bin w in
      let (handoff, w2) = settle_decision v fates bin d w1 in
      ground (
        arith,
        record_point-hashes v bin w,
        settle_decision-Stored v fates bin d w1,
        evict_bin-keeps v fates bin handoff w2,
        x,
      )

  run_attempt-Stored :
      (v : Services) (permit : Bool) (first second : Fate) (p : PendingMint) (w : World)
      → Stored f w.hashes
      → Stored f (run_attempt v permit first second p w).hashes ⊎ In f (confirmed_by v permit p w)
  unfolding run_attempt
  run_attempt-Stored v false first second p w x = inl x
  run_attempt-Stored v true first second p w x = ground (
    arith,
    remove_field-frame first second (field p) w.hashes f,
    list_beq_iff nat_eq (field p) f,
    x,
  )

  Step-Stored :
      (v : Services) (w w' : World) (fs : List Text)
      → Step v w fs w'
      → Stored f w.hashes
      → Stored f w'.hashes ⊎ In f fs
  Step-Stored v w _ _ (settles fates bin) x = inl (settle_bin-Stored v fates bin w x)
  Step-Stored v w _ _ (attempts permit first second p) x =
      run_attempt-Stored v permit first second p w x
  Step-Stored v w _ _ (drains t size_setting) x = drain_tick_no_loss t size_setting w f x

-- However the settlement of bins, the spawned attempts and the ticks of the drain loop follow one
-- another, an entry of the outbox or of the parked hash stays in one of them until an attempt reports
-- its field as confirmed. This holds whatever the outside answers and whatever becomes of each Redis
-- command.
pub Run-no_loss :
    (v : Services) (w w' : World) (fs : List Text) (f : Text)
    → Run v w fs w'
    → Stored f w.hashes
    → Stored f w'.hashes ⊎ In f fs
Run-no_loss v w _ _ f stop x = inl x
Run-no_loss v w w' _ f (step {w' = next} {fs = fs} {gs = gs} one more) x =
    elim (Step-Stored f v w next fs one x) [
      | inr now ↦ inr (In-append_left f fs gs now)
      | inl stored ↦ elim (Run-no_loss v next w' gs f more stored) [
        | inl kept ↦ inl kept
        | inr later ↦ inr (In-append_right f fs gs later)
      ]
    ]
