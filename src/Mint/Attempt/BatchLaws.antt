-- ===== src/Mint/Attempt/BatchLaws.antt =====
-- What a batch of attempts leaves behind (crates/aggregator-logic/src/mint_settlement.rs).
use gridtokenx_aggregator_br.Base.{
  ◌∙◌, length, ◌≡◌, refl, ℕ, zero, suc, Bool, true, false, ◌||◌, List, [], ◌∷◌, ◌++◌, if◌then◌else◌,
  ◌==◌, nat_eq, list_eq, list_beq_iff, arith,
}
use gridtokenx_aggregator_br.Billing.Bin.{Text}
use gridtokenx_aggregator_br.Mint.Field.{PendingMint, field}
use gridtokenx_aggregator_br.Mint.Bridge.{
  Result, ok, err, MintBatchItemResult, BatchMintInput, MintGateway, nats, disabled, call,
}
use gridtokenx_aggregator_br.Mint.Attempt.{
  settled_ok, failed_mint_err, mint_failure_reason, claimed, release, Books, Outcome, Outside,
  publish, count_outcome,
}
use gridtokenx_aggregator_br.Mint.Attempt.Batch.{
  send_batch, classify_batch_results, Batch, admit, collect, start_batch, release_all,
  repeat_outcome, write_back_one, write_back_confirmed, settle_reply, attempt_mint_batch,
}

claimed-release :
    (k g : Text) (set : List Text)
    → claimed k (release g set) ≡ (if g == k then false else claimed k set)
claimed-release k g [] = ground arith
claimed-release k g (j ∷ set) = ground (
  arith,
  claimed-release k g set,
  list_beq_iff nat_eq j g,
  list_beq_iff nat_eq j k,
  list_beq_iff nat_eq g k,
)

claimed-append :
    (k : Text) (xs ys : List Text) → claimed k (xs ++ ys) ≡ (claimed k xs || claimed k ys)
claimed-append k [] ys = refl
claimed-append k (x ∷ xs) ys = ground (arith, claimed-append k xs ys)

claimed-release_all :
    (k : Text) (gs set : List Text)
    → claimed k (release_all gs set) ≡ (if claimed k gs then false else claimed k set)
claimed-release_all k [] set = refl
claimed-release_all k (g ∷ gs) set =
    ground (arith, claimed-release_all k gs (release g set), claimed-release k g set)

-- Inside the loop: what is in flight is what was, with the claims that the batch holds.
abbrev Holds : List Text → Batch → Type 0
Holds before b =
    (k : Text)
    → (claimed k b.books.in_flight ≡ (claimed k b.guards || claimed k before))
      × (claimed k b.guards ≡ true → claimed k before ≡ false)

admit-Holds :
    (o : Outside) (p : PendingMint) (before : List Text) (b : Batch)
    → Holds before b
    → Holds before (admit o p b)
unfolding admit
admit-Holds o p before b h k = ground (
  arith,
  h k,
  h (field p),
  claimed-append k b.guards (field p ∷ []),
  claimed-release k (field p) (field p ∷ b.books.in_flight),
  list_beq_iff nat_eq (field p) k,
)

collect-Holds :
    (o : Outside) (pending : List PendingMint) (before : List Text) (b : Batch)
    → Holds before b
    → Holds before (collect o pending b)
unfolding collect
collect-Holds o [] before b h = h
collect-Holds o (p ∷ pending) before b h =
    collect-Holds o pending before (admit o p b) (admit-Holds o p before b h)

repeat_outcome-in_flight :
    (n : ℕ) (w : Outcome) (s : Books) → (repeat_outcome n w s).in_flight ≡ s.in_flight
repeat_outcome-in_flight zero w s = refl
repeat_outcome-in_flight (suc n) w s = repeat_outcome-in_flight n w (count_outcome w s)

write_back_one-in_flight :
    (b : Bool) (r : MintBatchItemResult) (s : Books)
    → (write_back_one b r s).in_flight ≡ s.in_flight
write_back_one-in_flight b r s = ground arith

write_back_confirmed-in_flight :
    (b : Bool) (rs : List MintBatchItemResult) (s : Books)
    → (write_back_confirmed b rs s).in_flight ≡ s.in_flight
write_back_confirmed-in_flight b [] s = refl
write_back_confirmed-in_flight b (r ∷ rs) s = ground (
  arith,
  write_back_confirmed-in_flight b rs (write_back_one b r s),
  write_back_one-in_flight b r s,
)

settle_reply-in_flight :
    (b : Bool) (n : ℕ) (r : Result (List MintBatchItemResult)) (s : Books)
    → (settle_reply b n r s).1.in_flight ≡ s.in_flight
settle_reply-in_flight b n (ok rs) s =
    let c = classify_batch_results rs in
    let s' = repeat_outcome c.confirmed settled_ok s in
    rw
      (
        write_back_confirmed-in_flight b rs (repeat_outcome c.failed failed_mint_err s'),
        repeat_outcome-in_flight c.failed failed_mint_err s',
        repeat_outcome-in_flight c.confirmed settled_ok s,
      )
      refl
settle_reply-in_flight b n (err e) s = repeat_outcome-in_flight n (mint_failure_reason e) s

publish-in_flight :
    (g : MintGateway) (is : List BatchMintInput) (s : Books)
    → (publish g is s).in_flight ≡ s.in_flight
publish-in_flight nats is s = refl
publish-in_flight disabled is s = refl

send_batch-in_flight :
    (o : Outside) (mint_batch : List BatchMintInput → Result (List MintBatchItemResult))
    (inputs : List BatchMintInput) (s : Books)
    → (send_batch o mint_batch inputs s).1.in_flight ≡ s.in_flight
send_batch-in_flight o mint_batch [] s = refl
send_batch-in_flight o mint_batch (input ∷ more) s =
    let inputs = input ∷ more in
    let reply = call o.gateway mint_batch inputs in
    settle_reply-in_flight o.writeback (length inputs) reply (publish o.gateway inputs s)
    ∙ publish-in_flight o.gateway inputs s

-- Whatever the registry and the bridge answer, a batch of attempts gives back exactly the claims it took:
-- a key is in flight afterwards if and only if it was before.
pub attempt_mint_batch-in_flight :
    (o : Outside) (mint_batch : List BatchMintInput → Result (List MintBatchItemResult))
    (pending : List PendingMint) (s : Books) (k : Text)
    → claimed k (attempt_mint_batch o mint_batch pending s).1.in_flight ≡ claimed k s.in_flight
unfolding attempt_mint_batch
attempt_mint_batch-in_flight o mint_batch pending s k =
    let b = collect o pending (start_batch s) in
    ground (
      arith,
      collect-Holds o pending s.in_flight (start_batch s) (λ j. ground arith) k,
      send_batch-in_flight o mint_batch b.inputs b.books,
      claimed-release_all k b.guards b.books.in_flight,
    )
