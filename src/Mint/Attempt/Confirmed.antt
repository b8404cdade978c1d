-- ===== src/Mint/Attempt/Confirmed.antt =====
-- Which outbox fields a batch of attempts reports as confirmed
-- (crates/aggregator-logic/src/mint_settlement.rs).
use gridtokenx_aggregator_br.Base.{
  subst, length, ◌⊎◌, list_eq, nat_eq, ◌≡◌, refl, sym, ℕ, Bool, true, false, List, [], ◌∷◌, ◌++◌,
  map, All, In, arith, inl, inr, Bool-cases,
}
use gridtokenx_aggregator_br.Base.Members.{All-append, All-intro}
use gridtokenx_aggregator_br.Billing.Bin.{Text}
use gridtokenx_aggregator_br.Mint.Field.{
  PendingMint, field, serial_window, mint_idempotency_key, field_of_key,
  field_of_key-mint_idempotency_key,
}
use gridtokenx_aggregator_br.Mint.Bridge.{
  Result, ok, err, MintBatchItemResult, BatchMintInput, MintGateway, nats, disabled, call,
}
use gridtokenx_aggregator_br.Mint.Attempt.{
  Books, Outside, Outcome, publish, claimed, recipient, mint_input,
}
use gridtokenx_aggregator_br.Mint.Attempt.Batch.{
  Batch, BatchClassification, admit, collect, start_batch, classify_one, classify_as, classify_loop,
  classify_batch_results, settle_reply, send_batch, attempt_mint_batch,
}

-- The idempotency key that Chain Bridge is sent for an input.
abbrev pub input_key : BatchMintInput → Text
input_key i = mint_idempotency_key i.meter_serial i.window_start_ms

-- What the bridge documents: each result carries the key of one of the items it was sent.
abbrev pub AnswersInputs : (List BatchMintInput → Result (List MintBatchItemResult)) → Type 0
AnswersInputs mint_batch =
    (inputs : List BatchMintInput) (results : List MintBatchItemResult)
    → mint_batch inputs ≡ ok results
    → All (λ r. In r.idempotency_key (map input_key inputs)) results

admit-inputs :
    (o : Outside) (p : PendingMint) (b : Batch) (r : Text ⊎ Outcome)
    → recipient o p.meter_serial ≡ r
    → ((admit o p b).inputs ≡ b.inputs)
      ⊎ ((w : Text) × ((admit o p b).inputs ≡ b.inputs ++ (mint_input w p ∷ [])))
unfolding admit
admit-inputs o p b (inr why) e = inl (ground arith)
admit-inputs o p b (inl w) e = elim (Bool-cases (claimed (field p) b.books.in_flight)) [
  | inl taken ↦ inl (ground arith)
  | inr free ↦ inr (w, ground arith)
]

module _ (fields : List Text) where
  abbrev Known : Text → Type 0
  Known f = In f fields

  abbrev KnownInput : BatchMintInput → Type 0
  KnownInput i = Known (serial_window i.meter_serial i.window_start_ms)

  admit-Known :
      (o : Outside) (p : PendingMint) (b : Batch)
      → Known (field p)
      → All KnownInput b.inputs
      → All KnownInput (admit o p b).inputs
  unfolding admit
  admit-Known o p b k h = elim (admit-inputs o p b (recipient o p.meter_serial) refl) [
    | inl same ↦ subst (λ is. All KnownInput is) (sym same) h
    | inr (w, grown) ↦
        subst (λ is. All KnownInput is) (sym grown)
          (All-append KnownInput b.inputs (mint_input w p ∷ []) h (k, tt))
  ]

  classify_as-Known :
      (success : Bool) (f : Text) (c : BatchClassification)
      → Known f
      → All Known c.confirmed_fields
      → All Known (classify_as success f c).confirmed_fields
  classify_as-Known true f c k h = All-append Known c.confirmed_fields (f ∷ []) h (k, tt)
  classify_as-Known false f c k h = h

  collect-Known :
      (o : Outside) (pending : List PendingMint) (b : Batch)
      → All (λ p. Known (field p)) pending
      → All KnownInput b.inputs
      → All KnownInput (collect o pending b).inputs
  unfolding collect
  collect-Known o [] b k h = h
  collect-Known o (p ∷ pending) b (kp, k) h =
      collect-Known o pending (admit o p b) k (admit-Known o p b kp h)

  key-Known :
      (inputs : List BatchMintInput) (key : Text)
      → All KnownInput inputs
      → In key (map input_key inputs)
      → Known (field_of_key key)
  key-Known [] key h k = elim k [ ]
  key-Known (i ∷ inputs) key (k, h) (inl e) =
      subst (λ x. Known (field_of_key x)) e
        (rw (field_of_key-mint_idempotency_key i.meter_serial i.window_start_ms) k)
  key-Known (i ∷ inputs) key (k, h) (inr later) = key-Known inputs key h later

  results-Known :
      (inputs : List BatchMintInput) (results : List MintBatchItemResult)
      → All KnownInput inputs
      → All (λ r. In r.idempotency_key (map input_key inputs)) results
      → All (λ r. Known (field_of_key r.idempotency_key)) results
  results-Known inputs [] k h = tt
  results-Known inputs (r ∷ results) k (kr, h) =
      (key-Known inputs r.idempotency_key k kr, results-Known inputs results k h)

  classify-Known :
      (results : List MintBatchItemResult) (c : BatchClassification)
      → All (λ r. Known (field_of_key r.idempotency_key)) results
      → All Known c.confirmed_fields
      → All Known (classify_loop results c).confirmed_fields
  classify-Known [] c k h = h
  classify-Known (r ∷ results) c (kr, k) h =
      classify-Known results (classify_one c r) k
        (classify_as-Known r.success (field_of_key r.idempotency_key) c kr h)

  settle_reply-Known :
      (w : Bool) (n : ℕ) (inputs : List BatchMintInput) (reply : Result (List MintBatchItemResult))
      (s : Books)
      → All KnownInput inputs
      → ((results : List MintBatchItemResult)
          → reply ≡ ok results
          → All (λ r. In r.idempotency_key (map input_key inputs)) results)
      → All Known (settle_reply w n reply s).0
  unfolding classify_batch_results
  settle_reply-Known w n inputs (ok results) s k h =
      classify-Known results (record { confirmed_fields = []; confirmed = 0; failed = 0 })
        (results-Known inputs results k (h results refl)) tt
  settle_reply-Known w n inputs (err e) s k h = tt

  call-answers :
      (g : MintGateway) (mint_batch : List BatchMintInput → Result (List MintBatchItemResult))
      (inputs : List BatchMintInput)
      → AnswersInputs mint_batch
      → (results : List MintBatchItemResult) → call g mint_batch inputs ≡ ok results
      → All (λ r. In r.idempotency_key (map input_key inputs)) results
  call-answers nats mint_batch inputs h results e = h inputs results e
  call-answers disabled mint_batch inputs h results e = absurd (ground arith)

  send_batch-Known :
      (o : Outside) (mint_batch : List BatchMintInput → Result (List MintBatchItemResult))
      (inputs : List BatchMintInput) (s : Books)
      → AnswersInputs mint_batch
      → All KnownInput inputs
      → All Known (send_batch o mint_batch inputs s).0
  send_batch-Known o mint_batch [] s h k = tt
  send_batch-Known o mint_batch (input ∷ more) s h k =
      let inputs = input ∷ more in
      settle_reply-Known o.writeback (length inputs) inputs (call o.gateway mint_batch inputs)
        (publish o.gateway inputs s) k (call-answers o.gateway mint_batch inputs h)

own_fields :
    (pending : List PendingMint) (fields : List Text)
    → All (λ f. In f fields) (map field pending)
    → All (λ p. In (field p) fields) pending
own_fields [] fields h = tt
own_fields (p ∷ pending) fields (k, h) = (k, own_fields pending fields h)

-- A batch of attempts confirms only outbox fields of entries that it was given, so the drain loop
-- never removes another entry, when each result of the bridge carries the key of an item it was sent.
pub confirmed_fields_known :
    (o : Outside) (mint_batch : List BatchMintInput → Result (List MintBatchItemResult))
    (pending : List PendingMint) (s : Books)
    → AnswersInputs mint_batch
    → All (λ f. In f (map field pending)) (attempt_mint_batch o mint_batch pending s).0
unfolding attempt_mint_batch
confirmed_fields_known o mint_batch pending s h =
    let fields = map field pending in
    let b = collect o pending (start_batch s) in
    send_batch-Known fields o mint_batch b.inputs b.books h (
      collect-Known fields o pending (start_batch s)
        (own_fields pending fields (All-intro (λ x. In x fields) fields (λ x k. k))) tt)
