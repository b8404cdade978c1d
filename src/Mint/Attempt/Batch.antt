-- ===== src/Mint/Attempt/Batch.antt =====
-- `attempt_mint_batch` and its helpers (crates/aggregator-logic/src/mint_settlement.rs): many entries
-- in one round-trip, with the claims held until the reply is in.
use gridtokenx_aggregator_br.Base.{
  ℕ, zero, suc, ◌+◌, ◌-◌, Bool, true, false, not, Option, none, some, List, [], ◌∷◌, ◌++◌, leb,
  length, if◌then◌else◌, ◌==◌, nat_eq, inl, inr,
}
use gridtokenx_aggregator_br.Billing.Bin.{Text}
use gridtokenx_aggregator_br.Mint.Field.{PendingMint, field, field_of_key, parse_mint_field}
use gridtokenx_aggregator_br.Mint.Bridge.{
  Result, ok, err, MintBatchItemResult, BatchMintInput, call,
}
use gridtokenx_aggregator_br.Mint.Attempt.{
  Books, Outcome, Outside, try_begin, release, recipient, mint_input, publish, count_outcome,
  mint_failure_reason, mark_minted, settled_ok, failed_mint_err, skipped_in_flight,
  skipped_invalid_wallet, skipped_no_wallet, skipped_resolve_err,
}

pub record BatchClassification : Type 0 where
  pub confirmed_fields : List Text
  pub confirmed : ℕ
  pub failed : ℕ

abbrev pub classify_as : Bool → Text → BatchClassification → BatchClassification
classify_as true f c = record c { confirmed_fields = c.confirmed_fields ++ (f ∷ []) }
classify_as false f c = record c { failed = c.failed + 1 }

abbrev pub classify_one : BatchClassification → MintBatchItemResult → BatchClassification
classify_one c r = classify_as r.success (field_of_key r.idempotency_key) c

abbrev pub classify_loop : List MintBatchItemResult → BatchClassification → BatchClassification
classify_loop [] c = c
classify_loop (r ∷ results) c = classify_loop results (classify_one c r)

unfoldable pub classify_batch_results : List MintBatchItemResult → BatchClassification
classify_batch_results results =
    let c = classify_loop results (record { confirmed_fields = []; confirmed = 0; failed = 0 }) in
    record c { confirmed = length c.confirmed_fields }

pub record DeferralTally : Type 0 where
  pub in_flight : ℕ
  pub no_wallet : ℕ
  pub invalid_wallet : ℕ
  pub resolve_err : ℕ
  pub sample_serial : Option Text

abbrev pub total : DeferralTally → ℕ
total t = t.in_flight + t.no_wallet + t.invalid_wallet + t.resolve_err

abbrev pub note : Text → DeferralTally → DeferralTally
note serial t = elim t.sample_serial [
  | none ↦ record t { sample_serial = some serial }
  | some sample ↦ t
]

abbrev pub tally : Outcome → DeferralTally → DeferralTally
tally skipped_in_flight t = record t { in_flight = t.in_flight + 1 }
tally skipped_no_wallet t = record t { no_wallet = t.no_wallet + 1 }
tally skipped_invalid_wallet t = record t { invalid_wallet = t.invalid_wallet + 1 }
tally skipped_resolve_err t = record t { resolve_err = t.resolve_err + 1 }
tally o t = t

-- Instants and intervals are nanoseconds of the monotonic clock.
unfoldable pub throttle_elapsed : Option ℕ → ℕ → ℕ → Bool
throttle_elapsed none now interval = true
throttle_elapsed (some t) now interval = if interval == 0 then true else leb interval (now - t)

abbrev pub defer_log_due : Option ℕ → ℕ → ℕ → Bool × Option ℕ
defer_log_due last now interval =
    if throttle_elapsed last now interval then (true, some now) else (false, last)

-- The loop's locals: what is collected, with the claims it holds.
pub record Batch : Type 0 where
  pub inputs : List BatchMintInput
  pub guards : List Text
  pub deferred : DeferralTally
  pub books : Books

abbrev pub defer : Outcome → Text → Batch → Batch
defer why serial b = record b {
  deferred = note serial (tally why b.deferred);
  books = count_outcome why b.books;
}

unfoldable pub admit : Outside → PendingMint → Batch → Batch
admit o p b = elim (try_begin (field p) b.books.in_flight) [
  | none ↦ defer skipped_in_flight p.meter_serial b
  | some set ↦ elim (recipient o p.meter_serial) [
    | inr why ↦
        -- The guard drops at `continue`.
        let b' = defer why p.meter_serial b in
        record b' { books = record b'.books { in_flight = release (field p) set } }
    | inl wallet ↦ record b {
      inputs = b.inputs ++ (mint_input wallet p ∷ []);
      guards = b.guards ++ (field p ∷ []);
      books = record b.books { in_flight = set };
    }
  ]
]

unfoldable pub collect : Outside → List PendingMint → Batch → Batch
collect o [] b = b
collect o (p ∷ pending) b = collect o pending (admit o p b)

abbrev pub repeat_outcome : ℕ → Outcome → Books → Books
repeat_outcome zero o s = s
repeat_outcome (suc n) o s = repeat_outcome n o (count_outcome o s)

abbrev pub write_back_one : Bool → MintBatchItemResult → Books → Books
write_back_one writeback r s = if not r.success then s else elim r.signature [
  | none ↦ s
  | some sig ↦ elim (parse_mint_field r.idempotency_key) [
    | none ↦ s
    | some (serial, window) ↦
        mark_minted writeback
          (record { serial = serial; window_start_ms = window; signature = sig; slot = r.slot }) s
  ]
]

abbrev pub write_back_confirmed : Bool → List MintBatchItemResult → Books → Books
write_back_confirmed writeback [] s = s
write_back_confirmed writeback (r ∷ results) s =
    write_back_confirmed writeback results (write_back_one writeback r s)

abbrev pub release_all : List Text → List Text → List Text
release_all [] set = set
release_all (g ∷ guards) set = release_all guards (release g set)

-- After `gw.mint_batch` has answered.
abbrev pub settle_reply : Bool → ℕ → Result (List MintBatchItemResult) → Books → List Text × Books
settle_reply writeback n (ok results) s =
    let c = classify_batch_results results in
    let s' = repeat_outcome c.failed failed_mint_err (repeat_outcome c.confirmed settled_ok s) in
    (c.confirmed_fields, write_back_confirmed writeback results s')
settle_reply writeback n (err e) s = ([], repeat_outcome n (mint_failure_reason e) s)

abbrev pub start_batch : Books → Batch
start_batch s = record {
  inputs = [];
  guards = [];
  deferred = record {
    in_flight = 0;
    no_wallet = 0;
    invalid_wallet = 0;
    resolve_err = 0;
    sample_serial = none;
  };
  books = s;
}

-- `mint_batch` is the round-trip of the batch. An empty batch is not sent.
abbrev pub send_batch :
    Outside
    → (List BatchMintInput → Result (List MintBatchItemResult))
    → List BatchMintInput
    → Books
    → List Text × Books
send_batch o mint_batch [] s = ([], s)
send_batch o mint_batch (input ∷ more) s =
    let inputs = input ∷ more in
    settle_reply o.writeback (length inputs) (call o.gateway mint_batch inputs)
      (publish o.gateway inputs s)

-- The guards drop at the return, early or not.
unfoldable pub attempt_mint_batch :
    Outside
    → (List BatchMintInput → Result (List MintBatchItemResult))
    → List PendingMint
    → Books
    → List Text × Books
attempt_mint_batch o mint_batch pending s =
    let b = collect o pending (start_batch s) in
    let (fields, s') = send_batch o mint_batch b.inputs b.books in
    (fields, record s' { in_flight = release_all b.guards s'.in_flight })
