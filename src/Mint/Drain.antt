-- ===== src/Mint/Drain.antt =====
-- One tick of the mint outbox drain loop of src/main.rs: load, park what has expired, attempt the rest in
-- batches, remove what was confirmed. The batches that the loop runs concurrently are run one after
-- another, and the answers of the bridge and the fates of the commands are arguments.
pub mod Laws
use gridtokenx_aggregator_br.Base.{
  ℕ, zero, suc, ◌-◌, Bool, true, false, Option, none, some, List, [], ◌∷◌, ◌++◌, take, drop, length,
  if◌then◌else◌,
}
use gridtokenx_aggregator_br.Base.Int.{ℤ}
use gridtokenx_aggregator_br.Billing.Bin.{Text}
use gridtokenx_aggregator_br.Redis.{Fate, Status, ok, err, status, parse_redis_hash}
use gridtokenx_aggregator_br.Mint.Field.{PendingMint, field}
use gridtokenx_aggregator_br.Mint.Outbox.{load_all, park, remove_field, is_expired}
use gridtokenx_aggregator_br.Mint.Bridge.{Result, MintBatchItemResult, BatchMintInput}
use gridtokenx_aggregator_br.Mint.Attempt.{Outside, parked_expired}
use gridtokenx_aggregator_br.Mint.Attempt.Batch.{attempt_mint_batch}
use gridtokenx_aggregator_br.Mint.Settlement.{World, count}

-- The codecs, the clock and the settings of a tick. `fate` gives the fates of the two commands of the park
-- or the removal of a field.
pub record Tick : Type 0 where
  pub outside : Outside
  pub to_json : PendingMint → Option Text
  pub of_json : Text → Option PendingMint
  pub now_ms : ℤ
  pub max_age_secs : ℕ
  pub load_fate : Fate
  pub fate : Text → Fate × Fate
  pub permit : List PendingMint → Bool
  pub mint_batch : List BatchMintInput → Result (List MintBatchItemResult)

-- `slice::chunks`; as much fuel as there are elements is enough for a positive size.
abbrev pub chunks {ℓ} : {A : Type ℓ} → ℕ → ℕ → List A → List (List A)
chunks zero size xs = []
chunks (suc fuel) size [] = []
chunks (suc fuel) size (x ∷ xs) = take size (x ∷ xs) ∷ chunks fuel size (drop size (x ∷ xs))

-- The default and the filter of `AGGREGATOR_MINT_BATCH_SIZE`.
abbrev pub batch_size : Option ℕ → ℕ
batch_size (some (suc n)) = suc n
batch_size _ = 15

module _ (t : Tick) where
  abbrev pub park_one : PendingMint → World → World
  park_one p w =
      let (first, second) = t.fate (field p) in
      let (h, s) = park t.to_json first second p w.hashes in
      let w' = record w { hashes = h } in elim s [ ok ↦ count parked_expired w' | err ↦ w' ]

  -- What is left to mint, and the hashes with the expired entries parked.
  unfoldable pub park_expired : List PendingMint → World → List PendingMint × World
  park_expired [] w = ([], w)
  park_expired (p ∷ pending) w =
      let expired = is_expired p t.now_ms t.max_age_secs in
      let (to_mint, w') = park_expired pending (if expired then park_one p w else w) in
      (if expired then to_mint else p ∷ to_mint, w')

  unfoldable pub remove_fields : List Text → World → World
  remove_fields [] w = w
  remove_fields (f ∷ fields) w =
      let (first, second) = t.fate f in
      remove_fields fields (record w { hashes = (remove_field first second f w.hashes).0 })

  -- One spawned task. A closed semaphore ends it.
  abbrev pub attempt_batch : List PendingMint → World → List Text × World
  attempt_batch batch w =
      let (confirmed, books) = attempt_mint_batch t.outside t.mint_batch batch w.books in
      if t.permit batch
      then (confirmed, remove_fields confirmed (record w { books = books }))
      else ([], w)

  -- The tasks in turn, with the fields that they confirmed.
  unfoldable pub attempt_batches : List (List PendingMint) → World → List Text × World
  attempt_batches [] w = ([], w)
  attempt_batches (batch ∷ batches) w =
      let (confirmed, w') = attempt_batch batch w in
      let (more, w'') = attempt_batches batches w' in (confirmed ++ more, w'')

  unfoldable pub drain_tick : Option ℕ → World → List Text × World
  drain_tick size_setting w = elim (load_all t.load_fate t.of_json w.hashes) [
    | none ↦ ([], w)
    | some pending ↦
        let (to_mint, w') = park_expired pending w in
        attempt_batches (chunks (length to_mint) (batch_size size_setting) to_mint) w'
  ]
