-- ===== src/Mint/Attempt.antt =====
-- `attempt_mint` and `MintInFlight` of crates/aggregator-logic/src/mint_settlement.rs. What the attempt
-- changes is one record: the claimed keys, the counted outcomes, the mints published and the rows marked.
pub mod Batch
pub mod Laws
pub mod BatchLaws
pub mod Confirmed
use gridtokenx_aggregator_br.Base.{
  ℕ, ◌⊎◌, inl, inr, Bool, true, false, not, Option, none, some, List, [], ◌∷◌, ◌++◌, keep, any,
  if◌then◌else◌, ◌==◌, nat_eq, list_eq,
}
use gridtokenx_aggregator_br.Base.Int.{ℤ}
use gridtokenx_aggregator_br.Billing.Bin.{Text, F64}
use gridtokenx_aggregator_br.Mint.Field.{PendingMint, field}
use gridtokenx_aggregator_br.Mint.Bridge.{
  Result, ok, err, MintError, mint_reply_timeout, anyhow, MintOutcome, BatchMintInput, MintGateway,
  nats, disabled, call, wallet_is_valid,
}

-- The set of `MintInFlight`, without repetition.
abbrev pub claimed : Text → List Text → Bool
claimed k set = any (λ j. j == k) set

abbrev pub try_begin : Text → List Text → Option (List Text)
try_begin k set = if claimed k set then none else some (k ∷ set)

-- The drop of a `MintInFlightGuard`.
abbrev pub release : Text → List Text → List Text
release k set = keep (λ j. not (j == k)) set

-- The labels of `record_mint_outcome`.
pub data Outcome : Type 0 where
  skipped_in_flight skipped_invalid_wallet skipped_no_wallet skipped_resolve_err : Outcome
  settled_ok failed_reply_timeout failed_mint_err : Outcome
  queued_ok queued_readmodel_stale skipped_unattributed_meter no_surplus_ok : Outcome
  lost_outbox_and_mint_failed parked_expired : Outcome

abbrev pub mint_failure_reason : MintError → Outcome
mint_failure_reason mint_reply_timeout = failed_reply_timeout
mint_failure_reason (anyhow e) = failed_mint_err

-- A call of `mark_minted`.
pub record Marked : Type 0 where
  pub serial : Text
  pub window_start_ms : ℤ
  pub signature : Text
  pub slot : ℕ

pub record Books : Type 0 where
  pub in_flight : List Text
  pub outcomes : List Outcome
  pub published : List BatchMintInput
  pub marked : List Marked

-- The answer of `resolve_wallet`.
pub data Lookup (A : Type 0) : Type 0 where
  found : A → Lookup A
  absent : Lookup A
  failed : Lookup A

-- What stands outside: the registry, the Base58 decoder, the gateway with its round-trip, and whether
-- there is a database to mark the rows in.
pub record Outside : Type 0 where
  pub resolve_wallet : Text → Lookup Text
  pub decode : Text → Option (List ℕ)
  pub gateway : MintGateway
  pub mint : BatchMintInput → Result MintOutcome
  pub writeback : Bool

abbrev pub count_outcome : Outcome → Books → Books
count_outcome o s = record s { outcomes = o ∷ s.outcomes }

abbrev pub mark_minted : Bool → Marked → Books → Books
mark_minted writeback m s = if writeback then record s { marked = m ∷ s.marked } else s

-- The wallet that the registry gives, or why there is none to mint to.
abbrev pub recipient : Outside → Text → Text ⊎ Outcome
recipient o serial = elim (o.resolve_wallet serial) [
  | found w ↦ if wallet_is_valid o.decode w then inl w else inr skipped_invalid_wallet
  | absent ↦ inr skipped_no_wallet
  | failed ↦ inr skipped_resolve_err
]

abbrev pub mint_input : Text → PendingMint → BatchMintInput
mint_input wallet p = record {
  recipient_wallet = wallet;
  energy_kwh = p.energy_kwh;
  meter_id = p.meter_id;
  meter_serial = p.meter_serial;
  window_start_ms = p.window_start_ms;
}

abbrev pub publish : MintGateway → List BatchMintInput → Books → Books
publish nats inputs s = record s { published = inputs ++ s.published }
publish disabled inputs s = s

-- After `gw.mint` has answered.
abbrev pub record_reply : Outside → PendingMint → Result MintOutcome → Books → Bool × Books
record_reply o p (ok out) s = (
  true,
  mark_minted o.writeback
      (record {
        serial = p.meter_serial;
        window_start_ms = p.window_start_ms;
        signature = out.signature;
        slot = out.slot;
      })
      (count_outcome settled_ok s),
)
record_reply o p (err e) s = (false, count_outcome (mint_failure_reason e) s)

-- The attempt, with the key of the entry claimed.
abbrev pub attempt_claimed : Outside → PendingMint → Books → Bool × Books
attempt_claimed o p s = elim (recipient o p.meter_serial) [
  | inr why ↦ (false, count_outcome why s)
  | inl wallet ↦
      let input = mint_input wallet p in
      record_reply o p (call o.gateway o.mint input) (publish o.gateway (input ∷ []) s)
]

unfoldable pub attempt_mint : Outside → PendingMint → Books → Bool × Books
attempt_mint o p s = elim (try_begin (field p) s.in_flight) [
  | none ↦ (false, count_outcome skipped_in_flight s)
  | some set ↦
      let (confirmed, s') = attempt_claimed o p (record s { in_flight = set }) in
      (confirmed, record s' { in_flight = release (field p) s'.in_flight })
]
