-- ===== src/Mint/Bridge.antt =====
-- The messages of the mint bridge (crates/aggregator-persistence/src/infra/mint.rs). Base58, the registry
-- and the round-trip to Chain Bridge are answers given from outside.
use gridtokenx_aggregator_br.Base.{
  ℕ, Bool, true, false, Option, none, some, List, length, ◌==◌, nat_eq,
}
use gridtokenx_aggregator_br.Base.Int.{ℤ}
use gridtokenx_aggregator_br.Base.Text.{codes}
use gridtokenx_aggregator_br.Billing.Bin.{Uuid, Text, F64, unwrap_or}

-- The `anyhow` errors of the bridge, by what `mint_failure_reason` tells apart: a chain that holds the
-- marker `MintReplyTimeout`, and every other one, with its message.
pub data MintError : Type 0 where
  mint_reply_timeout : MintError
  anyhow : Text → MintError

pub data Result (A : Type 0) : Type 0 where
  ok : A → Result A
  err : MintError → Result A

pub record MintOutcome : Type 0 where
  pub signature : Text
  pub slot : ℕ

pub record MintEnergyResultMessage : Type 0 where
  pub success : Bool
  pub signature : Option Text
  pub error : Option Text
  pub slot : ℕ

pub record MintBatchItemResult : Type 0 where
  pub index : ℕ
  pub idempotency_key : Text
  pub success : Bool
  pub signature : Option Text
  pub slot : ℕ
  pub error : Option Text

pub record BatchMintInput : Type 0 where
  pub recipient_wallet : Text
  pub energy_kwh : F64
  pub meter_id : Uuid
  pub meter_serial : Text
  pub window_start_ms : ℤ

unfoldable pub parse_mint_result : MintEnergyResultMessage → Result MintOutcome
parse_mint_result result = elim result.success [
  | true ↦ elim result.signature [
    | some signature ↦ ok (record { signature = signature; slot = result.slot })
    | none ↦ err (anyhow (codes "mint succeeded without signature"))
  ]
  | false ↦ err (anyhow (unwrap_or result.error (codes "mint failed")))
]

-- `bs58::decode` is `decode`.
abbrev pub wallet_is_valid : (Text → Option (List ℕ)) → Text → Bool
wallet_is_valid decode wallet = elim (decode wallet) [ some b ↦ length b == 32 | none ↦ false ]

pub data MintGateway : Type 0 where
  nats disabled : MintGateway

abbrev pub is_enabled : MintGateway → Bool
is_enabled nats = true
is_enabled disabled = false

-- What a call of the gateway gives, when `reply` is what the round-trip over NATS gives.
abbrev pub call {ℓ} : {A : Type 0} {I : Type ℓ} → MintGateway → (I → Result A) → I → Result A
call nats reply input = reply input
call disabled reply input = err (anyhow (codes "mint backend not configured"))
