-- ===== src/Mint/Field.antt =====
-- The identity of a mint, as text: `PendingMint::field` (crates/aggregator-logic/src/mint_outbox.rs), the
-- idempotency key (crates/aggregator-persistence/src/infra/mint.rs), and `parse_mint_field`
-- (crates/aggregator-logic/src/mint_settlement.rs). Texts are their bytes.
use gridtokenx_aggregator_br.Base.{◌≡◌, Option, some, ◌∷◌, ◌++◌}
use gridtokenx_aggregator_br.Base.Int.{ℤ}
use gridtokenx_aggregator_br.Base.Text.{codes}
use gridtokenx_aggregator_br.Base.Print.{to_string, parse_i64, rsplit_once, strip_prefix, bind}
use gridtokenx_aggregator_br.Base.Print.RoundTrip.{
  IsI64, parse_i64-to_string, rsplit_once-to_string, strip_prefix-append,
}
use gridtokenx_aggregator_br.Billing.Bin.{Uuid, Text, F64, unwrap_or}

pub record PendingMint : Type 0 where
  pub meter_serial : Text
  pub meter_id : Uuid
  pub window_start_ms : ℤ
  pub energy_kwh : F64
  pub enqueued_at_ms : ℤ

-- `"{serial}:{window_start_ms}"`.
unfoldable pub serial_window : Text → ℤ → Text
serial_window serial window = serial ++ (b':' ∷ to_string window)

abbrev pub field : PendingMint → Text
field p = serial_window p.meter_serial p.window_start_ms

unfoldable pub mint_idempotency_key : Text → ℤ → Text
unfolding serial_window
mint_idempotency_key meter_serial window_start_ms =
    codes "mint:" ++ (meter_serial ++ (b':' ∷ to_string window_start_ms))

-- The `strip_prefix("mint:").unwrap_or(..)` that `classify_batch_results` and `parse_mint_field` share.
abbrev pub field_of_key : Text → Text
field_of_key key = unwrap_or (strip_prefix (codes "mint:") key) key

pub parse_mint_field : Text → Option (Text × ℤ)
parse_mint_field idempotency_key =
    bind (rsplit_once b':' (field_of_key idempotency_key))
      (λ parts. bind (parse_i64 parts.1) (λ window. some (parts.0, window)))

pub field_of_key-mint_idempotency_key :
    (serial : Text) (window : ℤ)
    → field_of_key (mint_idempotency_key serial window) ≡ serial_window serial window
unfolding mint_idempotency_key serial_window
field_of_key-mint_idempotency_key serial window =
    rw (strip_prefix-append (codes "mint:") (serial ++ (b':' ∷ to_string window)))

-- The serial and the window of a mint are recovered from its idempotency key, whatever bytes the
-- serial holds, colons included, and for every window in the range of `i64`.
pub parse_mint_field-mint_idempotency_key :
    (serial : Text) (window : ℤ)
    → IsI64 window
    → parse_mint_field (mint_idempotency_key serial window) ≡ some (serial, window)
unfolding parse_mint_field serial_window
parse_mint_field-mint_idempotency_key serial window h = rw (
  field_of_key-mint_idempotency_key serial window,
  rsplit_once-to_string serial window,
  parse_i64-to_string window h,
)
