-- ===== src/Billing/Float.antt =====
-- The `f64` operations that the program calls, as a parameter: an `f64` is its 64 bits, and no law of
-- IEEE arithmetic is assumed.
use gridtokenx_aggregator_br.Base.{Bool, Option}
use gridtokenx_aggregator_br.Billing.Bin.{F64, Decimal}

pub record FloatOps : Type 0 where
  -- `Decimal::to_f64`
  pub to_f64 : Decimal → Option F64
  pub add : F64 → F64 → F64
  pub mul : F64 → F64 → F64
  pub div : F64 → F64 → F64
  pub sub : F64 → F64 → F64
  pub abs : F64 → F64
  pub lt : F64 → F64 → Bool
