-- ===== src/Billing/Sink/Laws.antt =====
-- The direction of a window's energy, and the mint decision (crates/aggregator-logic/src/billing_sink.rs).
use gridtokenx_aggregator_br.Base.{
  ◌≡◌, ◌≢◌, ◌↔◌, ◌⊎◌, inl, inr, Bool, true, false, Option, none, some, arith,
}
use gridtokenx_aggregator_br.Base.Int.{ℤ, ◌-ℤ◌, ◌≤ℤ◌, -ℤ_parts, eq_of_parts, ltb_ℤ, pos}
use gridtokenx_aggregator_br.Billing.Bin.{
  F64, Decimal, BillingBin, net_surplus_kwh, net_deficit_kwh,
}
use gridtokenx_aggregator_br.Billing.Sink.{surplus, plan_mint}

-- A conversion that yields a number for every decimal, as `Decimal::to_f64` documents.
abbrev pub Converts : (Decimal → Option F64) → Type 0
Converts to_f64 = (d : Decimal) → to_f64 d ≢ none

-- The window exported, imported, or came out even; each direction shows on one of the two functions.
pub data Direction (to_f64 : Decimal → Option F64) (bin : BillingBin) : Type 0 where
  exported :
      ¬ (bin.energy_generated ≤ℤ bin.energy_consumed)
      → net_surplus_kwh to_f64 bin ≡ to_f64 (bin.energy_generated -ℤ bin.energy_consumed)
      → net_surplus_kwh to_f64 bin ≢ none
      → net_deficit_kwh to_f64 bin ≡ none
      → Direction to_f64 bin
  imported :
      ¬ (bin.energy_consumed ≤ℤ bin.energy_generated)
      → net_deficit_kwh to_f64 bin ≡ to_f64 (bin.energy_consumed -ℤ bin.energy_generated)
      → net_deficit_kwh to_f64 bin ≢ none
      → net_surplus_kwh to_f64 bin ≡ none
      → Direction to_f64 bin
  even :
      bin.energy_generated ≡ bin.energy_consumed
      → net_surplus_kwh to_f64 bin ≡ none
      → net_deficit_kwh to_f64 bin ≡ none
      → Direction to_f64 bin

-- The test of both functions, by the sign of the difference.
below_difference :
    (a b : ℤ)
    → ((ltb_ℤ (pos 0) (a -ℤ b) ≡ true) × (ltb_ℤ (pos 0) (b -ℤ a) ≡ false) × ¬ (a ≤ℤ b))
      ⊎ ((ltb_ℤ (pos 0) (a -ℤ b) ≡ false) × (ltb_ℤ (pos 0) (b -ℤ a) ≡ true) × ¬ (b ≤ℤ a))
      ⊎ ((ltb_ℤ (pos 0) (a -ℤ b) ≡ false) × (ltb_ℤ (pos 0) (b -ℤ a) ≡ false) × (a ≡ b))
below_difference a b = ground (arith, -ℤ_parts a b, -ℤ_parts b a, eq_of_parts a b)

-- Of every window exactly one holds: it exported, and only the surplus is reported, as the amount by
-- which generation exceeds consumption; it imported, and only the deficit is, as a positive amount; or
-- it came out even, and neither is. This rests on a conversion to `f64` that never fails.
pub bin-Direction :
    (to_f64 : Decimal → Option F64) (bin : BillingBin) → Converts to_f64 → Direction to_f64 bin
unfolding net_surplus_kwh net_deficit_kwh
bin-Direction to_f64 bin total = elim (below_difference bin.energy_generated bin.energy_consumed) [
  | inl (up, down, more) ↦ exported more (rw up) (rw up (total _)) (rw down)
  | inr (inl (down, up, less)) ↦ imported less (rw up) (rw up (total _)) (rw down)
  | inr (inr (down, up, same)) ↦ even same (rw down) (rw up)
]

-- A mint is planned for a window exactly when minting is enabled and the window exported, and then
-- for its surplus; with minting disabled nothing is, whatever the window holds.
pub plan_mint_iff :
    (to_f64 : Decimal → Option F64) (bin : BillingBin) (enabled : Bool) (kwh : F64)
    → Converts to_f64
    → (plan_mint to_f64 bin enabled ≡ surplus kwh) ↔ (
        (enabled ≡ true)
        × ¬ (bin.energy_generated ≤ℤ bin.energy_consumed)
        × (to_f64 (bin.energy_generated -ℤ bin.energy_consumed) ≡ some kwh))
unfolding plan_mint
plan_mint_iff to_f64 bin enabled kwh total = elim (bin-Direction to_f64 bin total) [
  | exported more is something only ↦ ground arith
  | imported less is something only ↦ ground arith
  | even same up down ↦ ground arith
]
