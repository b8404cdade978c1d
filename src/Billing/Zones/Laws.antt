-- ===== src/Billing/Zones/Laws.antt =====
-- Zones are kept apart (crates/aggregator-logic/src/zone_balance.rs).
use gridtokenx_aggregator_br.Base.{
  ℕ, ◌+◌, ◌≡◌, refl, ap, ◌∙◌, true, false, Option, none, some, List, [], ◌∷◌, arith, if◌then◌else◌,
  ◌==◌, nat_eq, option_eq, length, Bool-cases, inl, inr,
}
use gridtokenx_aggregator_br.Billing.Bin.{BillingBin}
use gridtokenx_aggregator_br.Billing.Float.{FloatOps}
use gridtokenx_aggregator_br.Billing.Zones.{
  Zone, ZoneBalance, zone_lt, empty_zone, add_bin, add_to_zone, balances_from, zone_balances,
}

abbrev pub find_zone : Zone → List ZoneBalance → Option ZoneBalance
find_zone w [] = none
find_zone w (z ∷ zs) = if z.zone_code == w then some z else find_zone w zs

-- Strictly increasing zones, the first above `low`.
abbrev pub Above : Zone → List ZoneBalance → Type 0
Above low [] = Unit
Above low (z ∷ zs) = (zone_lt low z.zone_code ≡ true) × Above z.zone_code zs

abbrev pub Ordered : List ZoneBalance → Type 0
Ordered [] = Unit
Ordered (z ∷ zs) = Above z.zone_code zs

abbrev pub count_bins : List ZoneBalance → ℕ
count_bins [] = 0
count_bins (z ∷ zs) = z.bin_count + count_bins zs

zone_trichotomy : (a b : Zone) → (a == b) ≡ false → zone_lt a b ≡ false → zone_lt b a ≡ true
zone_trichotomy none none h k = cc
zone_trichotomy none (some b) h k = cc
zone_trichotomy (some a) none h k = refl
zone_trichotomy (some a) (some b) h k = ground arith

zone_lt_trans : (a b c : Zone) → zone_lt a b ≡ true → zone_lt b c ≡ true → zone_lt a c ≡ true
zone_lt_trans none none c h k = cc
zone_lt_trans none (some b) none h k = cc
zone_lt_trans none (some b) (some c) h k = refl
zone_lt_trans (some a) none c h k = cc
zone_lt_trans (some a) (some b) none h k = cc
zone_lt_trans (some a) (some b) (some c) h k = ground arith

zone_lt_irrefl : (a : Zone) → zone_lt a a ≡ false
zone_lt_irrefl none = refl
zone_lt_irrefl (some a) = ground arith

-- Nothing at or below `low` is found above it.
find_zone_apart :
    (low w : Zone) (zs : List ZoneBalance)
    → Above low zs
    → zone_lt low w ≡ false
    → find_zone w zs ≡ none
find_zone_apart low w [] h k = refl
find_zone_apart low w (z ∷ zs) h k = elim (Bool-cases (zone_lt z.zone_code w)) [
  | inl below ↦ cc (zone_lt_trans low z.zone_code w h.0 below)
  | inr not_below ↦ ground (
    arith,
    find_zone_apart z.zone_code w zs h.1 not_below,
    option_eq.same_iff z.zone_code w,
    ap (zone_lt low) {x = z.zone_code} {y = w},
  )
]

Ordered-Above : (low : Zone) (zs : List ZoneBalance) → Above low zs → Ordered zs
Ordered-Above low [] h = tt
Ordered-Above low (z ∷ zs) h = h.1

module _ (ops : FloatOps) where
  abbrev or_empty : Zone → Option ZoneBalance → ZoneBalance
  or_empty w none = empty_zone ops w
  or_empty w (some zb) = zb

  -- The balance of one zone by the bins of that zone alone, in their order.
  abbrev pub balance_of : Zone → List BillingBin → Option ZoneBalance → Option ZoneBalance
  balance_of w [] o = o
  balance_of w (bin ∷ bins) o =
      balance_of w bins (if bin.zone_code == w then some (add_bin ops bin (or_empty w o)) else o)

  find-add_to_zone :
      (w : Zone) (bin : BillingBin) (zs : List ZoneBalance)
      → Ordered zs
      → find_zone w (add_to_zone ops bin zs) ≡ (
          if bin.zone_code == w
          then some (add_bin ops bin (or_empty w (find_zone w zs)))
          else find_zone w zs)
  unfolding add_to_zone add_bin empty_zone
  find-add_to_zone w bin [] h =
      ground
        (arith, option_eq.same_iff bin.zone_code w, ap (empty_zone ops) {x = bin.zone_code} {y = w})
  find-add_to_zone w bin (z ∷ zs) h = ground (
    arith,
    find-add_to_zone w bin zs (Ordered-Above z.zone_code zs h),
    option_eq.same_iff bin.zone_code w,
    option_eq.same_iff bin.zone_code z.zone_code,
    option_eq.same_iff z.zone_code w,
    ap (empty_zone ops) {x = bin.zone_code} {y = w},
    λ (lt : zone_lt bin.zone_code z.zone_code ≡ true).
        find_zone_apart bin.zone_code bin.zone_code (z ∷ zs) (lt, h) (zone_lt_irrefl bin.zone_code),
    ap (λ c. find_zone c (z ∷ zs)) {x = bin.zone_code} {y = w},
  )

  Above-add_to_zone :
      (low : Zone) (bin : BillingBin) (zs : List ZoneBalance)
      → zone_lt low bin.zone_code ≡ true
      → Above low zs
      → Above low (add_to_zone ops bin zs)
  unfolding add_to_zone add_bin empty_zone
  Above-add_to_zone low bin [] h a = (h, tt)
  Above-add_to_zone low bin (z ∷ zs) h a =
      ground
        (arith, Above-add_to_zone z.zone_code bin zs, zone_trichotomy bin.zone_code z.zone_code)

  Ordered-add_to_zone :
      (bin : BillingBin) (zs : List ZoneBalance) → Ordered zs → Ordered (add_to_zone ops bin zs)
  unfolding add_to_zone add_bin empty_zone
  Ordered-add_to_zone bin [] h = tt
  Ordered-add_to_zone bin (z ∷ zs) h =
      ground
        (arith, Above-add_to_zone z.zone_code bin zs, zone_trichotomy bin.zone_code z.zone_code)

  count-add_to_zone :
      (bin : BillingBin) (zs : List ZoneBalance)
      → count_bins (add_to_zone ops bin zs) ≡ count_bins zs + 1
  unfolding add_to_zone add_bin empty_zone
  count-add_to_zone bin [] = omega arith
  count-add_to_zone bin (z ∷ zs) = ground (arith, count-add_to_zone bin zs)

  balances_from_lem :
      (bins : List BillingBin) (zs : List ZoneBalance)
      → Ordered zs
      → Ordered (balances_from ops bins zs)
        × (count_bins (balances_from ops bins zs) ≡ count_bins zs + length bins)
        × ((w : Zone)
            → find_zone w (balances_from ops bins zs) ≡ balance_of w bins (find_zone w zs))
  unfolding balances_from
  balances_from_lem [] zs h = (h, omega arith, λ w. refl)
  balances_from_lem (bin ∷ bins) zs h =
      let rest = balances_from_lem bins (add_to_zone ops bin zs) (Ordered-add_to_zone bin zs h) in
      (
        rest.0,
        omega (arith, rest.1, count-add_to_zone bin zs),
        λ w. rest.2 w ∙ ap (balance_of w bins) (find-add_to_zone w bin zs h),
      )

  -- The balances stand in strictly increasing order of zone, so each zone stands once; every bin is
  -- counted in exactly one of them; and the balance of a zone, the missing zone included, is that of
  -- its own bins, added in their order, and missing if the zone has no bin.
  pub zone_balances_lem :
      (bins : List BillingBin)
      → Ordered (zone_balances ops bins)
        × (count_bins (zone_balances ops bins) ≡ length bins)
        × ((w : Zone) → find_zone w (zone_balances ops bins) ≡ balance_of w bins none)
  unfolding zone_balances
  zone_balances_lem bins =
      let all = balances_from_lem bins [] tt in (all.0, omega (arith, all.1), all.2)
