-- ===== src/Router/Zoning.antt =====
-- Which zone a reading is routed to (crates/aggregator-logic/src/router.rs).
use gridtokenx_aggregator_br.Base.{
  ℕ, ◌^◌, ◌≤◌, ◌<◌, ◌≡◌, ◌≢◌, refl, true, false, Option, none, some, [], ◌∷◌, ◌++◌, ltb, All, inl,
  inr, Option-cases, arith,
}
use gridtokenx_aggregator_br.Base.Print.{digits, value, is_digit}
use gridtokenx_aggregator_br.Base.Print.RoundTrip.{
  value-digits, Digits, digits-Digits, digits-ne-nil,
}
use gridtokenx_aggregator_br.Billing.Bin.{Text}
use gridtokenx_aggregator_br.Router.{suffix_of, parse_usize, named_zone, zone_index}

abbrev pub NoDigits : Text → Type 0
NoDigits = All (λ c. is_digit c ≡ false)

suffix_of-append :
    (front back : Text)
    → NoDigits front
    → Digits back
    → back ≢ []
    → suffix_of (front ++ back) ≡ back
unfolding suffix_of
suffix_of-append [] [] free ds ne = absurd (ne refl)
suffix_of-append [] (c ∷ back) free ds ne = ground arith
suffix_of-append (c ∷ front) back free ds ne = rw free.0 (suffix_of-append front back free.1 ds ne)

parse_usize-digits : (n : ℕ) → n < 2 ^ 64 → parse_usize (digits 20 n) ≡ some n
unfolding parse_usize
parse_usize-digits n h = parsed (digits 20 n) (digits-ne-nil 19 n) (value-digits 19 n (omega arith))
  where
    parsed : (s : Text) → s ≢ [] → value 0 s ≡ some n → parse_usize s ≡ some n
    parsed [] ne v = absurd (ne refl)
    parsed (c ∷ s) ne v = rw (v, parse_usize) (ground arith)

module _ (hash : Text → ℕ) where
  named_zone-lt :
      (num_zones : ℕ) (zcode : Text) (idx : ℕ)
      → named_zone hash num_zones zcode ≡ some idx
      → idx < num_zones
  unfolding named_zone
  named_zone-lt num_zones zcode idx h = ground arith

  -- With at least one zone, and no more than a `usize` counts: the index lies below their number; and a zone code that
  -- is some text without digits, followed by the number of a zone, is routed to that zone, whichever the meter.
  pub zone_index_bounds :
      (num_zones : ℕ) (zone : Option Text) (serial front : Text) (idx : ℕ)
      → 0 < num_zones
      → num_zones ≤ 2 ^ 64
      → NoDigits front
      → idx < num_zones
      → (zone_index hash num_zones zone serial < num_zones)
        × (zone_index hash num_zones (some (front ++ digits 20 idx)) serial ≡ idx)
  unfolding zone_index named_zone
  zone_index_bounds num_zones zone serial front idx some_zone fits free below =
      (in_range zone, named)
    where
      in_range : (z : Option Text) → zone_index hash num_zones z serial < num_zones
      in_range none = grind arith
      in_range (some zcode) = elim (Option-cases (named_zone hash num_zones zcode)) [
        | inl unnamed ↦ rw (unnamed, zone_index) (grind arith)
        | inr (i, named) ↦ rw (named, zone_index) (named_zone-lt num_zones zcode i named)
      ]

      named : zone_index hash num_zones (some (front ++ digits 20 idx)) serial ≡ idx
      named =
          let suffix =
            suffix_of-append front (digits 20 idx) free (digits-Digits 20 idx)
              (digits-ne-nil 19 idx) in
          let parsed = parse_usize-digits idx (omega arith) in
          let inside : ltb idx num_zones ≡ true = ground arith in
          rw (suffix, parsed, inside, zone_index, named_zone) refl
