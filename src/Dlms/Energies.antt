-- ===== src/Dlms/Energies.antt =====
-- Which energies a payload gives, whatever the order of its entries (`map_payload` of
-- crates/aggregator-stacks/src/stacks/dlms.rs).
use gridtokenx_aggregator_br.Base.{
  ◌≡◌, refl, sym, ap, ap₂, ◌∙◌, subst, true, false, Bool-cases, Option-cases, Option, none, some,
  [], ◌∷◌, inl, inr, All, ◌==◌, nat_eq, list_eq, arith,
}
use gridtokenx_aggregator_br.Base.Dict.{Dict, lookup}
use gridtokenx_aggregator_br.Base.Text.{codes}
use gridtokenx_aggregator_br.Billing.Bin.{Text, F64, f64_zero}
use gridtokenx_aggregator_br.Stream.Readings.{Value}
use gridtokenx_aggregator_br.Dlms.{
  DlmsCrates, Mapping, unmapped, arm_of, elec_active_import_total, elec_active_export_total,
  gas_volume_total, water_volume_total, number_or_zero, map_entry, map_entries, map_payload,
  plain_or,
}

-- No key comes twice.
abbrev pub Distinct : Dict Text Value → Type 0
Distinct [] = Unit
Distinct ((key, v) ∷ payload) = (lookup key payload ≡ none) × Distinct payload

abbrev pub written : {A : Type 0} → (Value → A) → A → Option Value → A
written write rest none = rest
written write rest (some v) = write v

abbrev pub NoVolume : Text → Type 0
NoVolume key = ((key == gas_volume_total) ≡ false) × ((key == water_volume_total) ≡ false)

NoVolume-absent :
    (payload : Dict Text Value)
    → lookup gas_volume_total payload ≡ none
    → lookup water_volume_total payload ≡ none
    → All (λ e. NoVolume e.0) payload
unfolding lookup
NoVolume-absent [] gas water = tt
NoVolume-absent ((key, v) ∷ payload) gas water =
    ((ground arith, ground arith), NoVolume-absent payload (ground arith) (ground arith))

module _ (o : DlmsCrates) where
  abbrev pub kwh_as_wh : Option F64 → F64
  kwh_as_wh none = f64_zero
  kwh_as_wh (some kwh) = o.mul_thousand kwh

  -- What the register gives, or else the plain key.
  abbrev pub register_or_plain : Option Value → Option Value → F64
  register_or_plain register plain =
      written (number_or_zero o) (written (λ v. kwh_as_wh (o.as_f64 v)) f64_zero plain) register

  plain_or-written :
      (register plain : Option Value)
      → plain_or o
          (written (λ v. true) false register)
          (written o.as_f64 none plain)
          (written (number_or_zero o) f64_zero register)
        ≡ register_or_plain register plain
  plain_or-written (some v) plain = refl
  plain_or-written none none = refl
  plain_or-written none (some v) = elim (Option-cases (o.as_f64 v)) [
    | inl q ↦ rw q refl
    | inr (kwh, q) ↦ rw q refl
  ]

  module _ {A : Type 0} (get : Mapping → A) (code : Text) (write : Value → A)
      (here : (v : Value) (m : Mapping) → get (map_entry o code v m) ≡ write v)
      (elsewhere : (key : Text) (v : Value) (m : Mapping)
        → (key == code) ≡ false
        → NoVolume key
        → get (map_entry o key v m) ≡ get m) where
    -- A variable that only one key writes holds what that key wrote.
    get-map_entries :
        (payload : Dict Text Value) (m : Mapping)
        → Distinct payload
        → All (λ e. NoVolume e.0) payload
        → get (map_entries o payload m) ≡ written write (get m) (lookup code payload)
    unfolding map_entries lookup
    get-map_entries [] m d h = refl
    get-map_entries ((key, v) ∷ payload) m d h =
        let rest = get-map_entries payload (map_entry o key v m) d.1 h.1 in
        elim (Bool-cases (key == code)) [
          | inl same ↦
              let is_code = (list_eq.same_iff key code).0 same in
              let gone : lookup code payload ≡ none =
                subst (λ x. lookup x payload ≡ none) is_code d.0 in
              let wrote : get (map_entry o key v m) ≡ write v =
                subst (λ x. get (map_entry o x v m) ≡ write v) (sym is_code) (here v m) in
              rw same (rest ∙ (ap (written write (get (map_entry o key v m))) gone ∙ wrote))
          | inr other ↦
              rw other (
                rest
                ∙ ap (λ x. written write x (lookup code payload)) (elsewhere key v m other h.0))
        ]

  module _ (payload : Dict Text Value) (d : Distinct payload)
      (gas : lookup gas_volume_total payload ≡ none)
      (water : lookup water_volume_total payload ≡ none) where
    no_volume : All (λ e. NoVolume e.0) payload
    no_volume = NoVolume-absent payload gas water

    last_generated_wh :
        (map_entries o payload unmapped).generated_wh
        ≡ written (number_or_zero o) f64_zero (lookup elec_active_export_total payload)
    unfolding map_entry arm_of
    last_generated_wh =
        get-map_entries (λ m. m.generated_wh) elec_active_export_total (number_or_zero o)
          (λ v m. refl) (λ key v m other q. ground arith) payload unmapped d no_volume

    last_obis_generated :
        (map_entries o payload unmapped).obis_generated
        ≡ written (λ v. true) false (lookup elec_active_export_total payload)
    unfolding map_entry arm_of
    last_obis_generated =
        get-map_entries (λ m. m.obis_generated) elec_active_export_total (λ v. true) (λ v m. refl)
          (λ key v m other q. ground arith) payload unmapped d no_volume

    last_plain_generated_kwh :
        (map_entries o payload unmapped).plain_generated_kwh
        ≡ written o.as_f64 none (lookup (codes "energy_generated") payload)
    unfolding map_entry arm_of
    last_plain_generated_kwh =
        get-map_entries (λ m. m.plain_generated_kwh) (codes "energy_generated") o.as_f64
          (λ v m. refl) (λ key v m other q. ground arith) payload unmapped d no_volume

    last_consumed_wh :
        (map_entries o payload unmapped).consumed_wh
        ≡ written (number_or_zero o) f64_zero (lookup elec_active_import_total payload)
    unfolding map_entry arm_of
    last_consumed_wh =
        get-map_entries (λ m. m.consumed_wh) elec_active_import_total (number_or_zero o)
          (λ v m. refl) (λ key v m other q. ground arith) payload unmapped d no_volume

    last_obis_consumed :
        (map_entries o payload unmapped).obis_consumed
        ≡ written (λ v. true) false (lookup elec_active_import_total payload)
    unfolding map_entry arm_of
    last_obis_consumed =
        get-map_entries (λ m. m.obis_consumed) elec_active_import_total (λ v. true) (λ v m. refl)
          (λ key v m other q. ground arith) payload unmapped d no_volume

    last_plain_consumed_kwh :
        (map_entries o payload unmapped).plain_consumed_kwh
        ≡ written o.as_f64 none (lookup (codes "energy_consumed") payload)
    unfolding map_entry arm_of
    last_plain_consumed_kwh =
        get-map_entries (λ m. m.plain_consumed_kwh) (codes "energy_consumed") o.as_f64 (λ v m. refl)
          (λ key v m other q. ground arith) payload unmapped d no_volume

    -- For a payload with no key twice and no gas or water volume: each energy is a thousandth of its register, a register
    -- that is not a number counting 0; without the register it is a thousandth of a thousand times the plain key, and
    -- without either 0. The order of the entries is of no account.
    pub map_payload-register_or_plain : (map_payload o payload).0 ≡ (
      o.div_thousand (
          register_or_plain
            (lookup elec_active_export_total payload)
            (lookup (codes "energy_generated") payload)),
      o.div_thousand (
          register_or_plain
            (lookup elec_active_import_total payload)
            (lookup (codes "energy_consumed") payload)),
    )
    unfolding map_payload
    map_payload-register_or_plain =
        rw
          (
            last_generated_wh, last_obis_generated, last_plain_generated_kwh, last_consumed_wh,
            last_obis_consumed, last_plain_consumed_kwh,
          )
          (ap₂ (λ x y. (o.div_thousand x, o.div_thousand y))
            (plain_or-written (lookup elec_active_export_total payload)
              (lookup (codes "energy_generated") payload))
            (plain_or-written (lookup elec_active_import_total payload)
              (lookup (codes "energy_consumed") payload)))
