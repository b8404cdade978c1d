-- ===== src/Dlms/Tests.antt =====
-- Runs of the DLMS mapping: a payload with registers, and one whose consumed energy depends on the order of its entries.
use gridtokenx_aggregator_br.Base.{◌≡◌, ◌*◌, ◌/◌, ◌-◌, refl, none, [], ◌∷◌}
use gridtokenx_aggregator_br.Base.Dict.{Dict, lookup}
use gridtokenx_aggregator_br.Base.Print.{digits, value}
use gridtokenx_aggregator_br.Base.Text.{codes}
use gridtokenx_aggregator_br.Billing.Bin.{Text}
use gridtokenx_aggregator_br.Stream.Readings.{Value}
use gridtokenx_aggregator_br.Dlms.{
  DlmsCrates, arm_of, elec_active_import_total, gas_volume_total, map_payload,
}
use gridtokenx_aggregator_br.Dlms.Energies.{map_payload-register_or_plain}

abbrev pub dlms_crates : DlmsCrates
dlms_crates = record {
  as_f64 = λ v. value 0 v;
  as_str = λ v. none;
  as_u64_text = λ v. none;
  from_f64 = λ x. digits 20 x;
  from_str = λ s. s;
  mul_thousand = λ x. x * 1000;
  div_thousand = λ x. x / 1000;
  sub = λ x y. x - y;
  from_slice = λ raw. none;
  parse_from_rfc3339 = λ s. none;
}

abbrev registers_and_plain : Dict Text Value
registers_and_plain =
    (codes "energy_consumed", codes "77")
    ∷ (elec_active_import_total, codes "10000")
    ∷ (codes "energy_generated", codes "4")
    ∷ []

abbrev import_then_gas : Dict Text Value
import_then_gas = (elec_active_import_total, codes "10000") ∷ (gas_volume_total, codes "3000") ∷ []

abbrev gas_then_import : Dict Text Value
gas_then_import = (gas_volume_total, codes "3000") ∷ (elec_active_import_total, codes "10000") ∷ []

-- The later of an import register and a gas volume wins.
gas_wins : (map_payload dlms_crates import_then_gas).0 ≡ (0, 3)
unfolding map_payload arm_of value
gas_wins = refl

import_wins : (map_payload dlms_crates gas_then_import).0 ≡ (0, 10)
unfolding map_payload arm_of value
import_wins = refl

map_payload-register_or_plain_example : (map_payload dlms_crates registers_and_plain).0 ≡ (4, 10)
unfolding lookup value
map_payload-register_or_plain_example =
    map_payload-register_or_plain dlms_crates registers_and_plain (refl, (refl, (refl, tt))) refl
      refl
