-- ===== src/Registry/Keys.antt =====
-- The Redis keys of the registry (crates/aggregator-persistence/src/infra/meter_registry.rs): two serials have two
-- keys, and an owner's key is no wallet's key.
use gridtokenx_aggregator_br.Base.{
  ℕ, ◌≡◌, ◌≢◌, refl, ap, [], ◌∷◌, ◌++◌, drop, list_eq, nat_eq, arith,
}
use mathlib.Core.List.{append_cancel_left, append_cancel_right}
use gridtokenx_aggregator_br.Base.Text.{codes}
use gridtokenx_aggregator_br.Billing.Bin.{Text}
use gridtokenx_aggregator_br.Registry.{user_key, wallet_key}

pub user_key-injective : (a b : Text) → user_key a ≡ user_key b → a ≡ b
unfolding user_key
user_key-injective a b h = append_cancel_right a b (codes ":user_id") (
    append_cancel_left (codes "gridtokenx:meters:") (a ++ codes ":user_id") (b ++ codes ":user_id")
      h)

abbrev last_byte : ℕ → Text → ℕ
last_byte d [] = d
last_byte d (c ∷ s) = last_byte c s

last_byte-append :
    (d : ℕ) (s back : Text) (c : ℕ) → last_byte d (s ++ (c ∷ back)) ≡ last_byte c back
last_byte-append d [] back c = refl
last_byte-append d (e ∷ s) back c = last_byte-append e s back c

pub wallet_key-ne-user_key : (a b : Text) → wallet_key a ≢ user_key b
unfolding user_key wallet_key
wallet_key-ne-user_key a b h =
    let same = ap (λ s. last_byte 0 (drop 18 s)) h in
    let wallet = last_byte-append 0 a (drop 1 (codes ":wallet")) 58 in
    let user = last_byte-append 0 b (drop 1 (codes ":user_id")) 58 in
    ground (arith, same, wallet, user)
