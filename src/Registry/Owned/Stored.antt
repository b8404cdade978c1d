-- ===== src/Registry/Owned/Stored.antt =====
-- What the registry writes to Redis keeps its owner entries true
-- (crates/aggregator-persistence/src/infra/meter_registry.rs).
use gridtokenx_aggregator_br.Base.{
  ◌≡◌, inl, inr, sym, subst, Bool, true, false, Option, none, some, Bool-cases, ◌==◌, nat_eq,
  list_eq, arith,
}
use gridtokenx_aggregator_br.Base.Dict.{Dict, lookup, insert, lookup-insert}
use gridtokenx_aggregator_br.Billing.Bin.{Uuid, Text}
use gridtokenx_aggregator_br.Mint.Attempt.{found}
use gridtokenx_aggregator_br.Redis.{Fate, applied, refused, reply_lost, Status, ok, err, status}
use gridtokenx_aggregator_br.Registry.{
  RegistrySettings, Visit, user_key, wallet_key, set, backfill_redis, parsed_user, redis_user,
  reply, register_redis, then_set_wallet,
}
use gridtokenx_aggregator_br.Registry.Keys.{user_key-injective, wallet_key-ne-user_key}
use gridtokenx_aggregator_br.Registry.Owned.{Trusted, StoredTrusted, RedisTrusted}

module _ (v : RegistrySettings) (Owns : Uuid → Text → Type 0)
    (round_trip : (user : Uuid) → v.parse_str (v.uuid_to_string user) ≡ some user) where
  pub parsed_user-uuid_to_string :
      (user : Uuid) → parsed_user v (found (v.uuid_to_string user)) ≡ found user
  parsed_user-uuid_to_string user = ground (arith, round_trip user)

  pub set_user-RedisTrusted :
      (fate : Fate) (serial : Text) (user : Uuid) (d : Dict Text Text)
      → Owns user serial
      → RedisTrusted v Owns (some d)
      → RedisTrusted v Owns (some (set fate (user_key serial) (v.uuid_to_string user) d))
  set_user-RedisTrusted fate serial user d owns h = by_fate fate
    where
      inserted : RedisTrusted v Owns (some (insert (user_key serial) (v.uuid_to_string user) d))
      inserted other =
          subst (StoredTrusted v Owns other)
            (sym (lookup-insert (user_key serial) (user_key other) (v.uuid_to_string user) d))
            (elim (Bool-cases (user_key serial == user_key other)) [
              | inl same ↦
                  let is_it =
                    user_key-injective serial other
                      ((list_eq.same_iff (user_key serial) (user_key other)).0 same) in
                  rw same (
                    subst (Trusted v Owns other) (sym (parsed_user-uuid_to_string user))
                      (subst (Owns user) is_it owns))
              | inr apart ↦ rw apart (h other)
            ])

      by_fate :
          (f : Fate)
          → RedisTrusted v Owns (some (set f (user_key serial) (v.uuid_to_string user) d))
      by_fate refused = h
      by_fate applied = inserted
      by_fate reply_lost = inserted

  pub set_wallet-RedisTrusted :
      (fate : Fate) (serial w : Text) (d : Dict Text Text)
      → RedisTrusted v Owns (some d)
      → RedisTrusted v Owns (some (set fate (wallet_key serial) w d))
  set_wallet-RedisTrusted fate serial w d h = by_fate fate
    where
      inserted : RedisTrusted v Owns (some (insert (wallet_key serial) w d))
      inserted other =
          subst (StoredTrusted v Owns other)
            (sym (lookup-insert (wallet_key serial) (user_key other) w d))
            (elim (Bool-cases (wallet_key serial == user_key other)) [
              | inl same ↦ absurd (
                  wallet_key-ne-user_key serial other
                    ((list_eq.same_iff (wallet_key serial) (user_key other)).0 same))
              | inr apart ↦ rw apart (h other)
            ])

      by_fate : (f : Fate) → RedisTrusted v Owns (some (set f (wallet_key serial) w d))
      by_fate refused = h
      by_fate applied = inserted
      by_fate reply_lost = inserted

  pub backfill_redis-RedisTrusted :
      (m : Visit) (serial : Text) (user : Uuid) (wallet : Option Text)
      (redis : Option (Dict Text Text))
      → Owns user serial
      → RedisTrusted v Owns redis
      → RedisTrusted v Owns (backfill_redis v m serial user wallet redis)
  backfill_redis-RedisTrusted m serial user wallet none owns h = tt
  backfill_redis-RedisTrusted m serial user none (some d) owns h =
      set_user-RedisTrusted m.set_user serial user d owns h
  backfill_redis-RedisTrusted m serial user (some w) (some d) owns h =
      set_wallet-RedisTrusted m.set_wallet serial w
        (set m.set_user (user_key serial) (v.uuid_to_string user) d)
        (set_user-RedisTrusted m.set_user serial user d owns h)

  pub then_set_wallet-RedisTrusted :
      (s : Status) (m : Visit) (serial w : Text) (d : Dict Text Text)
      → RedisTrusted v Owns (some d)
      → RedisTrusted v Owns (then_set_wallet v s m serial w d).1
  then_set_wallet-RedisTrusted err m serial w d h = h
  then_set_wallet-RedisTrusted ok m serial w d h = set_wallet-RedisTrusted m.set_wallet serial w d h

  pub register_redis-RedisTrusted :
      (m : Visit) (serial : Text) (user : Uuid) (wallet : Option Text)
      (redis : Option (Dict Text Text))
      → Owns user serial
      → RedisTrusted v Owns redis
      → RedisTrusted v Owns (register_redis v m serial user wallet redis).1
  register_redis-RedisTrusted m serial user wallet none owns h = tt
  register_redis-RedisTrusted m serial user none (some d) owns h =
      set_user-RedisTrusted m.set_user serial user d owns h
  register_redis-RedisTrusted m serial user (some w) (some d) owns h =
      then_set_wallet-RedisTrusted (status m.set_user) m serial w
        (set m.set_user (user_key serial) (v.uuid_to_string user) d)
        (set_user-RedisTrusted m.set_user serial user d owns h)

  pub reply-Trusted :
      (serial : Text) (answers : Bool) (stored : Option Text)
      → StoredTrusted v Owns serial stored
      → Trusted v Owns serial (parsed_user v (reply v answers stored))
  reply-Trusted serial false stored h = tt
  reply-Trusted serial true none h = tt
  reply-Trusted serial true (some s) h = h

  pub redis_user-Trusted :
      (m : Visit) (serial : Text) (redis : Option (Dict Text Text))
      → RedisTrusted v Owns redis
      → Trusted v Owns serial (redis_user v m serial redis)
  unfolding redis_user
  redis_user-Trusted m serial none h = tt
  redis_user-Trusted m serial (some d) h =
      reply-Trusted serial m.redis_answers (lookup (user_key serial) d) (h serial)
