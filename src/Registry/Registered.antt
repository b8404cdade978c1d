-- ===== src/Registry/Registered.antt =====
-- A registration and the reads after it (crates/aggregator-persistence/src/infra/meter_registry.rs).
use gridtokenx_aggregator_br.Base.{◌≡◌, false, some, list_eq, nat_eq, arith}
use gridtokenx_aggregator_br.Base.Dict.{lookup, lookup-insert_same}
use gridtokenx_aggregator_br.Base.Blank.{is_blank}
use gridtokenx_aggregator_br.Billing.Bin.{Uuid, Text}
use gridtokenx_aggregator_br.Mint.Attempt.{found}
use gridtokenx_aggregator_br.Redis.{ok}
use gridtokenx_aggregator_br.Registry.{
  MeterRegistry, RegistrySettings, Visit, register_meter, resolve_user_id, resolve_wallet,
}

module _ (v : RegistrySettings) (m late : Visit) (serial w : Text) (user : Uuid)
    (r : MeterRegistry) where
  cached :
      (register_meter v m serial user (some w) r).0 ≡ ok
      → is_blank w ≡ false
      → (lookup serial (register_meter v m serial user (some w) r).1.local_cache ≡ some user)
        × (lookup serial (register_meter v m serial user (some w) r).1.wallet_cache ≡ some w)
  unfolding register_meter
  cached success solid = ground (
    arith,
    lookup-insert_same serial user r.local_cache,
    lookup-insert_same serial w r.wallet_cache,
  )

  -- After a registration that succeeds, with a wallet that is not blank, the next read of the owner and the next read
  -- of the wallet give what was registered, whatever the caches held before and whatever Redis and Postgres answer.
  pub resolve-register_meter :
      (register_meter v m serial user (some w) r).0 ≡ ok
      → is_blank w ≡ false
      → ((resolve_user_id v late serial (register_meter v m serial user (some w) r).1).0
          ≡ found user)
        × ((resolve_wallet v late serial (register_meter v m serial user (some w) r).1).0 ≡ found w)
  unfolding resolve_user_id resolve_wallet
  resolve-register_meter success solid =
      let (owner, wallet) = cached success solid in (ground arith, ground arith)
