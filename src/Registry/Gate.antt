-- ===== src/Registry/Gate.antt =====
-- The registry behind the settlement gate (src/main.rs): when the surplus of a meter is given up as unattributed.
use gridtokenx_aggregator_br.Base.{suc, ◌+◌, ◌<◌, ◌≡◌, true, false, arith}
use gridtokenx_aggregator_br.Billing.Bin.{Text}
use gridtokenx_aggregator_br.Mint.Attempt.{absent, skipped_unattributed_meter}
use gridtokenx_aggregator_br.Mint.Settlement.{Services, World, owner_known, count}
use gridtokenx_aggregator_br.Registry.{
  MeterRegistry, RegistrySettings, Visit, resolve_user_id, owner_in_source_of_truth,
}
use gridtokenx_aggregator_br.Registry.Missed.{resolve_user_id-Marked, resolve_user_id-live}

-- The services of the settlement loop with the owner lookups of a registry.
abbrev pub with_registry : RegistrySettings → Visit → MeterRegistry → Services → Services
with_registry v m r s = record s {
  resolve_user_id = λ serial. (resolve_user_id v m serial r).0;
  owner_in_source_of_truth = owner_in_source_of_truth v m.tables;
}

module _ (v : RegistrySettings) (m : Visit) (serial : Text) (r : MeterRegistry) (s : Services)
    (w : World) where
  -- On the metering database, where the owners are read from the read model: the gate gives a meter up only if the table
  -- `meters` has no owner for it, whatever the registry has cached.
  pub owner_known-absent :
      v.pg ≡ true
      → v.use_read_model ≡ true
      → (owner_known (with_registry v m r s) serial w).0 ≡ false
      → m.tables.meters serial ≡ absent
  unfolding owner_known owner_in_source_of_truth
  owner_known-absent pg read_model given_up = ground arith

  -- On the shared database, after a read that asked the backends and found no owner, and before the marker's time to
  -- live is over: the gate gives the meter up, and counts it as unattributed, whatever the tables then say.
  pub owner_known-within_ttl :
      (early : Visit)
      → v.use_read_model ≡ false
      → (resolve_user_id v m serial r).0 ≡ absent
      → (resolve_user_id v m serial r).1.misses ≡ suc r.misses
      → early.now < m.now + v.neg_cache_ttl
      → owner_known (with_registry v early (resolve_user_id v m serial r).1 s) serial w
        ≡ (false, count skipped_unattributed_meter w)
  unfolding owner_known owner_in_source_of_truth
  owner_known-within_ttl early shared h asked live =
      let (local, marked) = resolve_user_id-Marked v m serial r h asked in
      let r' = (resolve_user_id v m serial r).1 in
      ground
        (arith, resolve_user_id-live v serial r' early (m.now + v.neg_cache_ttl) local marked live)
