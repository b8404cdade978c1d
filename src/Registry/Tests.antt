-- ===== src/Registry/Tests.antt =====
-- Runs of the owner registry: a lost reply of Redis, a registration, a miss and what comes after it.
use gridtokenx_aggregator_br.Base.{
  suc, ◌≡◌, refl, true, false, none, some, [], ◌∷◌, arith, Bool, list_eq, nat_eq, ◌==◌,
  if◌then◌else◌,
}
use gridtokenx_aggregator_br.Base.Blank.{is_blank}
use gridtokenx_aggregator_br.Base.Dict.{lookup}
use gridtokenx_aggregator_br.Base.Text.{codes}
use gridtokenx_aggregator_br.Billing.Bin.{Uuid, Text}
use gridtokenx_aggregator_br.Mint.Attempt.{Lookup, skipped_unattributed_meter}
use gridtokenx_aggregator_br.Mint.Settlement.{owner_known, count}
use gridtokenx_aggregator_br.Mint.Tests.{services, world}
use gridtokenx_aggregator_br.Redis.{applied, reply_lost}
use gridtokenx_aggregator_br.Registry.{
  MeterRegistry, new, RegistrySettings, Tables, Visit, resolve_user_id, fetch_owner_from_db,
}
use gridtokenx_aggregator_br.Registry.Gate.{with_registry, owner_known-within_ttl}
use gridtokenx_aggregator_br.Registry.Owned.{
  Reported, resolving_user, registering, redis_becomes, run,
}
use gridtokenx_aggregator_br.Registry.Owned.Runs.{resolve_user_id-Reported}

-- A uuid is printed as its one byte.
abbrev one_byte : Text → Uuid
one_byte [] = 0
one_byte (c ∷ s) = c

abbrev shared_db : RegistrySettings
shared_db = record {
  pg = true;
  use_read_model = false;
  neg_cache_ttl = 30;
  parse_str = λ s. some (one_byte s);
  uuid_to_string = λ user. user ∷ [];
}

abbrev no_rows : Tables
no_rows = record {
  meter_owner_read_model = λ serial. Lookup.absent;
  meters_join_users = λ serial. Lookup.absent;
  meters = λ serial. Lookup.absent;
}

-- Each meter belongs to user 7.
abbrev rows : Tables
rows = record {
  meter_owner_read_model = λ serial. Lookup.found (7, some (codes "wallet"));
  meters_join_users = λ serial. Lookup.found (7, none);
  meters = λ serial. Lookup.found 7;
}

abbrev visit : Visit
visit = record {
  now = 100;
  redis_answers = true;
  set_user = applied;
  set_wallet = reply_lost;
  tables = no_rows;
}

abbrev both_written : Visit
both_written = record visit { set_wallet = applied }

abbrev later : Visit
later = record visit { now = 120; tables = rows }

abbrev much_later : Visit
much_later = record visit { now = 130; tables = rows }

abbrev mtr_7 : Text
mtr_7 = codes "mtr-7"

abbrev registry : MeterRegistry
registry = new (some [])

-- Spaces, a tab and U+2003 are white space; a letter is not.
blank_text : is_blank (32 ∷ 9 ∷ 226 ∷ 128 ∷ 131 ∷ []) ≡ true
unfolding gridtokenx_aggregator_br.Base.Blank.blank
blank_text = refl

solid_text : is_blank (32 ∷ 226 ∷ 128 ∷ 97 ∷ []) ≡ false
unfolding gridtokenx_aggregator_br.Base.Blank.blank
solid_text = refl

abbrev OwnedBySeven : Uuid → Text → Type 0
OwnedBySeven user _ = user ≡ 7

resolve_user_id-Reported_example :
    let r =
      run shared_db
        (registering visit mtr_7 7 none ∷ redis_becomes [] ∷ resolving_user later (codes "m") ∷ [])
        registry in
    Reported shared_db OwnedBySeven mtr_7 r.redis (resolve_user_id shared_db later mtr_7 r).0
unfolding lookup fetch_owner_from_db
resolve_user_id-Reported_example =
    resolve_user_id-Reported shared_db OwnedBySeven (λ user. refl) (some [])
      (registering visit mtr_7 7 none ∷ redis_becomes [] ∷ resolving_user later (codes "m") ∷ [])
      later mtr_7 (λ s. tt) (refl, ((λ s. tt), ((λ s. refl), tt))) (λ s. refl)

owner_known-within_ttl_example :
    owner_known
      (with_registry shared_db later (resolve_user_id shared_db visit mtr_7 registry).1 services)
      mtr_7
      world
    ≡ (false, count skipped_unattributed_meter world)
unfolding resolve_user_id lookup
owner_known-within_ttl_example =
    owner_known-within_ttl shared_db visit mtr_7 registry services world later refl refl refl
      (omega arith)
