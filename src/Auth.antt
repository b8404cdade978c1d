-- ===== src/Auth.antt =====
-- The API-key middleware of crates/aggregator-api/src/auth.rs: the policy after an IAM round-trip, the verdict cache
-- and `api_key_auth`. IAM's answer, what the circuit breaker allows and the clock come with each request, which
-- happens at one instant; the static keys and the two lifetimes are settings.
pub mod Recent
pub mod Rejected
pub mod Tests
use gridtokenx_aggregator_br.Base.{
  ℕ, ◌+◌, Bool, true, false, Option, none, some, List, [], ◌∷◌, ltb, any, keep, if◌then◌else◌, ◌==◌,
  nat_eq, list_eq,
}
use gridtokenx_aggregator_br.Base.Dict.{Dict, lookup, insert, remove}
use gridtokenx_aggregator_br.Billing.Bin.{Text}

pub data IamVerdict : Type 0 where
  authorized rejected unavailable : IamVerdict

pub data PostIam : Type 0 where
  allow deny try_static : PostIam

unfoldable pub post_iam_action : IamVerdict → PostIam
post_iam_action authorized = allow
post_iam_action rejected = deny
post_iam_action unavailable = try_static

unfoldable pub cache_verdict_for : PostIam → Option Bool
cache_verdict_for allow = some true
cache_verdict_for deny = some false
cache_verdict_for try_static = none

pub record CachedAuth : Type 0 where
  pub expires : ℕ
  pub valid : Bool

abbrev pub AuthCache : Type 0
AuthCache = Dict Text CachedAuth

unfoldable pub cache_lookup : ℕ → Text → AuthCache → Option Bool × AuthCache
cache_lookup now key cache = elim (lookup key cache) [
  | none ↦ (none, cache)
  | some e ↦ if ltb now e.expires then (some e.valid, cache) else (none, remove key cache)
]

-- What the deployment sets: the lifetimes, the static keys, and whether an IAM client is configured.
pub record AuthSettings : Type 0 where
  pub positive_ttl : ℕ
  pub negative_ttl : ℕ
  pub api_keys : List Text
  pub identity_client : Bool

-- The reply of `verify_api_key`, if there is one: its `valid` flag.
abbrev pub Reply : Type 0
Reply = Option Bool

-- What a request meets: the clock, whether a circuit breaker is configured and what it allows, and IAM's reply.
pub record AuthRequest : Type 0 where
  pub now : ℕ
  pub api_key : Option Text
  pub breaker : Option Bool
  pub reply : Reply

pub data AuthOutcome : Type 0 where
  run_request unauthorized : AuthOutcome

abbrev pub ttl_of : AuthSettings → Bool → ℕ
ttl_of s valid = if valid then s.positive_ttl else s.negative_ttl

unfoldable pub cache_store : AuthSettings → ℕ → Text → Bool → AuthCache → AuthCache
cache_store s now key valid cache =
    insert key (record { expires = now + ttl_of s valid; valid = valid })
      (keep (λ e. ltb now e.1.expires) cache)

abbrev pub reply_verdict : Reply → IamVerdict
reply_verdict (some true) = authorized
reply_verdict (some false) = rejected
reply_verdict none = unavailable

-- The breaker is asked first, then the client, if there is one.
unfoldable pub verdict : AuthSettings → AuthRequest → IamVerdict
verdict s r = elim r.breaker [
  | some false ↦ unavailable
  | some true ↦ if s.identity_client then reply_verdict r.reply else unavailable
  | none ↦ if s.identity_client then reply_verdict r.reply else unavailable
]

-- `record_success` (`some true`) or `record_failure` (`some false`) on the breaker.
abbrev pub breaker_report : AuthSettings → AuthRequest → Option Bool
breaker_report s r = elim r.breaker [
  | none ↦ none
  | some false ↦ none
  | some true ↦
      if s.identity_client
      then elim r.reply [ some valid ↦ some true | none ↦ some false ]
      else none
]

abbrev pub store_verdict : AuthSettings → ℕ → Text → Option Bool → AuthCache → AuthCache
store_verdict s now key none cache = cache
store_verdict s now key (some valid) cache = cache_store s now key valid cache

unfoldable pub static_fallback : AuthSettings → ℕ → Text → AuthCache → AuthOutcome × AuthCache
unfolding cache_store
static_fallback s now key cache =
    if any (λ k. k == key) s.api_keys
    then (run_request, cache_store s now key true cache)
    else (unauthorized, cache)

abbrev pub after_action : AuthSettings → ℕ → Text → PostIam → AuthCache → AuthOutcome × AuthCache
after_action s now key allow cache = (run_request, cache)
after_action s now key deny cache = (unauthorized, cache)
after_action s now key try_static cache = static_fallback s now key cache

-- From the IAM round-trip on.
unfoldable pub consult : AuthSettings → AuthRequest → Text → AuthCache → AuthOutcome × AuthCache
unfolding verdict post_iam_action cache_verdict_for cache_store static_fallback
consult s r key cache =
    let action = post_iam_action (verdict s r) in
    after_action s r.now key action (store_verdict s r.now key (cache_verdict_for action) cache)

abbrev pub on_lookup :
    AuthSettings → AuthRequest → Text → Option Bool × AuthCache → AuthOutcome × AuthCache
on_lookup s r key (some true, cache) = (run_request, cache)
on_lookup s r key (some false, cache) = (unauthorized, cache)
on_lookup s r key (none, cache) = consult s r key cache

abbrev pub with_key : AuthSettings → AuthRequest → Option Text → AuthCache → AuthOutcome × AuthCache
with_key s r none cache = (unauthorized, cache)
with_key s r (some key) cache = on_lookup s r key (cache_lookup r.now key cache)

unfoldable pub api_key_auth : AuthSettings → AuthRequest → AuthCache → AuthOutcome × AuthCache
unfolding cache_lookup consult
api_key_auth s r cache = with_key s r r.api_key cache

-- The cache after the requests, the last of which stands first; it is empty when the process starts.
abbrev pub cache_after : AuthSettings → List AuthRequest → AuthCache
cache_after s [] = []
cache_after s (r ∷ past) = (api_key_auth s r (cache_after s past)).1
