-- ===== src/Auth/Tests.antt =====
-- Runs of the API-key middleware with one static key that IAM first authorises and later rejects.
use gridtokenx_aggregator_br.Base.{
  ◌≡◌, refl, true, false, none, some, [], ◌∷◌, arith, nat_eq, list_eq,
}
use gridtokenx_aggregator_br.Base.Dict.{lookup, insert, remove}
use gridtokenx_aggregator_br.Base.Text.{codes}
use gridtokenx_aggregator_br.Billing.Bin.{Text}
use gridtokenx_aggregator_br.Auth.{
  AuthSettings, AuthRequest, run_request, rejected, api_key_auth, cache_after, cache_lookup,
  verdict, cache_store,
}
use gridtokenx_aggregator_br.Auth.Recent.{GrantedBy, api_key_auth-GrantedBy}

abbrev settings : AuthSettings
settings = record {
  positive_ttl = 60;
  negative_ttl = 10;
  api_keys = codes "k1" ∷ [];
  identity_client = true;
}

abbrev good : AuthRequest
good = record { now = 100; api_key = some (codes "k1"); breaker = none; reply = some true }

-- Answered from the cache although IAM would reject it by now.
abbrev cached : AuthRequest
cached = record good { now = 130; reply = some false }

abbrev refused : AuthRequest
refused = record good { now = 161; reply = some false }

-- IAM is down, so the static keys would be tried.
abbrev soon_after : AuthRequest
soon_after = record good { now = 165; breaker = some false; reply = none }

runs_from_cache : (api_key_auth settings cached (cache_after settings (good ∷ []))).0 ≡ run_request
unfolding api_key_auth cache_store lookup insert
runs_from_cache = refl

missed : (cache_lookup 161 (codes "k1") (cache_after settings (cached ∷ good ∷ []))).0 ≡ none
unfolding api_key_auth cache_lookup cache_store lookup insert remove
missed = refl

rejects : verdict settings refused ≡ rejected
unfolding verdict
rejects = refl

api_key_auth-GrantedBy_example :
    (key : Text) × (some (codes "k1") ≡ some key) × GrantedBy settings (cached ∷ good ∷ []) 130 key
api_key_auth-GrantedBy_example =
    api_key_auth-GrantedBy settings (good ∷ []) cached (omega arith) runs_from_cache
