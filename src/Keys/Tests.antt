-- ===== src/Keys/Tests.antt =====
-- Runs of the key caches, the verifier and the replay counter.
use gridtokenx_aggregator_br.Base.{
  ℕ, ◌*◌, ◌≡◌, ◌≢◌, refl, true, none, some, List, [], ◌∷◌, ltb, if◌then◌else◌, ◌==◌, nat_eq,
  list_eq, arith,
}
use gridtokenx_aggregator_br.Base.Text.{codes}
use gridtokenx_aggregator_br.Base.Dict.{lookup, insert}
use gridtokenx_aggregator_br.Base.Int.{pos}
use gridtokenx_aggregator_br.Billing.Bin.{Text}
use gridtokenx_aggregator_br.Billing.Time.{second_ns}
use gridtokenx_aggregator_br.Redis.{applied, reply_lost}
use gridtokenx_aggregator_br.Keys.Cache.{
  ok, Ttl, Faults, Store, pubkey_ttl, prune, cache_get, cache_put, get_with_retry,
}
use gridtokenx_aggregator_br.Keys.Verifier.{
  Crates, pubkey_name, parse_ed25519_pubkey, keep_pubkey, resolve_pubkey,
  verify_telemetry_signature,
}
use gridtokenx_aggregator_br.Keys.Latency.{Signed}
use gridtokenx_aggregator_br.Keys.Latency.Runs.{Request, one, revocation_latency}
use gridtokenx_aggregator_br.Keys.Counter.{
  Doubles, check_and_bump_counter, bump_all, no_replay, fresh_counter_accepted,
}

-- A key is its text; a signature verifies under it if it begins with the key's first byte.
abbrev first : List ℕ → ℕ
first [] = 0
first (b ∷ bs) = b

abbrev crates : Crates (List ℕ)
crates = record {
  trim = λ s. s;
  hex_decode = λ s. none;
  from_bytes = λ bytes. some bytes;
  base58 = λ s. some s;
  verify = λ vk payload sig. first vk == first sig;
}

abbrev sixty_four : ℕ → List ℕ
sixty_four b = b ∷ codes "23456789abcdef0123456789abcdef0123456789abcdef0123456789abcdef0"

abbrev old_key : Text
old_key = codes "old_456789abcdef0123456789abcdef"

abbrev new_key : Text
new_key = codes "new_456789abcdef0123456789abcdef"

-- At 40 seconds the key of the meter is replaced.
abbrev past : ℕ → Store
past now name =
    if name == pubkey_name (codes "m1")
    then some (if ltb now (40 * second_ns) then old_key else new_key)
    else none

abbrev ttl : Ttl
ttl = pubkey_ttl none none

abbrev healthy : Faults
healthy = record { connects = true; replies = true; reconnects = true; replies_again = true }

-- A first reading at 10 seconds puts the old key into the cache.
abbrev requests : List (ℕ × Faults × Request crates ttl past)
requests = (10 * second_ns, healthy, one (codes "m1") (codes "reading") (sixty_four b'o')) ∷ []

-- 59 seconds later the old key still verifies, though Redis has another one by now.
abbrev later : ℕ
later = 69 * second_ns

revocation_latency_example :
    Signed crates ttl past later (codes "m1") (codes "reading") (sixty_four b'o')
unfolding verify_telemetry_signature resolve_pubkey keep_pubkey parse_ed25519_pubkey cache_get
    cache_put prune get_with_retry lookup insert
revocation_latency_example =
    revocation_latency crates ttl past requests later healthy (codes "m1") (codes "reading")
      (sixty_four b'o') (omega arith) refl

-- Small counters are exact as doubles.
abbrev pub doubles : Doubles
doubles = record { round = λ n. n; round_mono = λ a b h. h }

no_replay_example :
    (check_and_bump_counter doubles applied (codes "m1") (pos 7) (
      bump_all doubles
        ((applied, codes "m1", pos 9) ∷ [])
        (check_and_bump_counter doubles reply_lost (codes "m1") (pos 7) []).1)).0
    ≢ ok true
no_replay_example =
    no_replay doubles reply_lost applied (codes "m1") (pos 7) (pos 7)
      ((applied, codes "m1", pos 9) ∷ []) [] refl (omega arith)

fresh_counter_example :
    (check_and_bump_counter doubles applied (codes "m1") (pos 8) (
      bump_all doubles ((reply_lost, codes "m1", pos 7) ∷ (applied, codes "m2", pos 30) ∷ []) [])).0
    ≡ ok true
fresh_counter_example =
    fresh_counter_accepted doubles (codes "m1") (pos 8)
      ((reply_lost, codes "m1", pos 7) ∷ (applied, codes "m2", pos 30) ∷ [])
      (λ e. refl, (λ e. absurd (ground arith), tt))
