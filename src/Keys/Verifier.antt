-- ===== src/Keys/Verifier.antt =====
-- `SignatureVerifier` of crates/aggregator-persistence/src/infra/crypto.rs: the public key of a meter, from the
-- cache or from Redis, and the check of one signature or of a batch. A panic of the verifying thread is left out.
use gridtokenx_aggregator_br.Base.{
  ℕ, Bool, false, not, ◌||◌, Option, none, some, List, [], ◌∷◌, ◌++◌, length, if◌then◌else◌, ◌==◌,
  nat_eq,
}
use gridtokenx_aggregator_br.Base.Text.{codes}
use gridtokenx_aggregator_br.Billing.Bin.{Text}
use gridtokenx_aggregator_br.Keys.Cache.{
  Result, ok, err, PrunedCache, Ttl, Faults, Store, cache_get, cache_put, get_with_retry,
  mget_with_retry,
}

-- What other crates give, over their type of public keys: `str::trim`, `hex::decode`,
-- `VerifyingKey::from_bytes`, `bs58::decode`, and `verify` of a payload under a signature.
pub record Crates (V : Type 0) : Type 0 where
  pub trim : Text → Text
  pub hex_decode : Text → Option (List ℕ)
  pub from_bytes : List ℕ → Option V
  pub base58 : Text → Option (List ℕ)
  pub verify : V → List ℕ → List ℕ → Bool

abbrev pub pubkey_name : Text → Text
pubkey_name id = codes "gridtokenx:devices:" ++ (id ++ codes ":pubkey")

-- One call: its instant, the contents of Redis and what goes wrong.
pub record Call : Type 0 where
  pub now : ℕ
  pub redis : Store
  pub faults : Faults

module _ {V : Type 0} (o : Crates V) where
  -- The bytes of a key, in hex or raw. No error is told from another.
  abbrev pub pubkey_bytes : Text → Option (List ℕ)
  pubkey_bytes s = if length s == 64 then o.hex_decode s else some s

  unfoldable pub parse_ed25519_pubkey : Text → Option V
  parse_ed25519_pubkey raw = elim (pubkey_bytes (o.trim raw)) [
    | none ↦ none
    | some bytes ↦ if length bytes == 32 then o.from_bytes bytes else none
  ]

  module _ (ttl : Ttl) where
    -- The rest of `resolve_pubkey` once Redis has answered.
    unfoldable pub keep_pubkey :
        ℕ → Text → Result (Option Text) → PrunedCache V → Result (Option V) × PrunedCache V
    keep_pubkey now id err c = (err, c)
    keep_pubkey now id (ok none) c = (ok none, cache_put ttl now id none c)
    keep_pubkey now id (ok (some raw)) c = elim (parse_ed25519_pubkey raw) [
      | none ↦ (err, c)
      | some vk ↦ (ok (some vk), cache_put ttl now id (some vk) c)
    ]

    -- What follows the look into the cache.
    unfoldable pub resolve_missed :
        Call → Text → Option (Option V) → PrunedCache V → Result (Option V) × PrunedCache V
    resolve_missed call id (some key) c = (ok key, c)
    resolve_missed call id none c =
        keep_pubkey call.now id (get_with_retry call.faults call.redis (pubkey_name id)) c

    unfoldable pub resolve_pubkey : Call → Text → PrunedCache V → Result (Option V) × PrunedCache V
    unfolding resolve_missed
    resolve_pubkey call id c =
        let (hit, c') = cache_get call.now id c in resolve_missed call id hit c'

    -- The signature under a resolved key. One of another length is refused, not an error.
    abbrev pub check_signature : V → List ℕ → Text → Result Bool
    check_signature vk payload signature_base58 = elim (o.base58 signature_base58) [
      | none ↦ err
      | some bytes ↦ if length bytes == 64 then ok (o.verify vk payload bytes) else ok false
    ]

    -- An absent key is an error.
    abbrev pub check_resolved : Result (Option V) → List ℕ → Text → Result Bool
    check_resolved err payload signature_base58 = err
    check_resolved (ok none) payload signature_base58 = err
    check_resolved (ok (some vk)) payload signature_base58 =
        check_signature vk payload signature_base58

    unfoldable pub verify_telemetry_signature :
        Call → Text → List ℕ → Text → PrunedCache V → Result Bool × PrunedCache V
    verify_telemetry_signature call id payload signature_base58 c =
        let (resolved, c') = resolve_pubkey call id c in
        (check_resolved resolved payload signature_base58, c')

    -- The first loop of the batch: the cached verdict of each meter, or none.
    unfoldable pub scan : ℕ → List Text → PrunedCache V → List (Option (Option V)) × PrunedCache V
    scan now [] c = ([], c)
    scan now (id ∷ ids) c =
        let (hit, c') = cache_get now id c in
        let (slots, c'') = scan now ids c' in (hit ∷ slots, c'')

    -- The names that the `MGET` asks for.
    abbrev pub missing : List Text → List (Option (Option V)) → List Text
    missing (id ∷ ids) (none ∷ slots) = pubkey_name id ∷ missing ids slots
    missing (id ∷ ids) (some key ∷ slots) = missing ids slots
    missing _ _ = []

    -- One reply of the `MGET`. A malformed key is none, and is not cached.
    unfoldable pub keep_reply : ℕ → Text → Option Text → PrunedCache V → Option V × PrunedCache V
    keep_reply now id none c = (none, cache_put ttl now id none c)
    keep_reply now id (some raw) c = elim (parse_ed25519_pubkey raw) [
      | none ↦ (none, c)
      | some vk ↦ (some vk, cache_put ttl now id (some vk) c)
    ]

    -- The second loop: a placeholder takes the next reply.
    unfoldable pub fill :
        ℕ
        → List Text
        → List (Option (Option V))
        → List (Option Text)
        → PrunedCache V
        → List (Option V) × PrunedCache V
    fill now (id ∷ ids) (some key ∷ slots) raws c =
        let (vks, c') = fill now ids slots raws c in (key ∷ vks, c')
    fill now (id ∷ ids) (none ∷ slots) (raw ∷ raws) c =
        let (vk, c') = keep_reply now id raw c in
        let (vks, c'') = fill now ids slots raws c' in (vk ∷ vks, c'')
    fill now (id ∷ ids) (none ∷ slots) [] c =
        let (vks, c') = fill now ids slots [] c in (none ∷ vks, c')
    fill now _ _ raws c = ([], c)

    -- The third loop.
    abbrev pub verify_all : List (Option V) → List (List ℕ) → List (List ℕ) → List Bool
    verify_all (none ∷ vks) (payload ∷ payloads) (sig ∷ sigs) = false ∷ verify_all vks payloads sigs
    verify_all (some vk ∷ vks) (payload ∷ payloads) (sig ∷ sigs) =
        o.verify vk payload sig ∷ verify_all vks payloads sigs
    verify_all _ _ _ = []

    -- With the answer of the `MGET`.
    unfoldable pub fill_from :
        ℕ
        → List Text
        → List (Option (Option V))
        → Result (List (Option Text))
        → PrunedCache V
        → Result (List (Option V)) × PrunedCache V
    fill_from now ids slots err c = (err, c)
    fill_from now ids slots (ok raws) c = let (vks, c') = fill now ids slots raws c in (ok vks, c')

    -- Redis is asked only if something is missing.
    abbrev pub ask_missing : Call → List Text → Result (List (Option Text))
    ask_missing call [] = ok []
    ask_missing call (name ∷ names) = mget_with_retry call.faults call.redis (name ∷ names)

    unfoldable pub resolve_batch :
        Call → List Text → PrunedCache V → Result (List (Option V)) × PrunedCache V
    unfolding scan fill_from
    resolve_batch call ids c =
        let (slots, c') = scan call.now ids c in
        fill_from call.now ids slots (ask_missing call (missing ids slots)) c'

    abbrev pub verify_resolved :
        Result (List (Option V)) → List (List ℕ) → List (List ℕ) → Result (List Bool)
    verify_resolved err payloads signatures = err
    verify_resolved (ok vks) payloads signatures = ok (verify_all vks payloads signatures)

    unfoldable pub verify_telemetry_signature_batch :
        Call
        → List Text
        → List (List ℕ)
        → List (List ℕ)
        → PrunedCache V
        → Result (List Bool) × PrunedCache V
    verify_telemetry_signature_batch call ids payloads signatures c =
        if not (length ids == length payloads) || not (length ids == length signatures)
        then (err, c)
        else if length ids == 0
        then (ok [], c)
        else let (resolved, c') = resolve_batch call ids c in
          (verify_resolved resolved payloads signatures, c')
