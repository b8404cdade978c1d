-- ===== src/Keys/Registry.antt =====
-- `DeviceKeyRegistry` of crates/aggregator-persistence/src/infra/crypto.rs: the AES keys of the meters, from the
-- cache, from Redis, or unwrapped by Vault. `VaultTransitClient::unwrap` is a parameter.
use gridtokenx_aggregator_br.Base.{
  ℕ, ◌<◌, ◌≡◌, refl, Option, none, some, List, [], ◌∷◌, ◌++◌, length, inl, inr, Option-cases,
  if◌then◌else◌, ◌==◌, nat_eq, list_eq, pair_eq, arith,
}
use gridtokenx_aggregator_br.Base.Dict.{Dict, lookup, insert}
use gridtokenx_aggregator_br.Base.Int.{ℤ, int_eq}
use gridtokenx_aggregator_br.Base.Print.{to_string}
use gridtokenx_aggregator_br.Base.Text.{codes}
use gridtokenx_aggregator_br.Billing.Bin.{Text}
use gridtokenx_aggregator_br.Base.Entries.{Each}
use gridtokenx_aggregator_br.Keys.Cache.{
  Result, ok, err, Cached, PrunedCache, Ttl, cache_get, cache_put, get_with_retry, mget_with_retry,
  Each-get, Each-put,
}
use gridtokenx_aggregator_br.Keys.Verifier.{Crates, Call}

abbrev pub Key : Type 0
Key = List ℕ

abbrev pub enckey_name : Text → Text
enckey_name id = codes "gridtokenx:devices:" ++ (id ++ codes ":enckey")

abbrev pub enckey_version_name : Text → ℤ → Text
enckey_version_name id kid =
    codes "gridtokenx:devices:" ++ (id ++ (codes ":enckey:v" ++ to_string kid))

abbrev pub VersionedKeyCache : Type 0
VersionedKeyCache = Dict (Text × ℤ) Key

module _ {V : Type 0} (o : Crates V) (ttl : Ttl) where
  -- Neither bad hex nor another length is coerced to a key.
  unfoldable pub decode_aes_key_hex : Text → Option Key
  decode_aes_key_hex raw = elim (o.hex_decode (o.trim raw)) [
    | none ↦ none
    | some bytes ↦ if length bytes == 32 then some bytes else none
  ]

  -- The rest of `get_device_aes_key` once Redis has answered.
  unfoldable pub keep_enckey :
      ℕ → Text → Result (Option Text) → PrunedCache Key → Result (Option Key) × PrunedCache Key
  keep_enckey now id err c = (err, c)
  keep_enckey now id (ok none) c = (ok none, cache_put ttl now id none c)
  keep_enckey now id (ok (some raw)) c = elim (decode_aes_key_hex raw) [
    | none ↦ (err, c)
    | some k ↦ (ok (some k), cache_put ttl now id (some k) c)
  ]

  unfoldable pub enckey_missed :
      Call → Text → Option (Option Key) → PrunedCache Key → Result (Option Key) × PrunedCache Key
  enckey_missed call id (some key) c = (ok key, c)
  enckey_missed call id none c =
      keep_enckey call.now id (get_with_retry call.faults call.redis (enckey_name id)) c

  unfoldable pub get_device_aes_key :
      Call → Text → PrunedCache Key → Result (Option Key) × PrunedCache Key
  unfolding enckey_missed
  get_device_aes_key call id c =
      let (hit, c') = cache_get call.now id c in enckey_missed call id hit c'

  -- The verdicts of the cache, for a batch.
  unfoldable pub scan_keys :
      ℕ → List Text → PrunedCache Key → List (Option (Option Key)) × PrunedCache Key
  scan_keys now [] c = ([], c)
  scan_keys now (id ∷ ids) c =
      let (hit, c') = cache_get now id c in
      let (slots, c'') = scan_keys now ids c' in (hit ∷ slots, c'')

  abbrev pub missing_keys : List Text → List (Option (Option Key)) → List Text
  missing_keys (id ∷ ids) (none ∷ slots) = enckey_name id ∷ missing_keys ids slots
  missing_keys (id ∷ ids) (some key ∷ slots) = missing_keys ids slots
  missing_keys _ _ = []

  -- One reply of the `MGET`: unlike in `get_device_aes_key`, a malformed key is none.
  unfoldable pub keep_key_reply :
      ℕ → Text → Option Text → PrunedCache Key → Option Key × PrunedCache Key
  keep_key_reply now id none c = (none, cache_put ttl now id none c)
  keep_key_reply now id (some raw) c = elim (decode_aes_key_hex raw) [
    | none ↦ (none, c)
    | some k ↦ (some k, cache_put ttl now id (some k) c)
  ]

  unfoldable pub fill_keys :
      ℕ
      → List Text
      → List (Option (Option Key))
      → List (Option Text)
      → PrunedCache Key
      → List (Option Key) × PrunedCache Key
  fill_keys now (id ∷ ids) (some key ∷ slots) raws c =
      let (keys, c') = fill_keys now ids slots raws c in (key ∷ keys, c')
  fill_keys now (id ∷ ids) (none ∷ slots) (raw ∷ raws) c =
      let (k, c') = keep_key_reply now id raw c in
      let (keys, c'') = fill_keys now ids slots raws c' in (k ∷ keys, c'')
  fill_keys now (id ∷ ids) (none ∷ slots) [] c =
      let (keys, c') = fill_keys now ids slots [] c in (none ∷ keys, c')
  fill_keys now _ _ raws c = ([], c)

  -- With the answer of the `MGET`, which is sent only if something is missing.
  unfoldable pub fill_keys_from :
      ℕ
      → List Text
      → List (Option (Option Key))
      → Result (List (Option Text))
      → PrunedCache Key
      → Result (List (Option Key)) × PrunedCache Key
  fill_keys_from now ids slots err c = (err, c)
  fill_keys_from now ids slots (ok raws) c =
      let (keys, c') = fill_keys now ids slots raws c in (ok keys, c')

  abbrev pub ask_missing_keys : Call → List Text → Result (List (Option Text))
  ask_missing_keys call [] = ok []
  ask_missing_keys call (name ∷ names) = mget_with_retry call.faults call.redis (name ∷ names)

  pub get_device_aes_keys :
      Call → List Text → PrunedCache Key → Result (List (Option Key)) × PrunedCache Key
  unfolding scan_keys fill_keys_from
  get_device_aes_keys call ids c =
      let (slots, c') = scan_keys call.now ids c in
      fill_keys_from call.now ids slots (ask_missing_keys call (missing_keys ids slots)) c'

  -- With the wrapped text that Redis gave.
  unfoldable pub unwrap_version :
      Option (Text → Option Key)
      → Text × ℤ
      → Result (Option Text)
      → VersionedKeyCache
      → Result (Option Key) × VersionedKeyCache
  unwrap_version vault name err c = (err, c)
  unwrap_version vault name (ok none) c = (ok none, c)
  unwrap_version none name (ok (some wrapped)) c = (err, c)
  unwrap_version (some unwrap) name (ok (some wrapped)) c = elim (unwrap (o.trim wrapped)) [
    | none ↦ (err, c)
    | some k ↦ (ok (some k), insert name k c)
  ]

  unfoldable pub get_device_aes_key_versioned :
      Call
      → Option (Text → Option Key)
      → Text
      → ℤ
      → VersionedKeyCache
      → Result (Option Key) × VersionedKeyCache
  unfolding unwrap_version
  get_device_aes_key_versioned call vault id kid c = elim (lookup (id, kid) c) [
    | some k ↦ (ok (some k), c)
    | none ↦
        unwrap_version vault (id, kid)
          (get_with_retry call.faults call.redis (enckey_version_name id kid)) c
  ]

  -- A key is 32 bytes long.
  abbrev pub KeyFits : Text → Cached Key → Type 0
  KeyFits id e = elim e.key [ none ↦ Unit {0} | some k ↦ length k ≡ 32 ]

  abbrev pub ResultFits : Result (Option Key) → Type 0
  ResultFits err = Unit
  ResultFits (ok none) = Unit
  ResultFits (ok (some k)) = length k ≡ 32

  abbrev pub AllFit : PrunedCache Key → Type 0
  AllFit c = Each KeyFits c.map

  decode_aes_key_hex_fits : (raw : Text) {k : Key} → decode_aes_key_hex raw ≡ some k → length k ≡ 32
  unfolding decode_aes_key_hex
  decode_aes_key_hex_fits raw e = ground arith

  keep_enckey_fits :
      (now : ℕ) (id : Text) (r : Result (Option Text)) (c : PrunedCache Key)
      → AllFit c
      → AllFit (keep_enckey now id r c).1 × ResultFits (keep_enckey now id r c).0
  unfolding keep_enckey
  keep_enckey_fits now id err c h = (h, tt)
  keep_enckey_fits now id (ok none) c h = (Each-put KeyFits ttl now id none c tt h, tt)
  keep_enckey_fits now id (ok (some raw)) c h = elim (Option-cases (decode_aes_key_hex raw)) [
    | inl bad ↦ rw (bad, keep_enckey) (h, tt)
    | inr (k, good) ↦
        let fits = decode_aes_key_hex_fits raw good in
        rw (good, keep_enckey) (Each-put KeyFits ttl now id (some k) c fits h, fits)
  ]

  hit_fits :
      (now : ℕ) (id : Text) (hit : Option (Option Key)) (c : PrunedCache Key) (call : Call)
      → ((key : Option Key)
          → hit ≡ some key
          → (e : Cached Key) × KeyFits id e × (e.key ≡ key) × (now < e.expires))
      → AllFit c
      → AllFit (enckey_missed call id hit c).1 × ResultFits (enckey_missed call id hit c).0
  unfolding enckey_missed
  hit_fits now id none c call f h = keep_enckey_fits call.now id _ c h
  hit_fits now id (some none) c call f h = (h, tt)
  hit_fits now id (some (some k)) c call f h =
      let (e, fits, same, fresh) = f (some k) refl in (h, ground arith)

  -- From a cache of 32-byte keys, an answer with a key has one of 32 bytes, and the cache stays such.
  pub get_device_aes_key_fits :
      (call : Call) (id : Text) (c : PrunedCache Key)
      → AllFit c
      → AllFit (get_device_aes_key call id c).1 × ResultFits (get_device_aes_key call id c).0
  unfolding get_device_aes_key
  get_device_aes_key_fits call id c h =
      let (left, hit) = Each-get KeyFits call.now id c h in
      hit_fits call.now id (cache_get call.now id c).0 (cache_get call.now id c).1 call hit left
