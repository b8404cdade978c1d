-- ===== src/Ingest/Tests.antt =====
-- Runs of the bulk path, on a frame that its meter signed and on one that makes the decoder panic.
use gridtokenx_aggregator_br.Base.{
  ℕ, ◌+◌, ◌%◌, ◌^◌, ◌≡◌, refl, true, false, none, some, List, [], ◌∷◌, ◌++◌, All, inl, inr,
  if◌then◌else◌, ◌==◌, nat_eq, list_eq, arith,
}
use gridtokenx_aggregator_br.Base.Text.{codes}
use gridtokenx_aggregator_br.Billing.Bin.{Text}
use gridtokenx_aggregator_br.Frame as Frame
use gridtokenx_aggregator_br.Frame.Bytes.{be_bytes_32}
use gridtokenx_aggregator_br.Keys.Cache.{Faults, Store, new_cache, pubkey_ttl, enckey_ttl}
use gridtokenx_aggregator_br.Keys.Verifier as Verifier
use gridtokenx_aggregator_br.Keys.Verifier.{pubkey_name}
use gridtokenx_aggregator_br.Keys.Registry.{enckey_name}
use gridtokenx_aggregator_br.Keys.Latency.Enckeys.{key_call}
use gridtokenx_aggregator_br.Ingest.{
  Env, Floats, split_bulk_frames, request_panicked, bulk_raw_ingest,
}
use gridtokenx_aggregator_br.Ingest.Split.{Entry, pack, Whole, Truncated, split_bulk_frames-pack}
use gridtokenx_aggregator_br.Ingest.Panic.{bulk_raw_ingest_panics}
use gridtokenx_aggregator_br.Ingest.Origin.Verified.{AllAttested, bulk_raw_ingest-Attested}

abbrev byte_sum : List ℕ → ℕ
byte_sum [] = 0
byte_sum (b ∷ bs) = (b + byte_sum bs) % 2 ^ 32

-- A byte sum for the checksum, and a cipher that changes nothing.
abbrev pub codec : Frame.Crates
codec = record {
  crc32 = byte_sum;
  decrypt = λ key nonce block. some block;
  utf8_lossy = λ bytes. bytes;
  representable = λ t. true;
}

abbrev first : List ℕ → ℕ
first [] = 0
first (b ∷ bs) = b

-- A key is its text, and a signature verifies if it begins with the key's first byte.
abbrev pub crates : Verifier.Crates (List ℕ)
crates = record {
  trim = λ s. s;
  hex_decode = λ s. some s;
  from_bytes = λ bytes. some bytes;
  base58 = λ s. some s;
  verify = λ vk payload sig. first vk == first sig;
}

abbrev pub floats : Floats
floats = record { of_int = λ n. n; div = λ a b. a; sub = λ a b. a }

abbrev aes_key : Text
aes_key = codes "aes_456789abcdef0123456789abcdef"

abbrev pub past : ℕ → Store
past now name =
    if name == pubkey_name (codes "METER042")
    then some (codes "pub_456789abcdef0123456789abcdef")
    else if name == enckey_name (codes "METER042")
    then some aes_key
    else none

abbrev pub env : Env
env = record {
  production = true;
  allow_plaintext_dlms = false;
  skip_sig_verify = false;
  require_secure = true;
}

abbrev pub healthy : Faults
healthy = record { connects = true; replies = true; reconnects = true; replies_again = true }

abbrev pub frame : List ℕ
frame =
    let body : List ℕ =
      4
      ∷ 33
      ∷ (codes "INC"
          ++ (codes "METER042"
              ++ (0
                  ∷ 0
                  ∷ 0
                  ∷ 0
                  ∷ 101
                  ∷ 83
                  ∷ 241
                  ∷ 0
                  ∷ (1 ∷ 8 ∷ 0 ∷ 0 ∷ 0 ∷ 0 ∷ 0 ∷ 0 ∷ 19 ∷ 136 ∷ [])))) in
    body ++ be_bytes_32 (byte_sum body)

abbrev pub sig : List ℕ
sig = codes "p123456789abcdef0123456789abcdef0123456789abcdef0123456789abcdef"

abbrev pub forged : List ℕ
forged = codes "q123456789abcdef0123456789abcdef0123456789abcdef0123456789abcdef"

-- The signed frame, the same with a forged signature, and a rest.
abbrev bulk : List ℕ
bulk = pack ((frame, sig) ∷ (frame, forged) ∷ []) ++ (200 ∷ 1 ∷ [])

split_example :
    ((entries : List Entry) × (tail : List ℕ) × (bulk ≡ pack entries ++ tail)
      × All Whole entries
      × Truncated tail)
    × ((entries : List Entry) (tail : List ℕ)
        → bulk ≡ pack entries ++ tail
        → All Whole entries
        → Truncated tail
        → split_bulk_frames bulk ≡ entries)
split_example = split_bulk_frames-pack bulk

attested_example :
    AllAttested codec floats crates
      (enckey_ttl none none)
      (pubkey_ttl none none)
      env
      past
      5
      (split_bulk_frames bulk)
      (bulk_raw_ingest codec floats crates
        (enckey_ttl none none)
        (pubkey_ttl none none)
        env
        (key_call crates (enckey_ttl none none) past 5 healthy)
        bulk
        (new_cache 0)
        (new_cache 0)).0
attested_example =
    bulk_raw_ingest-Attested codec floats crates (enckey_ttl none none) (pubkey_ttl none none) env
      past 5 healthy bulk (new_cache 0) (new_cache 0) refl tt tt

-- 25 bytes with a length byte of 1, behind a frame that is in order.
abbrev short_frame : List ℕ
short_frame = 4 ∷ 1 ∷ codes "0123456789abcdef0123456"

abbrev poisoned : List ℕ
poisoned = pack ((frame, sig) ∷ (short_frame, forged) ∷ [])

bulk_panics_example :
    (bulk_raw_ingest codec floats crates
      (enckey_ttl none none)
      (pubkey_ttl none none)
      env
      (key_call crates (enckey_ttl none none) past 5 healthy)
      poisoned
      (new_cache 0)
      (new_cache 0)).0
    ≡ request_panicked
unfolding split_bulk_frames
bulk_panics_example =
    bulk_raw_ingest_panics codec floats crates (enckey_ttl none none) (pubkey_ttl none none) env
      (key_call crates (enckey_ttl none none) past 5 healthy) poisoned short_frame forged
      (new_cache 0) (new_cache 0) (inr (inl refl)) (omega arith) (omega arith)
