-- ===== src/Frame/Panic.antt =====
-- On which payloads the decoder of crates/aggregator-stacks/src/binary_decoder.rs panics.
use gridtokenx_aggregator_br.Base.{
  ℕ, ◌+◌, ◌≤◌, ◌<◌, ◌≡◌, ◌≢◌, ◌↔◌, ◌⊎◌, refl, ◌∙◌, Option, none, some, List, inl, inr, length, take,
  length-take, nat_eq, arith,
}
use gridtokenx_aggregator_br.Frame.{
  Crates, Decoded, ok, bail, panic, DlmsHeader, total_length, read_header, check_frame,
  parse_header, open_block, parse_block, parse, encrypted_data,
}

-- A key that is not 32 bytes long.
abbrev pub BadKey : Option (List ℕ) → Type 0
BadKey none = ⊥
BadKey (some key) = length key ≢ 32

module _ (c : Crates) (payload : List ℕ) where
  read_header-ne-panic : read_header c payload ≢ panic
  unfolding read_header
  read_header-ne-panic = ground arith

  check_frame_panics : (frame : List ℕ) → (check_frame c frame payload ≡ panic) ↔ (length frame < 4)
  unfolding check_frame
  check_frame_panics frame = ground (arith, read_header-ne-panic)

  -- `parse_header` panics exactly on a payload of 25 bytes or more whose length byte is 0 or 1.
  pub parse_header_panics_iff :
      (parse_header c payload ≡ panic) ↔ ((25 ≤ length payload) × (total_length payload < 2))
  unfolding parse_header
  parse_header_panics_iff = ground (
    arith,
    check_frame_panics (take (total_length payload + 2) payload),
    length-take (total_length payload + 2) payload,
  )

  open_block_panics :
      (key : Option (List ℕ)) (block : List ℕ)
      → (open_block c payload key block ≡ panic) ↔ BadKey key
  unfolding open_block
  open_block_panics none block = ground arith
  open_block_panics (some key) block = ground arith

  parse_block_panics :
      (key : Option (List ℕ)) (h : DlmsHeader)
      → (parse_block c payload key h ≡ panic) ↔ ((total_length payload < 23) ⊎ BadKey key)
  unfolding parse_block
  parse_block_panics key h = ground (arith, open_block_panics key (encrypted_data payload))

  pub parse_after_header :
      (key : Option (List ℕ)) (h : DlmsHeader)
      → parse_header c payload ≡ ok h
      → parse c payload key ≡ parse_block c payload key h
  unfolding parse
  parse_after_header key h e = rw (e, parse)

  parse_panics :
      (key : Option (List ℕ))
      → parse c payload key ≡ panic
      → (parse_header c payload ≡ panic)
        ⊎ ((h : DlmsHeader) × (parse_header c payload ≡ ok h)
            × (parse_block c payload key h ≡ panic))
  unfolding parse
  parse_panics key = go (parse_header c payload) refl
    where
      go :
          (r : Decoded DlmsHeader)
          → parse_header c payload ≡ r
          → parse c payload key ≡ panic
          → (parse_header c payload ≡ panic)
            ⊎ ((h : DlmsHeader) × (parse_header c payload ≡ ok h)
                × (parse_block c payload key h ≡ panic))
      go (ok h) e p = inr (h, e, ground arith)
      go (bail why) e p = cc
      go panic e p = inl e

  parse_panics_header :
      (key : Option (List ℕ)) → parse_header c payload ≡ panic → parse c payload key ≡ panic
  unfolding parse
  parse_panics_header key e = rw (e, parse)

  -- `parse` panics exactly if the payload has 25 bytes or more and a length byte of 0 or 1, or if its header is
  -- accepted and either the length byte is below 23 or the key is not 32 bytes long.
  pub parse_panics_iff :
      (key : Option (List ℕ))
      → (parse c payload key ≡ panic) ↔ (
          ((25 ≤ length payload) × (total_length payload < 2))
          ⊎ ((h : DlmsHeader) × (parse_header c payload ≡ ok h)
              × ((total_length payload < 23) ⊎ BadKey key)))
  parse_panics_iff key = (
    λ p. elim (parse_panics key p) [
      | inl e ↦ inl (parse_header_panics_iff.0 e)
      | inr (h, e, b) ↦ inr (h, e, (parse_block_panics key h).0 b)
    ],
    λ w. elim w [
      | inl short ↦ parse_panics_header key (parse_header_panics_iff.1 short)
      | inr (h, e, b) ↦ parse_after_header key h e ∙ (parse_block_panics key h).1 b
    ],
  )
