-- ===== src/Ingest/Panic.antt =====
-- What a frame on which the decoder panics does to a bulk request (crates/aggregator-api/src/grpc/service.rs).
use gridtokenx_aggregator_br.Base.{
  ℕ, ◌≤◌, ◌<◌, ◌≡◌, refl, ap, ◌∙◌, Option, none, List, [], ◌∷◌, In, inl, inr, length,
}
use gridtokenx_aggregator_br.Frame as Frame
use gridtokenx_aggregator_br.Frame.{Decoded, DlmsHeader, parse_header, total_length}
use gridtokenx_aggregator_br.Frame.Panic.{parse_header_panics_iff}
use gridtokenx_aggregator_br.Keys.Cache.{PrunedCache, Ttl}
use gridtokenx_aggregator_br.Keys.Verifier as Verifier
use gridtokenx_aggregator_br.Keys.Verifier.{Call}
use gridtokenx_aggregator_br.Keys.Registry.{Key}
use gridtokenx_aggregator_br.Ingest.{
  Env, Secured, decoded, skipped, panicked, decode_after, decode_secure_frame, Pending, unpack_one,
  unpack_frames, split_bulk_frames, Floats, request_panicked, bulk_verified, bulk_raw_ingest,
}

module _ {V : Type 0} (codec : Frame.Crates) (fl : Floats) (o : Verifier.Crates V)
    (enckeys pubkeys : Ttl) (env : Env) (call : Call) (bytes sig : List ℕ)
    (short : parse_header codec bytes ≡ Decoded.panic) where
  unpack_one-none :
      (b s : List ℕ) (r : Secured) (c : PrunedCache Key)
      (later : Option (List Pending) × PrunedCache Key)
      → later.0 ≡ none
      → (unpack_one codec o enckeys env b s r c later).0 ≡ none
  unpack_one-none b s panicked c later e = refl
  unpack_one-none b s skipped c later e = e
  unpack_one-none b s (decoded f) c later e = rw e

  unpack_one-panicked :
      (b s : List ℕ) (r : Secured) (c : PrunedCache Key)
      (later : Option (List Pending) × PrunedCache Key)
      → r ≡ panicked
      → (unpack_one codec o enckeys env b s r c later).0 ≡ none
  unpack_one-panicked b s r c later e = rw e

  decode-panicked :
      (c : PrunedCache Key) → decode_secure_frame codec o enckeys env call bytes c ≡ (panicked, c)
  unfolding decode_secure_frame decode_after
  decode-panicked c = rw short

  unpack_frames-none :
      (entries : List (List ℕ × List ℕ)) (c : PrunedCache Key)
      → In (bytes, sig) entries
      → (unpack_frames codec o enckeys env call entries c).0 ≡ none
  unfolding unpack_frames
  unpack_frames-none [] c i = absurd i
  unpack_frames-none ((b, s) ∷ entries) c (inl e) =
      unpack_one-panicked b s (decode_secure_frame codec o enckeys env call b c).0 _ _ (
        ap (λ x. (decode_secure_frame codec o enckeys env call x c).0) (ap (λ x. x.0) e)
        ∙ ap (λ x. x.0) (decode-panicked c))
  unpack_frames-none ((b, s) ∷ entries) c (inr i) =
      unpack_one-none b s (decode_secure_frame codec o enckeys env call b c).0
        (decode_secure_frame codec o enckeys env call b c).1
        (unpack_frames codec o enckeys env call entries
          (decode_secure_frame codec o enckeys env call b c).1)
        (unpack_frames-none entries _ i)

  bulk_none :
      (ps : Option (List Pending)) (keys : PrunedCache Key) (pubs : PrunedCache V)
      → ps ≡ none
      → (bulk_verified codec fl o enckeys pubkeys env call ps keys pubs).0 ≡ request_panicked
  bulk_none ps keys pubs e = rw e

  request_panics :
      (payload : List ℕ) (keys : PrunedCache Key) (pubs : PrunedCache V)
      → In (bytes, sig) (split_bulk_frames payload)
      → (bulk_raw_ingest codec fl o enckeys pubkeys env call payload keys pubs).0 ≡ request_panicked
  unfolding bulk_raw_ingest
  request_panics payload keys pubs i =
      bulk_none _ _ pubs (unpack_frames-none (split_bulk_frames payload) keys i)

module _ {V : Type 0} (codec : Frame.Crates) (fl : Floats) (o : Verifier.Crates V)
    (enckeys pubkeys : Ttl) (env : Env) where
  -- A bulk request that holds one frame of 25 bytes or more whose length byte is 0 or 1 panics, whatever its signature,
  -- the keys, the settings and the other frames are: no frame of the request becomes a reading.
  pub bulk_raw_ingest_panics :
      (call : Call) (payload bytes sig : List ℕ) (keys : PrunedCache Key) (pubs : PrunedCache V)
      → In (bytes, sig) (split_bulk_frames payload)
      → 25 ≤ length bytes
      → total_length bytes < 2
      → (bulk_raw_ingest codec fl o enckeys pubkeys env call payload keys pubs).0 ≡ request_panicked
  bulk_raw_ingest_panics call payload bytes sig keys pubs i long short =
      request_panics codec fl o enckeys pubkeys env call bytes sig
        ((parse_header_panics_iff codec bytes).1 (long, short)) payload keys pubs i
