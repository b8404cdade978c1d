-- ===== src/Ingest/Origin/Verified.antt =====
-- What stands behind every reading of the bulk path (crates/aggregator-api/src/grpc/service.rs) when the
-- signatures are verified.
use gridtokenx_aggregator_br.Base.{
  ℕ, ◌≡◌, refl, Bool, true, false, Option, none, some, List, [], ◌∷◌, map, All,
}
use gridtokenx_aggregator_br.Frame as Frame
use gridtokenx_aggregator_br.Frame.{Decoded, parse_header}
use gridtokenx_aggregator_br.Keys.Cache.{Result, ok, err, PrunedCache, Ttl, Faults, Store}
use gridtokenx_aggregator_br.Keys.Verifier as Verifier
use gridtokenx_aggregator_br.Keys.Verifier.{Call}
use gridtokenx_aggregator_br.Keys.Registry.{Key}
use gridtokenx_aggregator_br.Keys.Latency.{Recent, AllDated}
use gridtokenx_aggregator_br.Keys.Latency.Batch.{Backed, batch-Backed}
use gridtokenx_aggregator_br.Keys.Latency.Enckeys.{AllDatedKeys, key_call}
use gridtokenx_aggregator_br.Ingest.{
  Env, Pending, split_bulk_frames, Floats, FrameReading, reading_of, process_verified, BulkOutcome,
  processed, internal_error, request_panicked, outcome_of, skip_verify, verify_bulk, bulk_verified,
  bulk_raw_ingest,
}
use gridtokenx_aggregator_br.Ingest.Split.{Entry}
use gridtokenx_aggregator_br.Ingest.Origin.{Origin, Origins, unpack_frames-Origins}

module _ {V : Type 0} (codec : Frame.Crates) (fl : Floats) (o : Verifier.Crates V)
    (enckeys pubkeys : Ttl) (env : Env) (past : ℕ → Store) where
  -- The signature of a frame verifies its bytes under a recent public key of its meter.
  abbrev pub Verified : ℕ → Pending → Type 0
  Verified now p =
      (vk : V) × Recent o pubkeys past now p.meter_id (some vk)
      × (o.verify vk p.payload p.signature ≡ true)

  -- A reading is that of a frame of the payload, opened and verified.
  abbrev pub Attested : ℕ → List Entry → FrameReading → Type 0
  Attested now entries r =
      (p : Pending) × Origin codec o enckeys env past now entries p
      × Verified now p
      × (r ≡ reading_of codec fl p)

  process-Attested :
      (now : ℕ) (entries : List Entry) (results : List Bool) (ps : List Pending)
      → All (Origin codec o enckeys env past now entries) ps
      → Backed o pubkeys past now results
          (map (λ p. p.meter_id) ps)
          (map (λ p. p.payload) ps)
          (map (λ p. p.signature) ps)
      → All (Attested now entries) (process_verified codec fl results ps)
  process-Attested now entries [] ps h b = tt
  process-Attested now entries (true ∷ results) [] h b = tt
  process-Attested now entries (false ∷ results) [] h b = tt
  process-Attested now entries (true ∷ results) (p ∷ ps) h b =
      ((p, h.0, b.0, refl), process-Attested now entries results ps h.1 b.1)
  process-Attested now entries (false ∷ results) (p ∷ ps) h b =
      process-Attested now entries results ps h.1 b

  -- Of an outcome: every reading is attested.
  abbrev pub AllAttested : ℕ → List Entry → BulkOutcome → Type 0
  AllAttested now entries (processed readings) = All (Attested now entries) readings
  AllAttested now entries internal_error = Unit
  AllAttested now entries request_panicked = Unit

  outcome-Attested :
      (now : ℕ) (entries : List Entry) (answer : Result (List Bool)) (ps : List Pending)
      → All (Origin codec o enckeys env past now entries) ps
      → ((results : List Bool)
          → answer ≡ ok results
          → Backed o pubkeys past now results
              (map (λ p. p.meter_id) ps)
              (map (λ p. p.payload) ps)
              (map (λ p. p.signature) ps))
      → AllAttested now entries (outcome_of codec fl answer ps)
  outcome-Attested now entries err ps h b = tt
  outcome-Attested now entries (ok results) ps h b =
      process-Attested now entries results ps h (b results refl)

  bulk_verified-Attested :
      (now : ℕ) (faults : Faults) (entries : List Entry) (ps : Option (List Pending))
      (keys : PrunedCache Key) (pubs : PrunedCache V)
      → skip_verify env ≡ false
      → AllDated o pubkeys past now pubs
      → Origins codec o enckeys env past now entries ps
      → AllAttested now entries
          (bulk_verified codec fl o enckeys pubkeys env
            (key_call o enckeys past now faults)
            ps
            keys
            pubs).0
  unfolding verify_bulk
  bulk_verified-Attested now faults entries none keys pubs s d h = tt
  bulk_verified-Attested now faults entries (some ps) keys pubs s d h = rw s (
      outcome-Attested now entries _ ps h
        (batch-Backed o pubkeys past now faults (map (λ p. p.meter_id) ps) (map (λ p. p.payload) ps)
          (map (λ p. p.signature) ps) pubs d).1)

  -- While the verification of signatures is not skipped, every reading that a bulk request gives is that of a frame in
  -- the payload which was opened under the key that Redis recently held for the device its header names, or in
  -- plaintext where the device has none and the settings allow it, and whose signature verifies the frame's bytes under
  -- a public key that Redis recently held for that device. It starts from caches whose entries are of this kind.
  pub bulk_raw_ingest-Attested :
      (now : ℕ) (faults : Faults) (payload : List ℕ) (keys : PrunedCache Key) (pubs : PrunedCache V)
      → skip_verify env ≡ false
      → AllDatedKeys o enckeys past now keys
      → AllDated o pubkeys past now pubs
      → AllAttested now
          (split_bulk_frames payload)
          (bulk_raw_ingest codec fl o enckeys pubkeys env
            (key_call o enckeys past now faults)
            payload
            keys
            pubs).0
  unfolding bulk_raw_ingest
  bulk_raw_ingest-Attested now faults payload keys pubs s dk dp =
      let (left, origins) =
        unpack_frames-Origins codec o enckeys env past now faults (split_bulk_frames payload) keys
          dk in
      bulk_verified-Attested now faults (split_bulk_frames payload) _ _ pubs s dp origins
