-- ===== src/Keys/Latency/Runs.antt =====
-- Every run of `SignatureVerifier` (crates/aggregator-persistence/src/infra/crypto.rs) from an empty cache.
use gridtokenx_aggregator_br.Base.{ℕ, ◌≤◌, ◌≡◌, Bool, true, List, [], ◌∷◌, nat_eq, arith, All-mono}
use gridtokenx_aggregator_br.Billing.Bin.{Text}
use gridtokenx_aggregator_br.Keys.Cache.{ok, PrunedCache, Ttl, Faults, Store, new_cache}
use gridtokenx_aggregator_br.Keys.Verifier.{
  Crates, verify_telemetry_signature, verify_telemetry_signature_batch,
}
use gridtokenx_aggregator_br.Keys.Latency.{AllDated, at, Signed, verify_telemetry_signature-Signed}
use gridtokenx_aggregator_br.Keys.Latency.Batch.{Backed, batch-Backed}

module _ {V : Type 0} (o : Crates V) (ttl : Ttl) (past : ℕ → Store) where
  -- A call of the verifier: one signature, or a batch.
  pub data Request : Type 0 where
    one : Text → List ℕ → Text → Request
    many : List Text → List (List ℕ) → List (List ℕ) → Request

  -- What a request leaves of the cache.
  abbrev pub serve : ℕ → Faults → Request → PrunedCache V → PrunedCache V
  serve now faults (one id payload sig) c =
      (verify_telemetry_signature o ttl (at o ttl past now faults) id payload sig c).1
  serve now faults (many ids payloads sigs) c =
      (verify_telemetry_signature_batch o ttl (at o ttl past now faults) ids payloads sigs c).1

  abbrev pub serve_all : List (ℕ × Faults × Request) → PrunedCache V → PrunedCache V
  serve_all [] c = c
  serve_all ((now, faults, r) ∷ requests) c = serve_all requests (serve now faults r c)

  -- Requests in the order of time, none before `start` nor after `end`.
  abbrev pub Between : ℕ → ℕ → List (ℕ × Faults × Request) → Type 0
  Between start end [] = start ≤ end
  Between start end ((now, faults, r) ∷ requests) = (start ≤ now) × Between now end requests

  Dated-later :
      (t u : ℕ) (c : PrunedCache V) → t ≤ u → AllDated o ttl past t c → AllDated o ttl past u c
  Dated-later t u c le h = All-mono c.map (λ e d. (d.0, omega (arith, d.1), d.2, d.3)) h

  serve-AllDated :
      (now : ℕ) (faults : Faults) (r : Request) (c : PrunedCache V)
      → AllDated o ttl past now c
      → AllDated o ttl past now (serve now faults r c)
  serve-AllDated now faults (one id payload sig) c h =
      (verify_telemetry_signature-Signed o ttl past now faults id payload sig c h).0
  serve-AllDated now faults (many ids payloads sigs) c h =
      (batch-Backed o ttl past now faults ids payloads sigs c h).0

  serve_all-AllDated :
      (start end : ℕ) (requests : List (ℕ × Faults × Request)) (c : PrunedCache V)
      → Between start end requests
      → AllDated o ttl past start c
      → AllDated o ttl past end (serve_all requests c)
  serve_all-AllDated start end [] c b h = Dated-later start end c b h
  serve_all-AllDated start end ((now, faults, r) ∷ requests) c b h =
      serve_all-AllDated now end requests (serve now faults r c) b.1
        (serve-AllDated now faults r c (Dated-later start now c b.0 h))

  -- After any requests to a verifier that started with an empty cache, a signature is accepted only if Redis held,
  -- no longer ago than the positive lifetime, a public key for the meter under which it verifies the payload: a key
  -- that was revoked or replaced longer ago than that is never used.
  pub revocation_latency :
      (requests : List (ℕ × Faults × Request)) (now : ℕ) (faults : Faults) (id : Text)
      (payload : List ℕ) (sig : Text)
      → Between 0 now requests
      → (verify_telemetry_signature o ttl
          (at o ttl past now faults)
          id
          payload
          sig
          (serve_all requests (new_cache 0))).0
        ≡ ok true
      → Signed o ttl past now id payload sig
  revocation_latency requests now faults id payload sig b e =
      (verify_telemetry_signature-Signed o ttl past now faults id payload sig _
          (serve_all-AllDated 0 now requests (new_cache 0) b tt)).1
        e

  -- The same for a batch: whatever was asked before, every signature that it accepts verifies its payload under a
  -- key that Redis held for its own meter no longer ago than the positive lifetime.
  pub batch_revocation_latency :
      (requests : List (ℕ × Faults × Request)) (now : ℕ) (faults : Faults) (ids : List Text)
      (payloads sigs : List (List ℕ)) (results : List Bool)
      → Between 0 now requests
      → (verify_telemetry_signature_batch o ttl
          (at o ttl past now faults)
          ids
          payloads
          sigs
          (serve_all requests (new_cache 0))).0
        ≡ ok results
      → Backed o ttl past now results ids payloads sigs
  batch_revocation_latency requests now faults ids payloads sigs results b e =
      (batch-Backed o ttl past now faults ids payloads sigs _
          (serve_all-AllDated 0 now requests (new_cache 0) b tt)).1
        results e
