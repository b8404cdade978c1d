-- ===== src/Rest/Counted.antt =====
-- A REST request lowers no invocation counter (crates/aggregator-api/src/handlers.rs).
use gridtokenx_aggregator_br.Base.{
  ℕ, ◌≡◌, refl, sym, subst, Bool, true, false, not, ◌&&◌, Option, none, some, List, inl, inr,
  Bool-cases, if◌then◌else◌, ◌==◌, nat_eq, list_eq,
}
use gridtokenx_aggregator_br.Base.Int.{ℤ}
use gridtokenx_aggregator_br.Base.Text.{codes}
use gridtokenx_aggregator_br.Billing.Bin.{Text}
use gridtokenx_aggregator_br.Edge.Requests.{Api}
use gridtokenx_aggregator_br.Edge.Unified.{Visit, signature_enforcement_disabled}
use gridtokenx_aggregator_br.Keys.Cache.{Result, ok, err}
use gridtokenx_aggregator_br.Keys.Counter.{Reached, Reached-call}
use gridtokenx_aggregator_br.Keys.Registry.{Key}
use gridtokenx_aggregator_br.Keys.Verifier.{Call}
use gridtokenx_aggregator_br.Redis.{Fate}
use gridtokenx_aggregator_br.Rest.Values.{
  RestCrates, PrivateNetworkPayload, StatusCode, bad_request, Envelope, DecryptOutcome, recovered,
  replay, bad, parse_envelope, aad, secure_mode_gate, sig_failure_status, rest_reading,
  is_supported_protocol, resolve_protocol,
}
use gridtokenx_aggregator_br.Rest.{
  RestState, envelope_key, opened, with_aes_key, open_envelope, decrypt_dlms_envelope,
  verify_rest_signature, disseminated, after_verdict, past_protocol, past_decryption, decrypted,
  ingest_private_network,
}
use gridtokenx_aggregator_br.Rest.Opened.{envelope_key-counters}
use gridtokenx_aggregator_br.Rest.Secure.{judged, gated}
use gridtokenx_aggregator_br.Stream.Readings.{Value, DeviceReading}

module _ {V : Type 0} (a : Api V) (r : RestCrates) where
  disseminated-counters :
      (m : Visit) (o : Option DeviceReading) (verified : Bool) (s : RestState V)
      → (disseminated a r m o verified s).1.counters ≡ s.counters
  disseminated-counters m none verified s = refl
  disseminated-counters m (some reading) verified s = refl

  judged-counters :
      (m : Visit) (o : Option DeviceReading) (verdict : Result Bool) (s : RestState V)
      (status : Option StatusCode)
      → (judged a r m o verdict s status).1.counters ≡ s.counters
  judged-counters m o verdict s (some code) = refl
  judged-counters m o verdict s none = disseminated-counters m o _ s

  past_protocol-counters :
      (m : Visit) (protocol id : Text) (payload : Value) (s : RestState V)
      → (past_protocol a r m protocol id payload s).1.counters ≡ s.counters
  past_protocol-counters m protocol id payload s =
      let o = rest_reading r m protocol id payload in
      let (verdict, pubs) = verify_rest_signature a r m.call id payload s.edge.pubs in
      let s' = record s { edge = record s.edge { pubs = pubs } } in
      let way =
        λ (b : Bool). if b then disseminated a r m o true s else after_verdict a r m o verdict s' in
      elim (Bool-cases (protocol == codes "simulator" && not a.env.require_secure)) [
        | inl bypass ↦
            subst (λ b. (way b).1.counters ≡ s.counters) (sym bypass)
              (disseminated-counters m o true s)
        | inr signed ↦
            subst (λ b. (way b).1.counters ≡ s.counters) (sym signed)
              (judged-counters m o verdict s' (
                sig_failure_status verdict
                  (signature_enforcement_disabled a.allow_unverified a.env)))
      ]

  past_decryption-counters :
      (m : Visit) (was_encrypted : Bool) (q : PrivateNetworkPayload) (s : RestState V)
      → (past_decryption a r m was_encrypted q s).1.counters ≡ s.counters
  unfolding past_decryption
  past_decryption-counters m was_encrypted q s =
      by_status (secure_mode_gate a.env.require_secure was_encrypted)
    where
      protocol : Text
      protocol = resolve_protocol r q.protocol

      way : Bool → StatusCode × RestState V
      way b = if b then past_protocol a r m protocol q.device_id q.payload s else (bad_request, s)

      past : (way (is_supported_protocol protocol)).1.counters ≡ s.counters
      past = elim (Bool-cases (is_supported_protocol protocol)) [
        | inl known ↦
            subst (λ b. (way b).1.counters ≡ s.counters) (sym known)
              (past_protocol-counters m protocol q.device_id q.payload s)
        | inr unknown ↦ subst (λ b. (way b).1.counters ≡ s.counters) (sym unknown) refl
      ]

      by_status :
          (status : Option StatusCode)
          → (gated a r s (way (is_supported_protocol protocol)) status).1.counters ≡ s.counters
      by_status (some code) = refl
      by_status none = past

  opened-Reached :
      (fate : Fate) (id' : Text) (counter' : ℤ) (o : Option (List ℕ)) (s : RestState V) (id : Text)
      (n : ℤ)
      → Reached r.doubles id n s.counters
      → Reached r.doubles id n (opened a r fate id' counter' o s).1.counters
  opened-Reached fate id' counter' none s id n h = h
  opened-Reached fate id' counter' (some p) s id n h =
      Reached-call r.doubles fate id n id' counter' s.counters h

  with_aes_key-Reached :
      (fate : Fate) (id' : Text) (e : Envelope) (key : Result (Option Key)) (s : RestState V)
      (id : Text) (n : ℤ)
      → Reached r.doubles id n s.counters
      → Reached r.doubles id n (with_aes_key a r fate id' e key s).1.counters
  with_aes_key-Reached fate id' e err s id n h = h
  with_aes_key-Reached fate id' e (ok none) s id n h = h
  with_aes_key-Reached fate id' e (ok (some k)) s id n h =
      opened-Reached fate id' e.counter (r.decrypt k e.nonce (aad r id' e.counter) e.ciphertext) s
        id n h

  open_envelope-Reached :
      (fate : Fate) (call : Call) (id' : Text) (o : Option Envelope) (s : RestState V) (id : Text)
      (n : ℤ)
      → Reached r.doubles id n s.counters
      → Reached r.doubles id n (open_envelope a r fate call id' o s).1.counters
  open_envelope-Reached fate call id' none s id n h = h
  open_envelope-Reached fate call id' (some e) s id n h =
      let (key, s') = envelope_key a r call id' e.kid s in
      with_aes_key-Reached fate id' e key s' id n
        (subst (Reached r.doubles id n) (sym (envelope_key-counters a r call id' e.kid s)) h)

  pub decrypted-counters :
      (m : Visit) (q : PrivateNetworkPayload) (x : DecryptOutcome × RestState V)
      → (decrypted a r m q x).1.counters ≡ x.1.counters
  decrypted-counters m q (bad, s) = refl
  decrypted-counters m q (replay, s) = refl
  decrypted-counters m q (recovered v, s) = past_decryption-counters m true _ s

  -- No request lowers a counter.
  pub ingest-Reached :
      (m : Visit) (fate : Fate) (q : PrivateNetworkPayload) (s : RestState V) (id : Text) (n : ℤ)
      → Reached r.doubles id n s.counters
      → Reached r.doubles id n (ingest_private_network a r m fate q s).1.counters
  unfolding ingest_private_network decrypt_dlms_envelope
  ingest-Reached m fate q s id n h =
      let x = open_envelope a r fate m.call q.device_id (parse_envelope r q.payload) s in
      let way = λ (b : Bool). if b then decrypted a r m q x else past_decryption a r m false q s in
      elim (Bool-cases (r.to_lowercase q.protocol == codes "dlms-enc")) [
        | inl encrypted ↦
            subst (λ b. Reached r.doubles id n (way b).1.counters) (sym encrypted)
              (subst (Reached r.doubles id n) (sym (decrypted-counters m q x)) (
                open_envelope-Reached fate m.call q.device_id (parse_envelope r q.payload) s id n
                  h))
        | inr plain ↦
            subst (λ b. Reached r.doubles id n (way b).1.counters) (sym plain)
              (subst (Reached r.doubles id n) (sym (past_decryption-counters m false q s)) h)
      ]
