-- ===== src/Rest/Secure.antt =====
-- What secure mode asks of a REST request (crates/aggregator-api/src/handlers.rs).
use gridtokenx_aggregator_br.Base.{
  ℕ, ◌≡◌, ◌≢◌, refl, sym, ap, ◌∙◌, subst, Bool, true, false, not, ◌&&◌, Option, none, some, [], In,
  inl, inr, Bool-cases, if◌then◌else◌, ◌==◌, nat_eq, list_eq, arith,
}
use gridtokenx_aggregator_br.Base.Text.{codes}
use gridtokenx_aggregator_br.Billing.Bin.{Text, unwrap_or}
use gridtokenx_aggregator_br.Edge.{Sinks, disseminate_reading}
use gridtokenx_aggregator_br.Edge.Requests.{Api, try_candidates}
use gridtokenx_aggregator_br.Edge.Signed.{SignedIn, try_candidates-SignedIn}
use gridtokenx_aggregator_br.Edge.Unified.{Visit, signature_enforcement_disabled}
use gridtokenx_aggregator_br.Keys.Cache.{Result, ok, err, Faults, Store}
use gridtokenx_aggregator_br.Keys.Latency.{AllDated, Signed, at}
use gridtokenx_aggregator_br.Redis.{Fate}
use gridtokenx_aggregator_br.Rest.Values.{
  RestCrates, PrivateNetworkPayload, StatusCode, accepted, bad_request, DecryptOutcome, recovered,
  replay, bad, parse_envelope, secure_mode_gate, failure_of, sig_failure_status, signed_forms,
  text_at, rest_reading, is_supported_protocol, resolve_protocol,
}
use gridtokenx_aggregator_br.Rest.{
  RestState, open_envelope, decrypt_dlms_envelope, verify_rest_signature, disseminated, is_true,
  after_verdict, past_protocol, past_decryption, decrypted, ingest_private_network,
}
use gridtokenx_aggregator_br.Stream.Readings.{Value, DeviceReading}
use gridtokenx_aggregator_br.Rest.Opened.{Opens, open_envelope-Opens, open_envelope-frame}

module _ {V : Type 0} (a : Api V) (r : RestCrates) where
  -- If the request is accepted, its signature was verified, and its reading handed on as such.
  abbrev Vouched :
      Visit → Result Bool → Option DeviceReading → Sinks → StatusCode × RestState V → Type 0
  Vouched m verdict o sinks x =
      x.0 ≡ accepted
      → (verdict ≡ ok true)
        × (reading : DeviceReading) × (o ≡ some reading)
        × (x.1.edge.sinks ≡ (disseminate_reading a.services m.weather reading true sinks).1)

  disseminated-Vouched :
      (m : Visit) (o : Option DeviceReading) (s : RestState V)
      → Vouched m (ok true) o s.edge.sinks (disseminated a r m o true s)
  disseminated-Vouched m none s h = absurd (cc)
  disseminated-Vouched m (some reading) s h = (refl, reading, refl, refl)

  abbrev pub judged :
      Visit
      → Option DeviceReading
      → Result Bool
      → RestState V
      → Option StatusCode
      → StatusCode × RestState V
  judged m o verdict s status = elim status [
    | some code ↦ (code, s)
    | none ↦ disseminated a r m o (is_true a r verdict) s
  ]

  judged-Vouched :
      (m : Visit) (o : Option DeviceReading) (verdict : Result Bool) (s : RestState V)
      → Vouched m verdict o s.edge.sinks (judged m o verdict s (failure_of verdict))
  judged-Vouched m o err s h = absurd (cc)
  judged-Vouched m o (ok false) s h = absurd (cc)
  judged-Vouched m o (ok true) s h = disseminated-Vouched m o s h

  after_verdict-Vouched :
      (m : Visit) (o : Option DeviceReading) (verdict : Result Bool) (s : RestState V)
      → a.env.require_secure ≡ true
      → Vouched m verdict o s.edge.sinks (after_verdict a r m o verdict s)
  after_verdict-Vouched m o verdict s secure =
      let enforced : signature_enforcement_disabled a.allow_unverified a.env ≡ false =
        ground (arith, secure) in
      subst
        (λ b.
          Vouched m verdict o s.edge.sinks (judged m o verdict s (sig_failure_status verdict b)))
        (sym enforced) (judged-Vouched m o verdict s)

  past_protocol-Vouched :
      (m : Visit) (protocol id : Text) (payload : Value) (s : RestState V)
      → a.env.require_secure ≡ true
      → Vouched m
          (verify_rest_signature a r m.call id payload s.edge.pubs).0
          (rest_reading r m protocol id payload)
          s.edge.sinks
          (past_protocol a r m protocol id payload s)
  past_protocol-Vouched m protocol id payload s secure =
      let no_bypass : (protocol == codes "simulator" && not a.env.require_secure) ≡ false =
        ground (arith, secure) in
      let (verdict, pubs) = verify_rest_signature a r m.call id payload s.edge.pubs in
      let s' = record s { edge = record s.edge { pubs = pubs } } in
      subst
        (λ b. Vouched m verdict (rest_reading r m protocol id payload) s.edge.sinks (
          if b
          then disseminated a r m (rest_reading r m protocol id payload) true s
          else after_verdict a r m (rest_reading r m protocol id payload) verdict s'))
        (sym no_bypass)
        (after_verdict-Vouched m (rest_reading r m protocol id payload) verdict s' secure)

  past_decryption-Vouched :
      (m : Visit) (q : PrivateNetworkPayload) (s : RestState V)
      → a.env.require_secure ≡ true
      → Vouched m
          (verify_rest_signature a r m.call q.device_id q.payload s.edge.pubs).0
          (rest_reading r m (resolve_protocol r q.protocol) q.device_id q.payload)
          s.edge.sinks
          (past_decryption a r m true q s)
  unfolding past_decryption
  past_decryption-Vouched m q s secure =
      let protocol = resolve_protocol r q.protocol in
      let P : StatusCode × RestState V → Type 0 =
        Vouched m (verify_rest_signature a r m.call q.device_id q.payload s.edge.pubs).0
          (rest_reading r m protocol q.device_id q.payload) s.edge.sinks in
      let past = λ (b : Bool).
        if b then past_protocol a r m protocol q.device_id q.payload s else (bad_request, s) in
      subst
        (λ b. P (elim (secure_mode_gate b true) [
          | some code ↦ (code, s)
          | none ↦ past (is_supported_protocol protocol)
        ]))
        (sym secure)
        (elim (Bool-cases (is_supported_protocol protocol)) [
          | inl known ↦
              subst (λ b. P (past b)) (sym known)
                (past_protocol-Vouched m protocol q.device_id q.payload s secure)
          | inr unknown ↦ subst (λ b. P (past b)) (sym unknown) (λ h. absurd (cc))
        ])

  abbrev pub gated :
      RestState V → StatusCode × RestState V → Option StatusCode → StatusCode × RestState V
  gated s past status = elim status [ some code ↦ (code, s) | none ↦ past ]

  past_decryption_refuses :
      (m : Visit) (q : PrivateNetworkPayload) (s : RestState V)
      → a.env.require_secure ≡ true
      → (past_decryption a r m false q s).0 ≢ accepted
  unfolding past_decryption
  past_decryption_refuses m q s secure =
      let protocol = resolve_protocol r q.protocol in
      let past =
        if is_supported_protocol protocol
        then past_protocol a r m protocol q.device_id q.payload s
        else (bad_request, s) in
      subst (λ b. (gated s past (secure_mode_gate b false)).0 ≢ accepted) (sym secure) (λ h. cc)

  pub decrypted-accepted :
      (m : Visit) (q : PrivateNetworkPayload) (x : DecryptOutcome × RestState V)
      → (decrypted a r m q x).0 ≡ accepted
      → (v : Value) × (x.0 ≡ recovered v)
        × (decrypted a r m q x
            ≡ past_decryption a r m true (record q { payload = v; protocol = codes "dlms" }) x.1)
  decrypted-accepted m q (bad, s) h = absurd (cc)
  decrypted-accepted m q (replay, s) h = absurd (cc)
  decrypted-accepted m q (recovered v, s) h = (v, refl, refl)

  -- The value of the request, with the evidence that it comes from the device.
  abbrev pub Evidence :
      (ℕ → Store) → ℕ → Visit → Fate → PrivateNetworkPayload → RestState V → RestState V → Type 0
  Evidence past now m fate q s s' =
      (v : Value) × (target : Text) × (sig : Text) × (reading : DeviceReading) × Opens a r fate
        m.call q.device_id q.payload s v
      × In target (signed_forms r q.device_id v)
      × Signed a.crates a.pubkeys past now q.device_id target sig
      × (rest_reading r m (resolve_protocol r (codes "dlms")) q.device_id v ≡ some reading)
      × (s'.edge.sinks ≡ (disseminate_reading a.services m.weather reading true s.edge.sinks).1)

  encrypted-Evidence :
      (past : ℕ → Store) (now : ℕ) (faults : Faults) (m : Visit) (fate : Fate)
      (q : PrivateNetworkPayload) (s : RestState V)
      → a.env.require_secure ≡ true
      → m.call ≡ at a.crates a.pubkeys past now faults
      → AllDated a.crates a.pubkeys past now s.edge.pubs
      → (decrypted a r m q (decrypt_dlms_envelope a r fate m.call q.device_id q.payload s)).0
        ≡ accepted
      → Evidence past now m fate q s
          (decrypted a r m q (decrypt_dlms_envelope a r fate m.call q.device_id q.payload s)).1
  unfolding decrypt_dlms_envelope verify_rest_signature
  encrypted-Evidence past now faults m fate q s secure here dated h =
      let x = open_envelope a r fate m.call q.device_id (parse_envelope r q.payload) s in
      let (v, is_v, past_it) = decrypted-accepted m q x h in
      let (sinks, pubs) =
        open_envelope-frame a r fate m.call q.device_id (parse_envelope r q.payload) s in
      let q' = record q { payload = v; protocol = codes "dlms" } in
      let (verified, reading, is_reading, published) =
        past_decryption-Vouched m q' x.1 secure (ap (λ y. y.0) (sym past_it) ∙ h) in
      let sig = unwrap_or (text_at r (codes "signature") v) [] in
      let signed : SignedIn a past now q.device_id sig (signed_forms r q.device_id v) (ok true) =
        subst (SignedIn a past now q.device_id sig (signed_forms r q.device_id v))
          (ap
              (λ call.
                (try_candidates a call q.device_id sig (signed_forms r q.device_id v)
                  x.1.edge.pubs).0)
              (sym here)
            ∙ verified)
          (try_candidates-SignedIn a past now faults q.device_id sig (signed_forms r q.device_id v)
            x.1.edge.pubs (subst (AllDated a.crates a.pubkeys past now) (sym pubs) dated)).1 in
      let (target, there, its) = signed in
      (
        v,
        target,
        sig,
        reading,
        open_envelope-Opens a r fate m.call q.device_id q.payload (parse_envelope r q.payload) s v
            refl is_v,
        there,
        its,
        is_reading,
        ap (λ y. y.1.edge.sinks) past_it
            ∙ published
            ∙ ap (λ t. (disseminate_reading a.services m.weather reading true t).1) sinks,
      )

  -- In secure mode, with a cache of public keys no older than their lifetimes, a single REST request is accepted only if its
  -- payload is an envelope that opens under the key that the registry gives for the device, bound to the device and to a
  -- counter that Redis accepted, and a key that Redis held for the device no longer ago than the positive lifetime
  -- verifies a signature over a signed form of the value inside; and what the sinks get is the reading of that value.
  pub accepted_in_secure_mode :
      (past : ℕ → Store) (now : ℕ) (faults : Faults) (m : Visit) (fate : Fate)
      (q : PrivateNetworkPayload) (s : RestState V)
      → a.env.require_secure ≡ true
      → m.call ≡ at a.crates a.pubkeys past now faults
      → AllDated a.crates a.pubkeys past now s.edge.pubs
      → (ingest_private_network a r m fate q s).0 ≡ accepted
      → Evidence past now m fate q s (ingest_private_network a r m fate q s).1
  unfolding ingest_private_network
  accepted_in_secure_mode past now faults m fate q s secure here dated =
      let way = λ (b : Bool).
        if b
        then decrypted a r m q (decrypt_dlms_envelope a r fate m.call q.device_id q.payload s)
        else past_decryption a r m false q s in
      elim (Bool-cases (r.to_lowercase q.protocol == codes "dlms-enc")) [
        | inl encrypted ↦
            subst (λ b. (way b).0 ≡ accepted → Evidence past now m fate q s (way b).1)
              (sym encrypted) (encrypted-Evidence past now faults m fate q s secure here dated)
        | inr plain ↦
            subst (λ b. (way b).0 ≡ accepted → Evidence past now m fate q s (way b).1) (sym plain)
              (λ h. absurd (past_decryption_refuses m q s secure h))
      ]
