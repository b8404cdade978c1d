-- ===== src/Rest/Opened.antt =====
-- What an envelope that a REST handler of crates/aggregator-api/src/handlers.rs opened went through.
use gridtokenx_aggregator_br.Base.{
  ℕ, ◌≡◌, refl, ap, ◌∙◌, subst, Bool, true, false, Option, none, some, List, inl, inr, Option-cases,
  nat_eq, list_eq, arith,
}
use gridtokenx_aggregator_br.Base.Int.{ℤ}
use gridtokenx_aggregator_br.Billing.Bin.{Text}
use gridtokenx_aggregator_br.Edge.Requests.{Api}
use gridtokenx_aggregator_br.Keys.Cache.{Result, ok, err}
use gridtokenx_aggregator_br.Keys.Counter.{check_and_bump_counter}
use gridtokenx_aggregator_br.Keys.Registry.{Key}
use gridtokenx_aggregator_br.Keys.Verifier.{Call}
use gridtokenx_aggregator_br.Redis.{Fate}
use gridtokenx_aggregator_br.Rest.Values.{RestCrates, Envelope, recovered, parse_envelope, aad}
use gridtokenx_aggregator_br.Rest.{
  RestState, envelope_key, counted, opened, with_aes_key, open_envelope,
}
use gridtokenx_aggregator_br.Stream.Readings.{Value}

module _ {V : Type 0} (a : Api V) (r : RestCrates) where
  -- The payload is an envelope that opens, under the key that the registry gives for the device and bound to the device and
  -- the counter, to the value; and the counter is accepted.
  pub record Opens (fate : Fate) (call : Call) (id : Text) (payload : Value) (s : RestState V)
      (v : Value) : Type 0 where
    pub envelope : Envelope
    pub is_envelope : parse_envelope r payload ≡ some envelope
    pub key : Key
    pub is_key : (envelope_key a r call id envelope.kid s).0 ≡ ok (some key)
    pub plaintext : List ℕ
    pub decrypts :
        r.decrypt key envelope.nonce (aad r id envelope.counter) envelope.ciphertext
        ≡ some plaintext
    pub is_fresh :
        (check_and_bump_counter r.doubles fate id envelope.counter s.counters).0 ≡ ok true
    pub is_value : r.from_slice plaintext ≡ some v

  pub counted-recovered :
      (verdict : Result Bool) (p : List ℕ) (v : Value)
      → counted a r verdict p ≡ recovered v
      → (verdict ≡ ok true) × (r.from_slice p ≡ some v)
  counted-recovered err p v h = absurd (cc)
  counted-recovered (ok false) p v h = absurd (cc)
  counted-recovered (ok true) p v h = elim (Option-cases (r.from_slice p)) [
    | inl not_json ↦ absurd (ground (arith, h, not_json))
    | inr (w, is_w) ↦ let same : w ≡ v = ground (arith, h, is_w) in (refl, is_w ∙ ap some same)
  ]

  opened-recovered :
      (fate : Fate) (id : Text) (counter : ℤ) (o : Option (List ℕ)) (s : RestState V) (v : Value)
      → (opened a r fate id counter o s).0 ≡ recovered v
      → (p : List ℕ) × (o ≡ some p)
        × ((check_and_bump_counter r.doubles fate id counter s.counters).0 ≡ ok true)
        × (r.from_slice p ≡ some v)
  opened-recovered fate id counter none s v h = absurd (cc)
  opened-recovered fate id counter (some p) s v h =
      let (fresh, value) =
        counted-recovered (check_and_bump_counter r.doubles fate id counter s.counters).0 p v h in
      (p, refl, fresh, value)

  pub envelope_key-counters :
      (call : Call) (id : Text) (kid : Option ℤ) (s : RestState V)
      → (envelope_key a r call id kid s).1.counters ≡ s.counters
  envelope_key-counters call id none s = refl
  envelope_key-counters call id (some kid) s = refl

  envelope_key-sinks :
      (call : Call) (id : Text) (kid : Option ℤ) (s : RestState V)
      → ((envelope_key a r call id kid s).1.edge.sinks ≡ s.edge.sinks)
        × ((envelope_key a r call id kid s).1.edge.pubs ≡ s.edge.pubs)
  envelope_key-sinks call id none s = (refl, refl)
  envelope_key-sinks call id (some kid) s = (refl, refl)

  with_aes_key-recovered :
      (fate : Fate) (id : Text) (e : Envelope) (key : Result (Option Key)) (s : RestState V)
      (v : Value)
      → (with_aes_key a r fate id e key s).0 ≡ recovered v
      → (k : Key) × (key ≡ ok (some k))
        × (p : List ℕ) × (r.decrypt k e.nonce (aad r id e.counter) e.ciphertext ≡ some p)
        × ((check_and_bump_counter r.doubles fate id e.counter s.counters).0 ≡ ok true)
        × (r.from_slice p ≡ some v)
  with_aes_key-recovered fate id e err s v h = absurd (cc)
  with_aes_key-recovered fate id e (ok none) s v h = absurd (cc)
  with_aes_key-recovered fate id e (ok (some k)) s v h =
      let (p, opens, fresh, value) =
        opened-recovered fate id e.counter (r.decrypt k e.nonce (aad r id e.counter) e.ciphertext) s
          v h in
      (k, refl, p, opens, fresh, value)

  pub open_envelope-Opens :
      (fate : Fate) (call : Call) (id : Text) (payload : Value) (o : Option Envelope)
      (s : RestState V) (v : Value)
      → parse_envelope r payload ≡ o
      → (open_envelope a r fate call id o s).0 ≡ recovered v
      → Opens fate call id payload s v
  open_envelope-Opens fate call id payload none s v e h = absurd (cc)
  open_envelope-Opens fate call id payload (some env) s v e h =
      let (k, is_k, p, opens, fresh, value) =
        with_aes_key-recovered fate id env (envelope_key a r call id env.kid s).0
          (envelope_key a r call id env.kid s).1 v h in
      record {
        envelope = env;
        is_envelope = e;
        key = k;
        is_key = is_k;
        plaintext = p;
        decrypts = opens;
        is_fresh =
            subst (λ ics. (check_and_bump_counter r.doubles fate id env.counter ics).0 ≡ ok true)
              (envelope_key-counters call id env.kid s) fresh;
        is_value = value;
      }

  with_aes_key-frame :
      (fate : Fate) (id : Text) (e : Envelope) (key : Result (Option Key)) (s : RestState V)
      → (with_aes_key a r fate id e key s).1.edge ≡ s.edge
  with_aes_key-frame fate id e err s = refl
  with_aes_key-frame fate id e (ok none) s = refl
  with_aes_key-frame fate id e (ok (some k)) s =
      elim (Option-cases (r.decrypt k e.nonce (aad r id e.counter) e.ciphertext)) [
        | inl sealed ↦ rw (sealed, opened) refl
        | inr (p, opens) ↦ rw (opens, opened) refl
      ]

  pub open_envelope-frame :
      (fate : Fate) (call : Call) (id : Text) (o : Option Envelope) (s : RestState V)
      → ((open_envelope a r fate call id o s).1.edge.sinks ≡ s.edge.sinks)
        × ((open_envelope a r fate call id o s).1.edge.pubs ≡ s.edge.pubs)
  open_envelope-frame fate call id none s = (refl, refl)
  open_envelope-frame fate call id (some e) s =
      let (key, s') = envelope_key a r call id e.kid s in
      let same = with_aes_key-frame fate id e key s' in
      let (sinks, pubs) = envelope_key-sinks call id e.kid s in
      (ap (λ t. t.sinks) same ∙ sinks, ap (λ t. t.pubs) same ∙ pubs)
