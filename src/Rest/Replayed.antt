-- ===== src/Rest/Replayed.antt =====
-- An encrypted REST request is not accepted twice (crates/aggregator-api/src/handlers.rs).
use gridtokenx_aggregator_br.Base.{
  ℕ, ◌≡◌, ◌≢◌, refl, sym, ap, ◌∙◌, subst, Bool, true, false, Option, none, some, List, [], ◌∷◌,
  if◌then◌else◌, ◌==◌, nat_eq, list_eq,
}
use gridtokenx_aggregator_br.Base.Int.{ℤ, ◌≤ℤ◌}
use gridtokenx_aggregator_br.Base.Text.{codes}
use gridtokenx_aggregator_br.Billing.Bin.{Text}
use gridtokenx_aggregator_br.Edge.Requests.{Api}
use gridtokenx_aggregator_br.Edge.Unified.{Visit}
use gridtokenx_aggregator_br.Keys.Cache.{Result, ok, err}
use gridtokenx_aggregator_br.Keys.Counter.{
  check_and_bump_counter, Reached, Reached-bump, Reached-refuses,
}
use gridtokenx_aggregator_br.Keys.Registry.{Key}
use gridtokenx_aggregator_br.Redis.{Fate, applied, refused, reply_lost}
use gridtokenx_aggregator_br.Rest.Values.{
  RestCrates, PrivateNetworkPayload, accepted, Envelope, recovered, parse_envelope, aad,
}
use gridtokenx_aggregator_br.Rest.{
  RestState, envelope_key, opened, with_aes_key, open_envelope, decrypt_dlms_envelope,
  past_decryption, decrypted, ingest_private_network,
}
use gridtokenx_aggregator_br.Rest.Opened.{counted-recovered, Opens, open_envelope-Opens}
use gridtokenx_aggregator_br.Rest.Secure.{decrypted-accepted}
use gridtokenx_aggregator_br.Stream.Readings.{Value}
use gridtokenx_aggregator_br.Rest.Counted.{decrypted-counters, ingest-Reached}

module _ {V : Type 0} (a : Api V) (r : RestCrates) where
  -- Requests one after another, each with the fate of its counter's command.
  unfoldable pub ingest_run :
      List (Visit × Fate × PrivateNetworkPayload) → RestState V → RestState V
  unfolding ingest_private_network
  ingest_run [] s = s
  ingest_run ((m, fate, q) ∷ requests) s =
      ingest_run requests (ingest_private_network a r m fate q s).1

  ingest_run-Reached :
      (requests : List (Visit × Fate × PrivateNetworkPayload)) (s : RestState V) (id : Text) (n : ℤ)
      → Reached r.doubles id n s.counters
      → Reached r.doubles id n (ingest_run requests s).counters
  unfolding ingest_run
  ingest_run-Reached [] s id n h = h
  ingest_run-Reached ((m, fate, q) ∷ requests) s id n h =
      ingest_run-Reached requests (ingest_private_network a r m fate q s).1 id n
        (ingest-Reached a r m fate q s id n h)

  bumped_Reached :
      (fate : Fate) (id : Text) (n : ℤ) (s : RestState V)
      → (check_and_bump_counter r.doubles fate id n s.counters).0 ≡ ok true
      → Reached r.doubles id n (check_and_bump_counter r.doubles fate id n s.counters).1
  unfolding check_and_bump_counter
  bumped_Reached applied id n s h = Reached-bump r.doubles id n s.counters
  bumped_Reached refused id n s h = absurd (cc)
  bumped_Reached reply_lost id n s h = absurd (cc)

  opened_recovered-Reached :
      (fate : Fate) (id : Text) (n : ℤ) (o : Option (List ℕ)) (s : RestState V) (v : Value)
      → (opened a r fate id n o s).0 ≡ recovered v
      → Reached r.doubles id n (opened a r fate id n o s).1.counters
  opened_recovered-Reached fate id n none s v h = absurd (cc)
  opened_recovered-Reached fate id n (some p) s v h =
      bumped_Reached fate id n s
        (counted-recovered a r (check_and_bump_counter r.doubles fate id n s.counters).0 p v h).0

  with_aes_key_recovered-Reached :
      (fate : Fate) (id : Text) (e : Envelope) (key : Result (Option Key)) (s : RestState V)
      (v : Value)
      → (with_aes_key a r fate id e key s).0 ≡ recovered v
      → Reached r.doubles id e.counter (with_aes_key a r fate id e key s).1.counters
  with_aes_key_recovered-Reached fate id e err s v h = absurd (cc)
  with_aes_key_recovered-Reached fate id e (ok none) s v h = absurd (cc)
  with_aes_key_recovered-Reached fate id e (ok (some k)) s v h =
      opened_recovered-Reached fate id e.counter
        (r.decrypt k e.nonce (aad r id e.counter) e.ciphertext) s v h

  -- An accepted encrypted request is one whose envelope was opened.
  accepted_encrypted :
      (m : Visit) (fate : Fate) (q : PrivateNetworkPayload) (s : RestState V)
      → (r.to_lowercase q.protocol == codes "dlms-enc") ≡ true
      → (ingest_private_network a r m fate q s).0 ≡ accepted
      → (v : Value) × ((open_envelope a r fate m.call q.device_id (parse_envelope r q.payload) s).0
          ≡ recovered v)
        × ((ingest_private_network a r m fate q s).1.counters
            ≡ (open_envelope a r fate m.call q.device_id (parse_envelope r q.payload) s).1.counters)
  unfolding ingest_private_network decrypt_dlms_envelope
  accepted_encrypted m fate q s encrypted h =
      let x = open_envelope a r fate m.call q.device_id (parse_envelope r q.payload) s in
      let way = λ (b : Bool). if b then decrypted a r m q x else past_decryption a r m false q s in
      let taken : way (r.to_lowercase q.protocol == codes "dlms-enc") ≡ decrypted a r m q x =
        ap way encrypted in
      let (v, is_v, _) = decrypted-accepted a r m q x (ap (λ y. y.0) (sym taken) ∙ h) in
      (v, is_v, ap (λ y. y.1.counters) taken ∙ decrypted-counters a r m q x)

  -- Once an encrypted request has been accepted, no encrypted request of the same device whose envelope has the same counter or
  -- a smaller one is accepted, whatever requests of any devices come between, and whatever becomes of the counters'
  -- commands.
  pub replay_not_accepted :
      (m m' : Visit) (fate fate' : Fate) (q q' : PrivateNetworkPayload) (e e' : Envelope)
      (requests : List (Visit × Fate × PrivateNetworkPayload)) (s : RestState V)
      → (r.to_lowercase q.protocol == codes "dlms-enc") ≡ true
      → (r.to_lowercase q'.protocol == codes "dlms-enc") ≡ true
      → q'.device_id ≡ q.device_id
      → parse_envelope r q.payload ≡ some e
      → parse_envelope r q'.payload ≡ some e'
      → e'.counter ≤ℤ e.counter
      → (ingest_private_network a r m fate q s).0 ≡ accepted
      → (ingest_private_network a r m' fate' q'
          (ingest_run requests (ingest_private_network a r m fate q s).1)).0
        ≢ accepted
  replay_not_accepted m m' fate fate' q q' e e' requests s enc enc' same is_e is_e' le h again =
      let (v, is_v, counters) = accepted_encrypted m fate q s enc h in
      let s1 = (ingest_private_network a r m fate q s).1 in
      let s2 = ingest_run requests s1 in
      let (v', is_v', _) = accepted_encrypted m' fate' q' s2 enc' again in
      let first : Reached r.doubles q.device_id e.counter s1.counters =
        subst (Reached r.doubles q.device_id e.counter) (sym counters) (
          subst
            (λ o.
              Reached r.doubles q.device_id e.counter
                (open_envelope a r fate m.call q.device_id o s).1.counters)
            (sym is_e) (opened_by e is_e v is_v)) in
      let o : Opens a r fate' m'.call q'.device_id q'.payload s2 v' =
        open_envelope-Opens a r fate' m'.call q'.device_id q'.payload (parse_envelope r q'.payload)
          s2 v' refl is_v' in
      let is_it : some o.envelope ≡ some e' = sym o.is_envelope ∙ is_e' in
      let same_e : o.envelope ≡ e' = cc in
      let fresh =
        subst (λ n. (check_and_bump_counter r.doubles fate' q'.device_id n s2.counters).0 ≡ ok true)
          (ap (λ x. x.counter) same_e) o.is_fresh in
      Reached-refuses r.doubles fate' q'.device_id e.counter e'.counter s2.counters le
        (subst (λ id. Reached r.doubles id e.counter s2.counters) (sym same)
          (ingest_run-Reached requests s1 q.device_id e.counter first))
        fresh
    where
      opened_by :
          (env : Envelope)
          → parse_envelope r q.payload ≡ some env
          → (w : Value)
          → (open_envelope a r fate m.call q.device_id (parse_envelope r q.payload) s).0
            ≡ recovered w
          → Reached r.doubles q.device_id env.counter
              (open_envelope a r fate m.call q.device_id (some env) s).1.counters
      opened_by env is_env w is_w =
          let (key, s') = envelope_key a r m.call q.device_id env.kid s in
          with_aes_key_recovered-Reached fate q.device_id env key s' w
            (ap (λ o. (open_envelope a r fate m.call q.device_id o s).0) (sym is_env) ∙ is_w)
