-- ===== src/Rest/Checked.antt =====
-- Which items of a REST batch are disseminated (crates/aggregator-api/src/handlers.rs).
use gridtokenx_aggregator_br.Base.{
  ℕ, suc, ◌≡◌, refl, sym, subst, Bool, true, false, Option, none, some, List, [], ◌∷◌, ◌⊎◌, inl,
  inr, All, In, Bool-cases, if◌then◌else◌, nat_eq, list_eq, arith,
}
use gridtokenx_aggregator_br.Base.Text.{codes}
use gridtokenx_aggregator_br.Billing.Bin.{Text, unwrap_or}
use gridtokenx_aggregator_br.Edge.Requests.{Api, try_candidates}
use gridtokenx_aggregator_br.Edge.Signed.{SignedIn, try_candidates-SignedIn}
use gridtokenx_aggregator_br.Edge.Unified.{Visit, signature_enforcement_disabled}
use gridtokenx_aggregator_br.Keys.Cache.{Result, ok, err, Faults, Store, PrunedCache}
use gridtokenx_aggregator_br.Keys.Latency.{AllDated, Signed, at}
use gridtokenx_aggregator_br.Rest.Values.{RestCrates, text_at, signed_forms, rest_reading}
use gridtokenx_aggregator_br.Rest.{verify_rest_signature, is_true}
use gridtokenx_aggregator_br.Rest.Batch.{
  batch_device, passes, bypasses, add_reading, item_verdict, collect_readings,
}
use gridtokenx_aggregator_br.Stream.Readings.{Value, DeviceReading}

module _ {V : Type 0} (a : Api V) (r : RestCrates) (past : ℕ → Store) (now : ℕ) where
  -- A signature of the device over a signed form of the item, under a key that Redis recently held.
  abbrev pub ItemSigned : Value → Type 0
  ItemSigned item =
      (target : Text) × (sig : Text) × In target (signed_forms r (batch_device r item) item)
      × Signed a.crates a.pubkeys past now (batch_device r item) target sig

  -- The reading is that of an item which is signed, or of the simulator's outside secure mode.
  abbrev pub OfChecked : Text → Visit × DeviceReading → Type 0
  OfChecked protocol x =
      (item : Value) × (rest_reading r x.0 protocol (batch_device r item) item ≡ some x.1)
      × (ItemSigned item ⊎ ((protocol ≡ codes "simulator") × (a.env.require_secure ≡ false)))

  signed_verdict :
      (item : Value) (sig : Text) (verdict : Result Bool)
      → SignedIn a past now
          (batch_device r item)
          sig
          (signed_forms r (batch_device r item) item)
          verdict
      → is_true a r verdict ≡ true
      → ItemSigned item
  signed_verdict item sig err h e = absurd (cc)
  signed_verdict item sig (ok false) h e = absurd (cc)
  signed_verdict item sig (ok true) (target, there, its) e = (target, sig, there, its)

  -- What the verdict on an item is worth.
  abbrev Worth : Text → Value → Bool × PrunedCache V → Type 0
  Worth protocol item x =
      AllDated a.crates a.pubkeys past now x.1
      × (x.0 ≡ true
          → ItemSigned item ⊎ ((protocol ≡ codes "simulator") × (a.env.require_secure ≡ false)))

  item_verdict-Worth :
      (faults : Faults) (m : Visit) (protocol : Text) (item : Value) (c : PrunedCache V)
      → m.call ≡ at a.crates a.pubkeys past now faults
      → AllDated a.crates a.pubkeys past now c
      → Worth protocol item (item_verdict a r m protocol item c)
  unfolding verify_rest_signature
  item_verdict-Worth faults m protocol item c here dated =
      elim (Bool-cases (bypasses a r protocol)) [
        | inl bypass ↦
            subst (λ b. Worth protocol item (way b)) (sym bypass)
              (dated, λ e. inr (simulated bypass))
        | inr none_taken ↦
            subst (λ b. Worth protocol item (way b)) (sym none_taken)
              (ladder.0, λ e. inl (signed_verdict item sig x.0 ladder.1 e))
      ]
    where
      sig : Text
      sig = unwrap_or (text_at r (codes "signature") item) []

      x : Result Bool × PrunedCache V
      x =
          try_candidates a m.call (batch_device r item) sig
            (signed_forms r (batch_device r item) item) c

      way : Bool → Bool × PrunedCache V
      way b = if b then (true, c) else (is_true a r x.0, x.1)

      simulated :
          bypasses a r protocol ≡ true
          → (protocol ≡ codes "simulator") × (a.env.require_secure ≡ false)
      simulated e =
          ((list_eq.same_iff protocol (codes "simulator")).0 (ground (arith, e)), ground (arith, e))

      ladder :
          AllDated a.crates a.pubkeys past now x.1
          × SignedIn a past now
              (batch_device r item)
              sig
              (signed_forms r (batch_device r item) item)
              x.0
      ladder =
          subst
            (λ call.
              AllDated a.crates a.pubkeys past now
                (try_candidates a call (batch_device r item) sig
                  (signed_forms r (batch_device r item) item) c).1
              × SignedIn a past now (batch_device r item) sig
                  (signed_forms r (batch_device r item) item)
                  (try_candidates a call (batch_device r item) sig
                    (signed_forms r (batch_device r item) item) c).0)
            (sym here)
            (try_candidates-SignedIn a past now faults (batch_device r item) sig
              (signed_forms r (batch_device r item) item) c dated)

  add_reading-OfChecked :
      (m : Visit) (protocol : Text) (item : Value) (o : Option DeviceReading)
      (readings : List (Visit × DeviceReading))
      → rest_reading r m protocol (batch_device r item) item ≡ o
      → ItemSigned item ⊎ ((protocol ≡ codes "simulator") × (a.env.require_secure ≡ false))
      → All (OfChecked protocol) readings
      → All (OfChecked protocol) (add_reading a r m o readings)
  add_reading-OfChecked m protocol item none readings e worth h = h
  add_reading-OfChecked m protocol item (some reading) readings e worth h = ((item, e, worth), h)

  -- Unless unverified telemetry is allowed, and with a cache of public keys no older than their lifetimes, a batch handled at
  -- one instant disseminates only readings of items that are signed, or of the simulator's outside secure mode.
  -- Signed: a key that Redis held for the device no longer ago than the positive lifetime verifies a signature over
  -- a signed form of the item.
  pub collect_readings-OfChecked :
      (faults : ℕ → Faults) (visits : ℕ → Visit) (i : ℕ) (protocol : Text) (items : List Value)
      (c : PrunedCache V)
      → ((k : ℕ) → (visits k).call ≡ at a.crates a.pubkeys past now (faults k))
      → signature_enforcement_disabled a.allow_unverified a.env ≡ false
      → AllDated a.crates a.pubkeys past now c
      → All (OfChecked protocol) (collect_readings a r visits i protocol items c).0
  unfolding collect_readings
  collect_readings-OfChecked faults visits i protocol [] c here enforced dated = tt
  collect_readings-OfChecked faults visits i protocol (item ∷ items) c here enforced dated =
      let (left, worth) = item_verdict-Worth (faults i) (visits i) protocol item c (here i) dated in
      let (verified, c') = item_verdict a r (visits i) protocol item c in
      let o = rest_reading r (visits i) protocol (batch_device r item) item in
      let readings = (collect_readings a r visits (suc i) protocol items c').0 in
      let rest =
        collect_readings-OfChecked faults visits (suc i) protocol items c' here enforced left in
      let way = λ (b : Bool). if b then add_reading a r (visits i) o readings else readings in
      elim (Bool-cases verified) [
        | inl yes_it ↦
            let pass : passes a r verified ≡ true = ground (arith, yes_it) in
            subst (λ b. All (OfChecked protocol) (way b)) (sym pass)
              (add_reading-OfChecked (visits i) protocol item o readings refl (worth yes_it) rest)
        | inr not_it ↦
            let stop : passes a r verified ≡ false = ground (arith, not_it, enforced) in
            subst (λ b. All (OfChecked protocol) (way b)) (sym stop) rest
      ]
