-- ===== src/Router/Delivery.antt =====
-- What a dissemination leaves in the zone's stream (crates/aggregator-logic/src/router.rs), and that the zone ingester
-- (crates/aggregator-api/src/ingester/zone_ingester.rs) reads it back.
use gridtokenx_aggregator_br.Base.{
  ℕ, zero, suc, ◌+◌, ◌≤◌, ◌<◌, ◌≡◌, ◌↔◌, ◌⊎◌, refl, sym, ap, ◌∙◌, Bool, true, false, not, some,
  List, [], ◌∷◌, ◌++◌, append-nil, append_assoc, inl, inr, Bool-cases, Option-cases, if◌then◌else◌,
  ◌==◌, nat_eq, list_eq, list_beq_iff, arith,
}
use gridtokenx_aggregator_br.Base.Dict.{Dict, insert, lookup-insert}
use gridtokenx_aggregator_br.Billing.Bin.{Text}
use gridtokenx_aggregator_br.Redis.{Fate, applied, refused, reply_lost, takes_effect}
use gridtokenx_aggregator_br.Stream.Readings.{target_stream, DeviceReading}
use gridtokenx_aggregator_br.Router.Points.{Numbers, reading_to_point, reading_to_row}
use gridtokenx_aggregator_br.Router.{
  calculate_zone_index, zone_stream, Codec, RouterSettings, RouterState, Weather, Disseminated,
  sent, failed, entries, xadd, encode, record_point, record_row, after_zone, is_ok, retry, publish,
  publish_encoded, disseminate,
}

abbrev pub replicate : {A : Type 0} → ℕ → A → List A
replicate zero a = []
replicate (suc n) a = a ∷ replicate n a

zero_add : (n : ℕ) → n ≡ 0 + n
zero_add n = omega arith

suc_add : (m n : ℕ) → suc (m + n) ≡ suc m + n
suc_add m n = omega arith

replicate-add :
    {A : Type 0} (m n : ℕ) (a : A) → replicate m a ++ replicate n a ≡ replicate (m + n) a
replicate-add zero n a = ap (λ k. replicate k a) (zero_add n)
replicate-add (suc m) n a =
    ap (λ l. a ∷ l) (replicate-add m n a) ∙ ap (λ k. replicate k a) (suc_add m n)

-- How many entries a command adds.
abbrev pub effect : Fate → ℕ
effect fate = if takes_effect fate then 1 else 0

-- The copies that the two attempts leave in the zone's stream.
abbrev pub copies : Weather → ℕ
copies w =
    if is_ok w.zone_add
    then 1
    else effect w.zone_add + (if w.reconnects then effect w.zone_add_again else 0)

-- One of the two attempts is answered.
abbrev pub Answered : Weather → Type 0
Answered w = (is_ok w.zone_add ≡ true) ⊎ ((w.reconnects ≡ true) × (is_ok w.zone_add_again ≡ true))

effect_of_ok : (fate : Fate) → is_ok fate ≡ true → effect fate ≡ 1
effect_of_ok applied e = refl
effect_of_ok reply_lost e = absurd (ground arith)
effect_of_ok refused e = absurd (ground arith)

entries-insert :
    (name other : Text) (v : List Text) (streams : Dict Text (List Text))
    → entries other (insert name v streams) ≡ (if name == other then v else entries other streams)
entries-insert name other v streams = rw (lookup-insert name other v streams) (ground arith)

entries-xadd :
    (fate : Fate) (name json : Text) (s : RouterState)
    → entries name (xadd fate name json s).streams
      ≡ entries name s.streams ++ replicate (effect fate) json
unfolding xadd
entries-xadd applied name json s =
    entries-insert name name _ s.streams ∙ rw ((list_beq_iff nat_eq name name).1 refl) refl
entries-xadd reply_lost name json s =
    entries-insert name name _ s.streams ∙ rw ((list_beq_iff nat_eq name name).1 refl) refl
entries-xadd refused name json s = sym (append-nil (entries name s.streams))

other_xadd :
    (fate : Fate) (name other json : Text) (s : RouterState)
    → (name == other) ≡ false
    → entries other (xadd fate name json s).streams ≡ entries other s.streams
unfolding xadd
other_xadd applied name other json s ne = entries-insert name other _ s.streams ∙ rw ne refl
other_xadd reply_lost name other json s ne = entries-insert name other _ s.streams ∙ rw ne refl
other_xadd refused name other json s ne = refl

guarded_xadd :
    (fate : Fate) (name other json : Text) (s : RouterState)
    → entries other (if not (name == other) then xadd fate name json s else s).streams
      ≡ entries other s.streams
guarded_xadd fate name other json s = elim (Bool-cases (name == other)) [
  | inl same ↦ rw same refl
  | inr differ ↦ rw differ (other_xadd fate name other json s differ)
]

module _ (c : Codec) (nums : Numbers) (settings : RouterSettings) where
  abbrev pub own_stream : DeviceReading → Text
  own_stream r = zone_stream (calculate_zone_index c.hash settings.num_zones r)

  record_row-streams :
      (r : DeviceReading) (s : RouterState) → (record_row c nums settings r s).streams ≡ s.streams
  record_row-streams r s = elim (Bool-cases settings.has_pg_readings) [
    | inl on ↦ elim (Option-cases (reading_to_row nums r)) [
      | inl nothing ↦ rw (on, nothing) refl
      | inr (row, e) ↦ rw (on, e) refl
    ]
    | inr off ↦ rw off refl
  ]

  record_point-streams :
      (r : DeviceReading) (s : RouterState) → (record_point c nums settings r s).streams ≡ s.streams
  record_point-streams r s = elim (Bool-cases settings.has_influx) [
    | inl on ↦ elim (Option-cases (reading_to_point nums r)) [
      | inl nothing ↦ rw (on, nothing) refl
      | inr (point, e) ↦ rw (on, e) refl
    ]
    | inr off ↦ rw off refl
  ]

  -- The commands after the zone's entry leave the zone's stream.
  after_zone-entries :
      (w : Weather) (r : DeviceReading) (json : Text) (s : RouterState)
      → ((after_zone c nums settings w r json s).0 ≡ sent)
        × (entries (own_stream r) (after_zone c nums settings w r json s).1.streams
            ≡ entries (own_stream r) s.streams)
  unfolding after_zone
  after_zone-entries w r json s =
      let s' =
        if not (target_stream r.device_type == own_stream r)
        then xadd w.unified_add (target_stream r.device_type) json s
        else s in
      (
        refl,
        ap (λ streams. entries (own_stream r) streams)
              (record_row-streams r (record_point c nums settings r s') ∙ record_point-streams r s')
            ∙ guarded_xadd w.unified_add (target_stream r.device_type) (own_stream r) json s,
      )

  -- What a dissemination from a state leaves in the zone's stream.
  abbrev Leaves : ℕ → DeviceReading → Text → RouterState → Disseminated × RouterState → Type 0
  Leaves n r json s (result, s') =
      entries (own_stream r) s'.streams ≡ entries (own_stream r) s.streams ++ replicate n json

  retry-Leaves :
      (w : Weather) (r : DeviceReading) (json : Text) (s : RouterState)
      → Leaves
          (if w.reconnects then effect w.zone_add_again else 0)
          r
          json
          s
          (retry c nums settings w r (own_stream r) json s)
        × (((retry c nums settings w r (own_stream r) json s).0 ≡ sent)
            ↔ ((w.reconnects ≡ true) × (is_ok w.zone_add_again ≡ true)))
  unfolding retry
  retry-Leaves w r json s = elim (Bool-cases w.reconnects) [
    | inr down ↦ rw down (sym (append-nil _), ground arith)
    | inl up ↦
        let s' = xadd w.zone_add_again (own_stream r) json (record s { cached = true }) in
        let added =
          entries-xadd w.zone_add_again (own_stream r) json (record s { cached = true }) in
        let (done, same) = after_zone-entries w r json s' in
        elim (Bool-cases (is_ok w.zone_add_again)) [
          | inl good ↦ rw (up, good) (same ∙ added, ((λ q. (refl, refl)), λ q. done))
          | inr bad ↦ rw (up, bad) (added, ground arith)
        ]
  ]

  publish-Leaves :
      (w : Weather) (r : DeviceReading) (json : Text) (s : RouterState)
      → Leaves (copies w) r json s (publish c nums settings w r (own_stream r) json s)
        × (((publish c nums settings w r (own_stream r) json s).0 ≡ sent) ↔ Answered w)
  unfolding publish
  publish-Leaves w r json s =
      let s' = xadd w.zone_add (own_stream r) json s in
      let added = entries-xadd w.zone_add (own_stream r) json s in
      elim (Bool-cases (is_ok w.zone_add)) [
        | inl good ↦
            let (done, same) = after_zone-entries w r json s' in
            rw good (
              same
                  ∙ added
                  ∙ ap (λ n. entries (own_stream r) s.streams ++ replicate n json)
                      (effect_of_ok w.zone_add good),
              ((λ q. inl refl), λ q. done),
            )
        | inr bad ↦
            let (left, answered) = retry-Leaves w r json s' in
            rw bad (
              left
                  ∙ ap
                      (λ l.
                        l ++ replicate (if w.reconnects then effect w.zone_add_again else 0) json)
                      added
                  ∙ append_assoc (entries (own_stream r) s.streams)
                      (replicate (effect w.zone_add) json) _
                  ∙ ap (λ l. entries (own_stream r) s.streams ++ l)
                      (replicate-add (effect w.zone_add) _ json),
              ((λ q. inr (answered.0 q)), λ q. answered.1 (again q)),
            )
      ]
    where
      again :
          (false ≡ true) ⊎ ((w.reconnects ≡ true) × (is_ok w.zone_add_again ≡ true))
          → (w.reconnects ≡ true) × (is_ok w.zone_add_again ≡ true)
      again (inl q) = absurd (ground arith)
      again (inr q) = q

  copies_of_Answered : (w : Weather) → Answered w → 0 < copies w
  copies_of_Answered w (inl first) = rw first (omega arith)
  copies_of_Answered w (inr (up, second)) =
      let one = effect_of_ok w.zone_add_again second in ground arith

  effect_le : (fate : Fate) → effect fate ≤ 1
  effect_le applied = omega arith
  effect_le reply_lost = omega arith
  effect_le refused = omega arith

  copies_le : (w : Weather) → copies w ≤ 2
  copies_le w = ground (arith, effect_le w.zone_add, effect_le w.zone_add_again)

  failed_or_copied :
      (w : Weather) (result : Disseminated)
      → (result ≡ sent) ↔ Answered w
      → (result ≡ failed) ⊎ (0 < copies w)
  failed_or_copied w sent answered = inr (copies_of_Answered w (answered.0 refl))
  failed_or_copied w failed answered = inl refl

  -- What is claimed of a dissemination.
  abbrev pub Disseminates :
      Weather → DeviceReading → Text → RouterState → Disseminated × RouterState → Type 0
  Disseminates w r json s p =
      (entries (own_stream r) p.1.streams
        ≡ entries (own_stream r) s.streams ++ replicate (copies w) json)
      × ((p.0 ≡ sent) ↔ Answered w)
      × ((p.0 ≡ failed) ⊎ (0 < copies w))
      × (copies w ≤ 2)

  publish-Disseminates :
      (w : Weather) (r : DeviceReading) (json : Text) (s : RouterState)
      → Disseminates w r json s (publish c nums settings w r (own_stream r) json s)
  publish-Disseminates w r json s =
      let (left, answered) = publish-Leaves w r json s in
      (left, answered, failed_or_copied w _ answered, copies_le w)

  -- When the reading encodes and a connection is there or can be built: the entry is added to the stream of the
  -- reading's zone as often as the two attempts took effect, whatever becomes of the unified stream; the dissemination
  -- succeeds exactly if one of the two was answered; it fails or leaves a copy, and it never leaves more than two.
  pub disseminate-Disseminates :
      (w : Weather) (r : DeviceReading) (json : Text) (s : RouterState)
      → encode c r ≡ some json
      → (s.cached ≡ true) ⊎ (w.connects ≡ true)
      → Disseminates w r json s (disseminate c nums settings w r s)
  unfolding disseminate
  disseminate-Disseminates w r json s encoded reachable = rw encoded (connected s.cached reachable)
    where
      connected :
          (cached : Bool)
          → (cached ≡ true) ⊎ (w.connects ≡ true)
          → Disseminates w r json s (
              if cached
              then publish_encoded c nums settings w r (some json) s
              else if w.connects
              then publish_encoded c nums settings w r (some json) (record s { cached = true })
              else (failed, s))
      connected true there = publish-Disseminates w r json s
      connected false (inl there) = absurd (ground arith)
      connected false (inr up) = rw up (publish-Disseminates w r json (record s { cached = true }))
