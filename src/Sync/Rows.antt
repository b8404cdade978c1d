-- ===== src/Sync/Rows.antt =====
-- The rows of the offline buffer under its statements (crates/aggregator-persistence/src/storage/circular_buffer.rs).
use gridtokenx_aggregator_br.Base.{
  ℕ, ◌≡◌, ◌⊎◌, inl, inr, refl, ap, ◌∙◌, subst, ◌%◌, Bool, true, false, List, [], ◌∷◌, map, any, In,
  Bool-cases, ◌==◌, nat_eq, arith,
}
use gridtokenx_aggregator_br.Base.Members.{In-keep, In-keep_inv, In-map, In-map_inv}
use gridtokenx_aggregator_br.Billing.Time.{Timestamp}
use gridtokenx_aggregator_br.Sync.{
  Telemetry, CircularBuffer, cleanup, cleanup_due, mark_row, mark_as_synced, StoredReading, stored,
}

any-In : (i : ℕ) (ids : List ℕ) → any (λ j. j == i) ids ≡ true → In i ids
any-In i [] h = cc
any-In i (j ∷ ids) h = elim (Bool-cases (j == i)) [
  | inl same ↦ inl ((nat_eq.same_iff j i).0 same)
  | inr other ↦ inr (any-In i ids (ground arith))
]

-- Each row of the first list is one of the second, but for its mark.
abbrev pub Sub : List Telemetry → List Telemetry → Type 0
Sub xs ys =
    (r : Telemetry) → In r xs → (q : Telemetry) × In q ys × (q.id ≡ r.id) × (stored q ≡ stored r)

-- An unmarked row stores it.
abbrev pub Unsynced : StoredReading → List Telemetry → Type 0
Unsynced x rows = (r : Telemetry) × In r rows × (stored r ≡ x) × (r.synced ≡ false)

pub cleanup-Sub : (now : Timestamp) (b : CircularBuffer) → Sub (cleanup now b).rows b.rows
unfolding cleanup
cleanup-Sub now b r h = (r, In-keep_inv _ r b.rows h, refl, refl)

pub cleanup-Unsynced :
    (now : Timestamp) (b : CircularBuffer) (x : StoredReading)
    → Unsynced x b.rows
    → Unsynced x (cleanup now b).rows
unfolding cleanup
cleanup-Unsynced now b x (r, h, same, unsynced) =
    (r, In-keep _ r b.rows h (ground arith), same, unsynced)

mark_row-id : (ids : List ℕ) (r : Telemetry) → r.id ≡ (mark_row ids r).id
mark_row-id ids r = elim (Bool-cases (any (λ i. i == r.id) ids)) [
  | inl marked ↦ rw (marked, mark_row) refl
  | inr spared ↦ rw (spared, mark_row) refl
]

mark_row-stored : (ids : List ℕ) (r : Telemetry) → stored r ≡ stored (mark_row ids r)
mark_row-stored ids r = elim (Bool-cases (any (λ i. i == r.id) ids)) [
  | inl marked ↦ rw (marked, mark_row) refl
  | inr spared ↦ rw (spared, mark_row) refl
]

mark_rows-Sub : (ids : List ℕ) (rows : List Telemetry) → Sub (map (mark_row ids) rows) rows
mark_rows-Sub ids rows r h =
    let (q, inside, same) = In-map_inv (mark_row ids) r rows h in
    (q, inside, mark_row-id ids q ∙ ap (λ t. t.id) same, mark_row-stored ids q ∙ ap stored same)

pub mark_as_synced-Sub :
    (update_ok : Bool) (ids : List ℕ) (b : CircularBuffer)
    → Sub (mark_as_synced update_ok ids b).1.rows b.rows
unfolding mark_as_synced
mark_as_synced-Sub update_ok [] b r h = (r, h, refl, refl)
mark_as_synced-Sub false (i ∷ ids) b r h = (r, h, refl, refl)
mark_as_synced-Sub true (i ∷ ids) b r h = mark_rows-Sub (i ∷ ids) b.rows r h

-- An unmarked row stays one, or its id is among those to mark.
pub mark_as_synced-Unsynced :
    (update_ok : Bool) (ids : List ℕ) (b : CircularBuffer) (r : Telemetry)
    → In r b.rows
    → r.synced ≡ false
    → Unsynced (stored r) (mark_as_synced update_ok ids b).1.rows ⊎ In r.id ids
unfolding mark_as_synced
mark_as_synced-Unsynced update_ok [] b r h unsynced = inl (r, h, refl, unsynced)
mark_as_synced-Unsynced false (i ∷ ids) b r h unsynced = inl (r, h, refl, unsynced)
mark_as_synced-Unsynced true (i ∷ ids) b r h unsynced =
    elim (Bool-cases (any (λ k. k == r.id) (i ∷ ids))) [
      | inl marked ↦ inr (any-In r.id (i ∷ ids) marked)
      | inr spared ↦
          let same : mark_row (i ∷ ids) r ≡ r = rw (spared, mark_row) refl in
          inl (
            r,
            subst (λ t. In t (map (mark_row (i ∷ ids)) b.rows)) same
                (In-map (mark_row (i ∷ ids)) r b.rows h),
            refl,
            unsynced,
          )
    ]

-- What holds of the rows and the next id holds after a clean-up that may be due.
pub cleanup_due-keeps :
    (P : List Telemetry → ℕ → Type 0) (cleanup_ok : Bool) (now : Timestamp) (b : CircularBuffer)
    → P b.rows b.next_id
    → P (cleanup now b).rows b.next_id
    → P (cleanup_due cleanup_ok now b).1.rows (cleanup_due cleanup_ok now b).1.next_id
unfolding cleanup
cleanup_due-keeps P cleanup_ok now b before after = elim (Bool-cases (b.push_count % 100 == 0)) [
  | inr early ↦ rw early before
  | inl due ↦ elim (Bool-cases cleanup_ok) [
    | inl cleans ↦ rw (due, cleans) after
    | inr fails ↦ rw (due, fails) before
  ]
]
