-- ===== src/Sync/Marked.antt =====
-- How many rows of the offline buffer are not marked (crates/aggregator-persistence/src/storage/circular_buffer.rs).
use gridtokenx_aggregator_br.Base.{
  ℕ, zero, suc, ◌+◌, ◌≤◌, ◌≡◌, inl, inr, refl, ap, ◌∙◌, subst, true, false, not, List, [], ◌∷◌, map,
  keep, take, any, length, In, All, Bool-cases, ◌==◌, nat_eq, arith, if◌then◌else◌,
}
use gridtokenx_aggregator_br.Sync.{Telemetry, mark_row, StoredReading}
use gridtokenx_aggregator_br.Sync.Rows.{Unsynced}

-- How many rows are not marked.
abbrev pub unsynced_count : List Telemetry → ℕ
unsynced_count [] = 0
unsynced_count (r ∷ rows) = (if r.synced then 0 else 1) + unsynced_count rows

abbrev pub unsynced_rows : List Telemetry → List Telemetry
unsynced_rows rows = keep (λ r. not r.synced) rows

pub Unsynced-nowhere :
    (rows : List Telemetry) → unsynced_count rows ≡ 0 → (x : StoredReading) → Unsynced x rows → ⊥
Unsynced-nowhere [] e x (r, h, same, unsynced) = h
Unsynced-nowhere (q ∷ rows) e x (r, inl here, same, unsynced) =
    let u : q.synced ≡ false = ap (λ t. t.synced) here ∙ unsynced in ground arith
Unsynced-nowhere (q ∷ rows) e x (r, inr there, same, unsynced) =
    Unsynced-nowhere rows (omega arith) x (r, there, same, unsynced)

pub count-mark :
    (ids : List ℕ) (rows : List Telemetry)
    → unsynced_count (map (mark_row ids) rows) ≤ unsynced_count rows
count-mark ids [] = omega arith
count-mark ids (r ∷ rows) = elim (Bool-cases (any (λ i. i == r.id) ids)) [
  | inl marked ↦ rw (marked, mark_row) (omega (arith, count-mark ids rows))
  | inr spared ↦ rw (spared, mark_row) (omega (arith, count-mark ids rows))
]

pub unsynced_rows_of_marked :
    (r : Telemetry) (rows : List Telemetry)
    → r.synced ≡ true
    → unsynced_rows (r ∷ rows) ≡ unsynced_rows rows
unsynced_rows_of_marked r rows done = rw (done, keep, unsynced_rows) refl

pub unsynced_rows_of_unmarked :
    (r : Telemetry) (rows : List Telemetry)
    → r.synced ≡ false
    → unsynced_rows (r ∷ rows) ≡ r ∷ unsynced_rows rows
unsynced_rows_of_unmarked r rows unmarked =
    ap (λ b. elim (not b) [ true ↦ r ∷ unsynced_rows rows | false ↦ unsynced_rows rows ]) unmarked

pub any-In : (i : ℕ) (ids : List ℕ) → In i ids → any (λ j. j == i) ids ≡ true
any-In i [] h = absurd h
any-In i (j ∷ ids) (inl here) = ground (arith, nat_eq.same_iff j i, here)
any-In i (j ∷ ids) (inr there) = ground (arith, any-In i ids there)

pub length-unsynced_rows :
    (rows : List Telemetry) → length (unsynced_rows rows) ≡ unsynced_count rows
length-unsynced_rows [] = refl
length-unsynced_rows (r ∷ rows) = elim (Bool-cases r.synced) [
  | inl done ↦ ground (
    arith,
    ap (λ l. length l) (unsynced_rows_of_marked r rows done),
    done,
    length-unsynced_rows rows,
  )
  | inr unmarked ↦ ground (
    arith,
    ap (λ l. length l) (unsynced_rows_of_unmarked r rows unmarked),
    unmarked,
    length-unsynced_rows rows,
  )
]

-- Marking the first unmarked rows leaves fewer by their number, if not by more.
pub count-mark_first :
    (n : ℕ) (ids : List ℕ) (rows : List Telemetry)
    → All (λ r. In r.id ids) (take n (unsynced_rows rows))
    → unsynced_count (map (mark_row ids) rows) + length (take n (unsynced_rows rows))
      ≤ unsynced_count rows
count-mark_first zero ids rows h = omega (arith, count-mark ids rows)
count-mark_first (suc n) ids [] h = omega arith
count-mark_first (suc n) ids (r ∷ rows) h = elim (Bool-cases r.synced) [
  | inl done ↦
      let e = unsynced_rows_of_marked r rows done in
      let rest =
        count-mark_first (suc n) ids rows
          (subst (λ l. All (λ q. In q.id ids) (take (suc n) l)) e h) in
      let same = ap (λ l. length (take (suc n) l)) e in ground (arith, rest, same, done)
  | inr unmarked ↦
      let e = unsynced_rows_of_unmarked r rows unmarked in
      let h' = subst (λ l. All (λ q. In q.id ids) (take (suc n) l)) e h in
      let rest = count-mark_first n ids rows h'.1 in
      let marked = any-In r.id ids h'.0 in
      let same = ap (λ l. length (take (suc n) l)) e in ground (arith, rest, same, marked, unmarked)
]
