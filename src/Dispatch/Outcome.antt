-- ===== src/Dispatch/Outcome.antt =====
-- What an evaluation of the grid frequency returns and which timers it starts
-- (crates/aggregator-logic/src/dispatch/engine.rs).
use gridtokenx_aggregator_br.Base.{
  ℕ, ◌+◌, ◌<◌, ◌≡◌, ◌↔◌, ◌⊎◌, refl, Bool, true, some, List, [], ◌∷◌, In, inl, inr, Bool-cases,
  nat_eq, list_eq, arith, length,
}
use gridtokenx_aggregator_br.Billing.Bin.{Text, F64}
use gridtokenx_aggregator_br.Dispatch.{
  DispatchType, action_eq, Engine, Joined, fired, failed, task_panicked, ok, Message, eligible,
  joined_result, fan_out, action_for, evaluate_and_dispatch, has_dispatch_capacity, count_fired,
  count_errors,
}

-- A task of the fan-out gave back a success.
abbrev pub SomeFired : List (ℕ × Joined) → Type 0
SomeFired joined = (p : ℕ × Text) × In (p.0, fired p.1) joined

count_fired-SomeFired : (joined : List (ℕ × Joined)) → (0 < count_fired joined) ↔ SomeFired joined
count_fired-SomeFired joined = (forward joined, backward joined)
  where
    forward : (joined : List (ℕ × Joined)) → 0 < count_fired joined → SomeFired joined
    forward [] h = absurd (omega arith)
    forward ((at, fired name) ∷ joined) h = ((at, name), inl refl)
    forward ((at, failed name) ∷ joined) h = let (p, i) = forward joined h in (p, inr i)
    forward ((at, task_panicked) ∷ joined) h = let (p, i) = forward joined h in (p, inr i)

    backward : (joined : List (ℕ × Joined)) → SomeFired joined → 0 < count_fired joined
    backward [] (p, i) = absurd i
    backward ((at, fired name) ∷ joined) s = omega arith
    backward ((at, failed name) ∷ joined) (p, inl i) = ground arith
    backward ((at, failed name) ∷ joined) (p, inr i) = backward joined (p, i)
    backward ((at, task_panicked) ∷ joined) (p, inl i) = ground arith
    backward ((at, task_panicked) ∷ joined) (p, inr i) = backward joined (p, i)

count_all : (joined : List (ℕ × Joined)) → count_fired joined + count_errors joined ≡ length joined
count_all [] = omega arith
count_all ((at, fired name) ∷ joined) = omega (arith, count_all joined)
count_all ((at, failed name) ∷ joined) = omega (arith, count_all joined)
count_all ((at, task_panicked) ∷ joined) = omega (arith, count_all joined)

joined_result_iff :
    (joined : List (ℕ × Joined))
    → 0 < length joined
    → (joined_result joined ≡ ok) ↔ SomeFired joined
joined_result_iff joined h =
    let (forward, backward) = count_fired-SomeFired joined in
    let counted = count_all joined in
    ((λ e. forward (ground arith)), (λ s. let some_fired = backward s in ground arith))

capacity_used :
    {P : Type 0} {b : Bool} (x : Text) (xs : List Text) → ((x ∷ xs) ≡ []) ⊎ ((b ≡ true) × P) → P
capacity_used x xs (inl q) = absurd (ground arith)
capacity_used x xs (inr (able, p)) = p

fan_out_iff :
    (action : DispatchType) (m : Message) (names : List Text) (e : Engine)
    → length (m.join names) ≡ length names
    → ((fan_out action m names e).0 ≡ ok) ↔ (
        (names ≡ [])
        ⊎ ((has_dispatch_capacity m.utc m.aggregator ≡ true) × SomeFired (m.join names)))
unfolding fan_out
fan_out_iff action m [] e all = ((λ q. inl refl), (λ q. refl))
fan_out_iff action m (x ∷ xs) e all =
    let (forward, backward) = joined_result_iff (m.join (x ∷ xs)) (omega arith) in
    elim (Bool-cases (has_dispatch_capacity m.utc m.aggregator)) [
      | inl able ↦ rw able ((λ q. inr (refl, forward q)), (λ s. backward (capacity_used x xs s)))
      | inr unable ↦ rw unable ((λ q. absurd (ground arith)), (λ s. ground arith))
    ]

module _ (lt : F64 → F64 → Bool) where
  -- When the frequency calls for an action and every task that is spawned is joined, the evaluation succeeds exactly
  -- when no target is left after the cooldowns, or when there is capacity and at least one adapter carried the action
  -- out; a single success is enough, and one failure alone never makes the whole an error.
  pub evaluate_and_dispatch-ok_iff :
      (m : Message) (e : Engine) (action : DispatchType)
      → action_for lt m.frequency e ≡ some action
      → length (m.join (eligible action m.now e)) ≡ length (eligible action m.now e)
      → ((evaluate_and_dispatch lt m e).0 ≡ ok) ↔ (
          (eligible action m.now e ≡ [])
          ⊎ ((has_dispatch_capacity m.utc m.aggregator ≡ true)
              × SomeFired (m.join (eligible action m.now e))))
  unfolding evaluate_and_dispatch
  evaluate_and_dispatch-ok_iff m e action acts all =
      rw acts (fan_out_iff action m (eligible action m.now e) e all)
