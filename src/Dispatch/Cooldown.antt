-- ===== src/Dispatch/Cooldown.antt =====
-- The cooldown of an adapter (crates/aggregator-logic/src/dispatch/engine.rs) across any messages.
use gridtokenx_aggregator_br.Base.{
  ℕ, ◌+◌, ◌≤◌, ◌<◌, ◌≡◌, refl, ◌∙◌, Bool, true, Option, none, some, List, [], ◌∷◌, In, nat_eq,
  list_eq, arith,
}
use gridtokenx_aggregator_br.Billing.Bin.{Text, F64}
use gridtokenx_aggregator_br.Dispatch.{
  DispatchType, action_eq, Engine, fired, Message, eligible, action_for, dispatch_action,
  evaluate_and_dispatch, has_dispatch_capacity,
}
use gridtokenx_aggregator_br.Dispatch.Timers.{Since, Timely, fan_out-Since, fan_out-fired, In-keep}

module _ (lt : F64 → F64 → Bool) where
  -- The engine after the messages.
  abbrev pub evaluate_all : List Message → Engine → Engine
  evaluate_all [] e = e
  evaluate_all (m ∷ ms) e = evaluate_all ms (evaluate_and_dispatch lt m e).1

  -- Messages after an instant.
  abbrev pub After : ℕ → List Message → Type 0
  After t [] = Unit
  After t (m ∷ ms) = ((t ≤ m.now) × Timely m) × After t ms

  dispatch-Since :
      (a : DispatchType) (n : Text) (t : ℕ) (action : Option DispatchType) (m : Message)
      (e : Engine)
      → t ≤ m.now
      → Timely m
      → Since a n t e.last_dispatch
      → Since a n t (dispatch_action lt action m e).1.last_dispatch
        × ((dispatch_action lt action m e).1.cooldown ≡ e.cooldown)
  dispatch-Since a n t none m e le o h = (h, refl)
  dispatch-Since a n t (some action) m e le o h =
      fan_out-Since a n t action m (eligible action m.now e) e le o h

  all-Since :
      (a : DispatchType) (n : Text) (t : ℕ) (ms : List Message) (e : Engine)
      → After t ms
      → Since a n t e.last_dispatch
      → Since a n t (evaluate_all ms e).last_dispatch × ((evaluate_all ms e).cooldown ≡ e.cooldown)
  unfolding evaluate_and_dispatch
  all-Since a n t [] e w h = (h, refl)
  all-Since a n t (m ∷ ms) e w h =
      let (since, same) = dispatch-Since a n t (action_for lt m.frequency e) m e w.0.0 w.0.1 h in
      let (later, kept) = all-Since a n t ms (evaluate_and_dispatch lt m e).1 w.1 since in
      (later, kept ∙ same)

  Since-blocks :
      (action : DispatchType) (name : Text) (t now : ℕ) (e : Engine)
      → t ≤ now
      → now < t + e.cooldown
      → Since action name t e.last_dispatch
      → ¬ In name (eligible action now e)
  unfolding eligible
  Since-blocks action name t now e le soon h i =
      let allowed = In-keep _ name e.active_adapters i in ground arith

  dispatch-fired :
      (acts : Option DispatchType) (action : DispatchType) (name : Text) (t : ℕ) (m : Message)
      (e : Engine)
      → acts ≡ some action
      → Timely m
      → has_dispatch_capacity m.utc m.aggregator ≡ true
      → In name (eligible action m.now e)
      → In (t, fired name) (m.join (eligible action m.now e))
      → Since action name t (dispatch_action lt acts m e).1.last_dispatch
        × ((dispatch_action lt acts m e).1.cooldown ≡ e.cooldown)
  dispatch-fired acts action name t m e is o able target done =
      rw is (fan_out-fired action name t m (eligible action m.now e) e o able target done)

  -- Once an adapter has carried out an action, it is not a target of that action again before the cooldown is over,
  -- whatever messages come between and whatever the other adapters do.
  pub cooldown_blocks_repeat :
      (e : Engine) (m : Message) (ms : List Message) (action : DispatchType) (name : Text)
      (t now : ℕ)
      → Timely m
      → action_for lt m.frequency e ≡ some action
      → has_dispatch_capacity m.utc m.aggregator ≡ true
      → In name (eligible action m.now e)
      → In (t, fired name) (m.join (eligible action m.now e))
      → After t ms
      → t ≤ now
      → now < t + e.cooldown
      → ¬ In name (eligible action now (evaluate_all (m ∷ ms) e))
  unfolding evaluate_and_dispatch
  cooldown_blocks_repeat e m ms action name t now o acts able target done w le soon =
      let (since, same) =
        dispatch-fired (action_for lt m.frequency e) action name t m e acts o able target done in
      let (later, kept) = all-Since action name t ms (evaluate_and_dispatch lt m e).1 w since in
      Since-blocks action name t now (evaluate_all (m ∷ ms) e) le (rw (kept, same) soon) later
