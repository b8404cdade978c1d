-- ===== src/Dispatch.antt =====
-- `DispatchEngine` of crates/aggregator-logic/src/dispatch/engine.rs: which adapters are selected, and what an
-- evaluation of the grid frequency does. The adapters are known by their names; what their tasks give back, in the
-- order in which they end, is an argument, and so are the comparison of `f64` and the trimming of a text. An instant
-- is a number of nanoseconds; the engine looks at the clock once before the fan-out and once for each end of a task.
pub mod Frequency
pub mod Selection
mod Timers
pub mod Cooldown
pub mod Outcome
pub mod Tests
use gridtokenx_aggregator_br.Base.{
  ℕ, ◌+◌, ◌-◌, ◌≡◌, ◌↔◌, Bool, true, false, not, ◌&&◌, Option, none, some, List, [], ◌∷◌, ◌++◌, map,
  any, keep, length, leb, ltb, if◌then◌else◌, ◌==◌, nat_eq, list_eq, HasEq, arith,
}
use gridtokenx_aggregator_br.Base.Text.{codes}
use gridtokenx_aggregator_br.Base.Int.{◌+ℤ◌, ltb_ℤ}
use gridtokenx_aggregator_br.Billing.Time.{Timestamp}
use gridtokenx_aggregator_br.Billing.Bin.{Text, F64, Decimal, decimal_zero, BillingBin, unwrap_or}
use gridtokenx_aggregator_br.Billing.Aggregator.{Aggregator, peek_completed_bins_at}

pub data DispatchType : Type 0 where
  flex_up flex_down : DispatchType

abbrev pub action_beq : DispatchType → DispatchType → Bool
action_beq flex_up flex_up = true
action_beq flex_down flex_down = true
action_beq _ _ = false

pub action_beq_iff : (a b : DispatchType) → (action_beq a b ≡ true) ↔ (a ≡ b)
action_beq_iff flex_up flex_up = ground arith
action_beq_iff flex_up flex_down = ground arith
action_beq_iff flex_down flex_up = ground arith
action_beq_iff flex_down flex_down = ground arith

instance abbrev pub action_eq : HasEq DispatchType
action_eq = record { same = action_beq; same_iff = action_beq_iff }

abbrev pub contains_key : List Text → Text → Bool
contains_key names name = any (λ n. n == name) names

-- `str::split(',')`: one piece more than there are commas.
unfoldable pub split_commas : Text → List Text
split_commas [] = [] ∷ []
split_commas (c ∷ s) = elim (split_commas s) [
  | [] ↦ []
  | piece ∷ pieces ↦ if c == b',' then [] ∷ (piece ∷ pieces) else (c ∷ piece) ∷ pieces
]

abbrev pub is_empty : Text → Bool
is_empty [] = true
is_empty (c ∷ s) = false

abbrev pub default_adapter_name : List Text → Text
default_adapter_name adapters =
    if contains_key adapters (codes "openleadr") then codes "openleadr" else codes "ieee"

-- One round of the loop: an empty or unknown name and a repeat are skipped.
unfoldable pub pick : List Text → List Text → Text → List Text
pick adapters selected name =
    if is_empty name
    then selected
    else if not (contains_key adapters name)
    then selected
    else if contains_key selected name
    then selected
    else selected ++ (name ∷ [])

-- With the names that were picked.
abbrev pub or_default : List Text → List Text → List Text
or_default adapters [] = default_adapter_name adapters ∷ []
or_default adapters (name ∷ names) = name ∷ names

module _ (trim : Text → Text) where
  unfoldable pub pick_all : List Text → List Text → List Text → List Text
  unfolding pick
  pick_all adapters selected [] = selected
  pick_all adapters selected (piece ∷ pieces) =
      pick_all adapters (pick adapters selected (trim piece)) pieces

  unfoldable pub select_adapters_from : Text → List Text → List Text
  unfolding split_commas pick_all
  select_adapters_from raw adapters = or_default adapters (pick_all adapters [] (split_commas raw))

  -- The values of `DISPATCH_ADAPTERS` and `DISPATCH_ADAPTER`.
  pub select_adapters : Option Text → Option Text → List Text → List Text
  select_adapters none single adapters = select_adapters_from (unwrap_or single []) adapters
  select_adapters (some csv) single adapters =
      select_adapters_from (if is_empty (trim csv) then unwrap_or single [] else csv) adapters

pub record Engine : Type 0 where
  pub adapters : List Text
  pub active_adapters : List Text
  pub freq_low_hz : F64
  pub freq_high_hz : F64
  pub cooldown : ℕ
  pub last_dispatch : List (DispatchType × Text × ℕ)

-- How one task ended.
pub data Joined : Type 0 where
  fired failed : Text → Joined
  task_panicked : Joined

pub data Evaluated : Type 0 where
  ok no_capacity all_failed : Evaluated

-- What one grid-status message meets: the monotonic clock, the time of day, the aggregator, and the ends of the tasks that are spawned for the
-- given names, each with its instant.
pub record Message : Type 0 where
  pub frequency : F64
  pub now : ℕ
  pub utc : Timestamp
  pub aggregator : Aggregator
  pub join : List Text → List (ℕ × Joined)

-- `list.iter().find(..)`.
unfoldable pub last_dispatch_of : DispatchType → Text → List (DispatchType × Text × ℕ) → Option ℕ
last_dispatch_of action name [] = none
last_dispatch_of action name ((a, n, at) ∷ rest) =
    if a == action && n == name then some at else last_dispatch_of action name rest

unfoldable pub record_dispatch :
    ℕ → DispatchType → Text → List (DispatchType × Text × ℕ) → List (DispatchType × Text × ℕ)
record_dispatch now action name list =
    keep (λ e. not (e.0 == action && e.1 == name)) list ++ ((action, name, now) ∷ [])

abbrev pub cooldown_allows : ℕ → Option ℕ → ℕ → Bool
cooldown_allows now none cooldown = true
cooldown_allows now (some at) cooldown = leb cooldown (now - at)

abbrev pub total_generated : List BillingBin → Decimal
total_generated [] = decimal_zero
total_generated (b ∷ bins) = b.energy_generated +ℤ total_generated bins

unfoldable pub has_dispatch_capacity : Timestamp → Aggregator → Bool
has_dispatch_capacity now a = ltb_ℤ decimal_zero (total_generated (peek_completed_bins_at now 0 a))

-- The targets that are registered and not in their cooldown.
unfoldable pub eligible : DispatchType → ℕ → Engine → List Text
eligible action now e =
    keep
      (λ name.
        contains_key e.adapters name
        && cooldown_allows now (last_dispatch_of action name e.last_dispatch) e.cooldown)
      e.active_adapters

-- The loop over the joined tasks: only a success is recorded.
unfoldable pub record_joined :
    DispatchType
    → List (ℕ × Joined)
    → List (DispatchType × Text × ℕ)
    → List (DispatchType × Text × ℕ)
record_joined action [] list = list
record_joined action ((at, fired name) ∷ joined) list =
    record_joined action joined (record_dispatch at action name list)
record_joined action ((at, failed name) ∷ joined) list = record_joined action joined list
record_joined action ((at, task_panicked) ∷ joined) list = record_joined action joined list

abbrev pub count_fired : List (ℕ × Joined) → ℕ
count_fired [] = 0
count_fired ((at, fired name) ∷ joined) = 1 + count_fired joined
count_fired ((at, failed name) ∷ joined) = count_fired joined
count_fired ((at, task_panicked) ∷ joined) = count_fired joined

-- The number of error texts.
abbrev pub count_errors : List (ℕ × Joined) → ℕ
count_errors [] = 0
count_errors ((at, fired name) ∷ joined) = count_errors joined
count_errors ((at, failed name) ∷ joined) = 1 + count_errors joined
count_errors ((at, task_panicked) ∷ joined) = 1 + count_errors joined

abbrev pub joined_result : List (ℕ × Joined) → Evaluated
joined_result joined =
    if not (count_errors joined == 0) && count_fired joined == 0 then all_failed else ok

unfoldable pub fan_out : DispatchType → Message → List Text → Engine → Evaluated × Engine
unfolding record_joined
fan_out action m [] e = (ok, e)
fan_out action m (name ∷ names) e =
    if not (has_dispatch_capacity m.utc m.aggregator)
    then (no_capacity, e)
    else let joined = m.join (name ∷ names) in
      (
        joined_result joined,
        record e { last_dispatch = record_joined action joined e.last_dispatch },
      )

module _ (lt : F64 → F64 → Bool) where
  abbrev pub action_for : F64 → Engine → Option DispatchType
  action_for frequency e =
      if lt frequency e.freq_low_hz
      then some flex_up
      else if lt e.freq_high_hz frequency
      then some flex_down
      else none

  abbrev pub dispatch_action : Option DispatchType → Message → Engine → Evaluated × Engine
  dispatch_action none m e = (ok, e)
  dispatch_action (some action) m e = fan_out action m (eligible action m.now e) e

  unfoldable pub evaluate_and_dispatch : Message → Engine → Evaluated × Engine
  unfolding fan_out
  evaluate_and_dispatch m e = dispatch_action (action_for m.frequency e) m e
