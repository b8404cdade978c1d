-- ===== src/Dispatch/Timers.antt =====
-- The timers of the adapters (crates/aggregator-logic/src/dispatch/engine.rs): what a record and a fan-out do to them.
use gridtokenx_aggregator_br.Base.{
  ℕ, ◌≤◌, ◌≡◌, refl, sym, ap, ◌∙◌, Bool, true, false, not, ◌&&◌, none, some, List, [], ◌∷◌, ◌++◌,
  keep, In, All, inl, inr, Bool-cases, if◌then◌else◌, ◌==◌, nat_eq, list_eq, list_beq_iff, list_beq,
  arith,
}
use gridtokenx_aggregator_br.Billing.Bin.{Text}
use gridtokenx_aggregator_br.Dispatch.{
  DispatchType, action_eq, action_beq_iff, Engine, Joined, fired, failed, task_panicked, Message,
  last_dispatch_of, record_dispatch, record_joined, fan_out, has_dispatch_capacity,
}

abbrev Log : Type 0
Log = List (DispatchType × Text × ℕ)

same_name : (n m : Text) → (list_beq nat_eq n m ≡ true) → n ≡ m
same_name n m e = (list_beq_iff nat_eq n m).0 e

-- A record is what is found for its pair, and the timers of the other pairs stay.
find-append :
    (action : DispatchType) (name : Text) (now : ℕ) (log : Log) (a : DispatchType) (n : Text)
    → last_dispatch_of a n
        (keep (λ e. not (e.0 == action && e.1 == name)) log ++ ((action, name, now) ∷ []))
      ≡ (if action == a && name == n then some now else last_dispatch_of a n log)
unfolding last_dispatch_of
find-append action name now [] a n = ground arith
find-append action name now ((b, m, at) ∷ log) a n = ground (
  arith,
  find-append action name now log a n,
  action_beq_iff b action,
  action_beq_iff b a,
  action_beq_iff action a,
  list_beq_iff nat_eq m name,
  list_beq_iff nat_eq m n,
  list_beq_iff nat_eq name n,
)

pub last_dispatch_of-record_dispatch :
    (action : DispatchType) (name : Text) (now : ℕ) (log : Log) (a : DispatchType) (n : Text)
    → last_dispatch_of a n (record_dispatch now action name log)
      ≡ (if action == a && name == n then some now else last_dispatch_of a n log)
unfolding record_dispatch
last_dispatch_of-record_dispatch action name now log a n = find-append action name now log a n

-- The pair's last dispatch is no earlier than this.
abbrev pub Since : DispatchType → Text → ℕ → Log → Type 0
Since action name t log = elim (last_dispatch_of action name log) [ none ↦ ⊥ | some at ↦ t ≤ at ]

-- No task ended before this.
abbrev pub EndedAfter : ℕ → List (ℕ × Joined) → Type 0
EndedAfter t joined = All (λ j. t ≤ j.0) joined

Since-record :
    (a : DispatchType) (n : Text) (t : ℕ) (action : DispatchType) (name : Text) (at : ℕ) (log : Log)
    → t ≤ at
    → Since a n t log
    → Since a n t (record_dispatch at action name log)
Since-record a n t action name at log le h =
    ground (arith, last_dispatch_of-record_dispatch action name at log a n)

Since-joined :
    (a : DispatchType) (n : Text) (t : ℕ) (action : DispatchType) (joined : List (ℕ × Joined))
    (log : Log)
    → EndedAfter t joined
    → Since a n t log
    → Since a n t (record_joined action joined log)
unfolding record_joined
Since-joined a n t action [] log e h = h
Since-joined a n t action ((at, fired name) ∷ joined) log e h =
    Since-joined a n t action joined _ e.1 (Since-record a n t action name at log e.0 h)
Since-joined a n t action ((at, failed name) ∷ joined) log e h =
    Since-joined a n t action joined log e.1 h
Since-joined a n t action ((at, task_panicked) ∷ joined) log e h =
    Since-joined a n t action joined log e.1 h

-- The tasks end in the order of time, none before `start`.
abbrev pub InOrder : ℕ → List (ℕ × Joined) → Type 0
InOrder start [] = Unit
InOrder start ((at, j) ∷ joined) = (start ≤ at) × InOrder at joined

InOrder-EndedAfter :
    (t start : ℕ) (joined : List (ℕ × Joined))
    → t ≤ start
    → InOrder start joined
    → EndedAfter t joined
InOrder-EndedAfter t start [] le o = tt
InOrder-EndedAfter t start ((at, j) ∷ joined) le o =
    (omega arith, InOrder-EndedAfter t at joined (omega arith) o.1)

-- A success leaves the pair's timer at its instant or later.
fired-Since :
    (start t : ℕ) (action : DispatchType) (name : Text) (joined : List (ℕ × Joined)) (log : Log)
    → InOrder start joined
    → In (t, fired name) joined
    → Since action name t (record_joined action joined log)
unfolding record_joined
fired-Since start t action name [] log o i = absurd i
fired-Since start t action name ((at, fired m) ∷ joined) log o (inl q) =
    let same : at ≡ t = ap (λ p. p.0) q in
    Since-joined action name t action joined _ (InOrder-EndedAfter t at joined (omega arith) o.1) (
      ground (
        arith,
        last_dispatch_of-record_dispatch action m at log action name,
        action_beq_iff action action,
        list_beq_iff nat_eq m name,
      ))
fired-Since start t action name ((at, fired m) ∷ joined) log o (inr i) =
    fired-Since at t action name joined _ o.1 i
fired-Since start t action name ((at, failed m) ∷ joined) log o (inl q) = ground arith
fired-Since start t action name ((at, failed m) ∷ joined) log o (inr i) =
    fired-Since at t action name joined log o.1 i
fired-Since start t action name ((at, task_panicked) ∷ joined) log o (inl q) = ground arith
fired-Since start t action name ((at, task_panicked) ∷ joined) log o (inr i) =
    fired-Since at t action name joined log o.1 i

-- Whatever names a message is given, its tasks end in order after it.
abbrev pub Timely : Message → Type 0
Timely m = (names : List Text) → InOrder m.now (m.join names)

pub fan_out-Since :
    (a : DispatchType) (n : Text) (t : ℕ) (action : DispatchType) (m : Message) (names : List Text)
    (e : Engine)
    → t ≤ m.now
    → Timely m
    → Since a n t e.last_dispatch
    → Since a n t (fan_out action m names e).1.last_dispatch
      × ((fan_out action m names e).1.cooldown ≡ e.cooldown)
unfolding fan_out
fan_out-Since a n t action m [] e le o h = (h, refl)
fan_out-Since a n t action m (name ∷ names) e le o h =
    elim (Bool-cases (has_dispatch_capacity m.utc m.aggregator)) [
      | inl able ↦ rw able (
        Since-joined a n t action (m.join (name ∷ names)) e.last_dispatch
            (InOrder-EndedAfter t m.now _ le (o (name ∷ names))) h,
        refl,
      )
      | inr unable ↦ rw unable (h, refl)
    ]

pub In-keep : (p : Text → Bool) (x : Text) (xs : List Text) → In x (keep p xs) → p x ≡ true
In-keep p x [] i = absurd i
In-keep p x (y ∷ ys) i = In-keep_head p x y ys (p y) refl i (In-keep p x ys)
  where
    In-keep_head :
        (p : Text → Bool) (x y : Text) (ys : List Text) (b : Bool)
        → p y ≡ b
        → In x (elim b [ true ↦ y ∷ keep p ys | false ↦ keep p ys ])
        → (In x (keep p ys) → p x ≡ true)
        → p x ≡ true
    In-keep_head p x y ys true e (inl q) rest = ap p (sym q) ∙ e
    In-keep_head p x y ys true e (inr i) rest = rest i
    In-keep_head p x y ys false e i rest = rest i

-- The targets that fired have their timers started.
pub fan_out-fired :
    (action : DispatchType) (name : Text) (t : ℕ) (m : Message) (names : List Text) (e : Engine)
    → Timely m
    → has_dispatch_capacity m.utc m.aggregator ≡ true
    → In name names
    → In (t, fired name) (m.join names)
    → Since action name t (fan_out action m names e).1.last_dispatch
      × ((fan_out action m names e).1.cooldown ≡ e.cooldown)
unfolding fan_out
fan_out-fired action name t m [] e o able target done = absurd target
fan_out-fired action name t m (x ∷ xs) e o able target done =
    rw able
      (fired-Since m.now t action name (m.join (x ∷ xs)) e.last_dispatch (o (x ∷ xs)) done, refl)
