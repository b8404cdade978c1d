-- ===== src/Keys/Counter.antt =====
-- `check_and_bump_counter` of crates/aggregator-persistence/src/infra/crypto.rs: the Lua script that Redis runs at
-- one go. Only the script writes the counters. Lua reads a counter as a double: its rounding is a parameter.
use gridtokenx_aggregator_br.Base.{
  ◌≡◌, ◌≢◌, Bool, true, false, not, none, some, List, [], ◌∷◌, if◌then◌else◌, nat_eq, list_eq,
  list_beq_iff, arith,
}
use gridtokenx_aggregator_br.Base.Dict.{Dict, lookup, insert, lookup-insert}
use gridtokenx_aggregator_br.Base.Int.{ℤ, ◌≤ℤ◌, ltb_ℤ}
use gridtokenx_aggregator_br.Billing.Bin.{Text}
use gridtokenx_aggregator_br.Redis.{Fate, applied, refused, reply_lost, takes_effect}
use gridtokenx_aggregator_br.Keys.Cache.{Result, ok, err}

-- `tonumber`: the integer that the nearest double stands for.
pub record Doubles : Type 0 where
  pub round : ℤ → ℤ
  pub round_mono : (a b : ℤ) → a ≤ℤ b → round a ≤ℤ round b

module _ (d : Doubles) where
  -- `tonumber(cur) >= tonumber(ARGV[1])`
  abbrev pub seen : ℤ → ℤ → Bool
  seen cur counter = not (ltb_ℤ (d.round cur) (d.round counter))

  -- The script: the reply 1 is `true`.
  unfoldable pub bump_script : Text → ℤ → Dict Text ℤ → Bool × Dict Text ℤ
  bump_script id counter ics = elim (lookup id ics) [
    | none ↦ (true, insert id counter ics)
    | some cur ↦ if seen cur counter then (false, ics) else (true, insert id counter ics)
  ]

  unfoldable pub check_and_bump_counter : Fate → Text → ℤ → Dict Text ℤ → Result Bool × Dict Text ℤ
  check_and_bump_counter applied id counter ics =
      let (accepted, ics') = bump_script id counter ics in (ok accepted, ics')
  check_and_bump_counter refused id counter ics = (err, ics)
  check_and_bump_counter reply_lost id counter ics = (err, (bump_script id counter ics).1)

  -- The stored counter has reached this one, as doubles go.
  abbrev pub Reached : Text → ℤ → Dict Text ℤ → Type 0
  Reached id counter ics = elim (lookup id ics) [
    | none ↦ ⊥
    | some cur ↦ d.round counter ≤ℤ d.round cur
  ]

  pub Reached-bump : (id : Text) (n : ℤ) (ics : Dict Text ℤ) → Reached id n (bump_script id n ics).1
  unfolding bump_script
  Reached-bump id n ics = ground (arith, lookup-insert id id n ics, list_beq_iff nat_eq id id)

  -- No call lowers a stored counter.
  Reached-bump_any :
      (id : Text) (n : ℤ) (id' : Text) (m : ℤ) (ics : Dict Text ℤ)
      → Reached id n ics
      → Reached id n (bump_script id' m ics).1
  unfolding bump_script
  Reached-bump_any id n id' m ics h =
      ground (arith, lookup-insert id' id m ics, list_beq_iff nat_eq id' id)

  pub Reached-call :
      (fate : Fate) (id : Text) (n : ℤ) (id' : Text) (m : ℤ) (ics : Dict Text ℤ)
      → Reached id n ics
      → Reached id n (check_and_bump_counter fate id' m ics).1
  unfolding check_and_bump_counter
  Reached-call applied id n id' m ics h = Reached-bump_any id n id' m ics h
  Reached-call refused id n id' m ics h = h
  Reached-call reply_lost id n id' m ics h = Reached-bump_any id n id' m ics h

  -- The calls of any frames of any meters, each with its fate.
  abbrev pub bump_all : List (Fate × Text × ℤ) → Dict Text ℤ → Dict Text ℤ
  bump_all [] ics = ics
  bump_all ((fate, id, n) ∷ calls) ics = bump_all calls (check_and_bump_counter fate id n ics).1

  Reached-calls :
      (id : Text) (n : ℤ) (calls : List (Fate × Text × ℤ)) (ics : Dict Text ℤ)
      → Reached id n ics
      → Reached id n (bump_all calls ics)
  Reached-calls id n [] ics h = h
  Reached-calls id n ((fate, id', m) ∷ calls) ics h =
      Reached-calls id n calls (check_and_bump_counter fate id' m ics).1
        (Reached-call fate id n id' m ics h)

  pub Reached-refuses :
      (fate : Fate) (id : Text) (n m : ℤ) (ics : Dict Text ℤ)
      → m ≤ℤ n
      → Reached id n ics
      → (check_and_bump_counter fate id m ics).0 ≢ ok true
  unfolding check_and_bump_counter bump_script
  Reached-refuses applied id n m ics le h = ground (arith, d.round_mono m n le)
  Reached-refuses refused id n m ics le h = cc
  Reached-refuses reply_lost id n m ics le h = cc

  -- Once a call with a counter has reached Redis, accepted or with its reply lost, no later call of the meter with
  -- that counter or a smaller one is accepted, whatever calls of any meters come between.
  pub no_replay :
      (fate fate' : Fate) (id : Text) (n m : ℤ) (calls : List (Fate × Text × ℤ)) (ics : Dict Text ℤ)
      → takes_effect fate ≡ true
      → m ≤ℤ n
      → (check_and_bump_counter fate' id m
          (bump_all calls (check_and_bump_counter fate id n ics).1)).0
        ≢ ok true
  unfolding check_and_bump_counter
  no_replay applied fate' id n m calls ics e le =
      Reached-refuses fate' id n m _ le (Reached-calls id n calls _ (Reached-bump id n ics))
  no_replay refused fate' id n m calls ics e le = cc
  no_replay reply_lost fate' id n m calls ics e le =
      Reached-refuses fate' id n m _ le (Reached-calls id n calls _ (Reached-bump id n ics))

  -- The stored counter of the meter, if there is one, is below this one, as doubles go.
  abbrev pub Below : Text → ℤ → Dict Text ℤ → Type 0
  Below id n ics = elim (lookup id ics) [ none ↦ Unit {0} | some cur ↦ seen cur n ≡ false ]

  -- Every call of the meter has a smaller counter, as doubles go.
  abbrev pub AllBelow : Text → ℤ → List (Fate × Text × ℤ) → Type 0
  AllBelow id n [] = Unit
  AllBelow id n ((fate, id', m) ∷ calls) = ((id' ≡ id) → seen m n ≡ false) × AllBelow id n calls

  Below-bump :
      (id : Text) (n : ℤ) (id' : Text) (m : ℤ) (ics : Dict Text ℤ)
      → ((id' ≡ id) → seen m n ≡ false)
      → Below id n ics
      → Below id n (bump_script id' m ics).1
  unfolding bump_script
  Below-bump id n id' m ics small h =
      ground (arith, lookup-insert id' id m ics, list_beq_iff nat_eq id' id, small)

  Below-calls :
      (id : Text) (n : ℤ) (calls : List (Fate × Text × ℤ)) (ics : Dict Text ℤ)
      → AllBelow id n calls
      → Below id n ics
      → Below id n (bump_all calls ics)
  unfolding check_and_bump_counter
  Below-calls id n [] ics a h = h
  Below-calls id n ((applied, id', m) ∷ calls) ics a h =
      Below-calls id n calls _ a.1 (Below-bump id n id' m ics a.0 h)
  Below-calls id n ((refused, id', m) ∷ calls) ics a h = Below-calls id n calls ics a.1 h
  Below-calls id n ((reply_lost, id', m) ∷ calls) ics a h =
      Below-calls id n calls _ a.1 (Below-bump id n id' m ics a.0 h)

  -- A counter above all that the meter has sent, by a difference that survives the rounding to doubles, is accepted
  -- if its command is applied, whatever became of the calls before.
  pub fresh_counter_accepted :
      (id : Text) (n : ℤ) (calls : List (Fate × Text × ℤ))
      → AllBelow id n calls
      → (check_and_bump_counter applied id n (bump_all calls [])).0 ≡ ok true
  unfolding check_and_bump_counter bump_script
  fresh_counter_accepted id n calls a =
      let below = Below-calls id n calls [] a (unfold lookup in tt) in ground arith
