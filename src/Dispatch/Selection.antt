-- ===== src/Dispatch/Selection.antt =====
-- Which adapters the configuration selects (crates/aggregator-logic/src/dispatch/engine.rs).
use gridtokenx_aggregator_br.Base.{
  ◌≡◌, ◌≢◌, ◌↔◌, ◌⊎◌, refl, sym, ap, subst, ◌∙◌, true, false, List, [], ◌∷◌, ◌++◌, In, inl, inr,
  Bool-cases, nat_eq, list_eq, list_beq_iff, arith,
}
use gridtokenx_aggregator_br.Base.Text.{codes}
use gridtokenx_aggregator_br.Billing.Bin.{Text}
use gridtokenx_aggregator_br.Dispatch.{
  contains_key, split_commas, is_empty, default_adapter_name, pick, pick_all, or_default,
  select_adapters_from,
}

contains_key-In :
    (names : List Text) (name : Text) → (contains_key names name ≡ true) ↔ In name names
contains_key-In [] name = ground arith
contains_key-In (n ∷ names) name =
    ground (arith, contains_key-In names name, list_beq_iff nat_eq n name)

In-snoc : (n x : Text) (xs : List Text) → In n (xs ++ (x ∷ [])) ↔ (In n xs ⊎ (x ≡ n))
In-snoc n x [] = ground arith
In-snoc n x (y ∷ ys) = ground (arith, In-snoc n x ys)

-- No name stands twice.
abbrev pub NoRepeats : List Text → Type 0
NoRepeats [] = Unit
NoRepeats (x ∷ xs) = (contains_key xs x ≡ false) × NoRepeats xs

NoRepeats-snoc :
    (x : Text) (xs : List Text)
    → contains_key xs x ≡ false
    → NoRepeats xs
    → NoRepeats (xs ++ (x ∷ []))
NoRepeats-snoc x [] h n = (refl, tt)
NoRepeats-snoc x (y ∷ ys) h n =
    let rest = NoRepeats-snoc x ys (ground arith) n.1 in
    let a = contains_key-In (ys ++ (x ∷ [])) y in
    let b = In-snoc y x ys in
    let c = contains_key-In ys y in (ground (arith, list_beq_iff nat_eq y x), rest)

-- A name that is not empty and that an adapter has.
abbrev pub Usable : List Text → Text → Type 0
Usable adapters name = (is_empty name ≡ false) × (contains_key adapters name ≡ true)

pick-NoRepeats :
    (adapters selected : List Text) (x : Text)
    → NoRepeats selected
    → NoRepeats (pick adapters selected x)
unfolding pick
pick-NoRepeats adapters selected x n = elim (Bool-cases (is_empty x)) [
  | inl empty ↦ rw empty n
  | inr named ↦ elim (Bool-cases (contains_key adapters x)) [
    | inr unknown ↦ rw (named, unknown) n
    | inl known ↦ elim (Bool-cases (contains_key selected x)) [
      | inl again ↦ rw (named, known, again) n
      | inr new ↦ rw (named, known, new) (NoRepeats-snoc x selected new n)
    ]
  ]
]

In-pick :
    (adapters selected : List Text) (x n : Text)
    → In n (pick adapters selected x) ↔ (In n selected ⊎ ((x ≡ n) × Usable adapters x))
unfolding pick
In-pick adapters selected x n =
    let again = contains_key-In selected x in
    let appended = In-snoc n x selected in ground (arith, again, appended)

contains_key-default_adapter_name :
    (adapters : List Text)
    → contains_key adapters (codes "ieee") ≡ true
    → contains_key adapters (default_adapter_name adapters) ≡ true
contains_key-default_adapter_name adapters ieee =
    elim (Bool-cases (contains_key adapters (codes "openleadr"))) [
      | inl known ↦ rw known known
      | inr unknown ↦ rw unknown ieee
    ]

module _ (trim : Text → Text) where
  -- A usable name that one of the pieces gives when it is trimmed.
  abbrev pub PickedFrom : List Text → List Text → Text → Type 0
  PickedFrom pieces adapters name =
      ((piece : Text) × (In piece pieces × (trim piece ≡ name))) × Usable adapters name

  -- A usable name that the text names between its commas.
  abbrev pub Named : Text → List Text → Text → Type 0
  Named raw adapters name = PickedFrom (split_commas raw) adapters name

  pick_all-NoRepeats :
      (adapters selected pieces : List Text)
      → NoRepeats selected
      → NoRepeats (pick_all trim adapters selected pieces)
  unfolding pick_all
  pick_all-NoRepeats adapters selected [] n = n
  pick_all-NoRepeats adapters selected (p ∷ pieces) n =
      pick_all-NoRepeats adapters (pick adapters selected (trim p)) pieces
        (pick-NoRepeats adapters selected (trim p) n)

  In-pick_all :
      (adapters selected pieces : List Text) (n : Text)
      → In n (pick_all trim adapters selected pieces)
      → In n selected ⊎ PickedFrom pieces adapters n
  unfolding pick_all
  In-pick_all adapters selected [] n i = inl i
  In-pick_all adapters selected (p ∷ pieces) n i =
      elim (In-pick_all adapters (pick adapters selected (trim p)) pieces n i) [
        | inl here ↦ elim ((In-pick adapters selected (trim p) n).0 here) [
          | inl old ↦ inl old
          | inr (q, usable) ↦ inr ((p, (inl refl, q)), rw (sym q) usable)
        ]
        | inr ((piece, (j, q)), usable) ↦ inr ((piece, (inr j, q)), usable)
      ]

  pick_all-In :
      (adapters selected pieces : List Text) (n : Text)
      → In n selected ⊎ PickedFrom pieces adapters n
      → In n (pick_all trim adapters selected pieces)
  unfolding pick_all
  pick_all-In adapters selected [] n (inl i) = i
  pick_all-In adapters selected [] n (inr ((piece, (j, q)), usable)) = absurd j
  pick_all-In adapters selected (p ∷ pieces) n (inl i) =
      pick_all-In adapters (pick adapters selected (trim p)) pieces n
        (inl ((In-pick adapters selected (trim p) n).1 (inl i)))
  pick_all-In adapters selected (p ∷ pieces) n (inr ((piece, (inl j, q)), usable)) =
      let e : trim p ≡ n = ap trim j ∙ q in
      pick_all-In adapters (pick adapters selected (trim p)) pieces n
        (inl ((In-pick adapters selected (trim p) n).1 (inr (e, rw e usable))))
  pick_all-In adapters selected (p ∷ pieces) n (inr ((piece, (inr j, q)), usable)) =
      pick_all-In adapters (pick adapters selected (trim p)) pieces n
        (inr ((piece, (j, q)), usable))

  or_default-NoRepeats :
      (adapters picked : List Text) → NoRepeats picked → NoRepeats (or_default adapters picked)
  or_default-NoRepeats adapters [] n = (refl, tt)
  or_default-NoRepeats adapters (x ∷ xs) n = n

  or_default-nonempty : (adapters picked : List Text) → or_default adapters picked ≢ []
  or_default-nonempty adapters [] e = ground arith
  or_default-nonempty adapters (x ∷ xs) e = ground arith

  In-or_default :
      (adapters picked : List Text) (n : Text)
      → In n (or_default adapters picked)
      → In n picked ⊎ ((n ≡ default_adapter_name adapters) × (picked ≡ []))
  In-or_default adapters [] n (inl q) = inr (sym q, refl)
  In-or_default adapters [] n (inr i) = absurd i
  In-or_default adapters (x ∷ xs) n i = inl i

  or_default-In :
      (adapters picked : List Text) (n : Text) → In n picked → In n (or_default adapters picked)
  or_default-In adapters [] n i = absurd i
  or_default-In adapters (x ∷ xs) n i = i

  -- When the adapter `ieee` is registered, as it always is: at least one adapter is selected, none twice; each of them
  -- is registered; each usable name of the text is selected, and nothing else, except that the default adapter is
  -- selected when the text names no usable one.
  pub select_adapters_from_correct :
      (raw : Text) (adapters : List Text)
      → contains_key adapters (codes "ieee") ≡ true
      → (select_adapters_from trim raw adapters ≢ [])
        × NoRepeats (select_adapters_from trim raw adapters)
        × ((n : Text)
            → In n (select_adapters_from trim raw adapters)
            → contains_key adapters n ≡ true)
        × ((n : Text) → Named raw adapters n → In n (select_adapters_from trim raw adapters))
        × ((n : Text)
            → In n (select_adapters_from trim raw adapters)
            → Named raw adapters n
              ⊎ ((n ≡ default_adapter_name adapters)
                  × ((other : Text) → ¬ Named raw adapters other)))
  unfolding select_adapters_from
  select_adapters_from_correct raw adapters ieee =
      let picked = pick_all trim adapters [] (split_commas raw) in
      let chosen : (n : Text)
          → In n (or_default adapters picked)
          → Named raw adapters n
            ⊎ ((n ≡ default_adapter_name adapters)
                × ((other : Text) → ¬ Named raw adapters other)) =
        λ n i. elim (In-or_default adapters picked n i) [
          | inl j ↦ elim (In-pick_all adapters [] (split_commas raw) n j) [
            | inl nothing ↦ absurd nothing
            | inr named ↦ inl named
          ]
          | inr (q, empty) ↦ inr (
            q,
            λ other named.
                subst (λ l. In other l) empty
                  (pick_all-In adapters [] (split_commas raw) other (inr named)),
          )
        ] in
      (
        or_default-nonempty adapters picked,
        or_default-NoRepeats adapters picked (pick_all-NoRepeats adapters [] (split_commas raw) tt),
        (λ n i. elim (chosen n i) [
          | inl (piece, usable) ↦ usable.1
          | inr (q, nobody) ↦ rw q (contains_key-default_adapter_name adapters ieee)
        ]),
        (λ n named.
            or_default-In adapters picked n
              (pick_all-In adapters [] (split_commas raw) n (inr named))),
        chosen,
      )
