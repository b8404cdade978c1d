-- ===== src/Dispatch/Frequency/Window.antt =====
-- The rolling window of crates/aggregator-logic/src/grid_status.rs against a filter of everything that was recorded.
use gridtokenx_aggregator_br.Base.{
  ℕ, ◌-◌, ◌≤◌, ◌≡◌, refl, sym, ap, ◌∙◌, Bool, true, false, List, [], ◌∷◌, ◌++◌, ltb, leb, keep, All,
  All-mono, Bool-cases, inl, inr, append-nil, append_assoc, if◌then◌else◌, arith,
}
use gridtokenx_aggregator_br.Base.Members.{All-keep, All-snoc}
use gridtokenx_aggregator_br.Dispatch.Frequency.{
  Arithmetic, Sample, drop_stale, evict, is_plausible, record_sample, mean_of, mean, record_all,
}

-- Not older than the window, on a clock that has run for one.
abbrev pub is_fresh : ℕ → ℕ → Sample → Bool
is_fresh window now e = if leb window now then leb (now - window) e.0 else true

abbrev pub Sorted : List Sample → Type 0
Sorted [] = Unit
Sorted (e ∷ samples) = All (λ x. e.0 ≤ x.0) samples × Sorted samples

abbrev Before : ℕ → List Sample → Type 0
Before now = All (λ x. x.0 ≤ now)

-- The samples come in the order of their instants, after `last`, and the monitor is read at `now`.
abbrev pub Ordered : ℕ → List Sample → ℕ → Type 0
Ordered last [] now = last ≤ now
Ordered last (e ∷ samples) now = (last ≤ e.0) × Ordered e.0 samples now

keep-append :
    {A : Type 0} (p : A → Bool) (xs ys : List A) → keep p (xs ++ ys) ≡ keep p xs ++ keep p ys
keep-append p [] ys = refl
keep-append p (x ∷ xs) ys = elim (Bool-cases (p x)) [
  | inl pass ↦ rw (pass, keep) (ap (λ l. x ∷ l) (keep-append p xs ys))
  | inr fail ↦ rw (fail, keep) (keep-append p xs ys)
]

Sorted-keep : (p : Sample → Bool) (xs : List Sample) → Sorted xs → Sorted (keep p xs)
Sorted-keep p [] h = tt
Sorted-keep p (x ∷ xs) h = elim (Bool-cases (p x)) [
  | inl pass ↦ rw (pass, keep) (All-keep (λ y. x.0 ≤ y.0) p xs h.0, Sorted-keep p xs h.1)
  | inr fail ↦ rw (fail, keep) (Sorted-keep p xs h.1)
]

Sorted-snoc : (xs : List Sample) (e : Sample) → Sorted xs → Before e.0 xs → Sorted (xs ++ (e ∷ []))
Sorted-snoc [] e h b = (tt, tt)
Sorted-snoc (x ∷ xs) e h b = (All-snoc (λ y. x.0 ≤ y.0) xs e h.0 b.0, Sorted-snoc xs e h.1 b.1)

keep-All : {A : Type 0} (p : A → Bool) (xs : List A) → All (λ x. p x ≡ true) xs → keep p xs ≡ xs
keep-All p [] h = refl
keep-All p (x ∷ xs) h = rw (h.0, keep) (ap (λ l. x ∷ l) (keep-All p xs h.1))

-- What one test drops another drops too, if it is no weaker.
keep-keep :
    {A : Type 0} (p q : A → Bool) (xs : List A)
    → ((x : A) → p x ≡ true → q x ≡ true)
    → keep p (keep q xs) ≡ keep p xs
keep-keep p q [] imp = refl
keep-keep p q (x ∷ xs) imp = elim (Bool-cases (p x)) [
  | inl pass ↦ rw (imp x pass, keep) (rw (pass, keep) (ap (λ l. x ∷ l) (keep-keep p q xs imp)))
  | inr fail ↦ elim (Bool-cases (q x)) [
    | inl there ↦ rw (there, keep) (rw (fail, keep) (keep-keep p q xs imp))
    | inr gone ↦ rw (gone, fail, keep) (keep-keep p q xs imp)
  ]
]

drop_stale-Sorted :
    (cutoff : ℕ) (xs : List Sample)
    → Sorted xs
    → drop_stale cutoff xs ≡ keep (λ e. leb cutoff e.0) xs
unfolding drop_stale
drop_stale-Sorted cutoff [] h = refl
drop_stale-Sorted cutoff (e ∷ xs) h = elim (Bool-cases (ltb e.0 cutoff)) [
  | inl stale ↦ ground (arith, drop_stale-Sorted cutoff xs h.1)
  | inr fresh ↦
      let late : cutoff ≤ e.0 = ground arith in
      ground (arith, keep-All (λ x. leb cutoff x.0) xs (All-mono xs (λ x le. ground arith) h.0))
]

evict-Sorted :
    (window now : ℕ) (xs : List Sample)
    → Sorted xs
    → evict window now xs ≡ keep (is_fresh window now) xs
unfolding evict
evict-Sorted window now xs h = elim (Bool-cases (leb window now)) [
  | inl ran ↦ rw (ran, is_fresh) (drop_stale-Sorted (now - window) xs h)
  | inr early ↦ rw (early, is_fresh) (sym (keep-All (λ e. true) xs (all_true xs)))
]
  where
    all_true : (ys : List Sample) → All (λ y. true ≡ true) ys
    all_true [] = tt
    all_true (y ∷ ys) = (refl, all_true ys)

-- What is fresh at an instant was fresh before.
fresh_earlier :
    (window t now : ℕ) (e : Sample)
    → t ≤ now
    → is_fresh window now e ≡ true
    → is_fresh window t e ≡ true
fresh_earlier window t now e le h = ground arith

Ordered-le : (more : List Sample) (last now : ℕ) → Ordered last more now → last ≤ now
Ordered-le [] last now h = h
Ordered-le (e ∷ more) last now h = omega (arith, h.0, Ordered-le more e.0 now h.1)

module _ (f : Arithmetic) (window : ℕ) where
  abbrev pub plausible : Sample → Bool
  plausible e = is_plausible f e.1

  record_sample_dropped :
      (e : Sample) (xs : List Sample) → plausible e ≡ false → record_sample f window e.0 e.1 xs ≡ xs
  unfolding record_sample
  record_sample_dropped e xs dropped = ground arith

  record_sample_taken :
      (e : Sample) (xs : List Sample)
      → plausible e ≡ true
      → Sorted xs
      → Before e.0 xs
      → record_sample f window e.0 e.1 xs ≡ keep (is_fresh window e.0) (xs ++ (e ∷ []))
  unfolding record_sample
  record_sample_taken e xs taken sorted before =
      ground (arith, evict-Sorted window e.0 (xs ++ (e ∷ [])) (Sorted-snoc xs e sorted before))

  -- Keeping what is fresh now, of what was fresh at an earlier instant and of more.
  keep_fresh :
      (t now : ℕ) (xs more : List Sample) (e : Sample)
      → t ≤ now
      → keep (is_fresh window now) (keep (is_fresh window t) (xs ++ (e ∷ [])) ++ more)
        ≡ keep (is_fresh window now) (xs ++ (e ∷ more))
  keep_fresh t now xs more e le =
      let p : Sample → Bool = is_fresh window now in
      keep-append p (keep (is_fresh window t) (xs ++ (e ∷ []))) more
      ∙ (ap (λ l. l ++ keep p more)
            (keep-keep p (is_fresh window t) (xs ++ (e ∷ []))
              (λ x. fresh_earlier window t now x le))
          ∙ (sym (keep-append p (xs ++ (e ∷ [])) more)
              ∙ ap (keep p) (append_assoc xs (e ∷ []) more)))

  evict-record_all :
      (more : List Sample) (last now : ℕ) (xs : List Sample)
      → Sorted xs
      → Before last xs
      → Ordered last more now
      → evict window now (record_all f window more xs)
        ≡ keep (is_fresh window now) (xs ++ keep plausible more)
  unfolding record_all
  evict-record_all [] last now xs sorted before order =
      rw (append-nil xs) (evict-Sorted window now xs sorted)
  evict-record_all (e ∷ more) last now xs sorted before order =
      let before' : Before e.0 xs = All-mono xs (λ x le. omega (arith, le, order.0)) before in
      elim (Bool-cases (plausible e)) [
        | inr dropped ↦
            rw (record_sample_dropped e xs dropped)
              (rw (dropped, keep) (evict-record_all more e.0 now xs sorted before' order.1))
        | inl taken ↦
            let p : Sample → Bool = is_fresh window e.0 in
            rw (record_sample_taken e xs taken sorted before') (
              rw (taken, keep)
                (evict-record_all more e.0 now (keep p (xs ++ (e ∷ [])))
                    (Sorted-keep p (xs ++ (e ∷ [])) (Sorted-snoc xs e sorted before'))
                    (All-keep (λ x. x.0 ≤ e.0) p (xs ++ (e ∷ []))
                      (All-snoc (λ x. x.0 ≤ e.0) xs e before' (omega arith)))
                    order.1
                  ∙ keep_fresh e.0 now xs (keep plausible more) e
                      (Ordered-le more e.0 now order.1)))
      ]

  -- After samples recorded in the order of their instants, the mean at a later instant is that of the plausible ones that
  -- are not older than the window, and there is none if there are none of these.
  pub mean-record_all :
      (more : List Sample) (now : ℕ)
      → Ordered 0 more now
      → (mean f window now (record_all f window more [])).0
        ≡ mean_of f (keep (is_fresh window now) (keep plausible more))
  unfolding mean
  mean-record_all more now order = ap (mean_of f) (evict-record_all more 0 now [] tt tt order)
