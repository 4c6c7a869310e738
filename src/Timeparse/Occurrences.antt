-- ===== src/Timeparse/Occurrences.antt =====
-- The next occurrence of a rule (core/internal/timeparse/rrule.go, `Next`).
use notekeeper.Common.{
  ℕ, zero, suc, ◌+◌, ◌-◌, ◌*◌, ◌<◌, ◌≤◌, ◌≡◌, inl, inr, some, List, [], ◌∷◌, arith, ltb, All,
  Bool-cases, Option-cases,
}
use notekeeper.Timeparse.{Zone, Rule, occurrence, wrap_months, next_loop, next_occurrence}

module _ (z : Zone) (r : Rule) (from : ℕ) where
  -- Occurrences one behind the other, from one instant to another.
  abbrev pub Chain : ℕ → List ℕ → ℕ → Type 0
  Chain cur [] t = occurrence z r from r.freq cur ≡ some t
  Chain cur (n ∷ ns) t = (occurrence z r from r.freq cur ≡ some n) × Chain n ns t

  -- What an answer of `Next` is: the first occurrence later than `after`, behind those that have passed.
  abbrev pub First : ℕ → ℕ → ℕ → Type 0
  First after cur t = (ns : List ℕ) × Chain cur ns t × All (λ n. n ≤ after) ns × (after < t)

  next_loop-First :
      (fuel after cur t : ℕ) → next_loop z r from fuel after cur ≡ some t → First after cur t
  unfolding next_loop
  next_loop-First zero after cur t e = absurd (cc)
  next_loop-First (suc fuel) after cur t e = elim (Option-cases (occurrence z r from r.freq cur)) [
    | inl n ↦ absurd (ground (arith, e, n))
    | inr (n, o) ↦ elim (Bool-cases (ltb after n)) [
      | inl later ↦
          let same : n ≡ t = ground (arith, e, o, later) in
          ([], rw (← same) o, tt, ground (arith, later, same))
      | inr passed ↦
          let (ns, c, p, lt) = next_loop-First fuel after n t (ground (arith, e, o, passed)) in
          (n ∷ ns, (o, c), (ground (arith, passed), p), lt)
    ]
  ]

  positive : (m gap : ℕ) → 0 < m * gap → 0 < m
  positive zero gap lt = grind (arith, lt)
  positive (suc m) gap lt = omega arith

  -- The first instant and the occurrences that come behind it, one by one.
  pub data Reached : ℕ → Type 0 where
    first_one : Reached from
    next_one : (cur n : ℕ) → Reached cur → occurrence z r from r.freq cur ≡ some n → Reached n

  -- The occurrences go on, each at least `gap` later than the one before.
  abbrev pub GoesOn : ℕ → Type 0
  GoesOn gap =
      (cur : ℕ)
      → Reached cur
      → (n : ℕ) × (occurrence z r from r.freq cur ≡ some n) × (cur + gap ≤ n)

  next_loop-found :
      (gap : ℕ)
      → GoesOn gap
      → (fuel after cur : ℕ) → Reached cur
      → after < cur + fuel * gap
      → (0 < fuel)
      → (t : ℕ) × (next_loop z r from fuel after cur ≡ some t)
  unfolding next_loop
  next_loop-found gap on zero after cur at near pos = absurd (omega (arith, pos))
  next_loop-found gap on (suc fuel) after cur at near pos =
      let (n, o, g) = on cur at in
      elim (Bool-cases (ltb after n)) [
        | inl later ↦ (n, ground (arith, o, later))
        | inr passed ↦
            let more : suc fuel * gap ≡ gap + fuel * gap = grind arith in
            let gone : n ≤ after = ground (arith, passed) in
            let left : 0 < fuel * gap = omega (arith, near, more, g, gone) in
            let (t, e) =
              next_loop-found gap on fuel after n (next_one cur n at o)
                (omega (arith, near, more, g)) (positive fuel gap left) in
            (t, ground (arith, o, passed, e))
      ]

-- `Next` answers the first occurrence of the rule that is later than `after`, counted from the first one:
-- the occurrences that have passed lead to it one by one, and none of them is answered.
pub next_occurrence-First :
    (z : Zone) (r : Rule) (from after t : ℕ)
    → next_occurrence z r from after ≡ some t
    → First z r from after from t
unfolding next_occurrence
next_occurrence-First z r from after t e = next_loop-First z r from 20000 after from t e

-- `Next` finds the first occurrence later than `after` if the first instant and each occurrence behind it
-- have another one at least `gap` later: the limit of 20000 turns is enough up to 20000 times the gap
-- behind the first instant.
pub next_occurrence-found :
    (z : Zone) (r : Rule) (from after gap : ℕ)
    → GoesOn z r from gap
    → after < from + 20000 * gap
    → (t : ℕ) × (next_occurrence z r from after ≡ some t) × First z r from after from t
unfolding next_occurrence
next_occurrence-found z r from after gap on near =
    let (t, e) = next_loop-found z r from gap on 20000 after from first_one near (omega arith) in
    (t, e, next_loop-First z r from 20000 after from t e)

-- The months of a year are brought into the year, without another instant being meant.
pub wrap_months_ok :
    (fuel y mo : ℕ)
    → mo ≤ fuel
    → 0 < mo
    → let (y', mo') = wrap_months fuel y mo in
      (0 < mo') × (mo' ≤ 12) × (12 * y' + mo' ≡ 12 * y + mo)
unfolding wrap_months
wrap_months_ok zero y mo le pos = absurd (omega (arith, le, pos))
wrap_months_ok (suc fuel) y mo le pos = elim (Bool-cases (ltb 12 mo)) [
  | inr few ↦ ground (arith, few, pos)
  | inl many ↦ ground (
    arith,
    many,
    wrap_months_ok fuel (y + 1) (mo - 12) (ground (arith, many, le)) (ground (arith, many)),
  )
]
