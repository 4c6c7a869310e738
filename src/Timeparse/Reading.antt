-- ===== src/Timeparse/Reading.antt =====
-- The rules that can be read (core/internal/timeparse/rrule.go, `ParseRule`).
use notekeeper.Common.{
  ℕ, ◌≤◌, ◌≡◌, ◌⊎◌, inl, inr, refl, false, not, ◌&&◌, ◌||◌, none, some, List, [], ◌∷◌, ◌++◌, arith,
  ltb, All, Bool-cases, Option-cases,
}
use notekeeper.Common.Str.{Str, codes, str_eq, cut, split_at}
use notekeeper.Timeparse.{
  Freq, daily, weekly, monthly, Rule, Casing, Draft, day_code, freq_of, atoi, read_days, read_part,
  read_parts, no_days, is_weekly, parse_rule,
}

abbrev IsWeekday : ℕ → Type 0
IsWeekday d = d ≤ 6

day_code-IsWeekday : (s : Str) (d : ℕ) → day_code s ≡ some d → IsWeekday d
unfolding day_code
day_code-IsWeekday s d e = ground (arith, e)

All-append : (P : ℕ → Type 0) (xs ys : List ℕ) → All P xs → All P ys → All P (xs ++ ys)
All-append P [] ys h k = k
All-append P (x ∷ xs) ys (p, h) k = (p, All-append P xs ys h k)

-- A rule as the service may rely on it: an interval from 1 to 366, weekdays that exist, and weekdays only
-- in a weekly rule.
pub record WellFormed (r : Rule) : Type 0 where
  pub at_least_one : 1 ≤ r.interval
  pub at_most_366 : r.interval ≤ 366
  pub weekdays : All IsWeekday r.by_day
  pub days_weekly : (r.by_day ≡ []) ⊎ (r.freq ≡ weekly)

abbrev InRange : Draft → Type 0
InRange d = (1 ≤ d.interval) × (d.interval ≤ 366) × All IsWeekday d.by_day

module _ (casing : Casing) where
  read_days-IsWeekday :
      (ds : List Str) (ws : List ℕ) → read_days casing ds ≡ some ws → All IsWeekday ws
  unfolding read_days
  read_days-IsWeekday [] ws e = let p : [] ≡ ws = ground (arith, e) in rw (← p) tt
  read_days-IsWeekday (d ∷ ds) ws e = elim (Option-cases (day_code (casing.to_upper d))) [
    | inl f ↦ absurd (ground (arith, e, f))
    | inr (w, f) ↦ elim (Option-cases (read_days casing ds)) [
      | inl g ↦ absurd (ground (arith, e, f, g))
      | inr (vs, g) ↦
          let p : (w ∷ vs) ≡ ws = ground (arith, e, f, g) in
          rw (← p) (day_code-IsWeekday (casing.to_upper d) w f, read_days-IsWeekday ds vs g)
    ]
  ]

  read_part-InRange :
      (d : Draft) (part : Str) (d' : Draft)
      → read_part casing d part ≡ some d'
      → InRange d
      → InRange d'
  unfolding read_part
  read_part-InRange d part d' e (lo, hi, days) =
      let key : Str = casing.to_upper (cut 61 part).0 in
      let value : Str = (cut 61 part).1 in
      elim (Bool-cases (cut 61 part).2) [
        | inr c ↦ absurd (ground (arith, e, c))
        | inl c ↦ elim (Bool-cases (str_eq key (codes "FREQ"))) [
          | inl k ↦ elim (Option-cases (freq_of (casing.to_upper value))) [
            | inl f ↦ absurd (ground (arith, e, c, k, f))
            | inr (q, f) ↦
                let p : record d { freq = some q } ≡ d' = ground (arith, e, c, k, f) in
                rw (← p) (lo, hi, days)
          ]
          | inr k ↦ elim (Bool-cases (str_eq key (codes "INTERVAL"))) [
            | inl i ↦ elim (Option-cases (atoi value)) [
              | inl f ↦ absurd (ground (arith, e, c, k, i, f))
              | inr (n, f) ↦ elim (Bool-cases (ltb n 1 || ltb 366 n)) [
                | inl out ↦ absurd (ground (arith, e, c, k, i, f, out))
                | inr fine ↦
                    let p : record d { interval = n } ≡ d' = ground (arith, e, c, k, i, f, fine) in
                    rw (← p) (ground (arith, fine), ground (arith, fine), days)
              ]
            ]
            | inr i ↦ elim (Bool-cases (str_eq key (codes "BYDAY"))) [
              | inr j ↦ absurd (ground (arith, e, c, k, i, j))
              | inl j ↦ elim (Option-cases (read_days casing (split_at 44 value))) [
                | inl f ↦ absurd (ground (arith, e, c, k, i, j, f))
                | inr (ws, f) ↦
                    let p : record d { by_day = d.by_day ++ ws } ≡ d' =
                      ground (arith, e, c, k, i, j, f) in
                    rw (← p) (
                      lo,
                      hi,
                      All-append IsWeekday d.by_day ws days
                          (read_days-IsWeekday (split_at 44 value) ws f),
                    )
              ]
            ]
          ]
        ]
      ]

  read_parts-InRange :
      (ps : List Str) (d d' : Draft) → read_parts casing d ps ≡ some d' → InRange d → InRange d'
  unfolding read_parts
  read_parts-InRange [] d d' e h = let p : d ≡ d' = ground (arith, e) in rw (← p) h
  read_parts-InRange (p ∷ ps) d d' e h = elim (Option-cases (read_part casing d p)) [
    | inl f ↦ absurd (ground (arith, e, f))
    | inr (m, f) ↦ read_parts-InRange ps m d' (ground (arith, e, f)) (read_part-InRange d p m f h)
  ]

  -- A rule that is read is well-formed.
  pub parse_rule-WellFormed : (s : Str) (r : Rule) → parse_rule casing s ≡ some r → WellFormed r
  unfolding parse_rule
  parse_rule-WellFormed s r e =
      let start : Draft = record { freq = none; interval = 1; by_day = [] } in
      elim (Option-cases (read_parts casing start (split_at 59 (casing.trim_space s)))) [
        | inl f ↦ absurd (ground (arith, e, f))
        | inr (d, f) ↦ elim (Option-cases d.freq) [
          | inl g ↦ absurd (ground (arith, e, f, g))
          | inr (q, g) ↦ elim (Bool-cases (not (no_days d.by_day) && not (is_weekly q))) [
            | inl out ↦ absurd (ground (arith, e, f, g, out))
            | inr fine ↦
                let p : record { freq = q; interval = d.interval; by_day = d.by_day } ≡ r =
                  ground (arith, e, f, g, fine) in
                let (lo, hi, days) =
                  read_parts-InRange (split_at 59 (casing.trim_space s)) start d f
                    (omega arith, omega arith, tt) in
                rw (← p) (record {
                  at_least_one = lo;
                  at_most_366 = hi;
                  weekdays = days;
                  days_weekly = kept d.by_day q fine;
                })
          ]
        ]
      ]
    where
      kept :
          (ds : List ℕ) (q : Freq)
          → (not (no_days ds) && not (is_weekly q)) ≡ false
          → (ds ≡ []) ⊎ (q ≡ weekly)
      kept [] q h = inl refl
      kept (d ∷ ds) weekly h = inr refl
      kept (d ∷ ds) daily h = absurd (cc)
      kept (d ∷ ds) monthly h = absurd (cc)
