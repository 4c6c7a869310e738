-- ===== src/Timeparse/Calendars.antt =====
-- The calendar of the reminders, made of the rules (core/internal/timeparse/rrule.go) as
-- core/internal/reminders/reminders.go uses them: a rule is read and asked for its next occurrence.
use notekeeper.Common.{ℕ, ◌≡◌, inl, inr, Bool, true, false, Option, none, some, arith, Option-cases}
use notekeeper.Common.Str.{Str}
use notekeeper.Reminders.{Calendar}
use notekeeper.Timeparse.{Zone, Rule, Casing, parse_rule, next_occurrence, ◌>>=◌}
use notekeeper.Timeparse.Reading.{WellFormed, parse_rule-WellFormed}
use notekeeper.Timeparse.Occurrences.{First, next_occurrence-First}

abbrev is_some : Option Rule → Bool
is_some none = false
is_some (some r) = true

-- The rule of a reminder, read and asked for its next occurrence in a zone.
module _ (casing : Casing) (zone : Str → Zone) where
  abbrev pub next_by_rule : Str → ℕ → ℕ → Str → Option ℕ
  next_by_rule s from after tz = parse_rule casing s >>= λ r. next_occurrence (zone tz) r from after

  -- What an answer comes from: a well-formed rule, of which it is the first occurrence later than `after`.
  abbrev pub FirstByRule : Str → ℕ → ℕ → Str → ℕ → Type 0
  FirstByRule s from after tz t =
      (r : Rule) × (parse_rule casing s ≡ some r)
      × WellFormed r
      × First (zone tz) r from after from t

  -- The next occurrence that the reminders go by is the first one of a well-formed rule that is later than
  -- the given instant.
  pub next_by_rule-First :
      (s : Str) (from after : ℕ) (tz : Str) (t : ℕ)
      → next_by_rule s from after tz ≡ some t
      → FirstByRule s from after tz t
  next_by_rule-First s from after tz t e = elim (Option-cases (parse_rule casing s)) [
    | inl f ↦ absurd (ground (arith, e, f))
    | inr (r, f) ↦ (
      r,
      f,
      parse_rule-WellFormed casing s r f,
      next_occurrence-First (zone tz) r from after t (ground (arith, e, f)),
    )
  ]

  -- The calendar that the reminders are given.
  abbrev pub rule_calendar : (Str → Bool) → (ℕ → ℕ → ℕ) → Calendar
  rule_calendar zone_exists add_years = record {
    add_years = add_years;
    zone_exists = zone_exists;
    rule_parses = λ s. is_some (parse_rule casing s);
    next = next_by_rule;
    next_after = λ s from after tz t e. (next_by_rule-First s from after tz t e).3.3;
  }
