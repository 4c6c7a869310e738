-- ===== src/Timeparse.antt =====
-- The recurrence of a reminder (core/internal/timeparse/rrule.go). The case and space functions of texts
-- and the calendar of a zone are parameters; an instant is a number of nanoseconds, and no date is the
-- zero time, which is `none`.
pub mod Occurrences
pub mod Reading
pub mod Calendars
mod Tests
use notekeeper.Common.{
  ℕ, zero, suc, ◌+◌, ◌-◌, ◌*◌, ◌/◌, ◌%◌, min, Bool, true, false, not, ◌&&◌, ◌||◌, Option, none,
  some, List, [], ◌∷◌, ◌++◌, ltb, leb, ◌==◌, if◌then◌else◌,
}
use notekeeper.Common.Str.{Str, codes, str_eq, cut, split_at}

pub data Freq : Type 0 where
  daily weekly monthly : Freq

-- A weekday is its number, Sunday being 0.
pub record Rule : Type 0 where
  pub freq : Freq
  pub interval : ℕ
  pub by_day : List ℕ

-- `dayCodes`
pub day_code : Str → Option ℕ
day_code s =
    if str_eq s (codes "SU")
    then some 0
    else if str_eq s (codes "MO")
    then some 1
    else if str_eq s (codes "TU")
    then some 2
    else if str_eq s (codes "WE")
    then some 3
    else if str_eq s (codes "TH")
    then some 4
    else if str_eq s (codes "FR")
    then some 5
    else if str_eq s (codes "SA")
    then some 6
    else none

pub freq_of : Str → Option Freq
freq_of s =
    if str_eq s (codes "DAILY")
    then some daily
    else if str_eq s (codes "WEEKLY")
    then some weekly
    else if str_eq s (codes "MONTHLY")
    then some monthly
    else none

-- `strconv.Atoi` of a text without a minus; a text with one is below 1 or no number, and is refused all
-- the same.
pub digits_value : ℕ → Str → Option ℕ
digits_value n [] = some n
digits_value n (c ∷ s) = if leb 48 c && leb c 57 then digits_value (n * 10 + (c - 48)) s else none

pub atoi : Str → Option ℕ
unfolding digits_value
atoi [] = none
atoi (c ∷ []) = digits_value 0 (c ∷ [])
atoi (c ∷ d ∷ s) = if c == 43 then digits_value 0 (d ∷ s) else digits_value 0 (c ∷ d ∷ s)

abbrev pub is_weekly : Freq → Bool
is_weekly weekly = true
is_weekly daily = false
is_weekly monthly = false

abbrev pub no_days : List ℕ → Bool
no_days [] = true
no_days (d ∷ ds) = false

-- `strings.TrimSpace` and `strings.ToUpper`.
pub record Casing : Type 0 where
  pub trim_space : Str → Str
  pub to_upper : Str → Str

-- The rule while it is read: no frequency yet is the empty text.
pub record Draft : Type 0 where
  pub freq : Option Freq
  pub interval : ℕ
  pub by_day : List ℕ

infixl 5 ◌>>=◌
abbrev pub ◌>>=◌ {κ ℓ} :
    {Value : Type κ} {Next : Type ℓ} → Option Value → (Value → Option Next) → Option Next
none >>= next = none
some value >>= next = next value

module _ (casing : Casing) where
  pub read_days : List Str → Option (List ℕ)
  unfolding day_code
  read_days [] = some []
  read_days (d ∷ ds) = do w ← day_code (casing.to_upper d); ws ← read_days ds; some (w ∷ ws)

  -- One part of the rule.
  pub read_part : Draft → Str → Option Draft
  unfolding read_days freq_of atoi
  read_part r part =
      let (k, v, there) = cut 61 part in
      if not there
      then none
      else if str_eq (casing.to_upper k) (codes "FREQ")
      then elim (freq_of (casing.to_upper v)) [
        | none ↦ none
        | some f ↦ some (record r { freq = some f })
      ]
      else if str_eq (casing.to_upper k) (codes "INTERVAL")
      then elim (atoi v) [
        | none ↦ none
        | some n ↦ if ltb n 1 || ltb 366 n then none else some (record r { interval = n })
      ]
      else if str_eq (casing.to_upper k) (codes "BYDAY")
      then elim (read_days (split_at 44 v)) [
        | none ↦ none
        | some ws ↦ some (record r { by_day = r.by_day ++ ws })
      ]
      else none

  pub read_parts : Draft → List Str → Option Draft
  unfolding read_part
  read_parts r [] = some r
  read_parts r (p ∷ ps) = elim (read_part r p) [ none ↦ none | some r' ↦ read_parts r' ps ]

  -- `ParseRule`
  pub parse_rule : Str → Option Rule
  unfolding read_parts
  parse_rule s = do
    r ←
        read_parts (record { freq = none; interval = 1; by_day = [] })
          (split_at 59 (casing.trim_space s))
    f ← r.freq
    elim (not (no_days r.by_day) && not (is_weekly f)) [
      | true ↦ none
      | false ↦ some (record { freq = f; interval = r.interval; by_day = r.by_day })
    ]

-- The calendar of one zone. `date` is `time.Date` on a year, a month, a day less some days, an hour and a
-- minute; it takes a month above 12 and a day out of the month as `time.Date` does.
pub record Zone : Type 0 where
  pub year : ℕ → ℕ
  pub month : ℕ → ℕ
  pub day : ℕ → ℕ
  pub weekday : ℕ → ℕ
  pub hour : ℕ → ℕ
  pub minute : ℕ → ℕ
  pub date : ℕ → ℕ → ℕ → ℕ → ℕ → ℕ → ℕ

abbrev pub day_length : ℕ
day_length = 86400000000000

-- The loop over the months of a year, on fuel.
unfoldable pub wrap_months : ℕ → ℕ → ℕ → ℕ × ℕ
wrap_months zero y mo = (y, mo)
wrap_months (suc fuel) y mo =
    let rest = wrap_months fuel (y + 1) (mo - 12) in if ltb 12 mo then rest else (y, mo)

abbrev pub is_in : ℕ → List ℕ → Bool
is_in d [] = false
is_in d (x ∷ xs) = x == d || is_in d xs

module _ (z : Zone) (r : Rule) (from : ℕ) where
  -- `at`
  abbrev pub at_day : ℕ → ℕ → ℕ → ℕ
  at_day y mo d = z.date y mo d 0 (z.hour from) (z.minute from)

  -- `weekStart`
  abbrev pub week_start : ℕ → ℕ
  week_start t = z.date (z.year t) (z.month t) (z.day t) ((z.weekday t + 6) % 7) 0 0

  -- The weeks from the week of the first occurrence, which no later day is before, of whole days by
  -- rounding.
  abbrev pub weeks_since : ℕ → ℕ
  weeks_since c = ((week_start c - week_start from + day_length / 2) / day_length) / 7

  abbrev pub rule_days : List ℕ
  rule_days = if no_days r.by_day then z.weekday from ∷ [] else r.by_day

  -- The loop over the days behind `cur`, of which `left` are still to be looked at.
  pub week_search : ℕ → ℕ → ℕ → Option ℕ
  week_search zero cur d = none
  week_search (suc left) cur d =
      let rest = week_search left cur (d + 1) in
      let c = at_day (z.year cur) (z.month cur) (z.day cur + d) in
      if (weeks_since c) % r.interval == 0 && is_in (z.weekday c) rule_days then some c else rest

  -- The occurrence behind `cur`.
  pub occurrence : Freq → ℕ → Option ℕ
  unfolding week_search
  occurrence daily cur = some (at_day (z.year cur) (z.month cur) (z.day cur + r.interval))
  occurrence monthly cur =
      let (y, mo) =
        wrap_months (z.month cur + r.interval) (z.year cur) (z.month cur + r.interval) in
      some (at_day y mo (min (z.day from) (z.day (z.date y (mo + 1) 0 0 0 0))))
  occurrence weekly cur = week_search (7 * r.interval + 7) cur 1

  -- The loop of `Next`.
  pub next_loop : ℕ → ℕ → ℕ → Option ℕ
  unfolding occurrence
  next_loop zero after cur = none
  next_loop (suc fuel) after cur = elim (occurrence r.freq cur) [
    | none ↦ none
    | some n ↦ let rest = next_loop fuel after n in if ltb after n then some n else rest
  ]

-- `Next`
pub next_occurrence : Zone → Rule → ℕ → ℕ → Option ℕ
unfolding next_loop
next_occurrence z r from after = next_loop z r from 20000 after from
