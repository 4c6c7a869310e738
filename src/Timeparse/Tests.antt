-- ===== src/Timeparse/Tests.antt =====
-- Runs of the recurrence rules (core/internal/timeparse/rrule.go) in a calendar of one long month.
use notekeeper.Common.{ℕ, ◌+◌, ◌-◌, ◌*◌, ◌/◌, ◌%◌, ◌≡◌, refl, true, none, some, [], ◌∷◌, arith}
use notekeeper.Common.Str.{Str, codes, str_eq, cut, split_at}
use notekeeper.Timeparse.{
  Zone, Rule, Casing, daily, weekly, day_code, freq_of, atoi, digits_value, read_days, read_part,
  read_parts, parse_rule, occurrence, next_loop, next_occurrence,
}
use notekeeper.Timeparse.Reading.{WellFormed, parse_rule-WellFormed}
use notekeeper.Timeparse.Occurrences.{
  First, Reached, first_one, next_one, GoesOn, next_occurrence-found,
}
use notekeeper.Timeparse.Calendars.{FirstByRule, next_by_rule, rule_calendar, next_by_rule-First}

abbrev as_is : Casing
as_is = record { trim_space = λ s. s; to_upper = λ s. s }

abbrev one_month : Zone
one_month = record {
  year = λ t. 1;
  month = λ t. 1;
  day = λ t. t;
  weekday = λ t. t % 7;
  hour = λ t. 0;
  minute = λ t. 0;
  date = λ y mo d back h mi. d - back;
}

abbrev mondays : Rule
mondays = record { freq = weekly; interval = 1; by_day = 1 ∷ [] }

reads_mondays : parse_rule as_is (codes "FREQ=WEEKLY;BYDAY=MO") ≡ some mondays
unfolding parse_rule read_parts read_part read_days day_code freq_of str_eq cut split_at
reads_mondays = refl

refuses_days : parse_rule as_is (codes "FREQ=DAILY;BYDAY=MO") ≡ none
unfolding parse_rule read_parts read_part read_days day_code freq_of str_eq cut split_at
refuses_days = refl

parse_rule-WellFormed_example : WellFormed mondays
parse_rule-WellFormed_example =
    parse_rule-WellFormed as_is (codes "FREQ=WEEKLY;BYDAY=MO") mondays reads_mondays

-- The days and clocks of a zone without daylight saving, the days being counted through.
abbrev steady : Zone
steady = record {
  year = λ t. 1;
  month = λ t. 1;
  day = λ t. t / 86400000000000;
  weekday = λ t. t / 86400000000000 % 7;
  hour = λ t. t / 3600000000000 % 24;
  minute = λ t. t / 60000000000 % 60;
  date = λ y mo d back h mi. (d - back) * 86400000000000 + h * 3600000000000 + mi * 60000000000;
}

abbrev every_day : Rule
every_day = record { freq = daily; interval = 1; by_day = [] }

-- Half past nine on the third day.
abbrev half_past_nine : ℕ
half_past_nine = 293400000000000

at_half_past_nine :
    (t : ℕ) → Reached steady every_day half_past_nine t → t % 86400000000000 ≡ 34200000000000
unfolding occurrence
at_half_past_nine _ first_one = refl
at_half_past_nine _ (next_one cur n at e) =
    let day : (cur / 86400000000000 + 1 - 0) * 86400000000000 + 34200000000000 ≡ n =
      ground (arith, e) in
    omega (arith, day)

every_day-GoesOn : GoesOn steady every_day half_past_nine 86400000000000
unfolding occurrence
every_day-GoesOn cur at = (_, refl, omega (arith, at_half_past_nine cur at))

next_occurrence-found_example :
    (t : ℕ) × (next_occurrence steady every_day half_past_nine 900000000000000 ≡ some t)
    × First steady every_day half_past_nine 900000000000000 half_past_nine t
next_occurrence-found_example =
    next_occurrence-found steady every_day half_past_nine 900000000000000 86400000000000
      every_day-GoesOn (omega arith)

abbrev daily_text : Str
daily_text = codes "FREQ=DAILY;INTERVAL=3"

answers : next_by_rule as_is (λ tz. one_month) daily_text 5 10 [] ≡ some 11
unfolding parse_rule read_parts read_part read_days freq_of atoi digits_value str_eq cut split_at
    next_occurrence next_loop occurrence
answers = refl

next_by_rule-First_example : FirstByRule as_is (λ tz. one_month) daily_text 5 10 [] 11
next_by_rule-First_example =
    next_by_rule-First as_is (λ tz. one_month) daily_text 5 10 [] 11 answers

calendar_answers :
    (rule_calendar as_is (λ tz. one_month) (λ tz. true) (λ now n. now + n)).next daily_text 5 10 []
    ≡ some 11
calendar_answers = answers
