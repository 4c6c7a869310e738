-- ===== src/Notes/Tests.antt =====
-- Runs of a note's way through the Trash (core/internal/notes/ops.go).
use notekeeper.Common.{
  ℕ, ◌+◌, ◌<◌, ◌≡◌, refl, true, false, Option, none, some, List, [], ◌∷◌, arith,
}
use notekeeper.Common.Str.{Str, codes}
use notekeeper.Db.Rows.{find, update_one, update, select}
use notekeeper.Db.Feed.{change}
use notekeeper.Db.{Db, User, Note, active, Reminder, ReminderState, pending, Result, ok, err}
use notekeeper.Reminders.{Calendar, user_zone}
use notekeeper.Reminders.Trash.{on_dismiss, on_restore}
use notekeeper.Reminders.Trash.Cycle.{NoneSuspended, AllAhead}
use notekeeper.Notes.{in_state, dismiss, restore}
use notekeeper.Notes.Cycle.{place_of, restore-dismiss}

later_next : (after t : ℕ) → some (after + 10) ≡ some t → after < t
later_next after t e = ground (arith, e)

abbrev clock : Calendar
clock = record {
  add_years = λ now n. now + 1000;
  zone_exists = λ s. true;
  rule_parses = λ s. true;
  next = λ s from after tz. some (after + 10);
  next_after = λ s from after tz t e. later_next after t e;
}

abbrev owner : User
owner = record { id = 1; active = true; timezone = codes "UTC"; change_seq = 0 }

abbrev note_two : Note
note_two = record {
  id = 2;
  user_id = 1;
  category_id = none;
  position = none;
  state = active;
  deleted_at = none;
  created_at = 0;
  received_at = 0;
  updated_at = 0;
  version = 1;
}

abbrev call : ReminderState → Option Str → Reminder
call state rule = record {
  id = 3;
  user_id = 1;
  note_id = 2;
  due_at = 50;
  rrule = rule;
  tz = codes "UTC";
  state = state;
  last_fired_at = none;
  claimed_until = none;
  created_at = 0;
  version = 1;
}

abbrev store : List Reminder → Db
store rs = record {
  users = owner ∷ [];
  categories = [];
  notes = note_two ∷ [];
  parts = [];
  attachments = [];
  blobs = [];
  storage = [];
  links = [];
  reminders = rs;
  outbox = [];
  sent = [];
  changes = [];
  notifications = [];
}

abbrev kept : Db
kept = store (call pending (some (codes "FREQ=DAILY")) ∷ [])

abbrev note_of : Result (Note × Db) → Note
note_of (ok (n, _)) = n
note_of (err _) = note_two

abbrev left_by : Result (Note × Db) → Db
left_by (ok (_, d)) = d
left_by (err _) = kept

abbrev gone : Result (Note × Db)
gone = dismiss clock kept 1 2 40 41

abbrev back : Result (Note × Db)
back = restore clock (left_by gone) 1 2 60 61

dismisses : dismiss clock kept 1 2 40 41 ≡ ok (note_of gone, left_by gone)
unfolding dismiss find update_one
dismisses = refl

restores : restore clock (left_by gone) 1 2 60 61 ≡ ok (note_of back, left_by back)
unfolding dismiss restore find update_one update user_zone change on_dismiss on_restore select
restores = refl

restore-dismiss_example :
    (place_of 1 2 (left_by back) ≡ place_of 1 2 kept)
    × (find (in_state false 2 1) (left_by back).notes ≡ none)
    × ((note_of back).state ≡ active)
    × NoneSuspended 1 2 (left_by back)
    × AllAhead 1 2 61 (left_by back)
restore-dismiss_example =
    restore-dismiss clock kept 1 2 40 41 60 61 (note_of gone) (left_by gone) (note_of back)
      (left_by back) dismisses restores
