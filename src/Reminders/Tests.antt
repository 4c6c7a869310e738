-- ===== src/Reminders/Tests.antt =====
-- Runs of the reminders (core/internal/reminders/reminders.go) on a small store.
use notekeeper.Common.{
  ℕ, ◌+◌, ◌≡◌, ◌≤◌, ◌<◌, inr, refl, true, false, Option, none, some, List, [], ◌∷◌, arith, length,
}
use notekeeper.Common.Str.{Str, codes}
use notekeeper.Db.Rows.{find, select, sort_by, update_one, count}
use notekeeper.Db.Feed.{change}
use notekeeper.Db.{
  Db, User, Note, active, Reminder, ReminderState, pending, suspended, Result, ok, err, is_active,
}
use notekeeper.Reminders.{
  next_of, Calendar, is_note, user_zone, create_in, max_per_note, max_per_user,
}
use notekeeper.Reminders.Limits.{on_note, armed, create_in_limits}
use notekeeper.Reminders.Firing.{Env, claim_due, is_due, fire_one, queue_all, settle, notify}
use notekeeper.Reminders.Firing.Once.{fire_once}
use notekeeper.Reminders.Endings.{delete_reminder, done_in}
use notekeeper.Reminders.Trash.{on_restore}
use notekeeper.Reminders.Trash.Cycle.{NoneSuspended, AllAhead, on_restore_rearms}

later_next : (after t : ℕ) → some (after + 10) ≡ some t → after < t
later_next after t e = ground (arith, e)

abbrev clock : Calendar
clock = record {
  add_years = λ now n. now + 1000;
  zone_exists = λ s. true;
  rule_parses = λ s. true;
  next = λ s from after tz. some (after + 10);
  next_after = λ s from after tz t e. later_next after t e;
}

abbrev world : Env
world = record {
  calendar = clock;
  targets = λ u. record { bot_instance_id = 1; conversation_id = codes "room" } ∷ [];
  payload = λ db r late. 0;
  new_id = λ db. length db.outbox;
}

abbrev owner : User
owner = record { id = 1; active = true; timezone = codes "UTC"; change_seq = 0 }

abbrev note_two : Note
note_two = record {
  id = 2;
  user_id = 1;
  category_id = none;
  position = none;
  state = active;
  deleted_at = none;
  created_at = 0;
  received_at = 0;
  updated_at = 0;
  version = 1;
}

abbrev call : ReminderState → Option Str → Reminder
call state rule = record {
  id = 3;
  user_id = 1;
  note_id = 2;
  due_at = 50;
  rrule = rule;
  tz = codes "UTC";
  state = state;
  last_fired_at = none;
  claimed_until = none;
  created_at = 0;
  version = 1;
}

abbrev store : List Reminder → Db
store rs = record {
  users = owner ∷ [];
  categories = [];
  notes = note_two ∷ [];
  parts = [];
  attachments = [];
  blobs = [];
  storage = [];
  links = [];
  reminders = rs;
  outbox = [];
  sent = [];
  changes = [];
  notifications = [];
}

abbrev waiting : Db
waiting = store (call pending none ∷ [])

abbrev in_trash : Db
in_trash = store (call suspended (some (codes "FREQ=DAILY")) ∷ [])

abbrev left_by {ℓ} : {A : Type ℓ} → Db → Result (A × Db) → Db
left_by db (ok (_, d)) = d
left_by db (err _) = db

abbrev fired_store : Db
fired_store = left_by waiting (fire_one world waiting 1 3 60)

fires : fire_one world waiting 1 3 60 ≡ ok (true, fired_store)
unfolding fire_one find user_zone queue_all notify settle update_one change
fires = refl

due_now : find (is_due 3 1 60) waiting.reminders ≡ some (call pending none)
unfolding find
due_now = refl

fire_once_example : fire_one world fired_store 1 3 90 ≡ ok (false, fired_store)
fire_once_example =
    fire_once world waiting 1 3 60 90 fired_store (call pending none) fires due_now (inr refl)

abbrev plain_left : Db → Result Db → Db
plain_left db (ok d) = d
plain_left db (err _) = db

abbrev restored_store : Db
restored_store = plain_left in_trash (on_restore clock in_trash 1 2 60)

restores : on_restore clock in_trash 1 2 60 ≡ ok restored_store
unfolding on_restore user_zone find
restores = refl

on_restore_rearms_example : NoneSuspended 1 2 restored_store × AllAhead 1 2 60 restored_store
on_restore_rearms_example =
    on_restore_rearms clock in_trash 1 2 60 restored_store (refl, tt) restores

abbrev made_at : Result (Reminder × Db)
made_at = create_in clock waiting 1 9 2 80 none 60

abbrev made_reminder : Reminder
made_reminder = record (call pending none) { id = 9; due_at = 80; created_at = 60 }

abbrev made_store : Db
made_store = left_by waiting made_at

creates : create_in clock waiting 1 9 2 80 none 60 ≡ ok (made_reminder, made_store)
unfolding create_in find user_zone count
creates = refl

create_in_limits_example :
    (60 < 80)
    × (80 ≤ 1060)
    × ((n : Note) × (find (is_note 2 1) waiting.notes ≡ some n) × (is_active n.state ≡ true))
    × (on_note 1 2 made_store ≡ on_note 1 2 waiting + 1)
    × (armed 1 made_store ≡ armed 1 waiting + 1)
    × (on_note 1 2 made_store ≤ max_per_note)
    × (armed 1 made_store ≤ max_per_user)
create_in_limits_example =
    create_in_limits clock waiting 1 9 2 80 none 60 made_reminder made_store creates

abbrev without_it : Db
without_it = plain_left waiting (delete_reminder waiting 1 3 60)

deletes : delete_reminder waiting 1 3 60 ≡ ok without_it
unfolding delete_reminder find
deletes = refl

abbrev daily : Db
daily = store (call pending (some (codes "FREQ=DAILY")) ∷ [])

abbrev skipped : Reminder
skipped = record (call pending (some (codes "FREQ=DAILY"))) { due_at = 70; version = 2 }

abbrev skipped_store : Db
skipped_store = left_by daily (done_in clock daily 1 3 60)

skips : done_in clock daily 1 3 60 ≡ ok (skipped, skipped_store)
unfolding done_in update_one user_zone next_of find
skips = refl

claims_it : length (claim_due waiting 60).0 ≡ 1
unfolding claim_due select sort_by find
claims_it = refl
