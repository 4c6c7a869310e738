-- ===== src/Reminders.antt =====
-- Reminders on notes (core/internal/reminders/reminders.go): creating, changing, snoozing, finishing,
-- and what a dismissal or a restore of the note does to them. Each function is one transaction of
-- one user, or a part of one, on the shared store.
pub mod Endings
pub mod Trash
pub mod Firing
pub mod Limits
mod Tests
use notekeeper.Common.{
  refl, ◌≡◌, ℕ, ◌+◌, ◌<◌, Bool, true, false, not, ◌&&◌, ◌||◌, Option, none, some, List, [], ◌∷◌,
  ltb, leb, ◌==◌, if◌then◌else◌,
}
use notekeeper.Common.Str.{Str, codes}
use notekeeper.Db.Rows.{find, update, update_one, delete, count, select}
use notekeeper.Db.Feed.{is_user, change}
use notekeeper.Db.{
  Db, Note, NoteState, Reminder, ReminderState, pending, fired, suspended, done, cancelled,
  OutboxItem, OutboxState, queued, claimed, delivered, failed, expired, Entity, upsert, Error,
  not_found, invalid, past, not_active, limit, Result, ok, err, ◌>>=◌, ◌>>◌, or_fail, guard,
  is_active,
}

-- The clock, the zones and the recurrence rules that the service calls. `next` is the rule's next
-- occurrence from one instant, strictly after another, in a zone; `none` is the zero time.
pub record Calendar : Type 0 where
  pub add_years : ℕ → ℕ → ℕ
  pub zone_exists : Str → Bool
  pub rule_parses : Str → Bool
  pub next : Str → ℕ → ℕ → Str → Option ℕ
  pub next_after :
      (s : Str) (from after : ℕ) (tz : Str) (t : ℕ) → next s from after tz ≡ some t → after < t

abbrev pub max_per_note : ℕ
max_per_note = 20

abbrev pub max_per_user : ℕ
max_per_user = 500

abbrev pub is_reminder : ℕ → ℕ → Reminder → Bool
is_reminder id user r = r.id == id && r.user_id == user

abbrev pub is_note : ℕ → ℕ → Note → Bool
is_note id user n = n.id == id && n.user_id == user

abbrev pub of_note : ℕ → ℕ → Reminder → Bool
of_note user note r = r.user_id == user && r.note_id == note

abbrev pub is_pending : ReminderState → Bool
is_pending pending = true
is_pending _ = false

abbrev pub is_suspended : ReminderState → Bool
is_suspended suspended = true
is_suspended _ = false

-- The states that FinishReminder takes, and those that SnoozeReminder takes.
abbrev pub is_open : ReminderState → Bool
is_open pending = true
is_open fired = true
is_open _ = false

abbrev pub can_snooze : ReminderState → Bool
can_snooze pending = true
can_snooze fired = true
can_snooze done = true
can_snooze _ = false

-- What counts against the limit of a user.
abbrev pub is_armed : ReminderState → Bool
is_armed pending = true
is_armed suspended = true
is_armed _ = false

abbrev pub is_waiting : OutboxState → Bool
is_waiting queued = true
is_waiting claimed = true
is_waiting _ = false

-- The effect of SnoozeReminder on a row, and of SetReminder but for the rule.
abbrev pub rearm : ℕ → Reminder → Reminder
rearm due r = record r {
  due_at = due;
  state = pending;
  claimed_until = none;
  version = r.version + 1;
}

-- `userZone`: a zone that cannot be loaded is UTC.
unfoldable pub user_zone : Calendar → Db → ℕ → Result Str
user_zone cal db user = do
  u ← or_fail (find (is_user user) db.users) not_found
  ok (if cal.zone_exists u.timezone then u.timezone else codes "UTC")

abbrev rule_ok : Calendar → Option Str → Bool
rule_ok cal none = true
rule_ok cal (some s) = cal.rule_parses s

pub validate : Calendar → ℕ → Option Str → ℕ → Result (Unit {0})
validate cal due rrule now = do
  guard (ltb now due) past
  guard (leb due (cal.add_years now 10)) invalid
  guard (rule_ok cal rrule) invalid

-- The next occurrence, if the reminder has a rule that can be read.
pub next_of : Calendar → Reminder → ℕ → Str → Option ℕ
next_of cal r now tz = elim r.rrule [
  | none ↦ none
  | some s ↦ if cal.rule_parses s then cal.next s r.due_at now tz else none
]

-- `changed`: the reminder and its note are told to the clients.
pub changed : Db → ℕ → Reminder → Db
changed db user r =
    change (change db user Entity.reminder r.id upsert (some r.version)) user Entity.note r.note_id
      upsert none

abbrev pub set_reminders : Db → List Reminder → Db
set_reminders db rs = record db { reminders = rs }

-- CreateIn; `id` is the new id.
pub create_in : Calendar → Db → ℕ → ℕ → ℕ → ℕ → Option Str → ℕ → Result (Reminder × Db)
unfolding validate user_zone
create_in cal db user id note due rrule now = do
  validate cal due rrule now
  n ← or_fail (find (is_note note user) db.notes) not_found
  guard (is_active n.state) not_active
  guard
      (ltb (count (of_note user note) db.reminders) max_per_note
        && ltb (count (λ r. r.user_id == user && is_armed r.state) db.reminders) max_per_user)
      limit
  tz ← user_zone cal db user
  let r : Reminder = record {
    id = id;
    user_id = user;
    note_id = note;
    due_at = due;
    rrule = rrule;
    tz = tz;
    state = pending;
    last_fired_at = none;
    claimed_until = none;
    created_at = now;
    version = 1;
  }
  ok (r, changed (set_reminders db (r ∷ db.reminders)) user r)

-- `Update`; `set_rule` says whether `rrule` is meant.
pub update_reminder :
    Calendar → Db → ℕ → ℕ → Option ℕ → Bool → Option Str → ℕ → Result (Reminder × Db)
unfolding validate
update_reminder cal db user id due set_rule rrule now = do
  cur ← or_fail (find (is_reminder id user) db.reminders) not_found
  let new_due : ℕ = elim due [ none ↦ cur.due_at | some t ↦ t ]
  let new_rule : Option Str = if set_rule then rrule else cur.rrule
  validate cal new_due new_rule now
  n ← or_fail (find (is_note cur.note_id user) db.notes) not_found
  guard (is_active n.state) not_active
  (r, rs) ←
      or_fail
        (update_one (is_reminder id user)
          (λ q. record (rearm new_due q) { rrule = new_rule; tz = cur.tz }) db.reminders)
        not_found
  ok (r, changed (set_reminders db rs) user r)
