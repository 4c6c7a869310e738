-- ===== src/Reminders/Trash.antt =====
-- What dismissing and restoring a note does to its reminders (core/internal/reminders/reminders.go,
-- `OnDismiss` and `OnRestore`).
pub mod Cycle
pub mod Apart
use notekeeper.Common.{
  ℕ, ◌+◌, Bool, true, false, ◌&&◌, Option, none, some, List, [], ◌∷◌, ltb, ◌==◌, if◌then◌else◌,
}
use notekeeper.Common.Str.{Str}
use notekeeper.Db.Rows.{update, select}
use notekeeper.Db.Feed.{change}
use notekeeper.Db.{
  Db, Reminder, ReminderState, pending, suspended, cancelled, Entity, upsert, Result, ok, ◌>>=◌,
}
use notekeeper.Reminders.{
  Calendar, of_note, is_pending, is_suspended, next_of, user_zone, set_reminders,
}

pub suspend : Reminder → Reminder
suspend r = record r { state = suspended; claimed_until = none; version = r.version + 1 }

abbrev pub pending_of : ℕ → ℕ → Reminder → Bool
pending_of user note r = of_note user note r && is_pending r.state

abbrev pub suspended_of : ℕ → ℕ → Reminder → Bool
suspended_of user note r = of_note user note r && is_suspended r.state

-- The loop over the ids that SuspendNoteReminders returns.
tell : Db → ℕ → List Reminder → Db
tell db user [] = db
tell db user (r ∷ rs) = tell (change db user Entity.reminder r.id upsert none) user rs

-- `OnDismiss`
unfoldable pub on_dismiss : Db → ℕ → ℕ → Db
unfolding suspend tell
on_dismiss db user note =
    tell (set_reminders db (update (pending_of user note) suspend db.reminders)) user
      (select (pending_of user note) db.reminders)

-- The state and the time that a suspended reminder gets: as before if it is still ahead, its next
-- occurrence if it has one, and otherwise it is cancelled.
pub restored : Calendar → Reminder → ℕ → Str → ReminderState × ℕ
restored cal r now tz =
    if ltb now r.due_at
    then (pending, r.due_at)
    else elim (next_of cal r now tz) [ some t ↦ (pending, t) | none ↦ (cancelled, r.due_at) ]

-- RestoreReminder
pub restore_row : ReminderState × ℕ → Reminder → Reminder
restore_row (state, due) r = record r { state = state; due_at = due; version = r.version + 1 }

pub restore_all : Calendar → Db → ℕ → ℕ → Str → List Reminder → Db
unfolding restored restore_row
restore_all cal db user now tz [] = db
restore_all cal db user now tz (r ∷ rs) =
    restore_all cal
      (change
        (set_reminders db
          (update (λ q. q.id == r.id) (restore_row (restored cal r now tz)) db.reminders))
        user Entity.reminder r.id upsert none)
      user now tz rs

-- `OnRestore`
unfoldable pub on_restore : Calendar → Db → ℕ → ℕ → ℕ → Result Db
unfolding restore_all
on_restore cal db user note now = do
  tz ← user_zone cal db user
  ok (restore_all cal db user now tz (select (suspended_of user note) db.reminders))
