-- ===== src/Notes.antt =====
-- Dismissing and restoring a note (core/internal/notes/ops.go, `transition`). The parts and places that
-- the answer carries are read, not changed, and are left out.
pub mod Cycle
pub mod Order
pub mod Move
pub mod Regroup
pub mod Parts
pub mod Purge
mod Tests
use notekeeper.Common.{ℕ, ◌+◌, Bool, true, false, not, ◌&&◌, Option, none, some}
use notekeeper.Db.Rows.{find, update, update_one}
use notekeeper.Db.Feed.{change}
use notekeeper.Db.{
  Db, Note, NoteState, active, deleted, Entity, upsert, not_found, conflict, Result, ok, err, ◌>>=◌,
  or_fail, is_active,
}
use notekeeper.Reminders.{Calendar, is_note}
use notekeeper.Reminders.Trash.{on_dismiss, on_restore}

-- DismissNote and RestoreNote.
abbrev pub dismissed : ℕ → Note → Note
dismissed now n = record n {
  state = deleted;
  deleted_at = some now;
  updated_at = now;
  version = n.version + 1;
}

abbrev pub undismissed : ℕ → Note → Note
undismissed now n = record n {
  state = active;
  deleted_at = none;
  updated_at = now;
  version = n.version + 1;
}

abbrev pub in_state : Bool → ℕ → ℕ → Note → Bool
in_state true id user n = is_note id user n && is_active n.state
in_state false id user n = is_note id user n && not (is_active n.state)

-- The reminders follow the new state of the note.
pub follow_up : Calendar → Db → ℕ → ℕ → Note → ℕ → Result Db
follow_up cal db user id n later = elim (is_active n.state) [
  | true ↦ on_restore cal db user id later
  | false ↦ ok (on_dismiss db user id)
]

-- `transition`; `later` is the time that is read for the reminders. A note that is in the state already
-- is ErrConflict.
pub transition : Calendar → Db → ℕ → ℕ → (Note → Bool) → (Note → Note) → ℕ → Result (Note × Db)
unfolding follow_up
transition cal db user id fits f later = do
  cur ← or_fail (find (is_note id user) db.notes) not_found
  (n, ns) ← or_fail (update_one fits f db.notes) conflict
  db' ← follow_up cal (record db { notes = ns }) user id n later
  ok (n, change db' user Entity.note id upsert (some n.version))

-- `Dismiss`
pub dismiss : Calendar → Db → ℕ → ℕ → ℕ → ℕ → Result (Note × Db)
unfolding transition
dismiss cal db user id now later =
    transition cal db user id (in_state true id user) (dismissed now) later

-- `Restore`
pub restore : Calendar → Db → ℕ → ℕ → ℕ → ℕ → Result (Note × Db)
unfolding transition
restore cal db user id now later =
    transition cal db user id (in_state false id user) (undismissed now) later
