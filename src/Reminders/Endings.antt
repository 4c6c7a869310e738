-- ===== src/Reminders/Endings.antt =====
-- Deleting, snoozing and finishing a reminder (core/internal/reminders/reminders.go), with the chat
-- messages that wait to be sent for it.
use notekeeper.Common.{ℕ, ◌+◌, Bool, true, false, ◌&&◌, Option, none, some, List, ltb, leb, ◌==◌}
use notekeeper.Db.Rows.{find, update, update_one, delete}
use notekeeper.Db.Feed.{change}
use notekeeper.Db.{
  Db, Reminder, done, OutboxItem, expired, Entity, upsert, Op, not_found, past, Result, ok, ◌>>=◌,
  ◌>>◌, or_fail, guard,
}
use notekeeper.Reminders.{
  Calendar, is_reminder, is_open, can_snooze, is_waiting, rearm, user_zone, next_of, changed,
  set_reminders,
}

abbrev pub eq_id : Option ℕ → ℕ → Bool
eq_id none k = false
eq_id (some j) k = j == k

abbrev pub is_queued_for : ℕ → ℕ → OutboxItem → Bool
is_queued_for user id o = eq_id o.user_id user && eq_id o.reminder_id id && is_waiting o.state

-- The effect of a cancellation: the text goes with the item. The reason is 'cancelled'.
abbrev pub cancel : ℕ → OutboxItem → OutboxItem
cancel now o = record o {
  state = expired;
  finished_at = some now;
  lease_expires_at = none;
  failure_reason = some 0;
  payload = none;
}

-- `cancelQueued`, CancelOutboxForReminder
pub cancel_queued : Db → ℕ → ℕ → ℕ → Db
cancel_queued db user id now = record db {
  outbox = update (is_queued_for user id) (cancel now) db.outbox;
}

-- `Delete`
unfoldable pub delete_reminder : Db → ℕ → ℕ → ℕ → Result Db
unfolding cancel_queued
delete_reminder db user id now = do
  r ← or_fail (find (is_reminder id user) db.reminders) not_found
  let db' = set_reminders db (delete (is_reminder id user) db.reminders)
  ok (
      change (change (cancel_queued db' user id now) user Entity.reminder id Op.delete none) user
        Entity.note r.note_id upsert none)

-- SnoozeReminder
snooze_row : Db → ℕ → ℕ → ℕ → Result (Reminder × List Reminder)
snooze_row db user id due =
    or_fail (update_one (λ r. is_reminder id user r && can_snooze r.state) (rearm due) db.reminders)
      not_found

-- `SnoozeIn`
pub snooze_in : Calendar → Db → ℕ → ℕ → ℕ → ℕ → Result (Reminder × Db)
unfolding snooze_row
snooze_in cal db user id until now = do
  guard (ltb now until && leb until (cal.add_years now 1)) past
  (r, rs) ← snooze_row db user id until
  ok (r, changed (set_reminders db rs) user r)

-- FinishReminder
finish : Reminder → Reminder
finish r = record r { state = done; claimed_until = none; version = r.version + 1 }

finish_in : Db → ℕ → ℕ → Result (Reminder × Db)
unfolding finish
finish_in db user id = do
  (r, rs) ←
      or_fail (update_one (λ r. is_reminder id user r && is_open r.state) finish db.reminders)
        not_found
  ok (r, changed (set_reminders db rs) user r)

skip_in : Db → ℕ → ℕ → ℕ → Result (Reminder × Db)
unfolding snooze_row
skip_in db user id next = do
  (r, rs) ← snooze_row db user id next
  ok (r, changed (set_reminders db rs) user r)

-- `DoneIn`: a recurring reminder that is open skips to its next occurrence, any other is finished.
unfoldable pub done_in : Calendar → Db → ℕ → ℕ → ℕ → Result (Reminder × Db)
unfolding cancel_queued skip_in finish_in
done_in cal db user id now = do
  cur ← or_fail (find (is_reminder id user) db.reminders) not_found
  let db' = cancel_queued db user id now
  elim (is_open cur.state) [
    | true ↦ elim cur.rrule [
      | none ↦ finish_in db' user id
      | some _ ↦ user_zone cal db user >>= λ tz. elim (next_of cal cur now tz) [
        | some next ↦ skip_in db' user id next
        | none ↦ finish_in db' user id
      ]
    ]
    | false ↦ finish_in db' user id
  ]
