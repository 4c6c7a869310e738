-- ===== src/Bots/Unlinking.antt =====
-- The end of a link and the choice of the chats that get reminders (core/internal/bots/identities.go,
-- `Unlink` and `SetReminderTarget`).
pub mod Ended
use notekeeper.Common.{
  ℕ, if◌then◌else◌, Bool, true, false, not, ◌&&◌, Option, none, some, ◌∷◌, ◌==◌,
}
use notekeeper.Common.Str.{Str, str_eq}
use notekeeper.Db.Rows.{find, update, update_one, delete}
use notekeeper.Db.Feed.{status, change}
use notekeeper.Db.{
  Db, OutboxItem, OutboxKind, Entity, upsert, Op, not_found, internal, Result, ok, err, ◌>>=◌, ◌>>◌,
  or_fail, guard,
}
use notekeeper.Reminders.{is_waiting}
use notekeeper.Reminders.Endings.{eq_id, cancel}
use notekeeper.Ingest.{Identity}
use notekeeper.Ingest.Tables.{Intake, is_identity}
use notekeeper.Bots.{NoticeIds, outbox_item, security_notice}

-- CancelOutboxForConversation; `kinds` tells which kinds of messages are cancelled.
abbrev pub waits_in : (OutboxKind → Bool) → ℕ → ℕ → Str → OutboxItem → Bool
waits_in kinds user bot conversation o =
    kinds o.kind
    && eq_id o.user_id user
    && o.bot_instance_id == bot
    && str_eq o.conversation_id conversation
    && is_waiting o.state

unfoldable pub cancel_in : (OutboxKind → Bool) → ℕ → ℕ → ℕ → Option Str → Db → Db
cancel_in kinds user bot now none db = db
cancel_in kinds user bot now (some c) db = record db {
  outbox = update (waits_in kinds user bot c) (cancel now) db.outbox;
}

abbrev pub reminders_only : OutboxKind → Bool
reminders_only OutboxKind.reminder = true
reminders_only OutboxKind.notice = false
reminders_only OutboxKind.lifecycle = false

abbrev pub reminders_and_notices : OutboxKind → Bool
reminders_and_notices OutboxKind.reminder = true
reminders_and_notices OutboxKind.notice = true
reminders_and_notices OutboxKind.lifecycle = false

-- What a request is given: the user and the identity, the ids that are free, the texts of the two
-- messages, and the clocks of the program and of the database.
pub record Request : Type 0 where
  pub user : ℕ
  pub identity : ℕ
  pub notice_ids : NoticeIds
  pub farewell_id : ℕ
  pub farewell : ℕ
  pub notice : ℕ
  pub now : ℕ
  pub database_now : ℕ

-- The message that makes the bot forget a conversation; it names no user.
unfoldable pub say_farewell : Option Str → Request → ℕ → Db → Db
say_farewell none q bot db = db
say_farewell (some c) q bot db = record db {
  outbox =
      outbox_item q.farewell_id bot OutboxKind.lifecycle none c q.farewell q.now q.database_now
      ∷ db.outbox;
}

-- GetIdentity and DeleteIdentity
abbrev pub is_linked_to : Request → Identity → Bool
is_linked_to q i = is_identity q.identity i && i.user_id == q.user

-- What unlinking does, with the row of the identity.
unfoldable pub unlinked : Request → Identity → Intake → Intake
unfolding cancel_in say_farewell security_notice
unlinked q i s =
    let is = delete (is_linked_to q) s.identities in
    let quiet : Db =
      cancel_in reminders_and_notices q.user i.bot_instance_id q.now i.conversation_id s.db in
    record s {
      identities = is;
      db =
          security_notice q.notice_ids
            (change (say_farewell i.conversation_id q i.bot_instance_id quiet) q.user
              Entity.external_identity q.identity Op.delete none)
            is q.user q.notice q.now q.database_now;
    }

unfoldable pub unlink_row : Option Identity → Request → Intake → Result Intake
unfolding unlinked
unlink_row none q s = err not_found
unlink_row (some i) q s = if i.user_id == q.user then ok (unlinked q i s) else err not_found

unfoldable pub unlink_by : Option Bool → Request → Intake → Result Intake
unfolding unlink_row
unlink_by none q s = err not_found
unlink_by (some active) q s = unlink_row (find (is_identity q.identity) s.identities) q s

-- `Unlink`
unfoldable pub unlink : Request → Intake → Result Intake
unfolding unlink_by
unlink q s = unlink_by (status q.user s.db.users) q s

-- The reminders that wait for a chat go with the setting.
unfoldable pub silence : Bool → Option Identity → Request → Db → Result Db
unfolding cancel_in
silence true found q db = ok db
silence false none q db = err internal
silence false (some i) q db =
    ok (cancel_in reminders_only q.user i.bot_instance_id q.now i.conversation_id db)

-- `SetReminderTarget`
unfoldable pub set_reminder_target : Request → Bool → Intake → Result Intake
unfolding silence
set_reminder_target q on s = do
  active ← or_fail (status q.user s.db.users) not_found
  (i, is) ←
      or_fail
        (update_one (is_linked_to q) (λ (j : Identity). record j { reminder_target = on })
          s.identities)
        not_found
  db ← silence on (find (is_identity q.identity) is) q s.db
  ok (record s {
    identities = is;
    db = change db q.user Entity.external_identity q.identity upsert none;
  })
