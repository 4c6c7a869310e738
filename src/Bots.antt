-- ===== src/Bots.antt =====
-- Linking chat accounts to users (core/internal/bots/identities.go, core/internal/store/dbq/bots.sql.go): pairing
-- codes, the link, and its end. The audit log and the notifications that are sent on a commit are left
-- out, and so are the credentials of bots.
pub mod Codes
pub mod Once
pub mod Pairing
pub mod Tests
pub mod Unlinking
use notekeeper.Common.{
  ℕ, ◌+◌, Bool, true, false, not, ◌&&◌, Option, none, some, List, [], ◌∷◌, ltb, ◌==◌,
}
use notekeeper.Common.Str.{Str}
use notekeeper.Db.Rows.{select, sort_by}
use notekeeper.Db.Feed.{change}
use notekeeper.Db.{Db, OutboxItem, OutboxKind, queued, Notification, security, Entity, upsert}
use notekeeper.Ingest.{Identity}

-- The ids that a notice makes: of the notification, and of the items for the chats.
pub record NoticeIds : Type 0 where
  pub notification : ℕ
  pub item : ℕ → ℕ

-- NoticeTargets: the chats of the user that have a conversation, oldest link first.
abbrev has_conversation : Option Str → Bool
has_conversation none = false
has_conversation (some c) = true

abbrev is_target : ℕ → Identity → Bool
is_target user i = i.user_id == user && has_conversation i.conversation_id

unfoldable pub notice_targets : ℕ → List Identity → List Identity
notice_targets user is = sort_by (λ i. i.linked_at) (select (is_target user) is)

abbrev or_empty : Option Str → Str
or_empty none = []
or_empty (some c) = c

-- InsertOutbox, of an item that waits for the bot at once; the creation time is the database's.
abbrev pub outbox_item : ℕ → ℕ → OutboxKind → Option ℕ → Str → ℕ → ℕ → ℕ → OutboxItem
outbox_item id bot kind user conversation payload now created = record {
  id = id;
  bot_instance_id = bot;
  kind = kind;
  user_id = user;
  conversation_id = conversation;
  payload = some payload;
  state = queued;
  attempts = 0;
  next_attempt_at = now;
  lease_expires_at = none;
  due_at = none;
  reminder_id = none;
  created_at = created;
  finished_at = none;
  failure_reason = none;
}

-- The loop of `Security` over the chats.
unfoldable pub queue_notices :
    NoticeIds → ℕ → ℕ → ℕ → ℕ → ℕ → List Identity → List OutboxItem → List OutboxItem
queue_notices ids k user payload now created [] items = items
queue_notices ids k user payload now created (t ∷ ts) items =
    queue_notices ids (k + 1) user payload now created ts (
      outbox_item (ids.item k) t.bot_instance_id OutboxKind.notice (some user)
        (or_empty t.conversation_id) payload now created
      ∷ items)

-- `notify.Security` of core/internal/notify/notify.go, of a notice that cannot be muted; `payload` is its text.
unfoldable pub security_notice : NoticeIds → Db → List Identity → ℕ → ℕ → ℕ → ℕ → Db
unfolding queue_notices notice_targets
security_notice ids db identities user payload now created =
    let told : Db =
      change
        (record db {
          notifications =
              record { id = ids.notification; user_id = user; kind = security } ∷ db.notifications;
        })
        user Entity.notification ids.notification upsert none in
    record told {
      outbox =
          queue_notices ids 0 user payload now created (notice_targets user identities) told.outbox;
    }
