-- ===== src/Db.antt =====
-- The store that the services share (core/internal/store/store.go and the queries of
-- core/internal/store/dbq): tables as lists of rows, and transactions as functions of the whole
-- store. A transaction that ends in an error leaves the store as it was, so an operation answers
-- with an error or with its result and the next store. A failing database call is one more such
-- error and is not modelled, and neither is the notification that is sent on commit.
-- Ids are numbers, and so are most texts that the services only pass on; times are nanoseconds since a common
-- origin.
pub mod Rows
pub mod Feed
mod Tests
use notekeeper.Common.{
  ℕ, ◌+◌, ◌≡◌, Bool, true, false, ◌&&◌, Option, none, some, List, [], ◌∷◌, ◌==◌, if◌then◌else◌, ◌⊎◌,
  inl, inr, refl,
}
use notekeeper.Common.Str.{Str}
use notekeeper.Grouping.{Reason}

-- Rows of notes, reminders and bot_outbox.
pub data NoteState : Type 0 where
  active deleted : NoteState

pub record Note : Type 0 where
  pub id : ℕ
  pub user_id : ℕ
  pub category_id : Option ℕ
  pub position : Option Str
  pub state : NoteState
  pub deleted_at : Option ℕ
  pub created_at : ℕ
  pub received_at : ℕ
  pub updated_at : ℕ
  pub version : ℕ

-- A row of categories: the columns of an ordered list.
pub record Category : Type 0 where
  pub id : ℕ
  pub user_id : ℕ
  pub page_id : ℕ
  pub name : ℕ
  pub position : Str
  pub created_at : ℕ
  pub updated_at : ℕ
  pub version : ℕ

pub data PartKind : Type 0 where
  text attachment failed_attachment unsupported : PartKind

-- Why a part stands in its note: the app put it there, or the grouping of chat messages.
pub data AttachReason : Type 0 where
  app : AttachReason
  grouped : Reason → AttachReason

-- The columns on a failed attachment; the size is 0 where there is none.
pub record FailedFile : Type 0 where
  pub filename : Str
  pub size : ℕ
  pub reason : Str

-- The columns on the chat message that a part came from, which are all set or all null.
pub record Source : Type 0 where
  pub bot_instance_id : ℕ
  pub identity_id : ℕ
  pub conversation_id : Str
  pub message_id : Str
  pub part_index : ℕ

-- A row of note_parts.
pub record Part : Type 0 where
  pub id : ℕ
  pub user_id : ℕ
  pub note_id : ℕ
  pub ordinal : ℕ
  pub kind : PartKind
  pub body : Option Str
  pub attachment_id : Option ℕ
  pub failed : Option FailedFile
  pub attach_reason : AttachReason
  pub related_part_id : Option ℕ
  pub created_at : ℕ
  pub text_edited_at : Option ℕ
  pub source : Option Source

-- Rows of attachments, blobs and user_storage, without the names and the contents of files.
pub record Attachment : Type 0 where
  pub id : ℕ
  pub user_id : ℕ
  pub blob_id : ℕ

pub record Blob : Type 0 where
  pub id : ℕ
  pub user_id : ℕ
  pub size_bytes : ℕ
  pub complete : Bool
  pub reserved_bytes : ℕ

pub record UserStorage : Type 0 where
  pub user_id : ℕ
  pub used_bytes : ℕ
  pub reserved_bytes : ℕ

-- A row of share_links, without the columns on its use.
pub record ShareLink : Type 0 where
  pub id : ℕ
  pub user_id : ℕ
  pub note_id : ℕ
  pub token_hash : ℕ
  pub created_at : ℕ
  pub expires_at : ℕ
  pub revoked_at : Option ℕ
  pub last_accessed_at : Option ℕ
  pub view_count : ℕ

pub data ReminderState : Type 0 where
  pending fired suspended done cancelled : ReminderState

pub record Reminder : Type 0 where
  pub id : ℕ
  pub user_id : ℕ
  pub note_id : ℕ
  pub due_at : ℕ
  pub rrule : Option Str
  pub tz : Str
  pub state : ReminderState
  pub last_fired_at : Option ℕ
  pub claimed_until : Option ℕ
  pub created_at : ℕ
  pub version : ℕ

pub data OutboxKind : Type 0 where
  reminder notice lifecycle : OutboxKind

pub data OutboxState : Type 0 where
  queued claimed delivered failed expired : OutboxState

-- The payload is a number that stands for the JSON text, `none` being `{}`.
pub record OutboxItem : Type 0 where
  pub id : ℕ
  pub bot_instance_id : ℕ
  pub kind : OutboxKind
  pub user_id : Option ℕ
  pub conversation_id : Str
  pub payload : Option ℕ
  pub state : OutboxState
  pub attempts : ℕ
  pub next_attempt_at : ℕ
  pub lease_expires_at : Option ℕ
  pub due_at : Option ℕ
  pub reminder_id : Option ℕ
  pub created_at : ℕ
  pub finished_at : Option ℕ
  pub failure_reason : Option ℕ

-- A row of outbox_messages.
pub record SentMessage : Type 0 where
  pub bot_instance_id : ℕ
  pub conversation_id : Str
  pub message_id : ℕ
  pub outbox_id : ℕ

pub data Entity : Type 0 where
  note reminder notification share_link external_identity : Entity

pub data Op : Type 0 where
  upsert delete : Op

-- A row of changes, the feed that clients catch up from.
pub record Change : Type 0 where
  pub user_id : ℕ
  pub seq : ℕ
  pub entity : Entity
  pub entity_id : ℕ
  pub op : Op
  pub version : Option ℕ

pub record User : Type 0 where
  pub id : ℕ
  pub active : Bool
  pub timezone : Str
  pub change_seq : ℕ

pub data NotificationKind : Type 0 where
  due_reminder delivery_failed security : NotificationKind

pub record Notification : Type 0 where
  pub id : ℕ
  pub user_id : ℕ
  pub kind : NotificationKind

-- The newest change stands first.
pub record Db : Type 0 where
  pub users : List User
  pub categories : List Category
  pub notes : List Note
  pub parts : List Part
  pub attachments : List Attachment
  pub blobs : List Blob
  pub storage : List UserStorage
  pub links : List ShareLink
  pub reminders : List Reminder
  pub outbox : List OutboxItem
  pub sent : List SentMessage
  pub changes : List Change
  pub notifications : List Notification

-- The errors of the services; `internal` is any that they do not name.
pub data Error : Type 0 where
  not_found invalid past not_active limit conflict disabled internal : Error

pub data Result {ℓ} (A : Type ℓ) : Type ℓ where
  err : Error → Result A
  ok : A → Result A

infixl 5 ◌>>=◌
abbrev pub ◌>>=◌ {κ ℓ} :
    {Value : Type κ} {Next : Type ℓ} → Result Value → (Value → Result Next) → Result Next
err why >>= next = err why
ok value >>= next = next value

abbrev pub or_fail {ℓ} : {A : Type ℓ} → Option A → Error → Result A
or_fail none e = err e
or_fail (some a) e = ok a

infixl 5 ◌>>◌
abbrev pub ◌>>◌ {ℓ} : {Next : Type ℓ} → Result (Unit {0}) → Result Next → Result Next
check >> rest = check >>= λ _. rest

abbrev pub guard : Bool → Error → Result (Unit {0})
guard false why = err why
guard true why = ok tt

abbrev pub is_active : NoteState → Bool
is_active active = true
is_active deleted = false

pub Result-cases {ℓ} :
    {A : Type ℓ} (m : Result A) → ((a : A) × (m ≡ ok a)) ⊎ ((e : Error) × (m ≡ err e))
Result-cases (ok a) = inl (a, refl)
Result-cases (err e) = inr (e, refl)
