-- ===== src/Ingest.antt =====
-- Chat messages that become notes (core/internal/ingest/ingest.go): what bots deliver, and what they are
-- answered. The wording of the replies stays out: a reply is what it is about.
pub mod Checks
pub mod Tables
pub mod Create
pub mod Change
pub mod Handle
pub mod Ends
pub mod Through
pub mod Silent
pub mod Replay
pub mod Found
pub mod Latest
pub mod Joined
pub mod Stored
pub mod Kept
pub mod Filled
pub mod Answered
pub mod Tests
use notekeeper.Common.{ℕ, Bool, Option, none, some, List, [], ◌∷◌}
use notekeeper.Common.Str.{Str, codes}
use notekeeper.Db.{FailedFile, Part}

pub data Kind : Type 0 where
  message_created message_edited message_deleted unknown : Kind

pub data PartType : Type 0 where
  text attachment attachment_failed unsupported unknown : PartType

-- `Part` of the package. A size that is not positive is 0.
pub record EventPart : Type 0 where
  pub type : PartType
  pub body : Str
  pub upload_id : Option ℕ
  pub filename : Str
  pub media_type : Str
  pub size : ℕ
  pub reason : Str
  pub description : Str

-- The time 0 stands for Go's zero time.
pub record Event : Type 0 where
  pub event_id : Str
  pub kind : Kind
  pub sender : Str
  pub conversation : Str
  pub message_id : Str
  pub timestamp : ℕ
  pub reply_to : Str
  pub thread : Str
  pub parts : List EventPart
  pub standalone : Bool

-- The result codes and the rejection codes.
pub data Answer : Type 0 where
  created appended updated removed ignored rejected : Answer

pub data Code : Type 0 where
  identity_unlinked user_inactive before_link storage_full : Code

-- An attachment that could not be kept.
pub record LostFile : Type 0 where
  pub name : Str
  pub reason : Str

-- What a LimitError names.
pub data What : Type 0 where
  notes text : What

-- The replies: `unlinkedReply`, `limitReply` and the one of `failureFeedback`.
pub data Reply : Type 0 where
  unlinked_reply : Reply
  limit_reply : What → Reply
  failure_reply : List LostFile → Reply

pub data React : Type 0 where
  ok warning : React

pub record Feedback : Type 0 where
  pub react : Option React
  pub reply_text : Option Reply

pub record Outcome : Type 0 where
  pub result : Answer
  pub note_id : Option ℕ
  pub code : Option Code
  pub feedback : Feedback

abbrev pub no_feedback : Feedback
no_feedback = record { react = none; reply_text = none }

abbrev pub ok_feedback : Feedback
ok_feedback = record { react = some React.ok; reply_text = none }

-- `failureFeedback`
abbrev pub failure_feedback : List LostFile → Feedback
failure_feedback lost = record {
  react = some React.warning;
  reply_text = some (failure_reply lost);
}

abbrev pub about : Answer → ℕ → Feedback → Outcome
about result note feedback = record {
  result = result;
  note_id = some note;
  code = none;
  feedback = feedback;
}

-- An outcome that names no note.
abbrev pub refusal : Answer → Option Code → Outcome
refusal result code = record {
  result = result;
  note_id = none;
  code = code;
  feedback = no_feedback;
}

-- The authenticated bot, and the chat account that a user has linked: a row of external_identities.
pub record Principal : Type 0 where
  pub instance_id : ℕ
  pub type : Str
  pub identity_domain : Str

pub record Identity : Type 0 where
  pub id : ℕ
  pub user_id : ℕ
  pub bot_instance_id : ℕ
  pub bot_type : Str
  pub external_user_id : Str
  pub conversation_id : Option Str
  pub reminder_target : Bool
  pub linked_at : ℕ
