-- ===== src/Ingest/Tables.antt =====
-- The tables that the intake of chat messages reads and writes besides those of Db, and its queries
-- (core/internal/store/dbq/notes.sql.go, bots.sql.go and core/internal/store/store.go). A transaction sees
-- only the rows of its user, by row level security. The trigger that keeps only the newest 200
-- entries of a part's history is not modelled.
use notekeeper.Common.{
  ℕ, ◌+◌, Bool, true, false, ◌&&◌, ◌||◌, Option, none, some, List, [], ◌∷◌, ltb, leb, ◌==◌,
  if◌then◌else◌, length,
}
use notekeeper.Common.Str.{Str, str_eq}
use notekeeper.Db.Rows.{find, count, select, sort_by}
use notekeeper.Db.{Db, Note, NoteState, Part, PartKind, text, is_active}
use notekeeper.Reminders.{is_note}
use notekeeper.Notes.Regroup.{own_part}
use notekeeper.Ingest.{What, Outcome, Identity}

pub data Origin : Type 0 where
  chat app : Origin

-- A row of note_part_versions, the history of a text.
pub record PartVersion : Type 0 where
  pub id : ℕ
  pub user_id : ℕ
  pub part_id : ℕ
  pub text : Str
  pub origin : Origin
  pub edited_at : ℕ
  pub applied : Bool
  pub source_event_id : Option Str

-- A row of ingest_events.
pub record IngestEvent : Type 0 where
  pub bot_instance_id : ℕ
  pub event_id : Str
  pub user_id : ℕ
  pub result : Outcome

-- A row of unlinked_senders.
pub record UnlinkedSender : Type 0 where
  pub bot_instance_id : ℕ
  pub external_user_id : Str
  pub last_notice_at : ℕ

pub record Intake : Type 0 where
  pub db : Db
  pub identities : List Identity
  pub versions : List PartVersion
  pub events : List IngestEvent
  pub senders : List UnlinkedSender

-- GetIdentityByExternal and GetIdentity
abbrev pub is_external : Str → Str → Identity → Bool
is_external type external i = str_eq i.bot_type type && str_eq i.external_user_id external

abbrev pub is_identity : ℕ → Identity → Bool
is_identity id i = i.id == id

-- The row of an event, of whatever user: the key of the table.
abbrev pub is_event : ℕ → Str → IngestEvent → Bool
is_event bot event e = e.bot_instance_id == bot && str_eq e.event_id event

-- PartsBySourceMessage
unfoldable pub from_message : ℕ → ℕ → Str → Str → Part → Bool
from_message user bot conversation message p = elim p.source [
  | none ↦ false
  | some s ↦
      p.user_id == user
      && s.bot_instance_id == bot
      && str_eq s.conversation_id conversation
      && str_eq s.message_id message
]

abbrev pub source_index : Part → ℕ
source_index p = elim p.source [ none ↦ 0 | some s ↦ s.part_index ]

pub record SourceRow : Type 0 where
  pub part : Part
  pub note_state : NoteState

-- The parts with the states of their notes.
unfoldable pub with_state : Option Note → Part → List SourceRow → List SourceRow
with_state none p rest = rest
with_state (some n) p rest = record { part = p; note_state = n.state } ∷ rest

unfoldable pub join_notes : List Note → List Part → List SourceRow
unfolding with_state
join_notes ns [] = []
join_notes ns (p ∷ ps) = with_state (find (is_note p.note_id p.user_id) ns) p (join_notes ns ps)

unfoldable pub parts_by_source : Db → ℕ → ℕ → Str → Str → List SourceRow
unfolding join_notes from_message
parts_by_source db user bot conversation message =
    join_notes db.notes
      (sort_by source_index (select (from_message user bot conversation message) db.parts))

-- SenderRecentNote: the last of the sender's parts in the conversation that stand in active notes.
unfoldable pub in_active_note : List Note → Part → Bool
in_active_note ns p = elim (find (is_note p.note_id p.user_id) ns) [
  | none ↦ false
  | some n ↦ is_active n.state
]

unfoldable pub from_sender : List Note → ℕ → ℕ → Str → Part → Bool
unfolding in_active_note
from_sender ns user identity conversation p = elim p.source [
  | none ↦ false
  | some s ↦
      p.user_id == user
      && s.identity_id == identity
      && str_eq s.conversation_id conversation
      && in_active_note ns p
]

abbrev pub not_later : Part → Part → Bool
not_later p q =
    ltb p.created_at q.created_at || (p.created_at == q.created_at && leb p.ordinal q.ordinal)

unfoldable pub latest : List Part → Option Part
latest [] = none
latest (p ∷ ps) = elim (latest ps) [
  | none ↦ some p
  | some q ↦ if not_later p q then some q else some p
]

unfoldable pub sender_recent_note : Db → ℕ → ℕ → Str → Option Part
unfolding from_sender latest
sender_recent_note db user identity conversation =
    latest (select (from_sender db.notes user identity conversation) db.parts)

-- NoteHasText
abbrev pub is_text : PartKind → Bool
is_text text = true
is_text _ = false

unfoldable pub note_has_text : Db → ℕ → ℕ → Bool
note_has_text db user note = ltb 0 (count (λ p. own_part user note p && is_text p.kind) db.parts)

-- The limits of an account and what it uses (`Limits` and `InUserTx`); the counters of the triggers are the sums
-- that they stand for.
pub record Limits : Type 0 where
  pub max_notes : ℕ
  pub max_text_bytes : ℕ

unfoldable pub note_count : ℕ → Intake → ℕ
note_count user s = count (λ n. n.user_id == user) s.db.notes

unfoldable pub part_bytes : ℕ → List Part → ℕ
part_bytes user [] = 0
part_bytes user (p ∷ ps) =
    (if p.user_id == user then elim p.body [ none ↦ 0 | some t ↦ length t ] else 0)
    + part_bytes user ps

unfoldable pub version_bytes : ℕ → List PartVersion → ℕ
version_bytes user [] = 0
version_bytes user (v ∷ vs) =
    (if v.user_id == user then length v.text else 0) + version_bytes user vs

unfoldable pub text_bytes : ℕ → Intake → ℕ
unfolding part_bytes version_bytes
text_bytes user s = part_bytes user s.db.parts + version_bytes user s.versions

-- The limit that a transaction would exceed; only growth does, and a limit of 0 is none.
unfoldable pub exceeded : Limits → ℕ → Intake → Intake → Option What
unfolding note_count text_bytes
exceeded limits user before after =
    if ltb 0 limits.max_notes
      && ltb limits.max_notes (note_count user after)
      && ltb (note_count user before) (note_count user after)
    then some What.notes
    else if ltb 0 limits.max_text_bytes
        && ltb limits.max_text_bytes (text_bytes user after)
        && ltb (text_bytes user before) (text_bytes user after)
    then some What.text
    else none
