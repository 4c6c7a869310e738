-- ===== src/Ingest/Create.antt =====
-- A new chat message (core/internal/ingest/ingest.go, `created`, `decide`, `insertChatPart` and
-- `linkUpload`). The ids that are made are arguments. No unique index is taken to refuse a row.
use notekeeper.Common.{
  ℕ, ◌+◌, Bool, true, false, Option, none, some, List, [], ◌∷◌, ◌==◌, if◌then◌else◌,
}
use mathlib.Core.Option
use notekeeper.Common.Str.{Str, codes}
use notekeeper.Grouping
use notekeeper.Grouping.{
  Content, Target, Decision, new, existing, reply, thread, first, Reason, Related, Candidate,
}
use notekeeper.Db.Rows.{find}
use notekeeper.Db.Feed.{change}
use notekeeper.Db.{
  Db, Note, active, Part, PartKind, FailedFile, grouped, Entity, upsert, Result, ok, ◌>>=◌,
  is_active,
}
use notekeeper.Blobs.{is_attachment}
use notekeeper.Notes.Regroup.{next_part_ordinal}
use notekeeper.Notes.Parts.{uses_attachment, touch_note}
use notekeeper.Ingest.{
  PartType, EventPart, Event, created, appended, LostFile, Feedback, Outcome, ok_feedback,
  failure_feedback, about, Identity,
}
use notekeeper.Ingest.Checks.{is_empty}
use notekeeper.Ingest.Tables.{
  Origin, PartVersion, Intake, SourceRow, parts_by_source, sender_recent_note, note_has_text,
}

pub record Ids : Type 0 where
  pub note : ℕ
  pub part : ℕ → ℕ
  pub version : ℕ → ℕ

-- What a handler is given: the instance of the bot, the sender's identity, the event, the ids that
-- are free, the time, the time of the database, and the grouping window of the user.
pub record Delivery : Type 0 where
  pub bot : ℕ
  pub identity : Identity
  pub event : Event
  pub ids : Ids
  pub now : ℕ
  pub database_now : ℕ
  pub window : ℕ

abbrev pub message_rows : Delivery → Db → List SourceRow
message_rows d db =
    parts_by_source db d.identity.user_id d.bot d.event.conversation d.event.message_id

-- `contentOf`
pub content_of : List EventPart → Content
content_of [] = record { has_text = false; has_media = false }
content_of (p ∷ ps) =
    let rest = content_of ps in
    elim p.type [
      | PartType.text ↦ record rest { has_text = true }
      | _ ↦ record rest { has_media = true }
    ]

-- The note that a reference to an earlier message stands for; an empty one is none.
pub related_by : Delivery → Db → Str → Reason → Option Related
related_by d db ref reason =
    if is_empty ref
    then none
    else elim (parts_by_source db d.identity.user_id d.identity.bot_instance_id d.event.conversation
        ref) [
          | [] ↦ none
          | r ∷ rs ↦ some (record {
            note_id = r.part.note_id;
            part_id = r.part.id;
            active = is_active r.note_state;
            reason = reason;
          })
        ]

pub related : Delivery → Db → Option Related
unfolding related_by
related d db = elim (related_by d db d.event.reply_to reply) [
  | some rel ↦ some rel
  | none ↦ related_by d db d.event.thread thread
]

pub candidate : Delivery → Db → Option Candidate
candidate d db =
    Option.map
      (λ p. record {
        note_id = p.note_id;
        last_part_at = p.created_at;
        has_text = note_has_text db d.identity.user_id p.note_id;
      })
      (sender_recent_note db d.identity.user_id d.identity.id d.event.conversation)

-- `decide`
unfoldable pub decide : Delivery → Db → Decision
unfolding content_of related candidate
decide d db =
    let ev : Grouping.Event = record {
      timestamp = d.event.timestamp;
      content = content_of d.event.parts;
    } in
    elim (related d db) [
      | some rel ↦ Grouping.decide ev none (some rel) d.window
      | none ↦ Grouping.decide ev (candidate d db) none d.window
    ]

-- The decision of `created`.
unfoldable pub decision : Delivery → Db → Decision
unfolding decide
decision d db =
    if d.event.standalone
    then record { target = new; note_id = 0; reason = first; related_part_id = none }
    else decide d db

-- `linkUpload`
unfoldable pub link_upload : Db → ℕ → EventPart → Option ℕ
link_upload db user p = elim p.upload_id [
  | none ↦ none
  | some a ↦ elim (find (is_attachment a user) db.attachments) [
    | none ↦ none
    | some file ↦ elim (find (uses_attachment user a) db.parts) [ some q ↦ none | none ↦ some a ]
  ]
]

-- `orDefault`
abbrev pub or_default : Str → Str → Str
or_default v def = if is_empty v then def else v

-- What a part holds: its kind and the columns that go with it.
pub record Holding : Type 0 where
  pub kind : PartKind
  pub body : Option Str
  pub attachment_id : Option ℕ
  pub failed : Option FailedFile

abbrev pub failed_file : EventPart → Str → Holding
failed_file p reason = record {
  kind = PartKind.failed_attachment;
  body = none;
  attachment_id = none;
  failed = some (record { filename = p.filename; size = p.size; reason = reason });
}

abbrev pub linked : EventPart → Option ℕ → Holding
linked p none = failed_file p (codes "upload_missing")
linked p (some a) = record {
  kind = PartKind.attachment;
  body = none;
  attachment_id = some a;
  failed = none;
}

unfoldable pub held : PartType → Db → ℕ → EventPart → Holding
unfolding link_upload
held PartType.text db user p = record {
  kind = PartKind.text;
  body = some p.body;
  attachment_id = none;
  failed = none;
}
held PartType.unsupported db user p = record {
  kind = PartKind.unsupported;
  body = some (or_default p.description (codes "Unsupported content"));
  attachment_id = none;
  failed = none;
}
held PartType.attachment_failed db user p = failed_file p (or_default p.reason (codes "failed"))
held PartType.attachment db user p = linked p (link_upload db user p)
held PartType.unknown db user p = linked p (link_upload db user p)

-- The row of a part of the message.
abbrev pub chat_part : Delivery → ℕ → ℕ → ℕ → Decision → Holding → Part
chat_part d index note ordinal dec h = record {
  id = d.ids.part index;
  user_id = d.identity.user_id;
  note_id = note;
  ordinal = ordinal;
  kind = h.kind;
  body = h.body;
  attachment_id = h.attachment_id;
  failed = h.failed;
  attach_reason = grouped dec.reason;
  related_part_id = if index == 0 then dec.related_part_id else none;
  created_at = d.event.timestamp;
  text_edited_at = none;
  source = some (record {
    bot_instance_id = d.bot;
    identity_id = d.identity.id;
    conversation_id = d.event.conversation;
    message_id = d.event.message_id;
    part_index = index;
  });
}

-- The history entry of a text that the event brings.
abbrev pub chat_version : Delivery → ℕ → ℕ → Str → Bool → PartVersion
chat_version d index part text applied = record {
  id = d.ids.version index;
  user_id = d.identity.user_id;
  part_id = part;
  text = text;
  origin = Origin.chat;
  edited_at = d.event.timestamp;
  applied = applied;
  source_event_id = some d.event.event_id;
}

abbrev first_version : PartType → Delivery → ℕ → EventPart → List PartVersion → List PartVersion
first_version PartType.text d index p vs = chat_version d index (d.ids.part index) p.body true ∷ vs
first_version _ d index p vs = vs

-- `insertChatPart`: the store, and the file if it is lost.
unfoldable pub insert_chat_part :
    Delivery → Intake → ℕ → EventPart → ℕ → ℕ → Decision → Intake × Option LostFile
unfolding held
insert_chat_part d s index p note ordinal dec =
    let h = held p.type s.db d.identity.user_id p in
    (
      record s {
        db = record s.db { parts = chat_part d index note ordinal dec h ∷ s.db.parts };
        versions = first_version p.type d index p s.versions;
      },
      Option.map (λ f. record { name = f.filename; reason = f.reason }) h.failed,
    )

abbrev and_lost : Option LostFile → List LostFile → List LostFile
and_lost none lost = lost
and_lost (some l) lost = l ∷ lost

-- The loop over the parts of the event, from the part `index` on.
unfoldable pub insert_chat_parts :
    Delivery → ℕ → ℕ → Decision → ℕ → List EventPart → Intake → Intake × List LostFile
unfolding insert_chat_part
insert_chat_parts d note ordinal dec index [] s = (s, [])
insert_chat_parts d note ordinal dec index (p ∷ ps) s =
    let one = insert_chat_part d s index p note (ordinal + index) dec in
    let rest = insert_chat_parts d note ordinal dec (index + 1) ps one.0 in
    (rest.0, and_lost one.1 rest.1)

abbrev pub kept_files : List LostFile → Feedback
kept_files [] = ok_feedback
kept_files (l ∷ lost) = failure_feedback (l ∷ lost)

-- InsertNote
abbrev pub inbox_note : Delivery → Note
inbox_note d = record {
  id = d.ids.note;
  user_id = d.identity.user_id;
  category_id = none;
  position = none;
  state = active;
  deleted_at = none;
  created_at = d.event.timestamp;
  received_at = d.now;
  updated_at = d.database_now;
  version = 1;
}

-- The two branches of `created`: a note of its own, and one that the message joins.
unfoldable pub start_note : Delivery → Decision → Intake → Result (Outcome × Intake)
unfolding insert_chat_parts
start_note d dec s =
    let (t, lost) =
      insert_chat_parts d d.ids.note 0 dec 0 d.event.parts
        (record s { db = record s.db { notes = inbox_note d ∷ s.db.notes } }) in
    ok (
      about created d.ids.note (kept_files lost),
      record t { db = change t.db d.identity.user_id Entity.note d.ids.note upsert (some 1) },
    )

unfoldable pub join_note : Delivery → Decision → Intake → Result (Outcome × Intake)
unfolding insert_chat_parts touch_note
join_note d dec s =
    let user = d.identity.user_id in
    let (t, lost) =
      insert_chat_parts d dec.note_id (next_part_ordinal user dec.note_id s.db.parts) dec 0
        d.event.parts s in
    do
      (n, db) ← touch_note t.db user dec.note_id d.now
      ok (about appended dec.note_id (kept_files lost), record t { db = db })

unfoldable pub by_target : Target → Delivery → Decision → Intake → Result (Outcome × Intake)
unfolding start_note join_note
by_target new d dec s = start_note d dec s
by_target existing d dec s = join_note d dec s

-- `created`, with the parts of the message that are there already.
unfoldable pub store_message : Delivery → List SourceRow → Intake → Result (Outcome × Intake)
unfolding by_target decision
store_message d (r ∷ rs) s = ok (about created r.part.note_id ok_feedback, s)
store_message d [] s = by_target (decision d s.db).target d (decision d s.db) s

unfoldable pub handle_created : Delivery → Intake → Result (Outcome × Intake)
unfolding store_message
handle_created d s = store_message d (message_rows d s.db) s
