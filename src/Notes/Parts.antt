-- ===== src/Notes/Parts.antt =====
-- The parts that the app adds to a note and removes from it (core/internal/notes/ops.go, `AddPart`,
-- `insertPart` and `RemovePart`). What `validateText` makes of a text is a parameter; the history of
-- a part is not kept.
pub mod Room
mod Tests
use notekeeper.Common.{
  ℕ, ◌+◌, Bool, true, false, not, ◌&&◌, Option, none, some, List, [], ◌∷◌, ltb, leb, ◌==◌,
  if◌then◌else◌,
}
use notekeeper.Common.Str.{Str}
use notekeeper.Db.Rows.{find, update_one, delete}
use notekeeper.Db.Feed.{change}
use notekeeper.Db.{
  Db, Note, Part, text, attachment, app, Entity, upsert, not_found, conflict, invalid, internal,
  Result, ok, err, ◌>>=◌, ◌>>◌, guard, or_fail,
}
use notekeeper.Blobs.{is_attachment, delete_file}
use notekeeper.Reminders.{is_note}
use notekeeper.Notes.Regroup.{
  own_part, next_part_ordinal, count_note_parts, touched, is_part, part_by_id,
}

-- MaxPartsPerNote
abbrev pub max_parts : ℕ
max_parts = 50

pub record PartInput : Type 0 where
  pub text : Option Str
  pub attachment_id : Option ℕ

-- AttachmentInUse
abbrev pub uses_attachment : ℕ → ℕ → Part → Bool
uses_attachment user id p = elim p.attachment_id [
  | none ↦ false
  | some a ↦ a == id && p.user_id == user
]

abbrev pub new_part : ℕ → ℕ → ℕ → ℕ → ℕ → Part
new_part id user note ordinal now = record {
  id = id;
  user_id = user;
  note_id = note;
  ordinal = ordinal;
  kind = text;
  body = none;
  attachment_id = none;
  failed = none;
  attach_reason = app;
  related_part_id = none;
  created_at = now;
  text_edited_at = none;
  source = none;
}

-- `insertPart`; `id` is the new id.
pub insert_part : Db → ℕ → ℕ → ℕ → ℕ → PartInput → Str → ℕ → Result Part
insert_part db user note id ordinal input body now = elim input.attachment_id [
  | none ↦ ok (record (new_part id user note ordinal now) { body = some body })
  | some a ↦ do
    file ← or_fail (find (is_attachment a user) db.attachments) not_found
    elim (find (uses_attachment user a) db.parts) [
      | some p ↦ err conflict
      | none ↦
          ok (record (new_part id user note ordinal now) {
            kind = attachment;
            attachment_id = some a;
          })
    ]
]

-- TouchNote and the change of the note.
unfoldable pub touch_note : Db → ℕ → ℕ → ℕ → Result (Note × Db)
touch_note db user note now = do
  (n, ns) ← or_fail (update_one (is_note note user) (touched now) db.notes) internal
  ok (n, change (record db { notes = ns }) user Entity.note note upsert (some n.version))

module _ (validate_text : Str → Option Str) where
  -- The text that is stored: there is one of text and attachment, and an attachment makes the text void.
  pub checked_text : PartInput → Result Str
  checked_text input = elim input.attachment_id [
    | some a ↦ ok []
    | none ↦ elim input.text [ none ↦ err invalid | some t ↦ or_fail (validate_text t) invalid ]
  ]

  -- `AddPart`
  pub add_part : Db → ℕ → ℕ → ℕ → PartInput → ℕ → Result (Note × Db)
  unfolding checked_text insert_part touch_note
  add_part db user note id input now = do
    body ← checked_text input
    cur ← or_fail (find (is_note note user) db.notes) not_found
    guard (ltb (count_note_parts user note db.parts) max_parts) invalid
    p ← insert_part db user note id (next_part_ordinal user note db.parts) input body now
    touch_note (record db { parts = p ∷ db.parts }) user note now

-- The file of a part that goes.
unfoldable pub delete_part_file : Db → ℕ → Part → Result Db
delete_part_file db user p = elim p.attachment_id [ none ↦ ok db | some a ↦ delete_file db user a ]

-- `RemovePart`; DeleteNotePart is for the rows of the user only, by row level security.
pub remove_part : Db → ℕ → ℕ → ℕ → ℕ → Result (Note × Db)
unfolding touch_note delete_part_file
remove_part db user note part now = do
  cur ← or_fail (find (is_note note user) db.notes) not_found
  p ← or_fail (find (is_part part note user) db.parts) not_found
  guard (leb 2 (count_note_parts user note db.parts)) conflict
  rest ← delete_part_file (record db { parts = delete (part_by_id user part) db.parts }) user p
  touch_note rest user note now
