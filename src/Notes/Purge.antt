-- ===== src/Notes/Purge.antt =====
-- Deleting a note for good (core/internal/notes/ops.go, `DeletePermanently`), with its parts and their
-- files, its reminders and what waits to be sent of them, and its links.
pub mod Gone
use notekeeper.Common.{
  ℕ, Bool, true, false, not, ◌&&◌, Option, none, some, List, [], ◌∷◌, ◌==◌, if◌then◌else◌,
}
use notekeeper.Db.Rows.{find, update, delete}
use notekeeper.Db.Feed.{change}
use notekeeper.Db.{
  Db, Note, Part, Reminder, OutboxItem, Entity, Op, not_found, conflict, Result, ok, err, ◌>>=◌,
  ◌>>◌, guard, or_fail, is_active,
}
use notekeeper.Blobs.{is_attachment, is_blob, delete_file}
use notekeeper.Reminders.{is_note, of_note, is_waiting}
use notekeeper.Reminders.Endings.{eq_id, cancel}
use notekeeper.Notes.{in_state}
use notekeeper.Notes.Regroup.{own_part, own_link}

-- CancelOutboxForNote: the items that wait and belong to a reminder of the note.
unfoldable pub is_of_note : ℕ → ℕ → List Reminder → OutboxItem → Bool
is_of_note user note rs o = elim (find (λ r. of_note user note r && eq_id o.reminder_id r.id) rs) [
  | none ↦ false
  | some r ↦ true
]

abbrev pub is_queued_for_note : ℕ → ℕ → List Reminder → OutboxItem → Bool
is_queued_for_note user note rs o =
    eq_id o.user_id user && is_waiting o.state && is_of_note user note rs o

unfoldable pub cancel_for_note : Db → ℕ → ℕ → ℕ → Db
unfolding is_of_note
cancel_for_note db user note now = record db {
  outbox = update (is_queued_for_note user note db.reminders) (cancel now) db.outbox;
}

-- AttachmentsOfNote: an attachment that is there with its file.
unfoldable pub file_of : Db → ℕ → Part → Option ℕ
file_of db user p = elim p.attachment_id [
  | none ↦ none
  | some a ↦ elim (find (is_attachment a user) db.attachments) [
    | none ↦ none
    | some file ↦ elim (find (is_blob file.blob_id user) db.blobs) [
      | none ↦ none
      | some blob ↦ some a
    ]
  ]
]

unfoldable pub attachments_of : Db → ℕ → ℕ → List Part → List ℕ
unfolding file_of
attachments_of db user note [] = []
attachments_of db user note (p ∷ ps) =
    let rest = attachments_of db user note ps in
    if own_part user note p
    then elim (file_of db user p) [ none ↦ rest | some a ↦ a ∷ rest ]
    else rest

-- DeleteNote: only a note in the Trash; the rows that refer to it go with it.
unfoldable pub delete_note : Db → ℕ → ℕ → Db
delete_note db user id = record db {
  notes = delete (in_state false id user) db.notes;
  parts = delete (own_part user id) db.parts;
  reminders = delete (of_note user id) db.reminders;
  links = delete (own_link user id) db.links;
}

-- The loop of `DeletePermanently` over the files.
unfoldable pub delete_files : Db → ℕ → List ℕ → Result Db
delete_files db user [] = ok db
delete_files db user (a ∷ as_) = do t ← delete_file db user a; delete_files t user as_

-- `DeletePermanently`
unfoldable pub delete_permanently : Db → ℕ → ℕ → ℕ → Result Db
unfolding cancel_for_note attachments_of delete_note delete_files
delete_permanently db user id now = do
  n ← or_fail (find (is_note id user) db.notes) not_found
  guard (not (is_active n.state)) conflict
  t ←
      delete_files (delete_note (cancel_for_note db user id now) user id) user
        (attachments_of db user id db.parts)
  ok (change t user Entity.note id Op.delete none)
