-- ===== src/Notes/Parts/Tests.antt =====
-- Runs of `AddPart`, `RemovePart` and `DeletePermanently` (core/internal/notes/ops.go), and of the
-- deletion of the file that a part had (core/internal/blobs/blobs.go).
use notekeeper.Common.{ℕ, ◌+◌, ◌≤◌, ◌≡◌, refl, true, false, none, some, [], ◌∷◌, ◌++◌, arith}
use notekeeper.Common.Str.{codes}
use notekeeper.Db.Rows.{find, update_one, update, delete, count}
use notekeeper.Db.Feed.{change}
use notekeeper.Db.{
  Db, Note, active, deleted, is_active, Part, text, attachment, app, Attachment, Blob, Result, ok,
  err, conflict,
}
use notekeeper.Blobs.{is_attachment, is_blob, delete_file}
use notekeeper.Blobs.Accounted.{IsAccounted, total, delete_file-IsAccounted}
use notekeeper.Reminders.{is_note}
use notekeeper.Notes.Regroup.{list_parts, count_note_parts, part_by_id}
use notekeeper.Notes.Regroup.Kept.{Kept}
use notekeeper.Notes.Parts.{
  max_parts, PartInput, add_part, checked_text, insert_part, touch_note, delete_part_file,
  remove_part,
}
use notekeeper.Notes.Purge.{
  cancel_for_note, file_of, attachments_of, delete_note, delete_files, delete_permanently,
}
use notekeeper.Notes.Purge.Gone.{Purged, delete_permanently-Purged}
use notekeeper.Notes.Parts.Room.{add_part_limits, remove_part-Kept}

abbrev owned : Note
owned = record {
  id = 2;
  user_id = 1;
  category_id = none;
  position = none;
  state = active;
  deleted_at = none;
  created_at = 5;
  received_at = 5;
  updated_at = 5;
  version = 1;
}

abbrev first_text : Part
first_text = record {
  id = 20;
  user_id = 1;
  note_id = 2;
  ordinal = 0;
  kind = text;
  body = some (codes "milk");
  attachment_id = none;
  failed = none;
  attach_reason = app;
  related_part_id = none;
  created_at = 3;
  text_edited_at = none;
  source = none;
}

abbrev picture : Part
picture = record first_text {
  id = 21;
  ordinal = 1;
  kind = attachment;
  body = none;
  attachment_id = some 30;
}

abbrev with_picture : Db
with_picture = record {
  users = record { id = 1; active = true; timezone = codes "UTC"; change_seq = 0 } ∷ [];
  categories = [];
  notes = owned ∷ [];
  parts = first_text ∷ picture ∷ [];
  attachments = record { id = 30; user_id = 1; blob_id = 31 } ∷ [];
  blobs =
      record { id = 31; user_id = 1; size_bytes = 900; complete = true; reserved_bytes = 0 } ∷ [];
  storage = record { user_id = 1; used_bytes = 900; reserved_bytes = 0 } ∷ [];
  links = [];
  reminders = [];
  outbox = [];
  sent = [];
  changes = [];
  notifications = [];
}

abbrev some_text : PartInput
some_text = record { text = some (codes "eggs"); attachment_id = none }

abbrev note_of : Result (Note × Db) → Note
note_of (ok (n, _)) = n
note_of (err _) = owned

abbrev left_by : Result (Note × Db) → Db
left_by (ok (_, d)) = d
left_by (err _) = with_picture

abbrev added : Result (Note × Db)
added = add_part (λ t. some t) with_picture 1 2 22 some_text 50

abbrev removed : Result (Note × Db)
removed = remove_part with_picture 1 2 21 50

adds : added ≡ ok (note_of added, left_by added)
unfolding add_part find count update_one update touch_note insert_part checked_text
adds = refl

removes : removed ≡ ok (note_of removed, left_by removed)
unfolding remove_part find count update_one update touch_note delete_part_file delete_file delete
removes = refl

-- The last part is not removed.
keeps_last : remove_part (left_by removed) 1 2 20 60 ≡ err conflict
unfolding remove_part find count update_one update touch_note delete_part_file delete_file delete
    change
keeps_last = refl

add_part_limits_example :
    ((p : Part) × (list_parts 1 2 (left_by added) ≡ list_parts 1 2 with_picture ++ p ∷ []))
    × (count_note_parts 1 2 (left_by added).parts ≡ count_note_parts 1 2 with_picture.parts + 1)
    × (count_note_parts 1 2 (left_by added).parts ≤ max_parts)
add_part_limits_example =
    add_part_limits (λ t. some t) with_picture 1 2 22 some_text 50 (note_of added) (left_by added)
      adds

with_picture-Kept : Kept with_picture
unfolding count
with_picture-Kept = (omega arith, tt)

one_picture : count (part_by_id 1 21) with_picture.parts ≤ 1
unfolding count
one_picture = omega arith

remove_part-Kept_example : Kept (left_by removed)
remove_part-Kept_example =
    remove_part-Kept with_picture 1 2 21 50 (note_of removed) (left_by removed) with_picture-Kept
      one_picture removes

with_picture-IsAccounted : IsAccounted 1 with_picture
unfolding find total
with_picture-IsAccounted = (_, refl, refl)

abbrev without_file : Db
without_file = record with_picture {
  attachments = [];
  blobs = [];
  storage = record { user_id = 1; used_bytes = 0; reserved_bytes = 0 } ∷ [];
}

one_file : (blob : ℕ) → count (is_blob blob 1) with_picture.blobs ≤ 1
unfolding count
one_file blob = ground arith

files_whole :
    (a : Attachment) (b : Blob)
    → find (is_attachment 30 1) with_picture.attachments ≡ some a
    → find (is_blob a.blob_id 1) with_picture.blobs ≡ some b
    → b.complete ≡ true
unfolding find
files_whole a b e f = ground (arith, e, f)

deletes : delete_file with_picture 1 30 ≡ ok without_file
unfolding delete_file find delete update
deletes = refl

delete_file-IsAccounted_example : IsAccounted 1 without_file
delete_file-IsAccounted_example =
    delete_file-IsAccounted with_picture 1 30 without_file one_file files_whole
      with_picture-IsAccounted deletes

abbrev in_trash : Db
in_trash = record with_picture {
  notes = record owned { state = deleted; deleted_at = some 40 } ∷ [];
}

abbrev purged : Result Db
purged = delete_permanently in_trash 1 2 60

abbrev emptied : Result Db → Db
emptied (ok t) = t
emptied (err _) = in_trash

purges : purged ≡ ok (emptied purged)
unfolding delete_permanently cancel_for_note attachments_of file_of delete_note delete_files
    delete_file find delete update
purges = refl

one_owned : count (is_note 2 1) in_trash.notes ≤ 1
unfolding count
one_owned = omega arith

delete_permanently-Purged_example :
    ((n : Note) × (find (is_note 2 1) in_trash.notes ≡ some n) × (is_active n.state ≡ false))
    × Purged 1 2 in_trash (emptied purged)
delete_permanently-Purged_example =
    delete_permanently-Purged in_trash 1 2 60 (emptied purged) one_owned purges
