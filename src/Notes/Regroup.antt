-- ===== src/Notes/Regroup.antt =====
-- Correcting a grouping: parts that change their note (core/internal/notes/ops.go, `Merge` and `Split`).
-- The ids that a split makes are arguments, and so are the times that it reads.
pub mod Merged
pub mod Kept
pub mod Splits
pub mod Apart
pub mod Below
pub mod SplitOff
mod Tests
use notekeeper.Common.{
  ℕ, ◌+◌, Bool, true, false, ◌&&◌, Option, none, some, List, [], ◌∷◌, ltb, leb, ◌==◌, not,
  if◌then◌else◌, map, max,
}
use notekeeper.Common.Str.{Str}
use notekeeper.Db.Rows.{find, update, update_one, delete, count, select, sort_by}
use notekeeper.Db.Feed.{change}
use notekeeper.Db.{
  Db, Note, Part, ShareLink, Reminder, active, Entity, upsert, Op, not_found, conflict, invalid,
  internal, Result, ok, err, ◌>>=◌, ◌>>◌, guard, or_fail, is_active,
}
use notekeeper.Position.{place}
use notekeeper.Reminders.{is_note, of_note}
use notekeeper.Notes.Order.{note_group}
use notekeeper.Notes.Move.{map_position}

-- A part of a note. Row level security shows a transaction the rows of its user only.
abbrev pub own_part : ℕ → ℕ → Part → Bool
own_part user note p = p.user_id == user && p.note_id == note

-- ListNoteParts, of one note.
unfoldable pub list_parts : ℕ → ℕ → Db → List Part
list_parts user note db = sort_by (λ p. p.ordinal) (select (own_part user note) db.parts)

-- NextPartOrdinal
unfoldable pub next_part_ordinal : ℕ → ℕ → List Part → ℕ
next_part_ordinal user note [] = 0
next_part_ordinal user note (p ∷ ps) =
    if own_part user note p
    then max (p.ordinal + 1) (next_part_ordinal user note ps)
    else next_part_ordinal user note ps

-- CountNoteParts
abbrev pub count_note_parts : ℕ → ℕ → List Part → ℕ
count_note_parts user note ps = count (own_part user note) ps

-- MovePartsToNote
abbrev pub moved_part : ℕ → ℕ → Part → Part
moved_part note offset p = record p { note_id = note; ordinal = p.ordinal + offset }

-- MoveRemindersToNote
abbrev pub moved_reminder : ℕ → Reminder → Reminder
moved_reminder note r = record r { note_id = note; version = r.version + 1 }

-- TouchNote
abbrev pub touched : ℕ → Note → Note
touched now n = record n { updated_at = now; version = n.version + 1 }

abbrev pub own_link : ℕ → ℕ → ShareLink → Bool
own_link user note l = l.user_id == user && l.note_id == note

-- DeleteNoteAnyState: the rows that refer to the note go with it.
pub delete_note_any_state : Db → ℕ → ℕ → Db
delete_note_any_state db user id = record db {
  notes = delete (is_note id user) db.notes;
  parts = delete (own_part user id) db.parts;
  reminders = delete (of_note user id) db.reminders;
  links = delete (own_link user id) db.links;
}

-- The loop of `Merge` over the links of the note that goes.
pub tell_deleted : Db → ℕ → List ShareLink → Db
tell_deleted db user [] = db
tell_deleted db user (l ∷ ls) =
    tell_deleted (change db user Entity.share_link l.id Op.delete none) user ls

-- The store of `Merge` when the parts and reminders have moved and the note is gone.
pub merge_rows : Db → ℕ → ℕ → ℕ → Db
unfolding next_part_ordinal delete_note_any_state tell_deleted
merge_rows db user target source =
    let moved : Db = record db {
      parts =
          update (own_part user source) (moved_part target (next_part_ordinal user target db.parts))
            db.parts;
      reminders = update (of_note user source) (moved_reminder target) db.reminders;
    } in
    tell_deleted (delete_note_any_state moved user source) user
      (select (own_link user source) moved.links)

-- `Merge`
pub merge : Db → ℕ → ℕ → ℕ → ℕ → Result (Note × Db)
unfolding merge_rows
merge db user target source now = do
  guard (not (target == source)) invalid
  to ← or_fail (find (is_note target user) db.notes) not_found
  from ← or_fail (find (is_note source user) db.notes) not_found
  guard (is_active to.state && is_active from.state) conflict
  (n, ns) ←
      or_fail
        (update_one (is_note target user) (touched now) (merge_rows db user target source).notes)
        internal
  ok (
    n,
    change
        (change (record (merge_rows db user target source) { notes = ns }) user Entity.note source
          Op.delete none)
        user Entity.note target upsert (some n.version),
  )

-- InsertNoteAtCreated
abbrev pub created_note : ℕ → ℕ → Option ℕ → Option Str → ℕ → ℕ → Note
created_note id user category key created received = record {
  id = id;
  user_id = user;
  category_id = category;
  position = key;
  state = active;
  deleted_at = none;
  created_at = created;
  received_at = received;
  updated_at = received;
  version = 1;
}

-- The category and the key of the note that `Split` creates, right below the one it comes from.
pub split_location : Db → ℕ → ℕ → Note → ℕ → ℕ → Result ((Option ℕ × Option Str) × Db)
split_location db user note src id now = elim src.category_id [
  | none ↦ ok ((none, none), db)
  | some c ↦ do
    (k, u) ← map_position (
        place (note_group user c id now) db
          (record { after_id = some note; before_id = none; default_top = false }))
    ok ((some c, some k), u)
]

abbrev pub is_part : ℕ → ℕ → ℕ → Part → Bool
is_part id note user p = p.id == id && p.note_id == note && p.user_id == user

-- MovePartToNewNote
abbrev pub part_by_id : ℕ → ℕ → Part → Bool
part_by_id user id p = p.user_id == user && p.id == id

abbrev pub first_part : ℕ → Part → Part
first_part note p = record p { note_id = note; ordinal = 0 }

-- `Split`; `id` is the new id, and the three times are those of the placing, of the creation and of
-- the touch.
pub split : Db → ℕ → ℕ → ℕ → ℕ → ℕ → ℕ → ℕ → Result ((Note × Note) × Db)
unfolding split_location
split db user note part id now received later = do
  src ← or_fail (find (is_note note user) db.notes) not_found
  guard (is_active src.state) conflict
  p ← or_fail (find (is_part part note user) db.parts) not_found
  guard (leb 2 (count_note_parts user note db.parts)) invalid
  ((category, key), u) ← split_location db user note src id now
  (n, ns) ←
      or_fail
        (update_one (is_note note user) (touched later)
          (created_note id user category key p.created_at received ∷ u.notes))
        internal
  ok (
    (n, created_note id user category key p.created_at received),
    change
        (change
          (record u { notes = ns; parts = update (part_by_id user part) (first_part id) u.parts })
          user Entity.note note upsert (some n.version))
        user Entity.note id upsert (some 1),
  )
