-- ===== src/Notes/Regroup/Tests.antt =====
-- Runs of `Move`, `Merge` and `Split` (core/internal/notes/ops.go) on a store with two notes of one
-- category.
use notekeeper.Common.{ℕ, ◌≡◌, ◌≤◌, ◌⊎◌, inr, refl, true, none, some, [], ◌∷◌, arith}
use notekeeper.Common.Str.{codes, str_eq, index_byte}
use notekeeper.Db.Rows.{find, count}
use notekeeper.Db.{
  Db, User, Note, Reminder, pending, Category, Part, text, app, active, ok, err, not_found,
}
use notekeeper.Fracindex.{valid}
use notekeeper.Position.Neighbours.{Answers}
use notekeeper.Reminders.{is_note}
use notekeeper.Notes.Order.{note_group}
use notekeeper.Notes.Order.Answered.{WellPlaced, HasKey, note_group-Answers}
use notekeeper.Notes.Order.Placing.{Listed}
use notekeeper.Notes.Move.{MoveInput, is_category, move}
use notekeeper.Notes.Move.Placed.{MovedTo, move_places}
use notekeeper.Notes.Regroup.{own_part, is_part, part_by_id, merge, split}
use notekeeper.Notes.Regroup.Merged.{MergedInto, renewed, merge_ok}
use notekeeper.Notes.Regroup.SplitOff.{SplitOff, split_ok}

abbrev upper : Note
upper = record {
  id = 2;
  user_id = 1;
  category_id = some 7;
  position = some (codes "V");
  state = active;
  deleted_at = none;
  created_at = 5;
  received_at = 5;
  updated_at = 5;
  version = 1;
}

abbrev lower : Note
lower = record upper { id = 4; position = some (codes "k") }

abbrev part_of : ℕ → ℕ → ℕ → Part
part_of id note ordinal = record {
  id = id;
  user_id = 1;
  note_id = note;
  ordinal = ordinal;
  kind = text;
  body = some (id ∷ []);
  attachment_id = none;
  failed = none;
  attach_reason = app;
  related_part_id = none;
  created_at = 3;
  text_edited_at = none;
  source = none;
}

abbrev shelf : Category
shelf = record {
  id = 7;
  user_id = 1;
  page_id = 8;
  name = 0;
  position = codes "V";
  created_at = 0;
  updated_at = 0;
  version = 1;
}

abbrev holder : User
holder = record { id = 1; active = true; timezone = codes "UTC"; change_seq = 0 }

abbrev two_notes : Db
two_notes = record {
  users = holder ∷ [];
  categories = shelf ∷ [];
  notes = upper ∷ lower ∷ [];
  parts = part_of 20 2 0 ∷ part_of 21 2 1 ∷ part_of 40 4 0 ∷ [];
  attachments = [];
  blobs = [];
  storage = [];
  links =
      record {
        id = 60;
        user_id = 1;
        note_id = 4;
        token_hash = 7;
        created_at = 1;
        expires_at = 90;
        revoked_at = none;
        last_accessed_at = none;
        view_count = 0;
      }
      ∷ [];
  reminders = [];
  outbox = [];
  sent = [];
  changes = [];
  notifications = [];
}

two_notes-WellPlaced : WellPlaced two_notes
unfolding valid str_eq index_byte
two_notes-WellPlaced = (inr (codes "V", refl, refl), (inr (codes "k", refl, refl), tt))

finds_upper : find (is_note 2 1) two_notes.notes ≡ some upper
unfolding find
finds_upper = refl

finds_lower : find (is_note 4 1) two_notes.notes ≡ some lower
unfolding find
finds_lower = refl

finds_part : find (is_part 20 2 1) two_notes.parts ≡ some (part_of 20 2 0)
unfolding find
finds_part = refl

finds_shelf : find (is_category 7 1) two_notes.categories ≡ some shelf
unfolding find
finds_shelf = refl

enough : 2 ≤ count (own_part 1 2) two_notes.parts
unfolding count
enough = omega arith

one_row : count (part_by_id 1 20) two_notes.parts ≤ 1
unfolding count
one_row = omega arith

no_row : count (own_part 1 9) two_notes.parts ≡ 0
unfolding count
no_row = refl

note_group-Answers_example : Answers (note_group 1 7 9 50) (HasKey 1 7 9 50 two_notes) two_notes
note_group-Answers_example = note_group-Answers 1 7 9 50 two_notes two_notes-WellPlaced

abbrev below_lower : MoveInput
below_lower = record { category_id = some 7; before_id = none; after_id = some 4 }

move_places_example :
    ((Listed 1 7 2 50 two_notes (some 4) × Listed 1 7 2 50 two_notes none)
      × ((n : Note) × (t : Db) × (move two_notes 1 2 below_lower 50 ≡ ok (n, t))
          × MovedTo 1 2 below_lower 50 7 n t))
    ⊎ (¬ (Listed 1 7 2 50 two_notes (some 4) × Listed 1 7 2 50 two_notes none)
        × (move two_notes 1 2 below_lower 50 ≡ err not_found))
move_places_example =
    move_places 1 2 below_lower 50 two_notes upper 7 shelf two_notes-WellPlaced finds_upper refl
      refl finds_shelf

-- A reminder of the lower note.
abbrev weekly_call : Reminder
weekly_call = record {
  id = 3;
  user_id = 1;
  note_id = 4;
  due_at = 80;
  rrule = some (codes "FREQ=WEEKLY");
  tz = codes "UTC";
  state = pending;
  last_fired_at = none;
  claimed_until = none;
  created_at = 0;
  version = 1;
}

abbrev reminded : Db
reminded = record two_notes { reminders = weekly_call ∷ [] }

merge_ok_example :
    (t : Db) × (merge reminded 1 2 4 50 ≡ ok (renewed 50 upper, t))
    × MergedInto 1 2 4 reminded t (renewed 50 upper)
merge_ok_example =
    merge_ok 1 2 4 50 (omega arith) reminded upper lower finds_upper finds_lower refl refl

split_ok_example :
    (n : Note) × (c : Note) × (t : Db) × (split two_notes 1 2 20 9 50 51 52 ≡ ok ((n, c), t))
    × SplitOff 1 2 20 9 50 two_notes t upper n c (part_of 20 2 0)
split_ok_example =
    split_ok 1 2 20 9 50 51 52 two_notes upper (part_of 20 2 0) two_notes-WellPlaced finds_upper
      refl finds_part enough one_row (omega arith) no_row
