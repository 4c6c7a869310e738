-- ===== src/Notes/Move.antt =====
-- Moving a note within its category, to another or to the Inbox (core/internal/notes/ops.go, `Move`).
pub mod Placed
use notekeeper.Common.{ℕ, ◌+◌, Bool, true, false, ◌&&◌, Option, none, some, ◌==◌}
use notekeeper.Common.Str.{Str}
use notekeeper.Db.Rows.{find, update_one}
use notekeeper.Db.Feed.{change}
use notekeeper.Db.{
  Db, Note, Category, Entity, upsert, Error, not_found, conflict, internal, Result, ok, err, ◌>>=◌,
  ◌>>◌, guard, or_fail, is_active,
}
use notekeeper.Position
use notekeeper.Position.{neighbour, place}
use notekeeper.Reminders.{is_note}
use notekeeper.Notes.Order.{note_group}

-- No category is the Inbox.
pub record MoveInput : Type 0 where
  pub category_id : Option ℕ
  pub before_id : Option ℕ
  pub after_id : Option ℕ

-- GetCategory
abbrev pub is_category : ℕ → ℕ → Category → Bool
is_category id user c = c.id == id && c.user_id == user

-- SetNoteLocation
abbrev pub relocated : Option ℕ → Option Str → ℕ → Note → Note
relocated category key now n = record n {
  category_id = category;
  position = key;
  updated_at = now;
  version = n.version + 1;
}

-- `mapPosition`
abbrev pub map_position {ℓ} : {A : Type ℓ} → Position.Result A → Result A
map_position (Position.ok a) = ok a
map_position (Position.err neighbour) = err not_found
map_position (Position.err _) = err internal

-- The category and the key that `Move` gives a note, and the store behind the placing.
pub location : Db → ℕ → ℕ → MoveInput → ℕ → Result ((Option ℕ × Option Str) × Db)
location db user id input now = elim input.category_id [
  | none ↦ ok ((none, none), db)
  | some c ↦ do
    found ← or_fail (find (is_category c user) db.categories) not_found
    (k, u) ← map_position (
        place (note_group user c id now) db
          (record { after_id = input.after_id; before_id = input.before_id; default_top = true }))
    ok ((some c, some k), u)
]

-- `Move`
pub move : Db → ℕ → ℕ → MoveInput → ℕ → Result (Note × Db)
unfolding location
move db user id input now = do
  cur ← or_fail (find (is_note id user) db.notes) not_found
  guard (is_active cur.state) conflict
  ((category, key), u) ← location db user id input now
  (n, ns) ← or_fail (update_one (is_note id user) (relocated category key now) u.notes) internal
  ok (n, change (record u { notes = ns }) user Entity.note id upsert (some n.version))
