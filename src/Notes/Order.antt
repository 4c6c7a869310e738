-- ===== src/Notes/Order.antt =====
-- The manual order of the active notes of a category, as a list that keys are placed in
-- (core/internal/notes/ops.go, `NoteGroup`, over queries of core/internal/store/dbq/board.sql.go).
pub mod Keys
pub mod Answered
pub mod Rekeyed
pub mod Placing
pub mod Untouched
use notekeeper.Common.{
  ℕ, ◌+◌, Bool, true, false, not, ◌&&◌, ◌||◌, Option, none, some, List, [], ◌∷◌, ltb, ◌==◌,
  if◌then◌else◌, length, map,
}
use notekeeper.Common.Str.{Str, str_ltb}
use notekeeper.Db.Rows.{find, update_one, select}
use notekeeper.Db.Feed.{change}
use notekeeper.Db.{Db, Note, Entity, upsert, is_active}
use notekeeper.Fracindex.{even}
use notekeeper.Position.{Error, backend, Result, ok, err, ◌>>=◌, Group}
use notekeeper.Reminders.{is_note}
use notekeeper.Reminders.Endings.{eq_id}

-- The condition that the queries share: an active note of the category, other than the one placed.
abbrev pub in_group : ℕ → ℕ → ℕ → Note → Bool
in_group user category exclude n =
    n.user_id == user && eq_id n.category_id category && is_active n.state && not (n.id == exclude)

-- NotePosition
abbrev pub is_member : ℕ → ℕ → ℕ → Note → Bool
is_member user category id n =
    n.user_id == user && n.id == id && eq_id n.category_id category && is_active n.state

unfoldable pub keys : ℕ → ℕ → ℕ → Db → List (Option Str)
keys user category exclude db =
    map (λ n. n.position) (select (in_group user category exclude) db.notes)

-- The keys above and below one; a null is neither.
pub above : Str → List (Option Str) → List (Option Str)
above a [] = []
above a (none ∷ ks) = above a ks
above a (some k ∷ ks) = if str_ltb a k then some k ∷ above a ks else above a ks

pub below : Str → List (Option Str) → List (Option Str)
below b [] = []
below b (none ∷ ks) = below b ks
below b (some k ∷ ks) = if str_ltb k b then some k ∷ below b ks else below b ks

-- `order by position … limit 1`: nulls come last, so one is answered only if there is no key.
pub lesser : Str → Option Str → Option Str
lesser k none = some k
lesser k (some m) = some (if str_ltb m k then m else k)

pub least : List (Option Str) → Option Str
unfolding lesser
least [] = none
least (none ∷ ks) = least ks
least (some k ∷ ks) = lesser k (least ks)

-- `order by position desc … limit 1`: nulls come first.
pub has_null : List (Option Str) → Bool
has_null [] = false
has_null (none ∷ ks) = true
has_null (some k ∷ ks) = has_null ks

pub greater : Str → Option Str → Option Str
greater k none = some k
greater k (some m) = some (if str_ltb k m then m else k)

pub greatest : List (Option Str) → Option Str
unfolding greater
greatest [] = none
greatest (none ∷ ks) = greatest ks
greatest (some k ∷ ks) = greater k (greatest ks)

pub last_key : List (Option Str) → Option Str
unfolding has_null greatest
last_key ks = if has_null ks then none else greatest ks

-- CategoryNotePositions: `order by position, id`.
pub key_before : Note → Note → Bool
key_before m n = elim m.position [
  | none ↦ elim n.position [ none ↦ ltb m.id n.id | some _ ↦ false ]
  | some k ↦ elim n.position [
    | none ↦ true
    | some l ↦ str_ltb k l || (not (str_ltb l k) && ltb m.id n.id)
  ]
]

pub insert_note : Note → List Note → List Note
insert_note n [] = n ∷ []
insert_note n (m ∷ ms) = if key_before m n then m ∷ insert_note n ms else n ∷ m ∷ ms

pub sort_notes : List Note → List Note
unfolding insert_note
sort_notes [] = []
sort_notes (n ∷ ns) = insert_note n (sort_notes ns)

-- RekeyNote
abbrev pub rekeyed : Str → ℕ → Note → Note
rekeyed k now n = record n { position = some k; updated_at = now; version = n.version + 1 }

-- The loop of `Rebalance` over the new keys.
pub rekey_all : ℕ → ℕ → Db → List Note → List Str → Result Db
rekey_all user now db [] ks = ok db
rekey_all user now db (n ∷ ns) [] = ok db
rekey_all user now db (n ∷ ns) (k ∷ ks) =
    elim (update_one (is_note n.id user) (rekeyed k now) db.notes) [
      | none ↦ err backend
      | some (r, rows) ↦
          rekey_all user now
            (change (record db { notes = rows }) user Entity.note n.id upsert (some r.version)) ns
            ks
    ]

pub rebalance : ℕ → ℕ → ℕ → ℕ → Db → Result Db
unfolding rekey_all
rebalance user category exclude now db =
    let ns = sort_notes (select (in_group user category exclude) db.notes) in
    rekey_all user now db ns (even (length ns))

-- The answer of a query for one row's key.
unfoldable pub position_of : Option Note → Option Str
position_of none = none
position_of (some n) = n.position

-- `NoteGroup`
unfoldable pub note_group : ℕ → ℕ → ℕ → ℕ → Group Db
unfolding position_of keys above below least last_key
note_group user category exclude now = record {
  key_of = λ db id.
      ok (if id == exclude then none else position_of (find (is_member user category id) db.notes));
  after = λ db a. ok (least (above a (keys user category exclude db)));
  before = λ db b. ok (greatest (below b (keys user category exclude db)));
  first = λ db. ok (least (keys user category exclude db));
  last = λ db. ok (last_key (keys user category exclude db));
  rebalance = rebalance user category exclude now;
}
