-- ===== src/Notes/Move/Placed.antt =====
-- Where a moved note stands (core/internal/notes/ops.go, `Move`).
use native.Mathlib.Decide.{ℕ_discrete}
use mathlib.Core.Option
use mathlib.Core.Path.{subst}
use notekeeper.Common.{
  ℕ, ◌≡◌, ◌≢◌, ◌⊎◌, inl, inr, refl, ap, ◌∙◌, true, Option, some, List, [], ◌∷◌, arith,
  if◌then◌else◌, Bool-cases, map,
}
use notekeeper.Common.Str.{Str}
use notekeeper.Db.Rows.{find, update, update_one, select, find-update, find-fits, All-update}
use notekeeper.Db.Feed.{change}
use notekeeper.Db.{Db, Note, Category, Entity, upsert, not_found, ok, err, is_active}
use notekeeper.Fracindex.{valid}
use notekeeper.Position
use notekeeper.Position.{Group, Hints, neighbour, place_hints, place_once, place}
use notekeeper.Position.Placed.{Spot, Spot-same}
use notekeeper.Reminders.{is_note}
use notekeeper.Notes.Order.{in_group, is_member, keys, note_group}
use notekeeper.Notes.Order.Answered.{HasPlace, WellPlaced, HasKey}
use notekeeper.Notes.Order.Keys.{Among}
use notekeeper.Notes.Order.Placing.{Listed, place-note_group, place-Listed-or}
use notekeeper.Notes.Move.{MoveInput, is_category, relocated, location, move}

-- A change of the note that is placed does not touch the others of the order.
module _ (user category id : ℕ) (f : Note → Note) (same : (r : Note) → (f r).id ≡ r.id) where
  others :
      (rs : List Note)
      → select (in_group user category id) (update (is_note id user) f rs)
        ≡ select (in_group user category id) rs
  unfolding select update
  others [] = refl
  others (r ∷ rs) = elim (Bool-cases (is_note id user r)) [
    | inl e ↦ ground (arith, e, same r, others rs)
    | inr e ↦ ground (arith, e, others rs)
  ]

  other :
      (j : ℕ) (rs : List Note)
      → j ≢ id
      → find (is_member user category j) (update (is_note id user) f rs)
        ≡ find (is_member user category j) rs
  unfolding find update
  other j [] ne = refl
  other j (r ∷ rs) ne = elim (Bool-cases (is_note id user r)) [
    | inl e ↦ ground (arith, e, same r, other j rs ne)
    | inr e ↦ ground (arith, e, other j rs ne)
  ]

module _ (user id : ℕ) (input : MoveInput) (now : ℕ) where
  abbrev left : Db → Option ℕ → Option Str → Note → Db
  left u c k r =
      change (record u { notes = update (is_note id user) (relocated c k now) u.notes }) user
        Entity.note id upsert (some (relocated c k now r).version)

  move-by :
      (db u : Db) (cur r : Note) (c : Option ℕ) (k : Option Str)
      → find (is_note id user) db.notes ≡ some cur
      → is_active cur.state ≡ true
      → location db user id input now ≡ ok ((c, k), u)
      → find (is_note id user) u.notes ≡ some r
      → move db user id input now ≡ ok (relocated c k now r, left u c k r)
  unfolding move update_one
  move-by db u cur r c k e a l f = rw e (rw a (rw l (rw (f, update_one) refl)))

  -- What a note that has been moved to a category shows: it is the note of its id in the store that
  -- is left, and its well-formed key stands in that store in the spot that the neighbours ask for, at
  -- the top without any; every note has its place.
  pub record MovedTo (c : ℕ) (n : Note) (t : Db) : Type 0 where
    pub there : find (is_note id user) t.notes ≡ some n
    pub category : n.category_id ≡ some c
    pub key : Str
    pub position : n.position ≡ some key
    pub key_valid : valid key ≡ true
    pub spot :
        Spot
          (note_group user c id now)
          (HasKey user c id now t)
          t
          input.after_id
          input.before_id
          true
          key
    pub placed : WellPlaced t

  key_of-left :
      (u : Db) (c : ℕ) (k : Option Str) (r : Note) (j : ℕ)
      → (note_group user c id now).key_of (left u (some c) k r) j
        ≡ (note_group user c id now).key_of u j
  unfolding change note_group
  key_of-left u c k r j = elim (ℕ_discrete j id) [
    | yes same ↦ ground (arith, same)
    | no away ↦
        ground (arith, away, other user c id (relocated (some c) k now) (λ _. refl) j u.notes away)
  ]

  HasKey-left :
      (u : Db) (c : ℕ) (k : Option Str) (r : Note) (m : Str)
      → HasKey user c id now (left u (some c) k r) m
      → HasKey user c id now u m
  unfolding change keys
  HasKey-left u c k r m h =
      subst (λ ns. Among m (map (λ n. n.position) ns))
        (others user c id (relocated (some c) k now) (λ _. refl) u.notes) h

  left-MovedTo :
      (u : Db) (r : Note) (c : ℕ) (k : Str)
      → find (is_note id user) u.notes ≡ some r
      → WellPlaced u
      → valid k ≡ true
      → Spot
          (note_group user c id now)
          (HasKey user c id now u)
          u
          input.after_id
          input.before_id
          true
          k
      → MovedTo c (relocated (some c) (some k) now r) (left u (some c) (some k) r)
  unfolding change
  left-MovedTo u r c k e w v s = record {
    there =
        find-update (is_note id user) (is_note id user) (relocated (some c) (some k) now) u.notes
          (λ _. refl)
        ∙ ap (Option.map (λ r. if is_note id user r then relocated (some c) (some k) now r else r))
            e
        ∙ rw (find-fits (is_note id user) u.notes r e) refl;
    category = refl;
    key = k;
    position = refl;
    key_valid = v;
    spot =
        Spot-same (note_group user c id now) (HasKey user c id now u)
          (HasKey user c id now (left u (some c) (some k) r)) u (left u (some c) (some k) r)
          input.after_id input.before_id true k (key_of-left u c (some k) r)
          (HasKey-left u c (some k) r) s;
    placed =
        All-update HasPlace HasPlace (is_note id user) (relocated (some c) (some k) now) u.notes
          (λ m _ _. inr (k, refl, v)) (λ m h _. h) w;
  }

  abbrev hints : Hints
  hints = record { after_id = input.after_id; before_id = input.before_id; default_top = true }

  location-placed :
      (db u : Db) (c : ℕ) (k : Str) (cat : Category)
      → input.category_id ≡ some c
      → find (is_category c user) db.categories ≡ some cat
      → place (note_group user c id now) db hints ≡ Position.ok (k, u)
      → location db user id input now ≡ ok ((some c, some k), u)
  unfolding location
  location-placed db u c k cat i f p = rw (i, location) (rw f (rw p refl))

  location-refused :
      (db : Db) (c : ℕ) (cat : Category)
      → input.category_id ≡ some c
      → find (is_category c user) db.categories ≡ some cat
      → place (note_group user c id now) db hints ≡ Position.err neighbour
      → location db user id input now ≡ err not_found
  unfolding location
  location-refused db c cat i f p = rw (i, location) (rw f (rw p refl))

  -- An active note that is moved to a category of its user, in a store where the notes of categories
  -- have their places: if the neighbours that are given are active notes of that category other than
  -- the note, the move succeeds and leaves the note there, in its spot; if not, it is refused with
  -- ErrNotFound.
  pub move_places :
      (db : Db) (cur : Note) (c : ℕ) (cat : Category)
      → WellPlaced db
      → find (is_note id user) db.notes ≡ some cur
      → is_active cur.state ≡ true
      → input.category_id ≡ some c
      → find (is_category c user) db.categories ≡ some cat
      → ((Listed user c id now db input.after_id × Listed user c id now db input.before_id)
          × ((n : Note) × (t : Db) × (move db user id input now ≡ ok (n, t)) × MovedTo c n t))
        ⊎ (¬ (Listed user c id now db input.after_id × Listed user c id now db input.before_id)
            × (move db user id input now ≡ err not_found))
  unfolding move
  move_places db cur c cat w e a i f = elim (place-Listed-or user c id now db hints w) [
    | inl (la, lb) ↦
        let (k, u, p, v, s, (w', kept)) = place-note_group user c id now db hints w la lb in
        let (r, g) = kept (is_note id user) (λ _ _ _. refl) (cur, e) in
        inl (
          (la, lb),
          (
            _,
            _,
            move-by db u cur r (some c) (some k) e a (location-placed db u c k cat i f p) g,
            left-MovedTo u r c k g w' v s,
          ),
        )
    | inr (p, n) ↦ inr (n, rw e (rw a (rw (location-refused db c cat i f p) refl)))
  ]
