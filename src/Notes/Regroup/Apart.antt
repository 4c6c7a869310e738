-- ===== src/Notes/Regroup/Apart.antt =====
-- The parts of the two notes after a split (core/internal/notes/ops.go, `Split`).
use notekeeper.Common.{
  ℕ, ◌+◌, ◌≤◌, ◌≡◌, refl, Bool, false, ◌&&◌, Option, none, some, List, [], ◌∷◌, arith, Bool-cases,
  Option-cases, inl, inr,
}
use notekeeper.Db.Rows.{find, update, count}
use notekeeper.Db.{Db, Note, Part, Error, not_found, internal, Result, ok, err}
use notekeeper.Common.Str.{Str}
use notekeeper.Position
use notekeeper.Position.{Hints, place}
use notekeeper.Reminders.{is_note}
use notekeeper.Notes.Order.{note_group}
use notekeeper.Notes.Order.Untouched.{Untouched, place-Untouched}
use notekeeper.Notes.Move.{map_position}
use notekeeper.Notes.Regroup.{own_part, split_location, is_part, part_by_id, first_part}
use notekeeper.Notes.Regroup.Kept.{HasPart}

pub find-count : (q : Part → Bool) (ps : List Part) (p : Part) → find q ps ≡ some p → 1 ≤ count q ps
unfolding find count
find-count q [] p e = absurd (cc)
find-count q (r ∷ ps) p e = ground (arith, e, find-count q ps p)

module _ (user note part id : ℕ) where
  -- The rows of a note that are the part.
  abbrev pub shared : Note → Part → Bool
  shared m p = own_part m.user_id m.id p && part_by_id user part p

  count-leaves :
      (m : Note) (ps : List Part)
      → count (own_part m.user_id m.id) ps
        ≤ count (shared m) ps
          + count (own_part m.user_id m.id) (update (part_by_id user part) (first_part id) ps)
  unfolding count update
  count-leaves m [] = omega arith
  count-leaves m (p ∷ ps) = elim (Bool-cases (part_by_id user part p)) [
    | inl e ↦ ground (arith, e, count-leaves m ps)
    | inr e ↦ ground (arith, e, count-leaves m ps)
  ]

  count-shared :
      (m : Note) (ps : List Part)
      → is_note note user m ≡ false
      → count (shared m) ps + count (is_part part note user) ps ≤ count (part_by_id user part) ps
  unfolding count
  count-shared m [] h = omega arith
  count-shared m (p ∷ ps) h = elim (Bool-cases (part_by_id user part p)) [
    | inl e ↦ ground (arith, e, h, count-shared m ps h)
    | inr e ↦ ground (arith, e, h, count-shared m ps h)
  ]

  count-part : (m : Note) (ps : List Part) → count (shared m) ps ≤ count (part_by_id user part) ps
  unfolding count
  count-part m [] = omega arith
  count-part m (p ∷ ps) = elim (Bool-cases (part_by_id user part p)) [
    | inl e ↦ ground (arith, e, count-part m ps)
    | inr e ↦ ground (arith, e, count-part m ps)
  ]

  count-arrives :
      (ps : List Part)
      → count (is_part part note user) ps
        ≤ count (own_part user id) (update (part_by_id user part) (first_part id) ps)
  unfolding count update
  count-arrives [] = omega arith
  count-arrives (p ∷ ps) = elim (Bool-cases (part_by_id user part p)) [
    | inl e ↦ ground (arith, e, count-arrives ps)
    | inr e ↦ ground (arith, e, count-arrives ps)
  ]

  -- A note keeps a part when the part goes, if its own note has another one.
  pub stays :
      (m : Note) (ps qs : List Part) (p : Part)
      → count (own_part m.user_id m.id) ps
        ≤ count (shared m) ps + count (own_part m.user_id m.id) qs
      → count (part_by_id user part) ps ≤ 1
      → find (is_part part note user) ps ≡ some p
      → 2 ≤ count (own_part user note) ps
      → HasPart ps m
      → HasPart qs m
  stays m ps qs p leaves one f two h = elim (Bool-cases (is_note note user m)) [
    | inl e ↦
        let i : m.id ≡ note = ground (arith, e) in
        let j : m.user_id ≡ user = ground (arith, e) in
        let two' : 2 ≤ count (own_part m.user_id m.id) ps = rw (i, j) two in
        omega (arith, two', leaves, count-part m ps, one)
    | inr e ↦
        omega
          (arith, h, leaves, count-shared m ps e, one, find-count (is_part part note user) ps p f)
  ]

refused :
    (x : Position.Error)
    → (y : Error) × (◌≡◌ {A = Result (Str × Db)} (map_position (Position.err x)) (err y))
refused Position.neighbour = (not_found, refl)
refused Position.backend = (internal, refl)
refused Position.stuck = (internal, refl)
refused (Position.key k) = (internal, refl)

pub location-Untouched :
    (db : Db) (user note : ℕ) (src : Note) (id now : ℕ) (l : Option ℕ × Option Str) (u : Db)
    → split_location db user note src id now ≡ ok (l, u)
    → Untouched db u
unfolding split_location
location-Untouched db user note src id now l u e = elim (Option-cases src.category_id) [
  | inl f ↦ let same : u ≡ db = ground (arith, e, f) in rw same (refl, λ P up h. h)
  | inr (c, f) ↦
      let h : Hints = record { after_id = some note; before_id = none; default_top = false } in
      elim (Position.Result-cases (place (note_group user c id now) db h)) [
        | inr (x, g) ↦ let (y, m) = refused x in absurd (ground (arith, e, f, g, m))
        | inl ((k, u'), g) ↦
            let same : u ≡ u' = ground (arith, e, f, g) in
            rw same (place-Untouched user c id now db h k u' g)
      ]
]
