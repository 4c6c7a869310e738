-- ===== src/Notes/Regroup/SplitOff.antt =====
-- A split that succeeds, and what it leaves (core/internal/notes/ops.go, `Split`).
use mathlib.Core.Option
use notekeeper.Common.{
  ℕ, ◌≤◌, ◌≡◌, ◌≢◌, ◌⊎◌, refl, ap, ◌∙◌, true, false, Option, none, some, List, [], ◌∷◌, arith,
  Bool-cases, Option-cases, inl, inr, if◌then◌else◌,
}
use notekeeper.Common.Str.{Str}
use notekeeper.Db.Rows.{find, find-update, find-fits, update, delete, select, count}
use notekeeper.Db.{Db, Note, Part, active, ok, is_active}
use notekeeper.Fracindex.{valid}
use notekeeper.Position.{Hints}
use notekeeper.Position.Placed.{Spot, Spot-same}
use notekeeper.Reminders.{is_note}
use notekeeper.Notes.Order.{is_member, note_group}
use notekeeper.Notes.Order.Answered.{WellPlaced, HasKey}
use notekeeper.Notes.Order.Rekeyed.{Rekeyed}
use notekeeper.Notes.Order.Placing.{Listed, place-note_group}
use notekeeper.Notes.Regroup.{
  own_part, count_note_parts, touched, created_note, split_location, is_part, part_by_id,
  first_part, split,
}
use notekeeper.Notes.Regroup.Splits.{split-by}
use notekeeper.Notes.Regroup.Apart.{location-Untouched}
use notekeeper.Notes.Regroup.Below.{rest_parts, new_parts, key_of-same, HasKey-same}

-- The place of the new note: the Inbox, or the spot right below the old note in its category.
abbrev pub Below : ℕ → ℕ → ℕ → ℕ → Option ℕ → Option Str → Db → Type 0
Below user note id now category key t =
    ((category ≡ none) × (key ≡ none))
    ⊎ ((c : ℕ) × (k : Str) × (category ≡ some c)
        × (key ≡ some k)
        × (valid k ≡ true)
        × Spot (note_group user c id now) (HasKey user c id now t) t (some note) none false k)

-- What a split leaves: the note that is answered first under the old id; the new note, active, with the
-- part alone, the part's time, and its place right below the old one in the old one's category; and the
-- other parts in the old note.
pub record SplitOff (user note part id now : ℕ) (db t : Db) (src n c : Note) (p : Part)
    : Type 0 where
  pub old : find (is_note note user) t.notes ≡ some n
  pub there : find (is_note id user) t.notes ≡ some c
  pub in_play : c.state ≡ active
  pub rest :
      select (own_part user note) t.parts
      ≡ delete (part_by_id user part) (select (own_part user note) db.parts)
  pub moved : select (own_part user id) t.parts ≡ record p { note_id = id; ordinal = 0 } ∷ []
  pub created_at : c.created_at ≡ p.created_at
  pub category : c.category_id ≡ src.category_id
  pub below : Below user note id now c.category_id c.position t

member-found :
    (user note category : ℕ) (ns : List Note) (src : Note)
    → find (is_note note user) ns ≡ some src
    → is_active src.state ≡ true
    → src.category_id ≡ some category
    → find (is_member user category note) ns ≡ some src
unfolding find
member-found user note category [] src e a c = absurd (cc)
member-found user note category (n ∷ ns) src e a c = elim (Bool-cases (is_note note user n)) [
  | inl h ↦
      let same : n ≡ src = ground (arith, e, h) in rw same (rw a (ground (arith, c, same, h, a)))
  | inr h ↦ ground (arith, h, e, member-found user note category ns src (ground (arith, e, h)) a c)
]

-- Where a split puts the new note, in the store before the note is there.
location_ok :
    (user note id now : ℕ) (db : Db) (src : Note)
    → WellPlaced db
    → note ≢ id
    → find (is_note note user) db.notes ≡ some src
    → is_active src.state ≡ true
    → (key : Option Str) × (u : Db) × (split_location db user note src id now
        ≡ ok ((src.category_id, key), u))
      × Rekeyed db u
      × Below user note id now src.category_id key u
unfolding split_location
location_ok user note id now db src w ne e a = elim (Option-cases src.category_id) [
  | inl f ↦ (none, db, rw f refl, (w, λ q _ h. h), inl (f, refl))
  | inr (c, f) ↦
      let h : Hints = record { after_id = some note; before_id = none; default_top = false } in
      let (k, u, p, v, spot, r) = place-note_group user c id now db h w (listed c f) tt in
      (some k, u, rw f (rw p refl), r, inr (c, k, f, refl, v, spot))
]
  where
    listed : (c : ℕ) → src.category_id ≡ some c → Listed user c id now db (some note)
    listed c f = (ne, (src, member-found user note c db.notes src e a f))

module _ (user note part id now received later : ℕ) (db : Db) (src : Note) (p : Part) where
  -- A part of an active note with at least two is split off: its id is of one row, and the id of the new
  -- note is of no part and not the old note's. Both notes that are answered are in the store that is left:
  -- the new one is active, has the part alone and the part's time, and stands in the category of the
  -- old one, right below it; the old one has the other parts.
  pub split_ok :
      WellPlaced db
      → find (is_note note user) db.notes ≡ some src
      → is_active src.state ≡ true
      → find (is_part part note user) db.parts ≡ some p
      → 2 ≤ count_note_parts user note db.parts
      → count (part_by_id user part) db.parts ≤ 1
      → note ≢ id
      → count (own_part user id) db.parts ≡ 0
      → (n : Note) × (c : Note) × (t : Db) × (split db user note part id now received later
          ≡ ok ((n, c), t))
        × SplitOff user note part id now db t src n c p
  split_ok w e a f two one ne fresh =
      let (key, u, l, (w', kept), below) = location_ok user note id now db src w ne e a in
      let (r, g) = kept (is_note note user) (λ _ _ _. refl) (src, e) in
      let (same, _) = location-Untouched db user note src id now (src.category_id, key) u l in
      let (t, s, rows, parts) =
        split-by user note part id now received later db u src.category_id key src r p e a f
          (ground (arith, two)) l g ne in
      let new : Note = created_note id user src.category_id key p.created_at received in
      let parts' : t.parts ≡ update (part_by_id user part) (first_part id) db.parts =
        parts ∙ ap (update (part_by_id user part) (first_part id)) same in
      (
        touched later r,
        new,
        t,
        s,
        record {
          old =
              ap (find (is_note note user)) rows
              ∙ find-update (is_note note user) (is_note note user) (touched later) (new ∷ u.notes)
                  (λ _. refl)
              ∙ old_note new r u refl g;
          there = new_note new u t refl refl rows;
          in_play = refl;
          rest = ap (select (own_part user note)) parts' ∙ rest_parts user note part id ne db.parts;
          moved =
              ap (select (own_part user id)) parts'
              ∙ new_parts user note part id ne db.parts p fresh one f;
          created_at = refl;
          category = refl;
          below = still key u t new refl rows below;
        },
      )
    where
      old_note :
          (new r : Note) (u : Db)
          → new.id ≡ id
          → find (is_note note user) u.notes ≡ some r
          → Option.map
              (λ x. if is_note note user x then touched later x else x)
              (find (is_note note user) (new ∷ u.notes))
            ≡ some (touched later r)
      old_note new r u i g =
          unfold find in ground (arith, i, ne, g, find-fits (is_note note user) u.notes r g)

      new_note :
          (new : Note) (u t : Db)
          → new.id ≡ id
          → new.user_id ≡ user
          → t.notes ≡ update (is_note note user) (touched later) (new ∷ u.notes)
          → find (is_note id user) t.notes ≡ some new
      new_note new u t i v rows = unfold find update in rw rows (ground (arith, i, v, ne))

      still :
          (key : Option Str) (u t : Db) (new : Note)
          → new.id ≡ id
          → t.notes ≡ update (is_note note user) (touched later) (new ∷ u.notes)
          → Below user note id now src.category_id key u
          → Below user note id now src.category_id key t
      still key u t new i rows (inl b) = inl b
      still key u t new i rows (inr (c, k, x, y, v, spot)) = inr (
        c,
        k,
        x,
        y,
        v,
        Spot-same (note_group user c id now) (HasKey user c id now u) (HasKey user c id now t) u t
            (some note) none false k (key_of-same user note part id ne c now later new i u t rows)
            (HasKey-same user note part id ne c now later new i u t rows) spot,
      )
