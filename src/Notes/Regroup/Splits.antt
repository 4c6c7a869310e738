-- ===== src/Notes/Regroup/Splits.antt =====
-- A part that becomes a note of its own (core/internal/notes/ops.go, `Split`).
use notekeeper.Common.{ℕ, ◌≡◌, ◌≢◌, refl, true, Option, some, ◌∷◌, arith, leb}
use notekeeper.Common.Str.{Str}
use notekeeper.Db.Rows.{find, update, update_one}
use notekeeper.Db.Feed.{change}
use notekeeper.Db.{Db, Note, Part, Entity, upsert, ok, is_active}
use notekeeper.Reminders.{is_note}
use notekeeper.Notes.Regroup.{
  count_note_parts, touched, created_note, split_location, is_part, part_by_id, first_part, split,
}

module _ (user note part id now received later : ℕ) (db : Db) where
  abbrev left : Db → Option ℕ → Option Str → Part → Note → Db
  left u category key p r =
      let new : Note = created_note id user category key p.created_at received in
      change
        (change
          (record u {
            notes = update (is_note note user) (touched later) (new ∷ u.notes);
            parts = update (part_by_id user part) (first_part id) u.parts;
          })
          user Entity.note note upsert (some (touched later r).version))
        user Entity.note id upsert (some 1)

  -- A split whose placing succeeds.
  pub split-by :
      (u : Db) (category : Option ℕ) (key : Option Str) (src r : Note) (p : Part)
      → find (is_note note user) db.notes ≡ some src
      → is_active src.state ≡ true
      → find (is_part part note user) db.parts ≡ some p
      → leb 2 (count_note_parts user note db.parts) ≡ true
      → split_location db user note src id now ≡ ok ((category, key), u)
      → find (is_note note user) u.notes ≡ some r
      → note ≢ id
      → let new : Note = created_note id user category key p.created_at received in
        (t : Db) × (split db user note part id now received later ≡ ok ((touched later r, new), t))
        × (t.notes ≡ update (is_note note user) (touched later) (new ∷ u.notes))
        × (t.parts ≡ update (part_by_id user part) (first_part id) u.parts)
  unfolding split update_one change
  split-by u category key src r p e a f l s g ne =
      let new : Note = created_note id user category key p.created_at received in
      let skip : find (is_note note user) (new ∷ u.notes) ≡ some r = ground (arith, g, ne) in
      (
        left u category key p r,
        rw e (rw a (rw f (rw l (rw s (rw (skip, update_one) refl))))),
        refl,
        refl,
      )
