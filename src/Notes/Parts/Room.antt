-- ===== src/Notes/Parts/Room.antt =====
-- How many parts a note has when the app adds and removes them (core/internal/notes/ops.go, `AddPart` and
-- `RemovePart`).
use notekeeper.Common.{
  ℕ, ◌+◌, ◌≤◌, ◌≡◌, inl, inr, refl, sym, ap, ◌∙◌, true, Option, some, List, [], ◌∷◌, ◌++◌, arith,
  ltb, leb, All, Bool-cases, Option-cases,
}
use notekeeper.Common.Str.{Str}
use notekeeper.Db.Rows.{
  find, update, update_one, delete, count, select, sort_by, All-update, All-weaken,
}
use notekeeper.Db.Rows.Sorted.{sort_by-last, sort-All}
use notekeeper.Db.Feed.{change}
use notekeeper.Db.{Db, Note, Part, attachment, Entity, upsert, ok, Result-cases}
use notekeeper.Blobs.{is_attachment}
use notekeeper.Blobs.Accounted.{delete_file-rows}
use notekeeper.Reminders.{is_note}
use notekeeper.Notes.Regroup.{
  own_part, list_parts, next_part_ordinal, count_note_parts, touched, is_part, part_by_id,
}
use notekeeper.Notes.Regroup.Kept.{HasPart, Kept}
use notekeeper.Notes.Regroup.Apart.{stays, shared}
use notekeeper.Notes.Parts.{
  max_parts, PartInput, new_part, uses_attachment, insert_part, touch_note, checked_text, add_part,
  delete_part_file, remove_part,
}

pub touch_note-rows :
    (db : Db) (user note now : ℕ) (n : Note) (t : Db)
    → touch_note db user note now ≡ ok (n, t)
    → (t.notes ≡ update (is_note note user) (touched now) db.notes) × (t.parts ≡ db.parts)
unfolding touch_note update_one change
touch_note-rows db user note now n t e = elim (Option-cases (find (is_note note user) db.notes)) [
  | inl f ↦ absurd (ground (arith, e, f))
  | inr (r, f) ↦
      let end : Db =
        change (record db { notes = update (is_note note user) (touched now) db.notes }) user
          Entity.note note upsert (some (touched now r).version) in
      let q : ◌≡◌ {A = Note × Db} (touched now r, end) (n, t) = ground (arith, e, f) in
      (sym (ap (λ x. x.1.notes) q), sym (ap (λ x. x.1.parts) q))
]

pub part_file-rows :
    (db : Db) (user : ℕ) (p : Part) (t : Db)
    → delete_part_file db user p ≡ ok t
    → (t.notes ≡ db.notes) × (t.parts ≡ db.parts)
unfolding delete_part_file
part_file-rows db user p t e = elim (Option-cases p.attachment_id) [
  | inl f ↦ let same : t ≡ db = ground (arith, e, f) in rw same (refl, refl)
  | inr (a, f) ↦
      let (ns, ps, _, _, _) = delete_file-rows db user a t (ground (arith, e, f)) in (ns, ps)
]

-- What a removal that succeeds has found and left.
record Removed (user note part now : ℕ) (db t : Db) : Type 0 where
  p : Part
  found : find (is_part part note user) db.parts ≡ some p
  enough : 2 ≤ count_note_parts user note db.parts
  notes : t.notes ≡ update (is_note note user) (touched now) db.notes
  parts : t.parts ≡ delete (part_by_id user part) db.parts

remove_part-Removed :
    (db : Db) (user note part now : ℕ) (n : Note) (t : Db)
    → remove_part db user note part now ≡ ok (n, t)
    → Removed user note part now db t
unfolding remove_part
remove_part-Removed db user note part now n t e =
    let gone : Db = record db { parts = delete (part_by_id user part) db.parts } in
    elim (Option-cases (find (is_note note user) db.notes)) [
      | inl f ↦ absurd (ground (arith, e, f))
      | inr (cur, f) ↦ elim (Option-cases (find (is_part part note user) db.parts)) [
        | inl g ↦ absurd (ground (arith, e, f, g))
        | inr (p, g) ↦ elim (Bool-cases (leb 2 (count_note_parts user note db.parts))) [
          | inr few ↦ absurd (ground (arith, e, f, g, few))
          | inl enough ↦ elim (Result-cases (delete_part_file gone user p)) [
            | inr (x, h) ↦ absurd (ground (arith, e, f, g, enough, h))
            | inl (rest, h) ↦
                let (ns, ps) = part_file-rows gone user p rest h in
                let (ns', ps') =
                  touch_note-rows rest user note now n t (ground (arith, e, f, g, enough, h)) in
                record {
                  p = p;
                  found = g;
                  enough = ground (arith, enough);
                  notes = ns' ∙ ap (update (is_note note user) (touched now)) ns;
                  parts = ps' ∙ ps;
                }
          ]
        ]
      ]
    ]

removed-leaves :
    (user note part : ℕ) (m : Note) (ps : List Part)
    → count (own_part m.user_id m.id) ps
      ≤ count (shared user note part 0 m) ps
        + count (own_part m.user_id m.id) (delete (part_by_id user part) ps)
unfolding count delete
removed-leaves user note part m [] = omega arith
removed-leaves user note part m (p ∷ ps) = elim (Bool-cases (part_by_id user part p)) [
  | inl e ↦ ground (arith, e, removed-leaves user note part m ps)
  | inr e ↦ ground (arith, e, removed-leaves user note part m ps)
]

-- A removal leaves no note without a part, if there was none and the id of the part is of one row.
pub remove_part-Kept :
    (db : Db) (user note part now : ℕ) (n : Note) (t : Db)
    → Kept db
    → count (part_by_id user part) db.parts ≤ 1
    → remove_part db user note part now ≡ ok (n, t)
    → Kept t
remove_part-Kept db user note part now n t k one e =
    let r = remove_part-Removed db user note part now n t e in
    let ps : List Part = delete (part_by_id user part) db.parts in
    rw (r.notes, r.parts)
      (All-update (HasPart ps) (HasPart ps) (is_note note user) (touched now) db.notes (λ m p _. p)
        (λ m p _. p)
        (All-weaken (HasPart db.parts) (HasPart ps) db.notes
          (λ m h.
            stays user note part 0 m db.parts ps r.p (removed-leaves user note part m db.parts) one
              r.found r.enough h)
          k))

insert_part-row :
    (db : Db) (user note id ordinal : ℕ) (input : PartInput) (body : Str) (now : ℕ) (p : Part)
    → insert_part db user note id ordinal input body now ≡ ok p
    → (own_part user note p ≡ true) × (p.ordinal ≡ ordinal)
unfolding insert_part
insert_part-row db user note id ordinal input body now p e =
    elim (Option-cases input.attachment_id) [
      | inl f ↦
          let same : p ≡ record (new_part id user note ordinal now) { body = some body } =
            ground (arith, e, f) in
          rw same (ground arith, refl)
      | inr (a, f) ↦ elim (Option-cases (find (is_attachment a user) db.attachments)) [
        | inl g ↦ absurd (ground (arith, e, f, g))
        | inr (file, g) ↦ elim (Option-cases (find (uses_attachment user a) db.parts)) [
          | inr (q, h) ↦ absurd (ground (arith, e, f, g, h))
          | inl h ↦
              let same : p ≡ record (new_part id user note ordinal now) {
                kind = attachment;
                attachment_id = some a;
              } =
                ground (arith, e, f, g, h) in
              rw same (ground arith, refl)
        ]
      ]
    ]

-- What an addition that succeeds has found and left.
record Added (user note : ℕ) (db t : Db) : Type 0 where
  p : Part
  own : own_part user note p ≡ true
  ordinal : p.ordinal ≡ next_part_ordinal user note db.parts
  room : count_note_parts user note db.parts + 1 ≤ max_parts
  parts : t.parts ≡ p ∷ db.parts

pub ordinals_below :
    (user note b : ℕ) (ps : List Part)
    → next_part_ordinal user note ps ≤ b
    → All (λ p. ltb p.ordinal b ≡ true) (select (own_part user note) ps)
unfolding next_part_ordinal select
ordinals_below user note b [] h = tt
ordinals_below user note b (p ∷ ps) h = elim (Bool-cases (own_part user note p)) [
  | inl e ↦ rw e (ground (arith, e, h), ordinals_below user note b ps (ground (arith, e, h)))
  | inr e ↦ rw e (ordinals_below user note b ps (ground (arith, e, h)))
]

module _ (validate_text : Str → Option Str) where
  add_part-Added :
      (db : Db) (user note id : ℕ) (input : PartInput) (now : ℕ) (n : Note) (t : Db)
      → add_part validate_text db user note id input now ≡ ok (n, t)
      → Added user note db t
  unfolding add_part
  add_part-Added db user note id input now n t e =
      elim (Result-cases (checked_text validate_text input)) [
        | inr (x, f) ↦ absurd (ground (arith, e, f))
        | inl (body, f) ↦ elim (Option-cases (find (is_note note user) db.notes)) [
          | inl g ↦ absurd (ground (arith, e, f, g))
          | inr (cur, g) ↦ elim (Bool-cases (ltb (count_note_parts user note db.parts) max_parts)) [
            | inr full ↦ absurd (ground (arith, e, f, g, full))
            | inl room ↦
                elim (Result-cases (
                  insert_part db user note id (next_part_ordinal user note db.parts) input body
                    now)) [
                      | inr (x, h) ↦ absurd (ground (arith, e, f, g, room, h))
                      | inl (p, h) ↦
                          let (own, ordinal) =
                            insert_part-row db user note id (next_part_ordinal user note db.parts)
                              input body now p h in
                          let (_, ps) =
                            touch_note-rows (record db { parts = p ∷ db.parts }) user note now n t
                              (ground (arith, e, f, g, room, h)) in
                          record {
                            p = p;
                            own = own;
                            ordinal = ordinal;
                            room = ground (arith, room);
                            parts = ps;
                          }
                    ]
          ]
        ]
      ]

  -- A part that is added comes behind all others of the note, which then has one part more, and at most
  -- fifty.
  pub add_part_limits :
      (db : Db) (user note id : ℕ) (input : PartInput) (now : ℕ) (n : Note) (t : Db)
      → add_part validate_text db user note id input now ≡ ok (n, t)
      → ((p : Part) × (list_parts user note t ≡ list_parts user note db ++ p ∷ []))
        × (count_note_parts user note t.parts ≡ count_note_parts user note db.parts + 1)
        × (count_note_parts user note t.parts ≤ max_parts)
  unfolding list_parts select count
  add_part_limits db user note id input now n t e =
      let a = add_part-Added db user note id input now n t e in
      let own : List Part = select (own_part user note) db.parts in
      let rows : select (own_part user note) (a.p ∷ db.parts) ≡ a.p ∷ own = ground (arith, a.own) in
      let counted : count (own_part user note) (a.p ∷ db.parts)
          ≡ 1 + count (own_part user note) db.parts =
        ground (arith, a.own) in
      let last =
        sort_by-last (λ p. p.ordinal) a.p own
          (sort-All (λ p. p.ordinal) (λ p. ltb p.ordinal a.p.ordinal ≡ true) own
            (ordinals_below user note a.p.ordinal db.parts (omega (arith, a.ordinal)))) in
      rw a.parts (
        (a.p, ap (sort_by (λ p. p.ordinal)) rows ∙ last),
        omega (arith, counted),
        omega (arith, counted, a.room),
      )
