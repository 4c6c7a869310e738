-- ===== src/Ingest/Kept.antt =====
-- A note always has a part, also when chat messages come, are edited and are deleted
-- (core/internal/ingest/ingest.go, `created`, `edited` and `deleted`).
use notekeeper.Common.{
  ℕ, ◌+◌, ◌≤◌, ◌<◌, ◌≡◌, refl, sym, ap, ◌∙◌, true, false, List, [], ◌∷◌, arith, All, Bool-cases,
  inl, inr, length,
}
use notekeeper.Db.Rows.{delete, count, All-update, All-weaken, All-delete, count-delete}
use notekeeper.Db.{Db, Note, Part, ok, Result-cases}
use notekeeper.Reminders.{is_note}
use notekeeper.Notes.Regroup.{own_part, part_by_id, touched, count_note_parts}
use notekeeper.Notes.Regroup.Kept.{HasPart, Kept}
use notekeeper.Notes.Parts.{touch_note, delete_part_file}
use notekeeper.Notes.Parts.Room.{touch_note-rows, part_file-rows}
use notekeeper.Ingest.{Outcome}
use notekeeper.Ingest.Tables.{Intake, SourceRow}
use notekeeper.Ingest.Create.{Delivery}
use notekeeper.Ingest.Change.{version_of, remove_parts, take_parts}
use notekeeper.Ingest.Found.{OneRow}

-- How many parts a note has.
abbrev pub parts_of : Note → List Part → ℕ
parts_of n ps = count (own_part n.user_id n.id) ps

-- No other note's part goes with a row of the note.
module _ (user note : ℕ) where
  abbrev pub InNote : List Part → SourceRow → Type 0
  InNote ps r = All (λ p. part_by_id user r.part.id p ≡ true → p.note_id ≡ note) ps

  delete-elsewhere :
      (n : Note) (r : SourceRow) (ps : List Part)
      → is_note note user n ≡ false
      → InNote ps r
      → parts_of n (delete (part_by_id user r.part.id) ps) ≡ parts_of n ps
  unfolding count delete
  delete-elsewhere n r [] apart h = refl
  delete-elsewhere n r (p ∷ ps) apart (h, hs) = elim (Bool-cases (part_by_id user r.part.id p)) [
    | inl e ↦ ground (arith, e, apart, h e, delete-elsewhere n r ps apart hs)
    | inr e ↦ ground (arith, e, delete-elsewhere n r ps apart hs)
  ]

  delete-fewer :
      (n : Note) (id : ℕ) (ps : List Part)
      → parts_of n ps ≤ parts_of n (delete (part_by_id user id) ps) + count (part_by_id user id) ps
  unfolding count delete
  delete-fewer n id [] = omega arith
  delete-fewer n id (p ∷ ps) = elim (Bool-cases (part_by_id user id p)) [
    | inl e ↦ ground (arith, e, delete-fewer n id ps)
    | inr e ↦ ground (arith, e, delete-fewer n id ps)
  ]

  -- What a removal of parts leaves to a note.
  abbrev Left : Note → ℕ → List Part → List Part → Type 0
  Left n k ps qs =
      (is_note note user n ≡ false → parts_of n qs ≡ parts_of n ps)
      × (parts_of n ps ≤ parts_of n qs + k)

  remove_parts-notes :
      (rs : List SourceRow) (s t : Intake) → remove_parts user rs s ≡ ok t → t.db.notes ≡ s.db.notes
  unfolding remove_parts
  remove_parts-notes [] s t e = let q : t ≡ s = ground (arith, e) in ap (λ x. x.db.notes) q
  remove_parts-notes (r ∷ rs) s t e =
      let gone : Db = record s.db { parts = delete (part_by_id user r.part.id) s.db.parts } in
      elim (Result-cases (delete_part_file gone user r.part)) [
        | inr (x, f) ↦ absurd (ground (arith, e, f))
        | inl (db, f) ↦
            remove_parts-notes rs
              (record s { db = db; versions = delete (version_of user r.part.id) s.versions }) t
              (ground (arith, e, f))
            ∙ (part_file-rows gone user r.part db f).0
      ]

  InNote-delete :
      (id : ℕ) (ps : List Part) (rs : List SourceRow)
      → All (InNote ps) rs
      → All (InNote (delete (part_by_id user id) ps)) rs
  InNote-delete id ps rs h =
      All-weaken (InNote ps) (InNote (delete (part_by_id user id) ps)) rs
        (λ q k.
          All-delete (λ p. part_by_id user q.part.id p ≡ true → p.note_id ≡ note)
            (λ p. part_by_id user q.part.id p ≡ true → p.note_id ≡ note) (part_by_id user id) ps
            (λ p m x. m) k)
        h

  remove_parts-Left :
      (n : Note) (rs : List SourceRow) (s t : Intake)
      → OneRow user s.db.parts
      → All (InNote s.db.parts) rs
      → remove_parts user rs s ≡ ok t
      → Left n (length rs) s.db.parts t.db.parts
  unfolding remove_parts
  remove_parts-Left n [] s t one h e =
      let q : t ≡ s = ground (arith, e) in
      let same : parts_of n t.db.parts ≡ parts_of n s.db.parts =
        ap (λ x. parts_of n x.db.parts) q in
      ((λ x. same), omega (arith, same))
  remove_parts-Left n (r ∷ rs) s t one (h, hs) e =
      let gone : Db = record s.db { parts = delete (part_by_id user r.part.id) s.db.parts } in
      elim (Result-cases (delete_part_file gone user r.part)) [
        | inr (x, f) ↦ absurd (ground (arith, e, f))
        | inl (db, f) ↦
            let rest : Intake = record s {
              db = db;
              versions = delete (version_of user r.part.id) s.versions;
            } in
            let ps = (part_file-rows gone user r.part db f).1 in
            let one' : OneRow user db.parts = λ id. rw ps (
              omega (
                arith,
                count-delete (part_by_id user id) (part_by_id user r.part.id) s.db.parts,
                one id,
              )) in
            let hs' : All (InNote db.parts) rs = rw ps (InNote-delete r.part.id s.db.parts rs hs) in
            let (same, more) = remove_parts-Left n rs rest t one' hs' (ground (arith, e, f)) in
            let count_ps : parts_of n db.parts ≡ parts_of n gone.parts = ap (parts_of n) ps in
            (
              (λ apart. same apart ∙ (count_ps ∙ delete-elsewhere n r s.db.parts apart h)),
              omega (arith, more, count_ps, delete-fewer n r.part.id s.db.parts, one r.part.id),
            )
      ]

  -- The rows are kept by a touch, and a note that had more parts than are removed has one left.
  pub take_parts-Kept :
      (d : Delivery) (mine : List SourceRow) (s : Intake) (out : Outcome) (t : Intake)
      → d.identity.user_id ≡ user
      → OneRow user s.db.parts
      → All (InNote s.db.parts) mine
      → length mine < count_note_parts user note s.db.parts
      → Kept s.db
      → take_parts d note mine s ≡ ok (out, t)
      → Kept t.db
  unfolding take_parts
  take_parts-Kept d mine s out t own one h more k e =
      elim (Result-cases (remove_parts d.identity.user_id mine s)) [
        | inr (x, f) ↦ absurd (ground (arith, e, f))
        | inl (rest, f) ↦ elim (Result-cases (touch_note rest.db d.identity.user_id note d.now)) [
          | inr (x, g) ↦ absurd (ground (arith, e, f, g))
          | inl ((n, db), g) ↦
              let last : t.db ≡ db = ground (arith, e, f, g) in
              let (ns, ps) = touch_note-rows rest.db d.identity.user_id note d.now n db g in
              let f' : remove_parts user mine s ≡ ok rest =
                ap (λ u. remove_parts u mine s) (sym own) ∙ f in
              let notes : rest.db.notes ≡ s.db.notes = remove_parts-notes mine s rest f' in
              rw last (
                rw (ns, ps, notes)
                  (All-update (HasPart rest.db.parts) (HasPart rest.db.parts)
                    (is_note note d.identity.user_id) (touched d.now) s.db.notes (λ m p _. p)
                    (λ m p _. p)
                    (All-weaken (HasPart s.db.parts) (HasPart rest.db.parts) s.db.notes
                      (λ m p. left rest m p (remove_parts-Left m mine s rest one h f')) k)))
        ]
      ]
    where
      left :
          (rest : Intake) (m : Note)
          → HasPart s.db.parts m
          → Left m (length mine) s.db.parts rest.db.parts
          → HasPart rest.db.parts m
      left rest m p (same, more_) = elim (Bool-cases (is_note note user m)) [
        | inr apart ↦ omega (arith, same apart, p)
        | inl here ↦
            let i : m.id ≡ note = ground (arith, here) in
            let j : m.user_id ≡ user = ground (arith, here) in
            let many : length mine < parts_of m s.db.parts = rw (i, j) more in
            omega (arith, many, more_)
      ]
