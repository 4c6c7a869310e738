-- ===== src/Notes/Order/Untouched.antt =====
-- What placing in the manual order of a category leaves alone (core/internal/notes/ops.go, `NoteGroup`).
use notekeeper.Common.{
  ℕ, ◌≡◌, refl, some, List, [], ◌∷◌, arith, length, Option-cases, All, inl, inr,
}
use notekeeper.Common.Str.{Str}
use notekeeper.Db.Rows.{find, update, update_one, select, All-update}
use notekeeper.Db.Feed.{change}
use notekeeper.Db.{Db, Note, Entity, upsert}
use notekeeper.Fracindex.{even}
use notekeeper.Position.{ok, Hints, place}
use notekeeper.Position.Refused.{place-left}
use notekeeper.Reminders.{is_note}
use notekeeper.Notes.Order.{in_group, sort_notes, rekeyed, rekey_all, rebalance, note_group}

-- The parts are the same, and what new keys do not change of the notes holds on.
abbrev pub Untouched : Db → Db → Type 1
Untouched db t =
    (t.parts ≡ db.parts)
    × ((P : Note → Type 0)
        → ((k : Str) (now : ℕ) (n : Note) → P n → P (rekeyed k now n))
        → All P db.notes
        → All P t.notes)

rekey_all-Untouched :
    (user now : ℕ) (db : Db) (ns : List Note) (ks : List Str) (t : Db)
    → rekey_all user now db ns ks ≡ ok t
    → Untouched db t
unfolding rekey_all update_one change
rekey_all-Untouched user now db [] ks t e =
    let same : t ≡ db = ground (arith, e) in rw same (refl, λ P up h. h)
rekey_all-Untouched user now db (n ∷ ns) [] t e =
    let same : t ≡ db = ground (arith, e) in rw same (refl, λ P up h. h)
rekey_all-Untouched user now db (n ∷ ns) (k ∷ ks) t e =
    elim (Option-cases (find (is_note n.id user) db.notes)) [
      | inl f ↦ absurd (ground (arith, e, f))
      | inr (r, f) ↦
          let rows : List Note = update (is_note n.id user) (rekeyed k now) db.notes in
          let next : Db =
            change (record db { notes = rows }) user Entity.note n.id upsert
              (some (rekeyed k now r).version) in
          let (p, keep) = rekey_all-Untouched user now next ns ks t (ground (arith, e, f)) in
          (
            p,
            λ P up h. keep P up (
                All-update P P (is_note n.id user) (rekeyed k now) db.notes (λ m q _. up k now m q)
                  (λ m q _. q) h),
          )
    ]

-- A placing that succeeds writes keys only.
pub place-Untouched :
    (user category exclude now : ℕ) (db : Db) (h : Hints) (k : Str) (u : Db)
    → place (note_group user category exclude now) db h ≡ ok (k, u)
    → Untouched db u
unfolding note_group rebalance
place-Untouched user category exclude now db h k u e =
    elim (place-left (note_group user category exclude now) db h k u e) [
      | inl same ↦ rw same (refl, λ P up h. h)
      | inr r ↦
          let ns = sort_notes (select (in_group user category exclude) db.notes) in
          rekey_all-Untouched user now db ns (even (length ns)) u r
    ]
