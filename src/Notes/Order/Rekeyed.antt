-- ===== src/Notes/Order/Rekeyed.antt =====
-- Rebalancing the manual order of a category (core/internal/notes/ops.go, `Rebalance` of `NoteGroup`).
use mathlib.Core.Option
use notekeeper.Common.{
  ℕ, ◌≡◌, inl, inr, refl, ap, ◌∙◌, Bool, true, false, some, List, [], ◌∷◌, arith, if◌then◌else◌,
  length, All, Bool-cases,
}
use notekeeper.Common.Str.{Str}
use notekeeper.Db.Rows.{find, update, update_one, select, find-update, All-update, All-weaken}
use notekeeper.Db.Feed.{change}
use notekeeper.Db.{Db, Note, Entity, upsert}
use notekeeper.Fracindex.{valid, even}
use notekeeper.Fracindex.Even.{even_ok}
use notekeeper.Position.{ok}
use notekeeper.Reminders.{is_note}
use notekeeper.Notes.Order.{
  in_group, key_before, insert_note, sort_notes, rekeyed, rekey_all, rebalance,
}
use notekeeper.Notes.Order.Answered.{HasPlace, WellPlaced}

-- A row that fits is there.
abbrev pub Found : (Note → Bool) → Db → Type 0
Found q db = (r : Note) × (find q db.notes ≡ some r)

-- A test that a new key does not change.
abbrev pub Keeps : (Note → Bool) → Type 0
Keeps q = (k : Str) (now : ℕ) (r : Note) → q (rekeyed k now r) ≡ q r

-- The store after new keys.
abbrev pub Rekeyed : Db → Db → Type 0
Rekeyed db t = WellPlaced t × ((q : Note → Bool) → Keeps q → Found q db → Found q t)

update-Found :
    (rs : List Note) (p q : Note → Bool) (k : Str) (now : ℕ) (r : Note)
    → Keeps q
    → find q rs ≡ some r
    → (r' : Note) × (find q (update p (rekeyed k now) rs) ≡ some r')
update-Found rs p q k now r keeps e = (
  _,
  find-update q p (rekeyed k now) rs (keeps k now)
      ∙ ap (Option.map (λ r. if p r then rekeyed k now r else r)) e,
)

rekey_all-step :
    (user now : ℕ) (db : Db) (n : Note) (ns : List Note) (k : Str) (ks : List Str) (r : Note)
    → find (is_note n.id user) db.notes ≡ some r
    → rekey_all user now db (n ∷ ns) (k ∷ ks)
      ≡ rekey_all user now
          (change
            (record db { notes = update (is_note n.id user) (rekeyed k now) db.notes })
            user
            Entity.note
            n.id
            upsert
            (some (rekeyed k now r).version))
          ns
          ks
unfolding rekey_all update_one
rekey_all-step user now db n ns k ks r e = rw (e, rekey_all, update_one) refl

rekey_all-Rekeyed :
    (user now : ℕ) (db : Db) (ns : List Note) (ks : List Str)
    → WellPlaced db
    → All (λ k. valid k ≡ true) ks
    → All (λ (n : Note). Found (is_note n.id user) db) ns
    → (t : Db) × (rekey_all user now db ns ks ≡ ok t) × Rekeyed db t
unfolding rekey_all change
rekey_all-Rekeyed user now db [] ks w v f = (db, refl, (w, λ q _ h. h))
rekey_all-Rekeyed user now db (n ∷ ns) [] w v f = (db, refl, (w, λ q _ h. h))
rekey_all-Rekeyed user now db (n ∷ ns) (k ∷ ks) w (v, vs) ((r, e), fs) =
    let rows : List Note = update (is_note n.id user) (rekeyed k now) db.notes in
    let next : Db =
      change (record db { notes = rows }) user Entity.note n.id upsert
        (some (rekeyed k now r).version) in
    let placed : WellPlaced next =
      All-update HasPlace HasPlace (is_note n.id user) (rekeyed k now) db.notes
        (λ m _ _. inr (k, refl, v)) (λ m h _. h) w in
    let (t, q, (w', kept)) = rekey_all-Rekeyed user now next ns ks placed vs (
      All-weaken (λ (m : Note). Found (is_note m.id user) db)
        (λ (m : Note). Found (is_note m.id user) next) ns
        (λ m h.
          update-Found db.notes (is_note n.id user) (is_note m.id user) k now h.0 (λ _ _ _. refl)
            h.1)
        fs) in
    (
      t,
      rekey_all-step user now db n ns k ks r e ∙ q,
      (
        w',
        λ p keeps h. kept p keeps (update-Found db.notes (is_note n.id user) p k now h.0 keeps h.1),
      ),
    )

insert_note-All :
    (P : Note → Type 0) (n : Note) (ns : List Note) → P n → All P ns → All P (insert_note n ns)
unfolding insert_note
insert_note-All P n [] p ps = (p, tt)
insert_note-All P n (m ∷ ms) p (q, qs) = elim (Bool-cases (key_before m n)) [
  | inl e ↦ rw e (q, insert_note-All P n ms p qs)
  | inr e ↦ rw e (p, (q, qs))
]

sort_notes-All : (P : Note → Type 0) (ns : List Note) → All P ns → All P (sort_notes ns)
unfolding sort_notes
sort_notes-All P [] h = tt
sort_notes-All P (n ∷ ns) (p, ps) = insert_note-All P n (sort_notes ns) p (sort_notes-All P ns ps)

select-Found :
    (user category exclude : ℕ) (rs : List Note)
    → All
        (λ (n : Note). (r : Note) × (find (is_note n.id user) rs ≡ some r))
        (select (in_group user category exclude) rs)
unfolding select find
select-Found user category exclude [] = tt
select-Found user category exclude (r ∷ rs) =
    go
      (All-weaken (λ (n : Note). (q : Note) × (find (is_note n.id user) rs ≡ some q))
        (λ (n : Note). (q : Note) × (find (is_note n.id user) (r ∷ rs) ≡ some q))
        (select (in_group user category exclude) rs) (λ n h. later n h.0 h.1)
        (select-Found user category exclude rs))
      (in_group user category exclude r) refl
  where
    later :
        (n q : Note)
        → find (is_note n.id user) rs ≡ some q
        → (q' : Note) × (find (is_note n.id user) (r ∷ rs) ≡ some q')
    later n q e = elim (Bool-cases (is_note n.id user r)) [
      | inl h ↦ (r, rw h refl)
      | inr h ↦ (q, rw h e)
    ]

    go :
        All
          (λ (n : Note). (q : Note) × (find (is_note n.id user) (r ∷ rs) ≡ some q))
          (select (in_group user category exclude) rs)
        → (b : Bool) → in_group user category exclude r ≡ b
        → All
            (λ (n : Note). (q : Note) × (find (is_note n.id user) (r ∷ rs) ≡ some q))
            (if b
              then r ∷ select (in_group user category exclude) rs
              else select (in_group user category exclude) rs)
    go ih true e = let h : is_note r.id user r ≡ true = ground arith in ((r, rw h refl), ih)
    go ih false e = ih

-- A rebalance succeeds: every row of the category gets its new key, so that all notes have their
-- places again, and no row is lost.
pub rebalance-Rekeyed :
    (user category exclude now : ℕ) (db : Db)
    → WellPlaced db
    → (t : Db) × (rebalance user category exclude now db ≡ ok t) × Rekeyed db t
unfolding rebalance
rebalance-Rekeyed user category exclude now db w =
    let ns = sort_notes (select (in_group user category exclude) db.notes) in
    rekey_all-Rekeyed user now db ns (even (length ns)) w (even_ok (length ns)).1 (
      sort_notes-All (λ (n : Note). Found (is_note n.id user) db)
        (select (in_group user category exclude) db.notes)
        (select-Found user category exclude db.notes))
