-- ===== src/Notes/Cycle.antt =====
-- The way of a note through the Trash and back (core/internal/notes/ops.go, `Dismiss` and `Restore`).
use mathlib.Core.Option
use mathlib.Core.Path.{subst}
use notekeeper.Common.{
  ℕ, ◌<◌, ◌≡◌, inl, inr, refl, sym, ap, ◌∙◌, Bool, true, false, if◌then◌else◌, Option, none, some,
  arith, All, Bool-cases, Option-cases,
}
use notekeeper.Common.Str.{Str}
use notekeeper.Db.Rows.{find, update, update_one, find-update, find-update-none}
use notekeeper.Db.Feed.{change, change_same}
use notekeeper.Db.{
  Db, Note, active, deleted, Entity, upsert, conflict, ok, err, is_active, Result-cases,
}
use notekeeper.Reminders.{Calendar, is_note}
use notekeeper.Reminders.Trash.{pending_of, suspended_of, on_dismiss}
use notekeeper.Reminders.Trash.Apart.{on_dismiss-notes, on_restore-notes}
use notekeeper.Reminders.Trash.Cycle.{
  NonePending, NoneSuspended, AllAhead, on_dismiss_suspends, on_restore_rearms,
}
use notekeeper.Notes.{dismissed, undismissed, in_state, follow_up, transition, dismiss, restore}

-- What a transition that succeeds has found and left.
abbrev Moved : Calendar → Db → ℕ → ℕ → (Note → Bool) → (Note → Note) → ℕ → Note → Db → Type 0
Moved cal db user id fits f later n db' =
    (r : Note) × (d : Db) × (find fits db.notes ≡ some r)
    × (n ≡ f r)
    × (follow_up cal (record db { notes = update fits f db.notes }) user id n later ≡ ok d)
    × (db' ≡ change d user Entity.note id upsert (some n.version))
    × ((cur : Note) × (find (is_note id user) db.notes ≡ some cur))

transition-Moved :
    (cal : Calendar) (db : Db) (user id : ℕ) (fits : Note → Bool) (f : Note → Note) (later : ℕ)
    (n : Note) (db' : Db)
    → transition cal db user id fits f later ≡ ok (n, db')
    → Moved cal db user id fits f later n db'
unfolding transition update_one
transition-Moved cal db user id fits f later n db' h =
    elim (Option-cases (find (is_note id user) db.notes)) [
      | inl e ↦ absurd (ground (arith, e, h))
      | inr (cur, e) ↦ elim (Option-cases (find fits db.notes)) [
        | inl g ↦ absurd (ground (arith, e, g, h))
        | inr (r, g) ↦
            elim (Result-cases
              (follow_up cal (record db { notes = update fits f db.notes }) user id (f r) later)) [
                | inr (x, k) ↦ absurd (ground (arith, e, g, k, h))
                | inl (d, k) ↦ done r d g k (ground (arith, e, g, k, h)) cur e
              ]
      ]
    ]
  where
    done :
        (r : Note) (d : Db)
        → find fits db.notes ≡ some r
        → follow_up cal (record db { notes = update fits f db.notes }) user id (f r) later ≡ ok d
        → ◌≡◌ {A = Note × Db}
            (f r, change d user Entity.note id upsert (some (f r).version))
            (n, db')
        → (cur : Note) → find (is_note id user) db.notes ≡ some cur
        → Moved cal db user id fits f later n db'
    done r d g k p cur c =
        let e : n ≡ f r = sym (ap (λ q. q.0) p) in
        (r, d, g, e, rw e k, sym (ap (λ q. q.1) p) ∙ rw e refl, (cur, c))

follow_up-notes :
    (cal : Calendar) (db : Db) (user id : ℕ) (n : Note) (later : ℕ) (d : Db)
    → follow_up cal db user id n later ≡ ok d
    → d.notes ≡ db.notes
unfolding follow_up
follow_up-notes cal db user id n later d h = elim (Bool-cases (is_active n.state)) [
  | inl e ↦ on_restore-notes cal db user id later d (ground (arith, e, h))
  | inr e ↦
      let q : on_dismiss db user id ≡ d = ground (arith, e, h) in
      ap (λ d. d.notes) (sym q) ∙ on_dismiss-notes db user id
]

-- A change says nothing about notes and reminders.
change-notes :
    (d : Db) (user id : ℕ) (version : Option ℕ)
    → (change d user Entity.note id upsert version).notes ≡ d.notes
change-notes d user id version = (change_same d user Entity.note id upsert version).0

transition-notes :
    (cal : Calendar) (db : Db) (user id : ℕ) (fits : Note → Bool) (f : Note → Note) (later : ℕ)
    (n : Note) (db' : Db)
    → Moved cal db user id fits f later n db'
    → db'.notes ≡ update fits f db.notes
transition-notes cal db user id fits f later n db' (r, d, g, e, k, q, _) =
    ap (λ d. d.notes) q
    ∙ change-notes d user id (some n.version)
    ∙ follow_up-notes cal (record db { notes = update fits f db.notes }) user id n later d k

-- Where a note stands: its category and its key there.
abbrev pub spot : Note → Option ℕ × Option Str
spot n = (n.category_id, n.position)

abbrev pub place_of : ℕ → ℕ → Db → Option (Option ℕ × Option Str)
place_of user id db = Option.map spot (find (is_note id user) db.notes)

abbrev Moves : (Note → Note) → Type 0
Moves f =
    (n : Note)
    → (((f n).id ≡ n.id) × ((f n).user_id ≡ n.user_id))
      × (((f n).category_id ≡ n.category_id) × ((f n).position ≡ n.position))

update-place :
    (db : Db) (user id : ℕ) (fits : Note → Bool) (f : Note → Note)
    → Moves f
    → place_of user id (record db { notes = update fits f db.notes }) ≡ place_of user id db
update-place db user id fits f m =
    ap (Option.map spot)
      (find-update (is_note id user) fits f db.notes (λ n. ground (arith, (m n).0)))
    ∙ same (find (is_note id user) db.notes)
  where
    same :
        (o : Option Note)
        → Option.map spot (Option.map (λ n. if fits n then f n else n) o) ≡ Option.map spot o
    same none = refl
    same (some n) = elim (Bool-cases (fits n)) [
      | inl e ↦ rw e (cc ((m n).1.0, (m n).1.1))
      | inr e ↦ rw e refl
    ]

transition-place :
    (cal : Calendar) (db : Db) (user id : ℕ) (fits : Note → Bool) (f : Note → Note) (later : ℕ)
    (n : Note) (db' : Db)
    → Moves f
    → Moved cal db user id fits f later n db'
    → place_of user id db' ≡ place_of user id db
transition-place cal db user id fits f later n db' m w =
    ap (λ ns. Option.map spot (find (is_note id user) ns))
      (transition-notes cal db user id fits f later n db' w)
    ∙ update-place db user id fits f m

follow_up-dismissed :
    (cal : Calendar) (db : Db) (user id : ℕ) (n : Note) (later : ℕ) (d : Db)
    → is_active n.state ≡ false
    → follow_up cal db user id n later ≡ ok d
    → NonePending user id d
unfolding follow_up
follow_up-dismissed cal db user id n later d e h =
    let q : on_dismiss db user id ≡ d = ground (arith, e, h) in
    subst (NonePending user id) q (on_dismiss_suspends db user id)

follow_up-restored :
    (cal : Calendar) (db : Db) (user id : ℕ) (n : Note) (later : ℕ) (d : Db)
    → is_active n.state ≡ true
    → NonePending user id db
    → follow_up cal db user id n later ≡ ok d
    → NoneSuspended user id d × AllAhead user id later d
unfolding follow_up
follow_up-restored cal db user id n later d e clear h =
    on_restore_rearms cal db user id later d clear (ground (arith, e, h))

-- A dismissal that succeeds leaves the note in the Trash with its category and position, and none of
-- its reminders pending.
pub dismiss_ok :
    (cal : Calendar) (db : Db) (user id now later : ℕ) (n : Note) (db' : Db)
    → dismiss cal db user id now later ≡ ok (n, db')
    → (find (in_state true id user) db'.notes ≡ none)
      × NonePending user id db'
      × (place_of user id db' ≡ place_of user id db)
      × (n.state ≡ deleted)
unfolding dismiss
dismiss_ok cal db user id now later n db' h =
    let w = transition-Moved cal db user id (in_state true id user) (dismissed now) later n db' h in
    (
      ap (find (in_state true id user))
            (transition-notes cal db user id (in_state true id user) (dismissed now) later n db' w)
          ∙ find-update-none (in_state true id user) (in_state true id user) (dismissed now)
              db.notes (λ r _. ground arith) (λ r e. e),
      subst (NonePending user id) (sym w.5) (
          subst (λ rs. All (λ q. pending_of user id q ≡ false) rs)
            (sym (change_same w.1 user Entity.note id upsert (some n.version)).1)
            (follow_up-dismissed cal
              (record db { notes = update (in_state true id user) (dismissed now) db.notes }) user
              id n later w.1 (ap (λ n. is_active n.state) w.3) w.4)),
      transition-place cal db user id (in_state true id user) (dismissed now) later n db'
          (λ n. ((refl, refl), (refl, refl))) w,
      ap (λ n. n.state) w.3,
    )

-- A note that is dismissed and then restored, nothing else coming between, stands in its category at
-- its position again, is active, has no reminder suspended, and its pending reminders are all later
-- than the restore.
pub restore-dismiss :
    (cal : Calendar) (db : Db) (user id now later back last : ℕ) (n : Note) (db' : Db) (n' : Note)
    (db'' : Db)
    → dismiss cal db user id now later ≡ ok (n, db')
    → restore cal db' user id back last ≡ ok (n', db'')
    → (place_of user id db'' ≡ place_of user id db)
      × (find (in_state false id user) db''.notes ≡ none)
      × (n'.state ≡ active)
      × NoneSuspended user id db''
      × AllAhead user id last db''
unfolding restore
restore-dismiss cal db user id now later back last n db' n' db'' h k =
    let (_, clear, place, _) = dismiss_ok cal db user id now later n db' h in
    let w =
      transition-Moved cal db' user id (in_state false id user) (undismissed back) last n' db'' k in
    let (sus, ahead) =
      follow_up-restored cal
        (record db' { notes = update (in_state false id user) (undismissed back) db'.notes }) user
        id n' last w.1 (ap (λ n. is_active n.state) w.3) clear w.4 in
    let same : db''.reminders ≡ w.1.reminders =
      ap (λ d. d.reminders) w.5
      ∙ (change_same w.1 user Entity.note id upsert (some n'.version)).1 in
    (
      transition-place cal db' user id (in_state false id user) (undismissed back) last n' db''
            (λ n. ((refl, refl), (refl, refl))) w
          ∙ place,
      ap (find (in_state false id user)) (
            transition-notes cal db' user id (in_state false id user) (undismissed back) last n'
              db'' w)
          ∙ find-update-none (in_state false id user) (in_state false id user) (undismissed back)
              db'.notes (λ r _. ground arith) (λ r e. e),
      ap (λ n. n.state) w.3,
      subst (λ rs. All (λ q. suspended_of user id q ≡ false) rs) (sym same) sus,
      subst (λ rs. All (λ q. pending_of user id q ≡ true → last < q.due_at) rs) (sym same) ahead,
    )

transition-conflict :
    (cal : Calendar) (db : Db) (user id : ℕ) (fits : Note → Bool) (f : Note → Note) (later : ℕ)
    (c : Note)
    → find (is_note id user) db.notes ≡ some c
    → find fits db.notes ≡ none
    → transition cal db user id fits f later ≡ err conflict
unfolding transition update_one
transition-conflict cal db user id fits f later c e g = ground (arith, e, g)

-- A dismissal that has succeeded is not done again: the second one is a conflict.
pub dismiss_twice :
    (cal : Calendar) (db : Db) (user id now later again last : ℕ) (n : Note) (db' : Db)
    → dismiss cal db user id now later ≡ ok (n, db')
    → dismiss cal db' user id again last ≡ err conflict
unfolding dismiss
dismiss_twice cal db user id now later again last n db' h =
    let w = transition-Moved cal db user id (in_state true id user) (dismissed now) later n db' h in
    let kept =
      ap (find (is_note id user))
        (transition-notes cal db user id (in_state true id user) (dismissed now) later n db' w)
      ∙ find-update (is_note id user) (in_state true id user) (dismissed now) db.notes (λ r. refl)
      ∙ ap (Option.map (λ (r : Note). if in_state true id user r then dismissed now r else r))
          w.6.1 in
    transition-conflict cal db' user id (in_state true id user) (dismissed again) last _ kept
      (dismiss_ok cal db user id now later n db' h).0
