-- ===== src/Reminders/Limits.antt =====
-- The limits that a new reminder keeps to (core/internal/reminders/reminders.go, `CreateIn`).
use notekeeper.Common.{
  ℕ, ◌+◌, ◌≤◌, ◌<◌, ◌≡◌, inl, inr, sym, ap, ◌∙◌, Bool, true, ◌&&◌, Option, none, some, List, ◌∷◌,
  arith, ltb, leb, ◌==◌, Bool-cases, Option-cases,
}
use notekeeper.Common.Str.{Str}
use notekeeper.Db.Rows.{find, count}
use notekeeper.Db.Feed.{change, change_same}
use notekeeper.Db.{Db, Note, Reminder, pending, Entity, upsert, ok, is_active, Result-cases}
use notekeeper.Reminders.{
  Calendar, of_note, is_armed, is_note, max_per_note, max_per_user, validate, user_zone, changed,
  set_reminders, create_in,
}

changed-reminders :
    (db : Db) (user : ℕ) (r : Reminder) → (changed db user r).reminders ≡ db.reminders
unfolding changed
changed-reminders db user r =
    (change_same (change db user Entity.reminder r.id upsert (some r.version)) user Entity.note
      r.note_id upsert none).1
    ∙ (change_same db user Entity.reminder r.id upsert (some r.version)).1

count-row :
    (p : Reminder → Bool) (r : Reminder) (rs : List Reminder)
    → p r ≡ true
    → count p (r ∷ rs) ≡ count p rs + 1
unfolding count
count-row p r rs e = ground (arith, e)

-- How many reminders a user has on a note, and how many that are armed.
abbrev pub on_note : ℕ → ℕ → Db → ℕ
on_note user note db = count (of_note user note) db.reminders

abbrev pub armed : ℕ → Db → ℕ
armed user db = count (λ r. r.user_id == user && is_armed r.state) db.reminders

-- The reminder that a creation makes, when its user is in a zone.
abbrev made : ℕ → ℕ → ℕ → ℕ → Option Str → ℕ → Str → Reminder
made user id note due rrule now tz = record {
  id = id;
  user_id = user;
  note_id = note;
  due_at = due;
  rrule = rrule;
  tz = tz;
  state = pending;
  last_fired_at = none;
  claimed_until = none;
  created_at = now;
  version = 1;
}

validate-ok :
    (cal : Calendar) (due : ℕ) (rrule : Option Str) (now : ℕ) (x : Unit {0})
    → validate cal due rrule now ≡ ok x
    → (now < due) × (due ≤ cal.add_years now 10)
unfolding validate
validate-ok cal due rrule now x h = elim (Bool-cases (ltb now due)) [
  | inl e ↦ elim (Bool-cases (leb due (cal.add_years now 10))) [
    | inl f ↦ (ground arith, ground arith)
    | inr f ↦ absurd (ground (arith, e, f, h))
  ]
  | inr e ↦ absurd (ground (arith, e, h))
]

-- What a creation leaves, once its checks have passed.
abbrev Made : Calendar → Db → ℕ → ℕ → ℕ → ℕ → Option Str → ℕ → Reminder → Db → Type 0
Made cal db user id note due rrule now r db' =
    (tz : Str) × (user_zone cal db user ≡ ok tz)
    × (r ≡ made user id note due rrule now tz)
    × (db' ≡ changed (set_reminders db (r ∷ db.reminders)) user r)

create_in-Made :
    (cal : Calendar) (db : Db) (user id note due : ℕ) (rrule : Option Str) (now : ℕ) (r : Reminder)
    (db' : Db) (n : Note)
    → validate cal due rrule now ≡ ok tt
    → find (is_note note user) db.notes ≡ some n
    → create_in cal db user id note due rrule now ≡ ok (r, db')
    → (is_active n.state ≡ true)
      × (on_note user note db < max_per_note)
      × (armed user db < max_per_user)
      × Made cal db user id note due rrule now r db'
unfolding create_in
create_in-Made cal db user id note due rrule now r db' n e f h =
    elim (Bool-cases (is_active n.state)) [
      | inr a ↦ absurd (ground (arith, e, f, a, h))
      | inl a ↦
          elim (Bool-cases
            (ltb (on_note user note db) max_per_note && ltb (armed user db) max_per_user)) [
              | inr l ↦ absurd (ground (arith, e, f, a, l, h))
              | inl l ↦ elim (Result-cases (user_zone cal db user)) [
                | inr (x, z) ↦ absurd (ground (arith, e, f, a, l, z, h))
                | inl (tz, z) ↦
                    (a, ground arith, ground arith, made-of tz z (ground (arith, e, f, a, l, z, h)))
              ]
            ]
    ]
  where
    made-of :
        (tz : Str)
        → user_zone cal db user ≡ ok tz
        → ◌≡◌ {A = Reminder × Db}
            (
              made user id note due rrule now tz,
              changed
                  (set_reminders db (made user id note due rrule now tz ∷ db.reminders))
                  user
                  (made user id note due rrule now tz),
            )
            (r, db')
        → Made cal db user id note due rrule now r db'
    made-of tz z p = (
      tz,
      z,
      sym (ap (λ q. q.0) p),
      sym (ap (λ q. q.1) p)
          ∙ ap (λ x. changed (set_reminders db (x ∷ db.reminders)) user x) (ap (λ q. q.0) p),
    )

-- A reminder that is created is due later than now and within ten years, on an active note of its
-- user; after it the note has at most twenty reminders and its user at most five hundred that are
-- armed, and each count is one more than before.
pub create_in_limits :
    (cal : Calendar) (db : Db) (user id note due : ℕ) (rrule : Option Str) (now : ℕ) (r : Reminder)
    (db' : Db)
    → create_in cal db user id note due rrule now ≡ ok (r, db')
    → (now < r.due_at)
      × (r.due_at ≤ cal.add_years now 10)
      × ((n : Note) × (find (is_note note user) db.notes ≡ some n) × (is_active n.state ≡ true))
      × (on_note user note db' ≡ on_note user note db + 1)
      × (armed user db' ≡ armed user db + 1)
      × (on_note user note db' ≤ max_per_note)
      × (armed user db' ≤ max_per_user)
unfolding create_in
create_in_limits cal db user id note due rrule now r db' h =
    elim (Result-cases (validate cal due rrule now)) [
      | inr (x, e) ↦ absurd (ground (arith, e, h))
      | inl (x, e) ↦ elim (Option-cases (find (is_note note user) db.notes)) [
        | inl f ↦ absurd (ground (arith, e, f, h))
        | inr (n, f) ↦
            facts n f (validate-ok cal due rrule now x e)
              (create_in-Made cal db user id note due rrule now r db' n e f h)
      ]
    ]
  where
    facts :
        (n : Note)
        → find (is_note note user) db.notes ≡ some n
        → (now < due) × (due ≤ cal.add_years now 10)
        → (is_active n.state ≡ true)
          × (on_note user note db < max_per_note)
          × (armed user db < max_per_user)
          × Made cal db user id note due rrule now r db'
        → (now < r.due_at)
          × (r.due_at ≤ cal.add_years now 10)
          × ((n : Note) × (find (is_note note user) db.notes ≡ some n) × (is_active n.state ≡ true))
          × (on_note user note db' ≡ on_note user note db + 1)
          × (armed user db' ≡ armed user db + 1)
          × (on_note user note db' ≤ max_per_note)
          × (armed user db' ≤ max_per_user)
    facts n f (ahead, far) (active_e, few, fewer, (tz, z, r_e, db_e)) = (
      rw r_e ahead,
      rw r_e far,
      (n, f, active_e),
      one,
      other,
      omega (arith, one),
      omega (arith, other),
    )
      where
        new : Reminder
        new = made user id note due rrule now tz

        rows : db'.reminders ≡ new ∷ db.reminders
        rows =
            ap (λ d. d.reminders) db_e
            ∙ changed-reminders (set_reminders db (r ∷ db.reminders)) user r
            ∙ ap (λ q. q ∷ db.reminders) r_e

        one : on_note user note db' ≡ on_note user note db + 1
        one =
            ap (count (of_note user note)) rows
            ∙ count-row (of_note user note) new db.reminders (ground arith)

        other : armed user db' ≡ armed user db + 1
        other =
            ap (count (λ r. r.user_id == user && is_armed r.state)) rows
            ∙ count-row (λ r. r.user_id == user && is_armed r.state) new db.reminders (ground arith)
