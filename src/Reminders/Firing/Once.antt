-- ===== src/Reminders/Firing/Once.antt =====
-- What firing does to a reminder (core/internal/reminders/reminders.go, `fireOne`).
use notekeeper.Common.{
  ℕ, ◌+◌, ◌≤◌, ◌<◌, ◌≡◌, ◌⊎◌, inl, inr, refl, ap, ◌∙◌, true, false, Option, none, some, List, [],
  ◌∷◌, arith, ltb, ◌==◌, length, Bool-cases, Option-cases,
}
use notekeeper.Common.Str.{Str}
use notekeeper.Db.Rows.{find, update, update_one, find-update-none}
use notekeeper.Db.Feed.{is_user, change, status, status-change}
use notekeeper.Db.{
  Db, User, Note, Reminder, ok, due_reminder, Entity, upsert, is_active, Result-cases,
}
use notekeeper.Reminders.{Calendar, is_note, next_of, user_zone, changed, set_reminders}
use notekeeper.Reminders.Firing.{
  Env, ChatTarget, queue_one, late_after, is_due, queue_all, notify, after_firing, settle, fire_one,
}

-- What a firing found: the owner, the reminder, its note and the owner's zone.
abbrev Found : Env → Db → ℕ → ℕ → ℕ → Db → Type 0
Found env db user id now db' =
    (u : User) × (r : Reminder) × (n : Note) × (tz : Str) × (find (is_user user) db.users ≡ some u)
    × (u.active ≡ true)
    × (find (is_due id user now) db.reminders ≡ some r)
    × (find (is_note r.note_id user) db.notes ≡ some n)
    × (is_active n.state ≡ true)
    × (let sent =
          queue_all env db user r (env.payload db r (ltb (r.due_at + late_after) now)) now
            (env.targets user) in
        settle (notify sent user (env.new_id sent)) user id (next_of env.calendar r now tz) now
        ≡ ok (true, db'))

fire_one-Found :
    (env : Env) (db : Db) (user id now : ℕ) (db' : Db)
    → fire_one env db user id now ≡ ok (true, db')
    → Found env db user id now db'
unfolding fire_one
fire_one-Found env db user id now db' h = elim (Option-cases (find (is_user user) db.users)) [
  | inl e ↦ absurd (ground arith)
  | inr (u, eu) ↦ elim (Bool-cases u.active) [
    | inr off ↦ absurd (ground arith)
    | inl on ↦ elim (Option-cases (find (is_due id user now) db.reminders)) [
      | inl e ↦ absurd (ground arith)
      | inr (r, er) ↦ elim (Option-cases (find (is_note r.note_id user) db.notes)) [
        | inl e ↦ absurd (ground arith)
        | inr (n, en) ↦ elim (Bool-cases (is_active n.state)) [
          | inr gone ↦ absurd (ground arith)
          | inl here ↦ elim (Result-cases (user_zone env.calendar db user)) [
            | inl (tz, ez) ↦ (u, r, n, tz, eu, on, er, en, here, ground arith)
            | inr (x, ex) ↦ absurd (ground arith)
          ]
        ]
      ]
    ]
  ]
]

-- Queuing and telling leave the reminders, the notes and who is active as they were.
queue_all-same :
    (env : Env) (db : Db) (user : ℕ) (r : Reminder) (text now : ℕ) (ts : List ChatTarget)
    → ((queue_all env db user r text now ts).reminders ≡ db.reminders)
      × ((queue_all env db user r text now ts).notes ≡ db.notes)
      × ((queue_all env db user r text now ts).users ≡ db.users)
      × (length (queue_all env db user r text now ts).outbox ≡ length ts + length db.outbox)
unfolding queue_all
queue_all-same env db user r text now [] = (refl, refl, refl, omega arith)
queue_all-same env db user r text now (t ∷ ts) =
    let (rs, ns, us, n) =
      queue_all-same env (queue_one env db user r text now t) user r text now ts in
    (rs, ns, us, omega arith)

-- What telling the clients about a reminder leaves as it was.
changed-same :
    (db : Db) (user : ℕ) (r : Reminder)
    → ((changed db user r).reminders ≡ db.reminders)
      × ((changed db user r).notes ≡ db.notes)
      × ((changed db user r).outbox ≡ db.outbox)
      × ((changed db user r).notifications ≡ db.notifications)
      × ((other : ℕ) → status other (changed db user r).users ≡ status other db.users)
unfolding changed change
changed-same db user r = (refl, refl, refl, refl, λ other. two other)
  where
    two : (other : ℕ) → status other (changed db user r).users ≡ status other db.users
    two other =
        status-change (change db user Entity.reminder r.id upsert (some r.version)) user other
          Entity.note r.note_id upsert none
        ∙ status-change db user other Entity.reminder r.id upsert (some r.version)

settle-row :
    (db : Db) (user id : ℕ) (next : Option ℕ) (now : ℕ) (db' : Db)
    → settle db user id next now ≡ ok (true, db')
    → (db'.reminders ≡ update (λ q. q.id == id) (after_firing next now) db.reminders)
      × (db'.notes ≡ db.notes)
      × (db'.outbox ≡ db.outbox)
      × (db'.notifications ≡ db.notifications)
      × ((other : ℕ) → status other db'.users ≡ status other db.users)
unfolding settle update_one
settle-row db user id next now db' h = elim (Option-cases (find (λ q. q.id == id) db.reminders)) [
  | inl e ↦ absurd (ground arith)
  | inr (r, e) ↦
      let rs = update (λ (q : Reminder). q.id == id) (after_firing next now) db.reminders in
      let (a, b, c, d, f) = changed-same (set_reminders db rs) user (after_firing next now r) in
      let q : changed (set_reminders db rs) user (after_firing next now r) ≡ db' = ground arith in
      rw (← q) (a, b, c, d, f)
]

notify-same :
    (db : Db) (user id : ℕ)
    → ((notify db user id).reminders ≡ db.reminders)
      × ((notify db user id).notes ≡ db.notes)
      × ((notify db user id).outbox ≡ db.outbox)
      × ((other : ℕ) → status other (notify db user id).users ≡ status other db.users)
unfolding notify change
notify-same db user id = (refl, refl, refl, λ other. told other)
  where
    told : (other : ℕ) → status other (notify db user id).users ≡ status other db.users
    told other =
        status-change
          (record db {
            notifications =
                record { id = id; user_id = user; kind = due_reminder } ∷ db.notifications;
          })
          user other Entity.notification id upsert none

-- The store after a firing, against the store before it.
abbrev Fired : Env → Db → ℕ → ℕ → Reminder → Str → ℕ → Db → Type 0
Fired env db user id r tz now db' =
    (db'.reminders
      ≡ update (λ q. q.id == id) (after_firing (next_of env.calendar r now tz) now) db.reminders)
    × (db'.notes ≡ db.notes)
    × (length db'.outbox ≡ length (env.targets user) + length db.outbox)
    × ((other : ℕ) → status other db'.users ≡ status other db.users)

fire_one-Fired :
    (env : Env) (db : Db) (user id now : ℕ) (db' : Db)
    → (f : Found env db user id now db') → Fired env db user id f.1 f.3 now db'
fire_one-Fired env db user id now db' (u, r, n, tz, eu, on, er, en, here, h) =
    let text = env.payload db r (ltb (r.due_at + late_after) now) in
    let sent = queue_all env db user r text now (env.targets user) in
    let (qr, qn, qu, qo) = queue_all-same env db user r text now (env.targets user) in
    let (nr, nn, no_, nu) = notify-same sent user (env.new_id sent) in
    let (a, b, c, d, e) =
      settle-row (notify sent user (env.new_id sent)) user id (next_of env.calendar r now tz) now
        db' h in
    (
      a
          ∙ ap
              (update (λ (q : Reminder). q.id == id)
                (after_firing (next_of env.calendar r now tz) now))
              (nr ∙ qr),
      b ∙ nn ∙ qn,
      ap length (c ∙ no_) ∙ qo,
      λ other. e other ∙ nu other ∙ ap (status other) qu,
    )

pub next_of-after :
    (cal : Calendar) (r : Reminder) (now : ℕ) (tz : Str) (t : ℕ)
    → next_of cal r now tz ≡ some t
    → now < t
unfolding next_of
next_of-after cal r now tz t h = elim (Option-cases r.rrule) [
  | inl e ↦ absurd (ground arith)
  | inr (s, e) ↦ elim (Bool-cases (cal.rule_parses s)) [
    | inl p ↦ cal.next_after s r.due_at now tz t (ground arith)
    | inr p ↦ absurd (ground arith)
  ]
]

next_of-no_rule :
    (cal : Calendar) (r : Reminder) (now : ℕ) (tz : Str)
    → r.rrule ≡ none
    → next_of cal r now tz ≡ none
unfolding next_of
next_of-no_rule cal r now tz e = rw (e, next_of)

-- Not due again at any time up to the firing, and never if there is no rule.
abbrev pub IsOver : Reminder → ℕ → ℕ → Type 0
IsOver r now later = (later ≤ now) ⊎ (r.rrule ≡ none)

not_due-after_firing :
    (cal : Calendar) (r q : Reminder) (id user now later : ℕ) (tz : Str)
    → IsOver r now later
    → is_due id user later (after_firing (next_of cal r now tz) now q) ≡ false
unfolding after_firing
not_due-after_firing cal r q id user now later tz l = elim (Option-cases (next_of cal r now tz)) [
  | inl e ↦ rw (e, after_firing) (ground arith)
  | inr (t, e) ↦ elim l [
    | inl early ↦
        let b : now < t = next_of-after cal r now tz t e in rw (e, after_firing) (ground arith)
    | inr plain ↦ absurd (ground (arith, next_of-no_rule cal r now tz plain))
  ]
]

fire_one-idle :
    (env : Env) (db : Db) (user id now : ℕ)
    → status user db.users ≡ some true
    → find (is_due id user now) db.reminders ≡ none
    → fire_one env db user id now ≡ ok (false, db)
unfolding fire_one
fire_one-idle env db user id now s e = elim (Option-cases (find (is_user user) db.users)) [
  | inl eu ↦ absurd (ground arith)
  | inr (u, eu) ↦ ground arith
]

-- A reminder that was fired is not fired again, by this replica or another: a second firing finds
-- nothing to do and changes nothing. This holds at every time up to the first firing's, and for a
-- reminder without a rule at every time.
pub fire_once :
    (env : Env) (db : Db) (user id now later : ℕ) (db' : Db) (r : Reminder)
    → fire_one env db user id now ≡ ok (true, db')
    → find (is_due id user now) db.reminders ≡ some r
    → IsOver r now later
    → fire_one env db' user id later ≡ ok (false, db')
fire_once env db user id now later db' r h due over =
    let f = fire_one-Found env db user id now db' h in
    let (rows, _, _, us) = fire_one-Fired env db user id now db' f in
    let same : f.1 ≡ r = ground (arith, f.6, due) in
    fire_one-idle env db' user id later (us user ∙ rw f.4 (ap some f.5)) (
      rw rows (
        find-update-none (is_due id user later) (λ q. q.id == id)
          (after_firing (next_of env.calendar f.1 now f.3) now) db.reminders
          (λ q e. not_due-after_firing env.calendar f.1 q id user now later f.3 (rw same over))
          (λ q e. ground arith)))
