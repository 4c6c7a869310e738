-- ===== src/Reminders/Firing.antt =====
-- Firing the reminders that are due (core/internal/reminders/reminders.go, `FireDue` and `fireOne`).
pub mod Once
use notekeeper.Common.{
  ℕ, zero, suc, ◌+◌, ◌*◌, ◌<◌, Bool, true, false, ◌&&◌, ◌||◌, Option, none, some, List, [], ◌∷◌,
  ltb, leb, ◌==◌, if◌then◌else◌, take,
}
use notekeeper.Common.Str.{Str}
use notekeeper.Db.Rows.{find, update, update_one, select, sort_by}
use notekeeper.Db.Feed.{is_user, change}
use notekeeper.Db.{
  Db, User, Reminder, pending, fired, OutboxItem, OutboxKind, queued, Notification, due_reminder,
  Entity, upsert, not_found, Result, ok, err, ◌>>=◌, or_fail, is_active,
}
use notekeeper.Reminders.{
  Calendar, is_reminder, is_note, is_pending, next_of, user_zone, changed, set_reminders,
}

-- A chat of the user that reminders go to (a row of external_identities).
pub record ChatTarget : Type 0 where
  pub bot_instance_id : ℕ
  pub conversation_id : Str

-- What firing takes from outside: the calendar, the chats of a user, the JSON text of a message for a
-- reminder, and new ids (UUIDv7), which depend on what exists.
pub record Env : Type 0 where
  pub calendar : Calendar
  pub targets : ℕ → List ChatTarget
  pub payload : Db → Reminder → Bool → ℕ
  pub new_id : Db → ℕ

abbrev pub minute : ℕ
minute = 60_000_000_000

abbrev pub late_after : ℕ
late_after = 5 * minute

abbrev pub lease : ℕ
lease = minute

abbrev pub failure_backoff : ℕ
failure_backoff = 10 * minute

-- GetDueReminder
abbrev pub is_due : ℕ → ℕ → ℕ → Reminder → Bool
is_due id user now r = is_reminder id user r && is_pending r.state && leb r.due_at now

-- InsertReminderOutbox
abbrev pub queue_one : Env → Db → ℕ → Reminder → ℕ → ℕ → ChatTarget → Db
queue_one env db user r text now t = record db {
  outbox =
      record {
        id = env.new_id db;
        bot_instance_id = t.bot_instance_id;
        kind = OutboxKind.reminder;
        user_id = some user;
        conversation_id = t.conversation_id;
        payload = some text;
        state = queued;
        attempts = 0;
        next_attempt_at = now;
        lease_expires_at = none;
        due_at = some r.due_at;
        reminder_id = some r.id;
        created_at = now;
        finished_at = none;
        failure_reason = none;
      }
      ∷ db.outbox;
}

-- The loop over the targets.
unfoldable pub queue_all : Env → Db → ℕ → Reminder → ℕ → ℕ → List ChatTarget → Db
queue_all env db user r text now [] = db
queue_all env db user r text now (t ∷ ts) =
    queue_all env (queue_one env db user r text now t) user r text now ts

-- InsertNotification and its change.
unfoldable pub notify : Db → ℕ → ℕ → Db
notify db user id =
    change
      (record db {
        notifications = record { id = id; user_id = user; kind = due_reminder } ∷ db.notifications;
      })
      user Entity.notification id upsert none

-- AdvanceReminder and MarkReminderFired.
abbrev pub advance : ℕ → ℕ → Reminder → Reminder
advance next now r = record r {
  due_at = next;
  last_fired_at = some now;
  claimed_until = none;
  version = r.version + 1;
}

abbrev pub mark_fired : ℕ → Reminder → Reminder
mark_fired now r = record r {
  state = fired;
  last_fired_at = some now;
  claimed_until = none;
  version = r.version + 1;
}

-- A recurring reminder moves on to its next occurrence, any other has fired.
pub after_firing : Option ℕ → ℕ → Reminder → Reminder
after_firing none now r = mark_fired now r
after_firing (some next) now r = advance next now r

unfoldable pub settle : Db → ℕ → ℕ → Option ℕ → ℕ → Result (Bool × Db)
unfolding after_firing
settle db user id next now = do
  (r, rs) ← or_fail (update_one (λ q. q.id == id) (after_firing next now) db.reminders) not_found
  ok (true, changed (set_reminders db rs) user r)

-- `fireOne`: the user, the reminder and the note are read again, and whatever does not qualify any
-- more ends the transaction with nothing done.
unfoldable pub fire_one : Env → Db → ℕ → ℕ → ℕ → Result (Bool × Db)
fire_one env db user id now = do
  u ← or_fail (find (is_user user) db.users) not_found
  elim u.active [
    | false ↦ ok (false, db)
    | true ↦ elim (find (is_due id user now) db.reminders) [
      | none ↦ ok (false, db)
      | some r ↦ do
        n ← or_fail (find (is_note r.note_id user) db.notes) not_found
        elim (is_active n.state) [
          | false ↦ ok (false, db)
          | true ↦ do
            tz ← user_zone env.calendar db user
            let late = ltb (r.due_at + late_after) now
            let sent = queue_all env db user r (env.payload db r late) now (env.targets user)
            settle (notify sent user (env.new_id sent)) user id (next_of env.calendar r now tz) now
        ]
    ]
  ]

-- A lease that was never given or has run out.
lease_over : Option ℕ → ℕ → Bool
lease_over none now = true
lease_over (some t) now = ltb t now

owner_active : Option User → Bool
owner_active none = false
owner_active (some u) = u.active

-- The times at which the claimed reminders are fired, in their order.
number : (ℕ → ℕ) → ℕ → List Reminder → List (ℕ × Reminder)
number clock i [] = []
number clock i (r ∷ rs) = (clock i, r) ∷ number clock (i + 1) rs

-- ClaimDueReminders: who may be claimed.
pub claimable : Db → ℕ → Reminder → Bool
claimable db now r =
    is_pending r.state
    && leb r.due_at now
    && lease_over r.claimed_until now
    && owner_active (find (is_user r.user_id) db.users)

claim_limit : ℕ
claim_limit = 100

pub among : List Reminder → Reminder → Bool
among [] r = false
among (q ∷ qs) r = q.id == r.id || among qs r

unfoldable pub claim_due : Db → ℕ → List Reminder × Db
unfolding claimable lease_over owner_active sort_by among claim_limit
claim_due db now =
    let picked =
      take claim_limit (sort_by (λ r. r.due_at) (select (claimable db now) db.reminders)) in
    (
      picked,
      set_reminders db (
          update (among picked) (λ r. record r { claimed_until = some (now + lease) })
            db.reminders),
    )

-- DeferReminder
defer : Db → ℕ → ℕ → Db
defer db id until =
    set_reminders db
      (update (λ r. r.id == id) (λ r. record r { claimed_until = some until }) db.reminders)

-- The loop of `FireDue` over what was claimed. `clock` is the time that each firing reads; a firing
-- that fails is set aside, and the others are still fired.
fire_all : Env → Db → ℕ → List (ℕ × Reminder) → ℕ × Db
unfolding defer
fire_all env db now [] = (0, db)
fire_all env db now ((clock, c) ∷ cs) = elim (fire_one env db c.user_id c.id clock) [
  | ok (true, db') ↦ let rest = fire_all env db' now cs in (suc rest.0, rest.1)
  | ok (false, db') ↦ fire_all env db' now cs
  | err e ↦ fire_all env (defer db c.id (now + failure_backoff)) now cs
]

-- `FireDue`; `clock` gives the time of the i-th firing.
pub fire_due : Env → Db → ℕ → (ℕ → ℕ) → ℕ × Db
unfolding fire_all number
fire_due env db now clock = let c = claim_due db now in fire_all env c.1 now (number clock 0 c.0)
