-- ===== src/Reminders/Trash/Cycle.antt =====
-- The way of a note's reminders through the Trash (core/internal/reminders/reminders.go, `OnDismiss`
-- and `OnRestore`).
use mathlib.Core.Path.{subst}
use notekeeper.Common.{
  ℕ, ◌<◌, ◌≡◌, ◌⊎◌, inl, inr, refl, sym, ◌∙◌, Bool, true, false, none, List, [], ◌∷◌, arith, ltb,
  ◌==◌, if◌then◌else◌, All, Bool-cases, Option-cases,
}
use notekeeper.Common.Str.{Str}
use notekeeper.Db.Rows.{update, select, All-update, All-weaken, All-of}
use notekeeper.Db.Feed.{change, change_same}
use notekeeper.Db.{Db, Reminder, ReminderState, Entity, upsert, ok, Result-cases}
use notekeeper.Reminders.{Calendar, is_pending, is_suspended, next_of, user_zone, set_reminders}
use notekeeper.Reminders.Firing.Once.{next_of-after}
use notekeeper.Reminders.Trash.{
  suspend, tell, pending_of, suspended_of, restored, restore_row, restore_all, on_dismiss,
  on_restore,
}

-- No reminder of the note is pending, or suspended.
abbrev pub NonePending : ℕ → ℕ → Db → Type 0
NonePending user note db = All (λ q. pending_of user note q ≡ false) db.reminders

abbrev pub NoneSuspended : ℕ → ℕ → Db → Type 0
NoneSuspended user note db = All (λ q. suspended_of user note q ≡ false) db.reminders

-- Every pending reminder of the note is still ahead.
abbrev pub AllAhead : ℕ → ℕ → ℕ → Db → Type 0
AllAhead user note now db = All (λ q. pending_of user note q ≡ true → now < q.due_at) db.reminders

tell-reminders :
    (db : Db) (user : ℕ) (rs : List Reminder) → (tell db user rs).reminders ≡ db.reminders
unfolding tell
tell-reminders db user [] = refl
tell-reminders db user (r ∷ rs) =
    tell-reminders (change db user Entity.reminder r.id upsert none) user rs
    ∙ (change_same db user Entity.reminder r.id upsert none).1

-- A dismissal leaves no reminder of the note pending, so none of them fires from the Trash.
pub on_dismiss_suspends :
    (db : Db) (user note : ℕ) → NonePending user note (on_dismiss db user note)
unfolding on_dismiss
on_dismiss_suspends db user note =
    rw
      (tell-reminders (set_reminders db (update (pending_of user note) suspend db.reminders)) user
        (select (pending_of user note) db.reminders))
      (All-update (λ q. Unit {0}) (λ q. pending_of user note q ≡ false) (pending_of user note)
        suspend db.reminders (λ q _ e. unfold suspend in ground arith) (λ q _ e. e)
        (All-of (λ q. Unit {0}) db.reminders (λ q. tt)))

-- The ids that are still to be restored.
abbrev Listed : ℕ → List Reminder → Type 0
Listed id [] = ⊥
Listed id (r ∷ rs) = (r.id ≡ id) ⊎ Listed id rs

-- While the rows are restored, a suspended reminder is still to come, and a pending one is ahead.
abbrev Restoring : ℕ → ℕ → ℕ → List Reminder → Reminder → Type 0
Restoring user note now rest q =
    (suspended_of user note q ≡ true → Listed q.id rest)
    × (pending_of user note q ≡ true → now < q.due_at)

restored-ahead :
    (cal : Calendar) (r : Reminder) (now : ℕ) (tz : Str)
    → (is_suspended (restored cal r now tz).0 ≡ false)
      × (is_pending (restored cal r now tz).0 ≡ true → now < (restored cal r now tz).1)
unfolding restored
restored-ahead cal r now tz = elim (Bool-cases (ltb now r.due_at)) [
  | inl e ↦ rw e (refl, λ _. ground arith)
  | inr e ↦ elim (Option-cases (next_of cal r now tz)) [
    | inl none_e ↦ rw (e, none_e) (refl, λ h. absurd (cc))
    | inr (t, some_e) ↦ rw (e, some_e) (refl, λ _. next_of-after cal r now tz t some_e)
  ]
]

Restoring-row :
    (user note now : ℕ) (rest : List Reminder) (s : ReminderState × ℕ) (q : Reminder)
    → is_suspended s.0 ≡ false
    → (is_pending s.0 ≡ true → now < s.1)
    → Restoring user note now rest (restore_row s q)
unfolding restore_row
Restoring-row user note now rest (s, due) q sus ahead =
    (λ h. absurd (ground arith), λ h. ahead (ground arith))

Restoring-skip :
    (user note now : ℕ) (r : Reminder) (rest : List Reminder) (q : Reminder)
    → Restoring user note now (r ∷ rest) q
    → (q.id == r.id) ≡ false
    → Restoring user note now rest q
Restoring-skip user note now r rest q (sus, ahead) ne =
    (λ h. elim (sus h) [ inl e ↦ absurd (ground (arith, e)) | inr l ↦ l ], ahead)

restore_all-Restoring :
    (cal : Calendar) (db : Db) (user note now : ℕ) (tz : Str) (rs : List Reminder)
    → All (Restoring user note now rs) db.reminders
    → All (Restoring user note now []) (restore_all cal db user now tz rs).reminders
unfolding restore_all
restore_all-Restoring cal db user note now tz [] h = h
restore_all-Restoring cal db user note now tz (r ∷ rs) h =
    restore_all-Restoring cal (change (set_reminders db rows) user Entity.reminder r.id upsert none)
      user note now tz rs
      (subst (λ xs. All (Restoring user note now rs) xs)
        (sym (change_same (set_reminders db rows) user Entity.reminder r.id upsert none).1)
        (All-update (Restoring user note now (r ∷ rs)) (Restoring user note now rs)
          (λ q. q.id == r.id) (restore_row (restored cal r now tz)) db.reminders
          (λ q _ _.
            Restoring-row user note now rs (restored cal r now tz) q (restored-ahead cal r now tz).0
              (restored-ahead cal r now tz).1)
          (λ q h e. Restoring-skip user note now r rs q h e) h))
  where
    rows : List Reminder
    rows = update (λ q. q.id == r.id) (restore_row (restored cal r now tz)) db.reminders

-- Every row that a query picks is listed.
Listed-select :
    (p : Reminder → Bool) (rs : List Reminder)
    → All (λ q. p q ≡ true → Listed q.id (select p rs)) rs
unfolding select
Listed-select p [] = tt
Listed-select p (r ∷ rs) = go (Listed-select p rs) (p r) refl
  where
    go :
        All (λ q. p q ≡ true → Listed q.id (select p rs)) rs
        → (b : Bool) → p r ≡ b
        → All (λ q. p q ≡ true → Listed q.id (if b then r ∷ select p rs else select p rs)) (r ∷ rs)
    go rest true e = (
      λ _. inl refl,
      All-weaken (λ q. p q ≡ true → Listed q.id (select p rs))
          (λ q. p q ≡ true → Listed q.id (r ∷ select p rs)) rs (λ q h k. inr (h k)) rest,
    )
    go rest false e = (λ h. absurd (cc), rest)

All-zip :
    (P Q : Reminder → Type 0) (rs : List Reminder) → All P rs → All Q rs → All (λ q. P q × Q q) rs
All-zip P Q [] h k = tt
All-zip P Q (r ∷ rs) (h, hs) (k, ks) = ((h, k), All-zip P Q rs hs ks)

-- A restore of a note in the Trash, whose reminders are not pending, leaves none of them suspended,
-- and those that are pending afterwards are all still ahead: an occurrence that was missed in the
-- Trash does not fire late.
pub on_restore_rearms :
    (cal : Calendar) (db : Db) (user note now : ℕ) (db' : Db)
    → NonePending user note db
    → on_restore cal db user note now ≡ ok db'
    → NoneSuspended user note db' × AllAhead user note now db'
unfolding on_restore
on_restore_rearms cal db user note now db' clear h = elim (Result-cases (user_zone cal db user)) [
  | inl (tz, e) ↦ finish tz (ground (arith, e, h))
  | inr (x, e) ↦ absurd (ground (arith, e, h))
]
  where
    picked : List Reminder
    picked = select (suspended_of user note) db.reminders

    start : All (Restoring user note now picked) db.reminders
    start =
        All-weaken
          (λ q.
            (suspended_of user note q ≡ true → Listed q.id picked)
            × (pending_of user note q ≡ false))
          (Restoring user note now picked) db.reminders (λ q (sus, pend). (sus, λ k. absurd (cc)))
          (All-zip (λ q. suspended_of user note q ≡ true → Listed q.id picked)
            (λ q. pending_of user note q ≡ false) db.reminders
            (Listed-select (suspended_of user note) db.reminders) clear)

    finish :
        (tz : Str)
        → restore_all cal db user now tz picked ≡ db'
        → NoneSuspended user note db' × AllAhead user note now db'
    finish tz e =
        subst (λ d. NoneSuspended user note d × AllAhead user note now d) e
          (
            All-weaken (Restoring user note now []) (λ q. suspended_of user note q ≡ false)
                (restore_all cal db user now tz picked).reminders
                (λ q (sus, ahead). elim (Bool-cases (suspended_of user note q)) [
                  | inl k ↦ absurd (sus k)
                  | inr k ↦ k
                ])
                done_rows,
            All-weaken (Restoring user note now [])
                (λ q. pending_of user note q ≡ true → now < q.due_at)
                (restore_all cal db user now tz picked).reminders (λ q (sus, ahead). ahead)
                done_rows,
          )
      where
        done_rows :
            All (Restoring user note now []) (restore_all cal db user now tz picked).reminders
        done_rows = restore_all-Restoring cal db user note now tz picked start
