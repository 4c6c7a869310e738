-- ===== src/Reminders/Trash/Apart.antt =====
-- The reminders of a note go through the Trash apart from the notes and their parts
-- (core/internal/reminders/reminders.go, `OnDismiss` and `OnRestore`).
use notekeeper.Common.{ℕ, ◌≡◌, refl, sym, ap, ◌∙◌, none, List, [], ◌∷◌, arith, inl, inr, ◌==◌}
use notekeeper.Common.Str.{Str}
use notekeeper.Db.Rows.{update, select}
use notekeeper.Db.Feed.{change, change_same}
use notekeeper.Db.{Db, Reminder, Entity, upsert, ok, Result-cases}
use notekeeper.Reminders.{Calendar, user_zone, set_reminders}
use notekeeper.Reminders.Trash.{
  suspend, tell, pending_of, suspended_of, restored, restore_row, restore_all, on_dismiss,
  on_restore,
}

tell-notes : (db : Db) (user : ℕ) (rs : List Reminder) → (tell db user rs).notes ≡ db.notes
unfolding tell
tell-notes db user [] = refl
tell-notes db user (r ∷ rs) =
    tell-notes (change db user Entity.reminder r.id upsert none) user rs
    ∙ (change_same db user Entity.reminder r.id upsert none).0

pub on_dismiss-notes : (db : Db) (user note : ℕ) → (on_dismiss db user note).notes ≡ db.notes
unfolding on_dismiss
on_dismiss-notes db user note =
    tell-notes (set_reminders db (update (pending_of user note) suspend db.reminders)) user
      (select (pending_of user note) db.reminders)

restore_all-notes :
    (cal : Calendar) (db : Db) (user now : ℕ) (tz : Str) (rs : List Reminder)
    → (restore_all cal db user now tz rs).notes ≡ db.notes
unfolding restore_all
restore_all-notes cal db user now tz [] = refl
restore_all-notes cal db user now tz (r ∷ rs) =
    let rows =
      update (λ (q : Reminder). q.id == r.id) (restore_row (restored cal r now tz)) db.reminders in
    restore_all-notes cal (change (set_reminders db rows) user Entity.reminder r.id upsert none)
      user now tz rs
    ∙ (change_same (set_reminders db rows) user Entity.reminder r.id upsert none).0

pub on_restore-notes :
    (cal : Calendar) (db : Db) (user note now : ℕ) (db' : Db)
    → on_restore cal db user note now ≡ ok db'
    → db'.notes ≡ db.notes
unfolding on_restore
on_restore-notes cal db user note now db' h = elim (Result-cases (user_zone cal db user)) [
  | inl (tz, e) ↦
      let q : restore_all cal db user now tz (select (suspended_of user note) db.reminders) ≡ db' =
        ground (arith, e, h) in
      ap (λ d. d.notes) (sym q)
      ∙ restore_all-notes cal db user now tz (select (suspended_of user note) db.reminders)
  | inr (x, e) ↦ absurd (ground (arith, e, h))
]

tell-parts : (db : Db) (user : ℕ) (rs : List Reminder) → (tell db user rs).parts ≡ db.parts
unfolding tell change
tell-parts db user [] = refl
tell-parts db user (r ∷ rs) = tell-parts (change db user Entity.reminder r.id upsert none) user rs

pub on_dismiss-parts : (db : Db) (user note : ℕ) → (on_dismiss db user note).parts ≡ db.parts
unfolding on_dismiss
on_dismiss-parts db user note =
    tell-parts (set_reminders db (update (pending_of user note) suspend db.reminders)) user
      (select (pending_of user note) db.reminders)
