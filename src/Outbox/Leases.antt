-- ===== src/Outbox/Leases.antt =====
-- Who may report an item (core/internal/outbox/outbox.go, `Report`).
use notekeeper.Common.{
  ℕ, ◌+◌, ◌≡◌, inl, inr, refl, sym, ap, ◌∙◌, false, Option, none, some, List, arith, Option-cases,
}
use notekeeper.Db.Rows.{find, find-update-none}
use notekeeper.Db.{Db, OutboxItem, Error, not_found}
use notekeeper.Outbox.{
  mark_delivered, requeue, fail_item, settle, deliver, give_up, conclude, report, is_claimed_by,
  Report, ReportState, delivered, failed_transient, failed_permanent, unknown, retry_delay,
}
use notekeeper.Outbox.Erased.{notify_failure-outbox}

-- The item is not claimed by the bot.
abbrev Closed : ℕ → ℕ → Db → Type 0
Closed instance_ id db = find (is_claimed_by id instance_) db.outbox ≡ none

settle-Closed :
    (db : Db) (instance_ id : ℕ) (f : OutboxItem → OutboxItem)
    → ((o : OutboxItem) → is_claimed_by id instance_ (f o) ≡ false)
    → Closed instance_ id (settle db instance_ id f).1
unfolding settle
settle-Closed db instance_ id f ends =
    elim (Option-cases (find (is_claimed_by id instance_) db.outbox)) [
      | inl e ↦ rw (e, settle) e
      | inr (o, e) ↦
          rw (e, settle)
            (find-update-none (is_claimed_by id instance_) (is_claimed_by id instance_) f db.outbox
              (λ o _. ends o) (λ o e. e))
    ]

mark_delivered-unclaimed :
    (id instance_ now : ℕ) (o : OutboxItem)
    → is_claimed_by id instance_ (mark_delivered now o) ≡ false
unfolding mark_delivered
mark_delivered-unclaimed id instance_ now o = ground arith

requeue-unclaimed :
    (id instance_ next reason : ℕ) (o : OutboxItem)
    → is_claimed_by id instance_ (requeue next reason o) ≡ false
unfolding requeue
requeue-unclaimed id instance_ next reason o = ground arith

fail_item-unclaimed :
    (id instance_ now reason : ℕ) (o : OutboxItem)
    → is_claimed_by id instance_ (fail_item now reason o) ≡ false
unfolding fail_item
fail_item-unclaimed id instance_ now reason o = ground arith

deliver-Closed :
    (db : Db) (instance_ id : ℕ) (item : OutboxItem) (messages : List ℕ) (now : ℕ)
    → Closed instance_ id (deliver db instance_ id item messages now).1
unfolding deliver
deliver-Closed db instance_ id item messages now =
    let s =
      settle-Closed db instance_ id (mark_delivered now)
        (mark_delivered-unclaimed id instance_ now) in
    elim (Option-cases (settle db instance_ id (mark_delivered now)).0) [
      | inl e ↦ rw (e, deliver) s
      | inr (x, e) ↦ rw (e, deliver) s
    ]

give_up-Closed :
    (new_id : Db → ℕ) (db : Db) (instance_ id : ℕ) (item : OutboxItem) (reason now : ℕ)
    → Closed instance_ id (give_up new_id db instance_ id item reason now).1
unfolding give_up
give_up-Closed new_id db instance_ id item reason now =
    let w = settle db instance_ id (fail_item now reason) in
    let s =
      settle-Closed db instance_ id (fail_item now reason)
        (fail_item-unclaimed id instance_ now reason) in
    elim (Option-cases w.0) [
      | inl e ↦
          rw (e, give_up)
            (ap (find (is_claimed_by id instance_))
                (notify_failure-outbox new_id w.1 item.user_id item.kind)
              ∙ s)
      | inr (x, e) ↦ rw (e, give_up) s
    ]

conclude-Closed :
    (new_id : Db → ℕ) (db : Db) (instance_ id : ℕ) (item : OutboxItem) (r : Report) (now : ℕ)
    (state : ReportState)
    → r.state ≡ state
    → (conclude new_id db instance_ id item r now).0 ≡ none
    → Closed instance_ id (conclude new_id db instance_ id item r now).1
unfolding conclude
conclude-Closed new_id db instance_ id item r now delivered e h =
    rw e (deliver-Closed db instance_ id item r.message_ids now)
conclude-Closed new_id db instance_ id item r now failed_transient e h =
    let next = now + retry_delay item.attempts in
    rw e (
      settle-Closed db instance_ id (requeue next r.reason)
        (requeue-unclaimed id instance_ next r.reason))
conclude-Closed new_id db instance_ id item r now failed_permanent e h =
    rw e (give_up-Closed new_id db instance_ id item r.reason now)
conclude-Closed new_id db instance_ id item r now unknown e h = absurd (ground (arith, e, h))

report-Closed :
    (new_id : Db → ℕ) (db : Db) (instance_ id : ℕ) (r : Report) (now : ℕ)
    → (report new_id db instance_ id r now).0 ≡ none
    → Closed instance_ id (report new_id db instance_ id r now).1
unfolding report
report-Closed new_id db instance_ id r now h =
    elim (Option-cases (find (is_claimed_by id instance_) db.outbox)) [
      | inl e ↦ absurd (ground (arith, e, h))
      | inr (item, e) ↦
          rw (e, report)
            (conclude-Closed new_id db instance_ id item r now r.state refl (rw (e, report) at h))
    ]

-- A report that is accepted ends the claim: a second report of the bot on the item, on the store that
-- the first one left, is answered with ErrNotFound and changes nothing, whatever it says and whenever
-- it comes.
pub report_once :
    (new_id : Db → ℕ) (db : Db) (instance_ id : ℕ) (r again : Report) (now later : ℕ) (db' : Db)
    → report new_id db instance_ id r now ≡ (none, db')
    → report new_id db' instance_ id again later ≡ (some not_found, db')
unfolding report
report_once new_id db instance_ id r again now later db' h =
    let c : Closed instance_ id db' =
      ap (λ (w : Option Error × Db). find (is_claimed_by id instance_) w.1.outbox) (sym h)
      ∙ report-Closed new_id db instance_ id r now (ap (λ (w : Option Error × Db). w.0) h) in
    rw (c, report) refl
