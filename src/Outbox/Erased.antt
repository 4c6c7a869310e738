-- ===== src/Outbox/Erased.antt =====
-- How long the text of a message is kept (core/internal/outbox/outbox.go).
use mathlib.Core.Path.{subst}
use notekeeper.Common.{
  ℕ, ◌+◌, ◌≡◌, inl, inr, refl, sym, Bool, false, Option, none, some, List, [], ◌∷◌, All, Bool-cases,
  Option-cases, take,
}
use notekeeper.Db.Rows.{find, update, select, All-update, sort_by}
use notekeeper.Db.Feed.{is_user, change}
use notekeeper.Db.{Db, OutboxItem, OutboxKind}
use notekeeper.Outbox.{
  hand_out, claim, mark_delivered, requeue, fail_item, expire_item, notify_failure, settle, deliver,
  give_up, conclude, report, set_outbox, is_claimed_by, Report, ReportState, delivered,
  failed_transient, failed_permanent, unknown, retry_delay, is_lifecycle, claimable, among,
}
use notekeeper.Outbox.Expiry.{is_open, expire_all, expire, is_open_item, is_stale}

-- An item keeps its text only while it waits to be sent.
abbrev pub Erased : OutboxItem → Type 0
Erased o = is_open o.state ≡ false → o.payload ≡ none

abbrev pub IsErased : Db → Type 0
IsErased db = All Erased db.outbox

set_outbox-IsErased :
    (db : Db) (p : OutboxItem → Bool) (f : OutboxItem → OutboxItem)
    → ((o : OutboxItem) → Erased (f o))
    → IsErased db
    → IsErased (set_outbox db (update p f db.outbox))
set_outbox-IsErased db p f ends h =
    All-update Erased Erased p f db.outbox (λ o _ _. ends o) (λ o e _. e) h

claim-IsErased :
    (db : Db) (instance_ limit now : ℕ) → IsErased db → IsErased (claim db instance_ limit now).1
unfolding claim
claim-IsErased db instance_ limit now h =
    set_outbox-IsErased db
      (among
        (take limit (sort_by (λ o. o.created_at) (select (claimable db instance_ now) db.outbox))))
      (hand_out now) (λ o e. absurd (cc)) h

pub notify_failure-outbox :
    (new_id : Db → ℕ) (db : Db) (user : Option ℕ) (kind : OutboxKind)
    → (notify_failure new_id db user kind).1.outbox ≡ db.outbox
unfolding notify_failure change
notify_failure-outbox new_id db none kind = refl
notify_failure-outbox new_id db (some user) kind = elim (Bool-cases (is_lifecycle kind)) [
  | inl e ↦ rw e refl
  | inr e ↦ elim (Option-cases (find (is_user user) db.users)) [
    | inl f ↦ rw (e, f) refl
    | inr (u, f) ↦ rw (e, f) refl
  ]
]

settle-IsErased :
    (db : Db) (instance_ id : ℕ) (f : OutboxItem → OutboxItem)
    → ((o : OutboxItem) → Erased (f o))
    → IsErased db
    → IsErased (settle db instance_ id f).1
unfolding settle
settle-IsErased db instance_ id f ends h =
    elim (Option-cases (find (is_claimed_by id instance_) db.outbox)) [
      | inl e ↦ rw (e, settle) h
      | inr (o, e) ↦ rw (e, settle) (set_outbox-IsErased db (is_claimed_by id instance_) f ends h)
    ]

deliver-IsErased :
    (db : Db) (instance_ id : ℕ) (item : OutboxItem) (messages : List ℕ) (now : ℕ)
    → IsErased db
    → IsErased (deliver db instance_ id item messages now).1
unfolding deliver
deliver-IsErased db instance_ id item messages now h =
    let s =
      settle-IsErased db instance_ id (mark_delivered now) (λ o _. unfold mark_delivered in refl)
        h in
    elim (Option-cases (settle db instance_ id (mark_delivered now)).0) [
      | inl e ↦ rw (e, deliver) s
      | inr (x, e) ↦ rw (e, deliver) s
    ]

give_up-IsErased :
    (new_id : Db → ℕ) (db : Db) (instance_ id : ℕ) (item : OutboxItem) (reason now : ℕ)
    → IsErased db
    → IsErased (give_up new_id db instance_ id item reason now).1
unfolding give_up
give_up-IsErased new_id db instance_ id item reason now h =
    let w = settle db instance_ id (fail_item now reason) in
    let s =
      settle-IsErased db instance_ id (fail_item now reason) (λ o _. unfold fail_item in refl) h in
    elim (Option-cases w.0) [
      | inl e ↦
          rw (e, give_up)
            (subst (λ os. All Erased os)
              (sym (notify_failure-outbox new_id w.1 item.user_id item.kind)) s)
      | inr (x, e) ↦ rw (e, give_up) s
    ]

requeue-Erased : (next reason : ℕ) (o : OutboxItem) → Erased (requeue next reason o)
unfolding requeue
requeue-Erased next reason o h = absurd (cc)

conclude-IsErased :
    (new_id : Db → ℕ) (db : Db) (instance_ id : ℕ) (item : OutboxItem) (r : Report) (now : ℕ)
    (state : ReportState)
    → r.state ≡ state
    → IsErased db
    → IsErased (conclude new_id db instance_ id item r now).1
unfolding conclude
conclude-IsErased new_id db instance_ id item r now delivered e h =
    rw e (deliver-IsErased db instance_ id item r.message_ids now h)
conclude-IsErased new_id db instance_ id item r now failed_transient e h = rw e (
    settle-IsErased db instance_ id (requeue (now + retry_delay item.attempts) r.reason)
      (λ o. requeue-Erased (now + retry_delay item.attempts) r.reason o) h)
conclude-IsErased new_id db instance_ id item r now failed_permanent e h =
    rw e (give_up-IsErased new_id db instance_ id item r.reason now h)
conclude-IsErased new_id db instance_ id item r now unknown e h = rw e h

report-IsErased :
    (new_id : Db → ℕ) (db : Db) (instance_ id : ℕ) (r : Report) (now : ℕ)
    → IsErased db
    → IsErased (report new_id db instance_ id r now).1
unfolding report
report-IsErased new_id db instance_ id r now h =
    elim (Option-cases (find (is_claimed_by id instance_) db.outbox)) [
      | inl e ↦ rw (e, report) h
      | inr (item, e) ↦
          rw (e, report) (conclude-IsErased new_id db instance_ id item r now r.state refl h)
    ]

expire_all-IsErased :
    (new_id : Db → ℕ) (db : Db) (now : ℕ) (os : List OutboxItem)
    → IsErased db
    → IsErased (expire_all new_id db now os).1
unfolding expire_all
expire_all-IsErased new_id db now [] h = h
expire_all-IsErased new_id db now (o ∷ os) h =
    let db' = set_outbox db (update (is_open_item o.id) (expire_item now) db.outbox) in
    let told = notify_failure new_id db' o.user_id o.kind in
    let s : IsErased told.1 =
      subst (λ os. All Erased os) (sym (notify_failure-outbox new_id db' o.user_id o.kind))
        (set_outbox-IsErased db (is_open_item o.id) (expire_item now)
          (λ o _. unfold expire_item in refl) h) in
    elim (Option-cases (find (is_open_item o.id) db.outbox)) [
      | inl e ↦ rw (e, expire_all) (expire_all-IsErased new_id db now os h)
      | inr (x, e) ↦ elim (Option-cases told.0) [
        | inl f ↦ rw (e, f, expire_all) (expire_all-IsErased new_id told.1 now os s)
        | inr (y, f) ↦ rw (e, f, expire_all) s
      ]
    ]

-- What the bots and the timer do to the store, in any order.
pub data Step (new_id : Db → ℕ) : Db → Db → Type 0 where
  claims : (db : Db) (instance_ limit now : ℕ) → Step new_id db (claim db instance_ limit now).1
  reports :
      (db : Db) (instance_ id : ℕ) (r : Report) (now : ℕ)
      → Step new_id db (report new_id db instance_ id r now).1
  expires : (db : Db) (now : ℕ) → Step new_id db (expire new_id db now).1

pub data Steps (new_id : Db → ℕ) : Db → Db → Type 0 where
  stop : (db : Db) → Steps new_id db db
  step : (a b c : Db) → Step new_id a b → Steps new_id b c → Steps new_id a c

Step-IsErased : (new_id : Db → ℕ) (a b : Db) → Step new_id a b → IsErased a → IsErased b
unfolding expire
Step-IsErased new_id a _ (claims db i limit now) h = claim-IsErased db i limit now h
Step-IsErased new_id a _ (reports db i id r now) h = report-IsErased new_id db i id r now h
Step-IsErased new_id a _ (expires db now) h =
    expire_all-IsErased new_id db now
      (take 200 (sort_by (λ o. o.created_at) (select (is_stale now) db.outbox))) h

-- The text of a message is kept only while it waits to be sent: if no closed item has a text, none
-- has one after any claims, reports and expiries in any order.
pub Steps-IsErased : (new_id : Db → ℕ) (a b : Db) → Steps new_id a b → IsErased a → IsErased b
Steps-IsErased new_id a _ (stop db) h = h
Steps-IsErased new_id a c (step _ b _ s ss) h =
    Steps-IsErased new_id b c ss (Step-IsErased new_id a b s h)
