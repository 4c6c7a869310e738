-- ===== src/Outbox.antt =====
-- The channel from the server to the bots (core/internal/outbox/outbox.go), over the table bot_outbox
-- (core/internal/store/dbq/outbox.sql.go). Each statement or transaction is a step on the store; an
-- operation that fails in its second one keeps the first, so it answers with an error, if any, and
-- with the store that is left.
pub mod Expiry
pub mod Files
pub mod Erased
pub mod Leases
mod Tests
use notekeeper.Common.{
  ℕ, ◌+◌, ◌-◌, ◌*◌, Bool, true, false, not, ◌&&◌, ◌||◌, Option, none, some, List, [], ◌∷◌, ltb, leb,
  ◌==◌, if◌then◌else◌, take, get_elem?,
}
use notekeeper.Common.Str.{str_eq}
use notekeeper.Db.Rows.{find, update, select, sort_by}
use notekeeper.Db.Feed.{is_user, change}
use notekeeper.Db.{
  Db, User, OutboxItem, OutboxKind, OutboxState, queued, claimed, failed, expired, SentMessage,
  Notification, delivery_failed, Entity, upsert, Error, not_found, invalid,
}

abbrev pub second : ℕ
second = 1_000_000_000

abbrev pub lease : ℕ
lease = 60 * second

abbrev pub expire_after : ℕ
expire_after = 7 * 24 * 3_600 * second

-- The texts of the reasons 'cancelled' and 'expired' are the numbers 0 and 1.
abbrev expired_reason : ℕ
expired_reason = 1

abbrev pub is_queued : OutboxState → Bool
is_queued queued = true
is_queued _ = false

abbrev pub is_claimed : OutboxState → Bool
is_claimed claimed = true
is_claimed _ = false

abbrev pub is_lifecycle : OutboxKind → Bool
is_lifecycle OutboxKind.lifecycle = true
is_lifecycle _ = false

-- ClaimOutbox. A comparison with a null is not true.
abbrev pub lease_over : Option ℕ → ℕ → Bool
lease_over none now = false
lease_over (some t) now = ltb t now

abbrev pub owner_active : Option User → Bool
owner_active none = false
owner_active (some u) = u.active

pub may_send : Db → Option ℕ → Bool
may_send db none = true
may_send db (some user) = owner_active (find (is_user user) db.users)

pub is_ready : ℕ → OutboxItem → Bool
is_ready now o =
    (is_queued o.state && leb o.next_attempt_at now)
    || (is_claimed o.state && lease_over o.lease_expires_at now)

abbrev pub claimable : Db → ℕ → ℕ → OutboxItem → Bool
claimable db instance now o =
    o.bot_instance_id == instance && is_ready now o && may_send db o.user_id

abbrev pub among : List OutboxItem → OutboxItem → Bool
among [] o = false
among (q ∷ qs) o = q.id == o.id || among qs o

abbrev pub hand_out : ℕ → OutboxItem → OutboxItem
hand_out now o = record o { state = claimed; lease_expires_at = some (now + lease) }

abbrev pub set_outbox : Db → List OutboxItem → Db
set_outbox db items = record db { outbox = items }

-- `Claim`: the items that are handed out, and the store.
pub claim : Db → ℕ → ℕ → ℕ → List OutboxItem × Db
claim db instance limit now =
    let picked =
      take limit (sort_by (λ o. o.created_at) (select (claimable db instance now) db.outbox)) in
    let items = update (among picked) (hand_out now) db.outbox in
    (select (among picked) items, set_outbox db items)

-- What a bot reports; `unknown` is any other text.
pub data ReportState : Type 0 where
  delivered failed_transient failed_permanent unknown : ReportState

pub record Report : Type 0 where
  pub state : ReportState
  pub reason : ℕ
  pub message_ids : List ℕ

abbrev pub minute : ℕ
minute = 60 * second

abbrev pub backoff : List ℕ
backoff = minute ∷ 2 * minute ∷ 5 * minute ∷ 15 * minute ∷ []

pub retry_delay : ℕ → ℕ
retry_delay attempts = elim (get_elem? backoff attempts) [ some d ↦ d | none ↦ 60 * minute ]

-- GetClaimedOutbox, and the condition of the updates of a claimed item.
abbrev pub is_claimed_by : ℕ → ℕ → OutboxItem → Bool
is_claimed_by id instance o = o.id == id && o.bot_instance_id == instance && is_claimed o.state

-- MarkOutboxDelivered, RequeueOutbox, FailOutbox and ExpireOutboxItem. The text goes with the end.
pub mark_delivered : ℕ → OutboxItem → OutboxItem
mark_delivered now o = record o {
  state = OutboxState.delivered;
  finished_at = some now;
  lease_expires_at = none;
  payload = none;
}

pub requeue : ℕ → ℕ → OutboxItem → OutboxItem
requeue next reason o = record o {
  state = queued;
  attempts = o.attempts + 1;
  next_attempt_at = next;
  lease_expires_at = none;
  failure_reason = some reason;
}

pub fail_item : ℕ → ℕ → OutboxItem → OutboxItem
fail_item now reason o = record o {
  state = failed;
  finished_at = some now;
  lease_expires_at = none;
  failure_reason = some reason;
  payload = none;
}

pub expire_item : ℕ → OutboxItem → OutboxItem
expire_item now o = record o {
  state = expired;
  finished_at = some now;
  lease_expires_at = none;
  failure_reason = some expired_reason;
  payload = none;
}

-- InsertOutboxMessage: a message that is known is left.
is_message : SentMessage → SentMessage → Bool
is_message m n =
    n.bot_instance_id == m.bot_instance_id
    && str_eq n.conversation_id m.conversation_id
    && n.message_id == m.message_id

pub add_message : List SentMessage → SentMessage → List SentMessage
unfolding is_message
add_message sent m = elim (find (is_message m) sent) [ none ↦ m ∷ sent | some _ ↦ sent ]

-- The loop over the ids of the messages.
pub add_messages : List SentMessage → OutboxItem → List ℕ → List SentMessage
unfolding add_message
add_messages sent o [] = sent
add_messages sent o (m ∷ ms) =
    add_messages
      (add_message sent (record {
        bot_instance_id = o.bot_instance_id;
        conversation_id = o.conversation_id;
        message_id = m;
        outbox_id = o.id;
      }))
      o ms

-- `notifyFailure`; `new_id` gives the id of the notification.
pub notify_failure : (Db → ℕ) → Db → Option ℕ → OutboxKind → Option Error × Db
notify_failure new_id db none kind = (none, db)
notify_failure new_id db (some user) kind =
    if is_lifecycle kind then (none, db) else elim (find (is_user user) db.users) [
      | none ↦ (some not_found, db)
      | some _ ↦ (
        none,
        change
            (record db {
              notifications =
                  record { id = new_id db; user_id = user; kind = delivery_failed }
                  ∷ db.notifications;
            })
            user Entity.notification (new_id db) upsert none,
      )
    ]

-- An update of the claimed item; no row is ErrNotFound.
pub settle : Db → ℕ → ℕ → (OutboxItem → OutboxItem) → Option Error × Db
settle db instance id f = elim (find (is_claimed_by id instance) db.outbox) [
  | none ↦ (some not_found, db)
  | some _ ↦ (none, set_outbox db (update (is_claimed_by id instance) f db.outbox))
]

-- The cases of `Report`, on the item that was read; a step may find that it is not claimed any more.
pub deliver : Db → ℕ → ℕ → OutboxItem → List ℕ → ℕ → Option Error × Db
unfolding settle mark_delivered add_messages
deliver db instance id item messages now =
    let w = settle db instance id (mark_delivered now) in
    elim w.0 [
      | none ↦ (none, record w.1 { sent = add_messages w.1.sent item messages })
      | some e ↦ w
    ]

pub give_up : (Db → ℕ) → Db → ℕ → ℕ → OutboxItem → ℕ → ℕ → Option Error × Db
unfolding settle fail_item notify_failure
give_up new_id db instance id item reason now =
    let w = settle db instance id (fail_item now reason) in
    elim w.0 [ none ↦ notify_failure new_id w.1 item.user_id item.kind | some e ↦ w ]

pub conclude : (Db → ℕ) → Db → ℕ → ℕ → OutboxItem → Report → ℕ → Option Error × Db
unfolding deliver give_up requeue retry_delay
conclude new_id db instance id item r now = elim r.state [
  | ReportState.delivered ↦ deliver db instance id item r.message_ids now
  | failed_transient ↦ settle db instance id (requeue (now + retry_delay item.attempts) r.reason)
  | failed_permanent ↦ give_up new_id db instance id item r.reason now
  | unknown ↦ (some invalid, db)
]

-- `Report`
pub report : (Db → ℕ) → Db → ℕ → ℕ → Report → ℕ → Option Error × Db
unfolding conclude
report new_id db instance id r now = elim (find (is_claimed_by id instance) db.outbox) [
  | none ↦ (some not_found, db)
  | some item ↦ conclude new_id db instance id item r now
]
