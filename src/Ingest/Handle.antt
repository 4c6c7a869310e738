-- ===== src/Ingest/Handle.antt =====
-- How an event is answered (core/internal/ingest/ingest.go, `Handle`, and core/internal/bots/identities.go,
-- `ResolveIdentity` and `UnlinkNoticeDue`). The sender is looked up before the row of the user is locked, so
-- the store may change in between: `seen` is the store then, and `s` the one that the transaction
-- starts from. Counters for monitoring are left out.
use notekeeper.Common.{
  ℕ, ◌+◌, ◌*◌, Bool, true, false, ◌&&◌, Option, none, some, List, ◌∷◌, ltb, leb, ◌==◌,
  if◌then◌else◌,
}
use notekeeper.Common.Str.{Str, str_eq}
use notekeeper.Db.Rows.{find, update}
use notekeeper.Db.Feed.{status}
use notekeeper.Db.{not_found, invalid, Result, ok, err, ◌>>=◌}
use notekeeper.Ingest.{
  Kind, message_created, message_edited, Event, ignored, rejected, identity_unlinked, user_inactive,
  before_link, storage_full, What, unlinked_reply, limit_reply, React, Outcome, no_feedback,
  refusal, Principal, Identity,
}
use notekeeper.Ingest.Checks.{Utf8, sanitize, validate}
use notekeeper.Ingest.Tables.{
  IngestEvent, UnlinkedSender, Intake, is_external, is_identity, is_event, Limits, exceeded,
}
use notekeeper.Ingest.Create.{Ids, Delivery, handle_created}
use notekeeper.Ingest.Change.{handle_edited, handle_deleted}

abbrev pub second : ℕ
second = 1000000000

-- maxFutureSkew and unlinkedNoticeGap
abbrev pub max_future_skew : ℕ
max_future_skew = 300 * second

abbrev pub notice_gap : ℕ
notice_gap = 3600 * second

-- `window`; the setting of a user is a parameter, `none` where there is none or it is negative.
unfoldable pub window : ℕ → Option ℕ → ℕ
window default none = default
window default (some n) = if leb n 3600 then n * second else default

-- `ResolveIdentity`
unfoldable pub resolve_identity : Principal → Str → Intake → Option Identity
resolve_identity bot sender s = elim (find (is_external bot.type sender) s.identities) [
  | none ↦ none
  | some i ↦ if i.bot_instance_id == bot.instance_id then some i else none
]

-- NoticeDue: a sender is told once, and again when the last time is long ago.
abbrev pub is_sender : ℕ → Str → UnlinkedSender → Bool
is_sender bot sender u = u.bot_instance_id == bot && str_eq u.external_user_id sender

unfoldable pub unlink_notice_due : ℕ → Str → ℕ → Intake → Bool × Intake
unlink_notice_due bot sender now s = elim (find (is_sender bot sender) s.senders) [
  | none ↦ (
    true,
    record s {
      senders =
          record { bot_instance_id = bot; external_user_id = sender; last_notice_at = now }
          ∷ s.senders;
    },
  )
  | some u ↦
      if ltb (u.last_notice_at + notice_gap) now
      then (
        true,
        record s {
          senders =
              update (is_sender bot sender) (λ u. record u { last_notice_at = now }) s.senders;
        },
      )
      else (false, s)
]

-- The answer to a sender that nobody has linked.
unfoldable pub answer_unlinked : ℕ → Str → ℕ → Intake → Outcome × Intake
unfolding unlink_notice_due
answer_unlinked bot sender now s =
    let (due, t) = unlink_notice_due bot sender now s in
    (
      record (refusal rejected (some identity_unlinked)) {
        feedback = record no_feedback { reply_text = if due then some unlinked_reply else none };
      },
      t,
    )

-- UpdateIdentityConversation and UpdateIngestResult
abbrev pub in_conversation : Str → Identity → Identity
in_conversation conversation i = record i { conversation_id = some conversation }

abbrev pub with_result : Outcome → IngestEvent → IngestEvent
with_result out e = record e { result = out }

-- A time that lies too far ahead becomes the present.
abbrev pub clamped : ℕ → Event → Event
clamped now ev = record ev {
  timestamp = if ltb (now + max_future_skew) ev.timestamp then now else ev.timestamp;
}

-- What the program is given: the limits and the clocks, the settings of a user, and the new ids.
pub record Service : Type 0 where
  pub utf8 : Utf8
  pub limits : Limits
  pub default_window : ℕ
  pub grouping_seconds : ℕ → Option ℕ
  pub order : List ℕ → List ℕ
  pub ids : Ids
  pub now : ℕ
  pub database_now : ℕ

abbrev pub delivery : Service → Principal → Identity → Event → Delivery
delivery v bot ident ev = record {
  bot = bot.instance_id;
  identity = ident;
  event = clamped v.now ev;
  ids = v.ids;
  now = v.now;
  database_now = v.database_now;
  window = window v.default_window (v.grouping_seconds ident.user_id);
}

unfoldable pub dispatch : Kind → (List ℕ → List ℕ) → Delivery → Intake → Result (Outcome × Intake)
dispatch message_created order d s = handle_created d s
dispatch message_edited order d s = handle_edited order d s
dispatch _ order d s = handle_deleted d s

-- An event that is new: what the sender wrote before the account was linked is left alone.
unfoldable pub answer_new :
    Service → Principal → Identity → Event → Intake → Result (Outcome × Intake)
unfolding dispatch window
answer_new v bot ident ev s =
    if ltb ev.timestamp ident.linked_at
    then ok (refusal ignored (some before_link), s)
    else dispatch ev.kind v.order (delivery v bot ident ev) s

-- The store when the event has its row and the conversation of the identity is known. The row gets
-- its result at the end of the same transaction.
abbrev pub entered : Principal → Identity → Event → Intake → Intake
entered bot ident ev s = record s {
  events =
      record {
        bot_instance_id = bot.instance_id;
        event_id = ev.event_id;
        user_id = ident.user_id;
        result = refusal rejected none;
      }
      ∷ s.events;
  identities = update (is_identity ident.id) (in_conversation ev.conversation) s.identities;
}

abbrev pub with_answer : Principal → Identity → Event → Outcome → Intake → Intake
with_answer bot ident ev out s = record s {
  events =
      update (λ e. is_event bot.instance_id ev.event_id e && e.user_id == ident.user_id)
        (with_result out) s.events;
}

-- The transaction, by the row that the event has: the answer is that of the row, if it is the user's.
unfoldable pub answer_row :
    Option IngestEvent → Service → Principal → Identity → Event → Intake → Result (Outcome × Intake)
unfolding answer_new
answer_row (some e) v bot ident ev s =
    if e.user_id == ident.user_id then ok (e.result, s) else err invalid
answer_row none v bot ident ev s = do
  (out, t) ← answer_new v bot ident ev (entered bot ident ev s)
  ok (out, with_answer bot ident ev out t)

-- The transaction, by the identity, which may have been unlinked since the sender was looked up.
unfoldable pub answer_linked :
    Option Identity → Service → Principal → Identity → Event → Intake → Result (Outcome × Intake)
unfolding answer_row
answer_linked none v bot ident ev s = ok (refusal rejected (some identity_unlinked), s)
answer_linked (some cur) v bot ident ev s =
    if cur.user_id == ident.user_id
    then answer_row (find (is_event bot.instance_id ev.event_id) s.events) v bot ident ev s
    else ok (refusal rejected (some identity_unlinked), s)

-- The transaction, by whether the user is there and active.
unfoldable pub answer_active :
    Option Bool → Service → Principal → Identity → Event → Intake → Result (Outcome × Intake)
unfolding answer_linked
answer_active none v bot ident ev s = err not_found
answer_active (some false) v bot ident ev s = ok (refusal rejected (some user_inactive), s)
answer_active (some true) v bot ident ev s =
    answer_linked (find (is_identity ident.id) s.identities) v bot ident ev s

-- A transaction that would exceed a limit is undone, and the bot is told.
unfoldable pub limited : Option What → Intake → Outcome × Intake → Outcome × Intake
limited none s end = end
limited (some what) s end = (
  record (refusal rejected (some storage_full)) {
    feedback = record { react = some React.warning; reply_text = some (limit_reply what) };
  },
  s,
)

unfoldable pub within_limits : Service → ℕ → Intake → Outcome × Intake → Outcome × Intake
unfolding limited
within_limits v user s end = limited (exceeded v.limits user s end.1) s end

-- `Handle`, by the identity of the sender.
unfoldable pub answer_sender :
    Option Identity → Service → Principal → Event → Intake → Result (Outcome × Intake)
unfolding answer_unlinked answer_active within_limits
answer_sender none v bot ev s = ok (answer_unlinked bot.instance_id ev.sender v.now s)
answer_sender (some ident) v bot ev s = do
  end ← answer_active (status ident.user_id s.db.users) v bot ident ev s
  ok (within_limits v ident.user_id s end)

-- `Handle`
unfoldable pub handle : Service → Principal → Event → Intake → Intake → Result (Outcome × Intake)
unfolding answer_sender resolve_identity
handle v bot ev seen s = do
  valid ← validate v.utf8 (sanitize v.utf8 ev)
  answer_sender (resolve_identity bot ev.sender seen) v bot (sanitize v.utf8 ev) s
