-- ===== src/Lib.antt =====
-- The core of the notekeeper server (core/internal), a service that keeps notes which come from chats
-- and from an app, and reminds of them.
--
-- The parts and how they work together:
-- Fracindex (core/internal/fracindex/fracindex.go): the keys that order a list. `valid`, `between`,
--   `midpoint` and `even` are `Valid`, `Between`, `midpoint` and `Even`. A text is a list of bytes.
--   `midpoint` calls itself on shorter texts; its fuel is the length of both texts and one more, which
--   Fracindex/Midpoint and Fracindex/Between show to be enough.
-- Position (core/internal/position/position.go): `place` is `Group.Place`. The list that a key is
--   placed in is a record of functions there, and a parameter here; what is asked of it is `Ready`.
-- Grouping (core/internal/grouping/grouping.go): `decide` is `Decide`, whether a chat message starts
--   a note or joins one.
-- Throttle (core/internal/throttle/throttle.go and the queries of auth_throttle in
--   core/internal/store/dbq/tokens.sql.go): `attempt`, `charge`, `blocked`, `success`, `fail` and `reset`.
-- Db (core/internal/store/store.go, core/internal/store/dbq/models.go): the tables that the services
--   share, the queries as functions on lists of rows (Db/Rows), and the change feed (Db/Feed).
-- Reminders (core/internal/reminders/reminders.go, core/internal/store/dbq/reminders.sql.go):
--   `create_in` and `update_reminder` in Reminders; `delete_reminder`, `snooze_in` and `done_in` in
--   Reminders/Endings; `on_dismiss` and `on_restore` in Reminders/Trash; `fire_one` and `fire_due` in
--   Reminders/Firing. The calendar (zones and recurrence rules of core/internal/timeparse) is a
--   parameter; it promises only that a next occurrence is later than the given time.
-- Timeparse (core/internal/timeparse/rrule.go): `parse_rule` is `ParseRule`, `next_occurrence` is `Next`,
--   whose limit of 20000 turns is its fuel; `rule_calendar` in Timeparse/Calendars is the calendar that
--   the reminders take, with its promise. The dates of a zone are a parameter, as are the case and the
--   spaces of texts. The loop over the months has the month as fuel (`wrap_months_ok`), and the search in a
--   week the number of days that the source has.
-- Outbox (core/internal/outbox/outbox.go, core/internal/store/dbq/outbox.sql.go): `claim`, `report`,
--   `expire` in Outbox/Expiry and `attachment_owner` in Outbox/Files. Firing queues the items that the
--   bots claim here.
-- Notes (core/internal/notes/ops.go, core/internal/store/dbq/notes.sql.go and board.sql.go): `dismiss`
--   and `restore`, which call `on_dismiss` and `on_restore`; in Notes/Order `note_group`, the queries on
--   the manual order of a category, over which `place` runs; `move` in Notes/Move; `merge` and `split`
--   in Notes/Regroup; `add_part` and `remove_part` in Notes/Parts, which deletes files by `delete_file` of
--   Blobs (core/internal/blobs/blobs.go); `delete_permanently` in Notes/Purge. The loop of `rebalance`
--   goes over the rows, so it needs no fuel. The ids that the server makes are arguments, and so is each
--   time that it reads. What `validateText` makes of a text is a parameter.
-- Ingest (core/internal/ingest/ingest.go): `handle` in Ingest/Handle is `Handle`, with the checks of an event in
--   Ingest/Checks, the tables and queries of the intake in Ingest/Tables, `created` with the grouping
--   policy in Ingest/Create (`handle_created`), and `edited` and `deleted` in Ingest/Change. Its store is Db
--   with the tables that only the intake uses. Go's UTF-8 functions are a parameter, as are the ids
--   that are made and the order in which Go walks a map. `handle` takes two stores: the one in which
--   the sender is looked up, and the one that the transaction of the user starts from.
-- Bots (core/internal/bots/identities.go, core/internal/auth/random.go, core/internal/notify/notify.go):
--   the text of pairing codes in Bots/Codes, `create_pairing_code` and `link` in Bots/Pairing, `unlink` and
--   `set_reminder_target` in Bots/Unlinking, over the store of the intake; Bots has the security notice
--   that they send. `link` takes two stores like `handle`. Hashes, random bytes and Go's
--   `strings.ToUpper` and `strings.EqualFold` are parameters or arguments.
-- Shares (core/internal/shares/shares.go, core/internal/store/dbq/share.sql.go): `create_share`,
--   `revoke_share`, `revoke_all`, `purge`, the check of a token (`resolve`) and
--   `open_share`, whose reads and whose count of the view each have a store of their own. The hash of a token is a parameter.
-- Realtime (core/internal/realtime/hub.go): the event streams of one replica, whose operations and
--   notifications are the events that `run_hub` goes through; Realtime/Drain (core/internal/server/sse.go):
--   `drain`, how a stream catches up from the change feed that Db/Feed writes. A drain reads the stores
--   of a list, one store each, and ends within the list or is `pending`.
-- Common: the shared names, the Boolean tests, lists over the native numbers, and texts.
--
-- A transaction is a function of the whole store that gives an error or a result and the next store. An
-- error leaves the store as it was; where an operation has several transactions (the outbox, `FireDue`),
-- it also gives the store that is left when a later one fails. The row of the user is there, which
-- a transaction of a user checks first. Failures of the database, unique indexes
-- included but for that of the linked accounts, the notifications that are sent on a commit, and the metrics are not modelled; the limits on notes
-- and text that a commit checks are modelled for the intake only. The creation and the edits of notes in the
-- app, their history, uploads, boards, chat commands, accounts, the credentials of bots, the audit log,
-- the list of share links and the rest of the HTTP layer are not modelled. Ids are numbers, and so are most texts that are only passed on.
-- Times are nanoseconds since a common origin that lies before all of them.
pub mod Common
pub mod Fracindex
pub mod Position
pub mod Grouping
pub mod Ingest
pub mod Bots
pub mod Shares
pub mod Throttle
pub mod Db
pub mod Timeparse
pub mod Reminders
pub mod Outbox
pub mod Blobs
pub mod Notes
pub mod Realtime
