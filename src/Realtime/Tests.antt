-- ===== src/Realtime/Tests.antt =====
-- Runs of the hub (core/internal/realtime/hub.go) and of a drain (core/internal/server/sse.go).
use notekeeper.Common.{
  ℕ, zero, suc, ◌≡◌, inl, refl, true, false, Option, some, List, [], ◌∷◌, arith, All, ◌==◌, length,
}
use notekeeper.Common.Str.{Str, codes}
use notekeeper.Db.Rows.{find, count, select, update}
use notekeeper.Db.Feed.{is_user}
use notekeeper.Db.Feed.Gapless.{Numbered, feed}
use notekeeper.Db.{Db, User, Change, Entity, upsert}
use notekeeper.Realtime.{
  Stream, new_hub, has_id, colon, change_payload, session_payload, channel_changes,
  channel_sessions, HubEvent, subscribed, shut_down, connected, taken, hear, run_hub, subscribe,
  shutdown,
}
use notekeeper.Realtime.Bounded.{Ended}
use notekeeper.Realtime.Delivered.{GoneOr, change_wakes, revoke_ends}
use notekeeper.Realtime.Drain.{drained, drain}
use notekeeper.Realtime.Drain.Consecutive.{Told, copies, drain-Told, drain_ends}

-- The text of an id is that many strokes.
abbrev strokes : ℕ → Str
strokes zero = []
strokes (suc n) = 49 ∷ strokes n

abbrev count_strokes : Str → Option ℕ
count_strokes s = some (length s)

strokes-read : (n : ℕ) → count_strokes (strokes n) ≡ some n
strokes-read zero = refl
strokes-read (suc n) = ground (arith, strokes-read n)

strokes-plain : (n : ℕ) → All (λ c. (c == colon) ≡ false) (strokes n)
strokes-plain zero = tt
strokes-plain (suc n) = (refl, strokes-plain n)

abbrev start : List HubEvent
start = subscribed 3 5 ∷ subscribed 4 6 ∷ []

abbrev first_stream : Stream
first_stream = record {
  id = 0;
  user_id = 3;
  session_id = 5;
  wake = false;
  done = false;
  reconnect = false;
}

finds_first : find (has_id 0) (run_hub count_strokes start new_hub).streams ≡ some first_stream
unfolding run_hub find count subscribe
finds_first = refl

abbrev then_closed : List HubEvent
then_closed = subscribed 3 5 ∷ shut_down ∷ []

abbrev closed_stream : Stream
closed_stream = record {
  id = 0;
  user_id = 3;
  session_id = 5;
  wake = false;
  done = true;
  reconnect = true;
}

finds_closed :
    find (has_id 0) (run_hub count_strokes then_closed new_hub).streams ≡ some closed_stream
unfolding run_hub find count subscribe shutdown update
finds_closed = refl

change_wakes_example :
    GoneOr 0
      (λ s. s.wake ≡ true)
      (run_hub count_strokes (taken 1 ∷ []) (
        hear count_strokes
          (run_hub count_strokes start new_hub)
          channel_changes
          (change_payload strokes 3 (codes "7"))))
change_wakes_example =
    change_wakes strokes count_strokes strokes-read strokes-plain start 0 first_stream finds_first
      (taken 1 ∷ []) 3 (codes "7") refl (refl, tt)

revoke_ends_example : GoneOr 0 Ended (
    run_hub count_strokes (connected ∷ []) (
      hear count_strokes
        (run_hub count_strokes start new_hub)
        channel_sessions
        (session_payload strokes 5)))
revoke_ends_example =
    revoke_ends strokes count_strokes strokes-read strokes-plain start 0 first_stream finds_first
      (connected ∷ []) (session_payload strokes 5) (inl refl)

abbrev reader : User
reader = record { id = 1; active = true; timezone = codes "UTC"; change_seq = 3 }

abbrev told_of : ℕ → Change
told_of n = record {
  user_id = 1;
  seq = n;
  entity = Entity.note;
  entity_id = 9;
  op = upsert;
  version = some n;
}

-- The change 1 has been purged.
abbrev purged_once : Db
purged_once = record {
  users = reader ∷ [];
  categories = [];
  notes = [];
  parts = [];
  attachments = [];
  blobs = [];
  storage = [];
  links = [];
  reminders = [];
  outbox = [];
  sent = [];
  changes = told_of 3 ∷ told_of 2 ∷ [];
  notifications = [];
}

finds_reader : find (is_user 1) purged_once.users ≡ some reader
unfolding find
finds_reader = refl

numbered : Numbered (feed 1 purged_once) 3 1
unfolding select
numbered = (2, refl, refl, (1, refl, refl, refl))

drain-Told_example :
    Told 1 (drain (purged_once ∷ []) 1 1).frames (drain (purged_once ∷ []) 1 1).last
drain-Told_example = drain-Told (purged_once ∷ []) 1 1 ((reader, 1, finds_reader, numbered), tt)

drain_ends_example :
    ((drain (copies 1 purged_once) 1 1).ending ≡ drained)
    × ((drain (copies 1 purged_once) 1 1).last ≡ 3)
drain_ends_example = drain_ends 0 purged_once 1 1 reader 1 finds_reader numbered (omega arith)
