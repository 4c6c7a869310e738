-- ===== src/Realtime.antt =====
-- The event streams of one replica (core/internal/realtime/hub.go). The sets of streams by user are one
-- list, as each stream carries its user; so are those of the waiters by bot. A pointer is the number of
-- the stream or waiter among all that were made. A channel of capacity one is whether it is full. The
-- lock of the hub makes each operation one step.
pub mod Lasting
pub mod Bounded
pub mod Delivered
pub mod Drain
mod Tests
use notekeeper.Common.{
  ℕ, ◌+◌, Bool, true, false, not, ◌&&◌, Option, none, some, List, [], ◌∷◌, ◌++◌, leb, ◌==◌,
  if◌then◌else◌,
}
use notekeeper.Common.Str.{Str, codes, str_eq, cut}
use notekeeper.Db.Rows.{update, delete, count}

-- MaxStreamsPerUser
abbrev pub max_streams : ℕ
max_streams = 10

pub record Stream : Type 0 where
  pub id : ℕ
  pub user_id : ℕ
  pub session_id : ℕ
  pub wake : Bool
  pub done : Bool
  pub reconnect : Bool

pub record Waiter : Type 0 where
  pub id : ℕ
  pub instance_id : ℕ
  pub woken : Bool

pub record Hub : Type 0 where
  pub streams : List Stream
  pub closing : Bool
  pub outbox : List Waiter
  pub made : ℕ

-- `NewHub`
abbrev pub new_hub : Hub
new_hub = record { streams = []; closing = false; outbox = []; made = 0 }

-- `close`; a stream is closed once.
abbrev pub close : Bool → Stream → Stream
close reconnect s = if s.done then s else record s { done = true; reconnect = reconnect }

-- `wake`
abbrev pub awaken : Stream → Stream
awaken s = record s { wake = true }

abbrev pub of_user : ℕ → Stream → Bool
of_user user s = s.user_id == user

abbrev pub has_id : ℕ → Stream → Bool
has_id id s = s.id == id

abbrev pub of_session : ℕ → Stream → Bool
of_session session s = s.session_id == session

abbrev pub every {ℓ} : {A : Type ℓ} → A → Bool
every a = true

-- The stream that `Subscribe` makes.
abbrev pub new_stream : Hub → ℕ → ℕ → Stream
new_stream h user session =
    let s : Stream = record {
      id = h.made;
      user_id = user;
      session_id = session;
      wake = false;
      done = false;
      reconnect = false;
    } in
    if h.closing then close true s else s

-- `Subscribe`; `none` is ErrTooManyStreams.
pub subscribe : Hub → ℕ → ℕ → Option (Stream × Hub)
subscribe h user session =
    if leb max_streams (count (of_user user) h.streams)
    then none
    else some (
      new_stream h user session,
      record h { streams = new_stream h user session ∷ h.streams; made = h.made + 1 },
    )

-- `Unsubscribe`
pub unsubscribe : Hub → ℕ → Hub
unsubscribe h id = record h { streams = delete (has_id id) h.streams }

-- `Shutdown`
pub shutdown : Hub → Hub
shutdown h = record h { closing = true; streams = update every (close true) h.streams }

-- `WaitOutbox`, and the function to stop waiting that it returns.
pub wait_outbox : Hub → ℕ → Waiter × Hub
wait_outbox h instance_id =
    let w : Waiter = record { id = h.made; instance_id = instance_id; woken = false } in
    (w, record h { outbox = w ∷ h.outbox; made = h.made + 1 })

pub stop_waiting : Hub → ℕ → Hub
stop_waiting h id = record h { outbox = delete (λ w. w.id == id) h.outbox }

abbrev pub rouse : Waiter → Waiter
rouse w = record w { woken = true }

pub wake_outbox : Hub → ℕ → Hub
wake_outbox h instance_id = record h {
  outbox = update (λ w. w.instance_id == instance_id) rouse h.outbox;
}

pub wake_user : Hub → ℕ → Hub
wake_user h user = record h { streams = update (of_user user) awaken h.streams }

pub wake_all : Hub → Hub
wake_all h = record h { streams = update every awaken h.streams }

abbrev pub colon : ℕ
colon = 58

pub data Channel : Type 0 where
  channel_changes channel_sessions channel_outbox : Channel

-- What can happen to the hub: the calls of the server, a (re)connect of the listener with its catching
-- up, a notification, and a reader that takes the wake of its stream.
pub data HubEvent : Type 0 where
  subscribed : ℕ → ℕ → HubEvent
  unsubscribed : ℕ → HubEvent
  shut_down : HubEvent
  waiting : ℕ → HubEvent
  stopped : ℕ → HubEvent
  connected : HubEvent
  notified : Channel → Str → HubEvent
  taken : ℕ → HubEvent

-- The payloads that the store sends at the end of a transaction with a change, and the accounts when a
-- session or all sessions of a user end. `print` is the text of an id, a parameter.
abbrev pub change_payload : (ℕ → Str) → ℕ → Str → Str
change_payload print user seq = print user ++ colon ∷ seq

abbrev pub session_payload : (ℕ → Str) → ℕ → Str
session_payload print session = codes "s" ++ colon ∷ print session

abbrev pub user_payload : (ℕ → Str) → ℕ → Str
user_payload print user = codes "u" ++ colon ∷ print user

-- `uuid.Parse` is a parameter.
module _ (parse : Str → Option ℕ) where
  -- `revoke`
  pub revoke : Hub → Str → Hub
  unfolding cut
  revoke h payload =
      let (kind, id, ok) = cut colon payload in
      elim (parse id) [
        | none ↦ h
        | some uid ↦
            if not ok
            then h
            else if str_eq kind (codes "s")
            then record h { streams = update (of_session uid) (close false) h.streams }
            else if str_eq kind (codes "u")
            then record h { streams = update (of_user uid) (close false) h.streams }
            else h
      ]

  -- What `listen` does with a notification.
  pub hear : Hub → Channel → Str → Hub
  unfolding revoke wake_user wake_outbox cut
  hear h channel_changes payload = elim (parse (cut colon payload).0) [
    | none ↦ h
    | some uid ↦ wake_user h uid
  ]
  hear h channel_sessions payload = revoke h payload
  hear h channel_outbox payload = elim (parse payload) [ none ↦ h | some id ↦ wake_outbox h id ]

  -- The start of `listen`: everything is woken to catch up.
  pub catch_up : Hub → Hub
  unfolding wake_all
  catch_up h =
      let woken : Hub = wake_all h in record woken { outbox = update every rouse woken.outbox }

  pub hub_step : HubEvent → Hub → Hub
  unfolding subscribe unsubscribe shutdown wait_outbox stop_waiting hear catch_up
  hub_step (subscribed user session) h = elim (subscribe h user session) [ none ↦ h | some r ↦ r.1 ]
  hub_step (unsubscribed id) h = unsubscribe h id
  hub_step shut_down h = shutdown h
  hub_step (waiting i) h = (wait_outbox h i).1
  hub_step (stopped id) h = stop_waiting h id
  hub_step connected h = catch_up h
  hub_step (notified channel payload) h = hear h channel payload
  hub_step (taken id) h = record h {
    streams = update (has_id id) (λ s. record s { wake = false }) h.streams;
  }

  pub run_hub : List HubEvent → Hub → Hub
  unfolding hub_step
  run_hub [] h = h
  run_hub (e ∷ es) h = run_hub es (hub_step e h)
