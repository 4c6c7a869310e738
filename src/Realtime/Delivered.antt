-- ===== src/Realtime/Delivered.antt =====
-- What the notifications of the store do to the streams of the hub, and what no later event undoes
-- (core/internal/realtime/hub.go, core/internal/store/store.go).
use mathlib.Core.Option
use notekeeper.Common.{
  ℕ, ◌<◌, ◌≡◌, ◌⊎◌, inl, inr, refl, ap, ◌∙◌, Bool, true, false, Option, none, some, List, [], ◌∷◌,
  ◌++◌, arith, ◌==◌, if◌then◌else◌, All, Bool-cases,
}
use notekeeper.Common.Str.{Str, str_eq, cut}
use notekeeper.Db.Rows.{find, update, find-update, All-of, All-weaken}
use notekeeper.Realtime.{
  Stream, Hub, new_hub, close, awaken, of_user, of_session, has_id, colon, change_payload,
  session_payload, user_payload, channel_changes, channel_sessions, HubEvent, subscribed,
  unsubscribed, shut_down, waiting, stopped, connected, notified, taken, wake_user, revoke, hear,
  run_hub,
}
use notekeeper.Realtime.Lasting.{drained, Quiet, run-Lasts}
use notekeeper.Realtime.Bounded.{Ended, run-InOrder}

-- A stream that is not with the hub any more, or has a property.
abbrev pub GoneOr : ℕ → (Stream → Type 0) → Hub → Type 0
GoneOr id P h =
    (find (has_id id) h.streams ≡ none)
    ⊎ ((s : Stream) × (find (has_id id) h.streams ≡ some s) × P s)

-- The reader of the stream takes its wake.
abbrev pub takes : ℕ → HubEvent → Bool
takes id (taken k) = k == id
takes id (subscribed user session) = false
takes id (unsubscribed k) = false
takes id shut_down = false
takes id (waiting i) = false
takes id (stopped k) = false
takes id connected = false
takes id (notified channel payload) = false

cut-append : (c : ℕ) (a b : Str) → All (λ x. (x == c) ≡ false) a → cut c (a ++ c ∷ b) ≡ (a, b, true)
unfolding cut
cut-append c [] b h = ground arith
cut-append c (x ∷ a) b (h, hs) = rw (h, cut-append c a b hs) refl

found-id :
    (ss : List Stream) (h : ℕ) (id : ℕ) (s : Stream)
    → find (has_id id) ss ≡ some s
    → All (λ (s : Stream). s.id < h) ss
    → id < h
unfolding find
found-id [] h id s e a = absurd (cc)
found-id (x ∷ ss) h id s e (lt, a) = elim (Bool-cases (has_id id x)) [
  | inl t ↦ ground (arith, t, lt)
  | inr f ↦ found-id ss h id s (ground (arith, e, f)) a
]

abbrev Woken : Stream → Type 0
Woken s = s.wake ≡ true

updated :
    (ss : List Stream) (p : Stream → Bool) (f : Stream → Stream) (id : ℕ) (s : Stream)
    → ((s : Stream) → (f s).id ≡ s.id)
    → find (has_id id) ss ≡ some s
    → p s ≡ true
    → find (has_id id) (update p f ss) ≡ some (f s)
updated ss p f id s same e t =
    find-update (has_id id) p f ss (λ s. ground (arith, same s))
    ∙ ap (Option.map (λ s. if p s then f s else s)) e
    ∙ rw t refl

Quiet-drained :
    (id : ℕ) (P : Stream → Type 0)
    → ((s : Stream) → P s → P (drained s))
    → (e : HubEvent) → Quiet id P e
Quiet-drained id P keep (taken k) = inr keep
Quiet-drained id P keep (subscribed user session) = tt
Quiet-drained id P keep (unsubscribed k) = tt
Quiet-drained id P keep shut_down = tt
Quiet-drained id P keep (waiting i) = tt
Quiet-drained id P keep (stopped k) = tt
Quiet-drained id P keep connected = tt
Quiet-drained id P keep (notified channel payload) = tt

Quiet-takes : (id : ℕ) (P : Stream → Type 0) (e : HubEvent) → takes id e ≡ false → Quiet id P e
Quiet-takes id P (taken k) h = inl (ground (arith, h))
Quiet-takes id P (subscribed user session) h = tt
Quiet-takes id P (unsubscribed k) h = tt
Quiet-takes id P shut_down h = tt
Quiet-takes id P (waiting i) h = tt
Quiet-takes id P (stopped k) h = tt
Quiet-takes id P connected h = tt
Quiet-takes id P (notified channel payload) h = tt

-- A stream of a hub that has run since it was new.
module _ (parse : Str → Option ℕ) (es : List HubEvent) (id : ℕ) (s : Stream)
    (there : find (has_id id) (run_hub parse es new_hub).streams ≡ some s)
    (later : List HubEvent) where
  abbrev pub hub : Hub
  hub = run_hub parse es new_hub

  pub id_made : id < hub.made
  id_made = found-id hub.streams hub.made id s there (run-InOrder parse es).made

-- `print` and `parse` are those of the ids: what is printed is read again, and has no colon.
module _ (print : ℕ → Str) (parse : Str → Option ℕ) (reads : (id : ℕ) → parse (print id) ≡ some id)
    (plain : (id : ℕ) → All (λ c. (c == colon) ≡ false) (print id)) where
  hear-change :
      (h : Hub) (user : ℕ) (seq : Str)
      → hear parse h channel_changes (change_payload print user seq) ≡ wake_user h user
  unfolding hear
  hear-change h user seq =
      ground (arith, cut-append colon (print user) seq (plain user), reads user)

  hear-session :
      (h : Hub) (session : ℕ)
      → hear parse h channel_sessions (session_payload print session)
        ≡ record h { streams = update (of_session session) (close false) h.streams }
  unfolding hear revoke cut str_eq
  hear-session h session = ground (arith, reads session)

  hear-user :
      (h : Hub) (user : ℕ)
      → hear parse h channel_sessions (user_payload print user)
        ≡ record h { streams = update (of_user user) (close false) h.streams }
  unfolding hear revoke cut str_eq
  hear-user h user = ground (arith, reads user)

  module _ (es : List HubEvent) (id : ℕ) (s : Stream)
      (there : find (has_id id) (run_hub parse es new_hub).streams ≡ some s)
      (later : List HubEvent) where
    ends :
        (p : Stream → Bool)
        → p s ≡ true
        → GoneOr id Ended (
            run_hub parse later (record (run_hub parse es new_hub) {
              streams = update p (close false) (run_hub parse es new_hub).streams;
            }))
    ends p t =
        let h : Hub = run_hub parse es new_hub in
        (run-Lasts parse id Ended (λ s h. h) (λ b s h. ground (arith, h)) later
          (record h { streams = update p (close false) h.streams })
          (All-of (Quiet id Ended) later (Quiet-drained id Ended (λ s h. h)))
          (
            id_made parse es id s there later,
            inr (
              close false s,
              updated h.streams p (close false) id s (λ s. ground arith) there t,
              ground arith,
            ),
          )).1

    -- The notification of a commit wakes a stream of its user, and the wake is there until the reader of
    -- the stream takes it, whatever comes between, for as long as the stream is with the hub.
    pub change_wakes :
        (user : ℕ) (seq : Str)
        → s.user_id ≡ user
        → All (λ e. takes id e ≡ false) later
        → GoneOr id
            (λ s. s.wake ≡ true)
            (run_hub parse later (
              hear parse
                (run_hub parse es new_hub)
                channel_changes
                (change_payload print user seq)))
    unfolding wake_user
    change_wakes user seq u quiet =
        let h : Hub = run_hub parse es new_hub in
        rw (hear-change h user seq)
          (run-Lasts parse id Woken (λ s h. refl) (λ b s h. ground (arith, h)) later
            (wake_user h user)
            (All-weaken (λ e. takes id e ≡ false) (Quiet id Woken) later (Quiet-takes id Woken)
              quiet)
            (
              id_made parse es id s there later,
              inr (
                awaken s,
                updated h.streams (of_user user) awaken id s (λ _. refl) there (ground (arith, u)),
                refl,
              ),
            )).1

    -- The notification that a session has ended ends each of its streams, and so does the one for its user;
    -- what has ended does not come back, whatever comes later.
    pub revoke_ends :
        (payload : Str)
        → (payload ≡ session_payload print s.session_id) ⊎ (payload ≡ user_payload print s.user_id)
        → GoneOr id Ended
            (run_hub parse later (hear parse (run_hub parse es new_hub) channel_sessions payload))
    revoke_ends payload (inl e) =
        let h : Hub = run_hub parse es new_hub in
        rw (e, hear-session h s.session_id) (ends (of_session s.session_id) (ground arith))
    revoke_ends payload (inr e) =
        let h : Hub = run_hub parse es new_hub in
        rw (e, hear-user h s.user_id) (ends (of_user s.user_id) (ground arith))
