-- ===== src/Realtime/Bounded.antt =====
-- How many streams a user has, and that none outlives the shutdown (core/internal/realtime/hub.go).
use notekeeper.Common.{
  ℕ, ◌+◌, ◌<◌, ◌≤◌, ◌≡◌, ◌⊎◌, inl, inr, refl, Bool, true, false, Option, List, [], ◌∷◌, arith, leb,
  All, Bool-cases, Option-cases,
}
use notekeeper.Common.Str.{Str, cut}
use notekeeper.Db.Rows.{
  update, count, All-update, All-delete, All-weaken, count-update, count-delete,
}
use notekeeper.Realtime.{
  max_streams, Stream, Hub, new_hub, close, awaken, of_user, has_id, every, new_stream, subscribe,
  unsubscribe, shutdown, wait_outbox, stop_waiting, wake_outbox, wake_user, wake_all, colon,
  Channel, channel_changes, channel_sessions, channel_outbox, HubEvent, subscribed, unsubscribed,
  shut_down, waiting, stopped, connected, notified, taken, hear, catch_up, hub_step, run_hub,
}
use notekeeper.Realtime.Lasting.{drained, revoke-cases}

abbrev pub Ended : Stream → Type 0
Ended s = s.done ≡ true

-- A hub in order: no user has too many streams, no stream is open after the shutdown, and every stream
-- has been made.
pub record InOrder (h : Hub) : Type 0 where
  pub bounded : (user : ℕ) → count (of_user user) h.streams ≤ max_streams
  pub ended : (h.closing ≡ false) ⊎ All Ended h.streams
  pub made : All (λ (s : Stream). s.id < h.made) h.streams

abbrev same_streams : Hub → List Stream → Hub
same_streams h ss = record h { streams = ss }

update-InOrder :
    (h : Hub) (p : Stream → Bool) (f : Stream → Stream)
    → ((s : Stream) → (f s).user_id ≡ s.user_id)
    → ((s : Stream) → (f s).id ≡ s.id)
    → ((s : Stream) → Ended s → Ended (f s))
    → InOrder h
    → InOrder (same_streams h (update p f h.streams))
update-InOrder h p f user id end o = record {
  bounded = λ u.
      omega
        (arith, o.bounded u, count-update (of_user u) p f h.streams (λ s. ground (arith, user s)));
  ended = elim o.ended [
    | inl c ↦ inl c
    | inr a ↦ inr (All-update Ended Ended p f h.streams (λ s e _. end s e) (λ s e _. e) a)
  ];
  made =
      All-update (λ (s : Stream). s.id < h.made) (λ (s : Stream). s.id < h.made) p f h.streams
        (λ s e _. ground (arith, e, id s)) (λ s e _. e) o.made;
}

close-InOrder :
    (h : Hub) (p : Stream → Bool) (b : Bool)
    → InOrder h
    → InOrder (same_streams h (update p (close b) h.streams))
close-InOrder h p b o =
    update-InOrder h p (close b) (λ s. ground arith) (λ s. ground arith) (λ s e. ground (arith, e))
      o

wake-InOrder :
    (h : Hub) (p : Stream → Bool) → InOrder h → InOrder (same_streams h (update p awaken h.streams))
wake-InOrder h p o = update-InOrder h p awaken (λ s. refl) (λ s. refl) (λ s e. e) o

all_closed : (ss : List Stream) → All Ended (update every (close true) ss)
unfolding update
all_closed [] = tt
all_closed (s ∷ ss) = (ground arith, all_closed ss)

shutdown-InOrder : (h : Hub) → InOrder h → InOrder (shutdown h)
unfolding shutdown
shutdown-InOrder h o =
    let c = close-InOrder h every true o in
    record { bounded = c.bounded; ended = inr (all_closed h.streams); made = c.made }

unsubscribe-InOrder : (h : Hub) (id : ℕ) → InOrder h → InOrder (unsubscribe h id)
unfolding unsubscribe
unsubscribe-InOrder h id o = record {
  bounded = λ u. omega (arith, o.bounded u, count-delete (of_user u) (has_id id) h.streams);
  ended = elim o.ended [
    | inl c ↦ inl c
    | inr a ↦ inr (All-delete Ended Ended (has_id id) h.streams (λ s e _. e) a)
  ];
  made =
      All-delete (λ (s : Stream). s.id < h.made) (λ (s : Stream). s.id < h.made) (has_id id)
        h.streams (λ s e _. e) o.made;
}

joined-InOrder :
    (h : Hub) (user session : ℕ)
    → leb max_streams (count (of_user user) h.streams) ≡ false
    → InOrder h
    → InOrder (record h { streams = new_stream h user session ∷ h.streams; made = h.made + 1 })
unfolding count
joined-InOrder h user session e o = record {
  bounded = λ u. ground (arith, e, o.bounded u);
  ended = elim (Bool-cases h.closing) [
    | inr c ↦ inl c
    | inl c ↦ elim o.ended [ inl n ↦ absurd (cc) | inr a ↦ inr (ground (arith, c), a) ]
  ];
  made = (
    ground arith,
    All-weaken (λ (s : Stream). s.id < h.made) (λ (s : Stream). s.id < h.made + 1) h.streams
        (λ s lt. omega (arith, lt)) o.made,
  );
}

module _ (parse : Str → Option ℕ) where
  hear-InOrder :
      (h : Hub) (channel : Channel) (payload : Str)
      → InOrder h
      → InOrder (hear parse h channel payload)
  unfolding hear wake_user wake_outbox
  hear-InOrder h channel_changes payload o = elim (Option-cases (parse (cut colon payload).0)) [
    | inl e ↦ let q : hear parse h channel_changes payload ≡ h = ground (arith, e) in rw q o
    | inr (uid, e) ↦
        let q : hear parse h channel_changes payload ≡ wake_user h uid = ground (arith, e) in
        rw q (wake-InOrder h (of_user uid) o)
  ]
  hear-InOrder h channel_sessions payload o = elim (revoke-cases parse h payload) [
    | inl e ↦ rw e o
    | inr (p, e) ↦ rw e (close-InOrder h p false o)
  ]
  hear-InOrder h channel_outbox payload o = elim (Option-cases (parse payload)) [
    | inl e ↦ let q : hear parse h channel_outbox payload ≡ h = ground (arith, e) in rw q o
    | inr (i, e) ↦
        let q : hear parse h channel_outbox payload ≡ wake_outbox h i = ground (arith, e) in
        rw q (record { bounded = o.bounded; ended = o.ended; made = o.made })
  ]

  step-InOrder : (e : HubEvent) (h : Hub) → InOrder h → InOrder (hub_step parse e h)
  unfolding hub_step subscribe wait_outbox stop_waiting catch_up wake_all
  step-InOrder (subscribed user session) h o =
      elim (Bool-cases (leb max_streams (count (of_user user) h.streams))) [
        | inl e ↦
            let q : hub_step parse (subscribed user session) h ≡ h = ground (arith, e) in rw q o
        | inr e ↦
            let joined : Hub = record h {
              streams = new_stream h user session ∷ h.streams;
              made = h.made + 1;
            } in
            let q : hub_step parse (subscribed user session) h ≡ joined = ground (arith, e) in
            rw q (joined-InOrder h user session e o)
      ]
  step-InOrder (unsubscribed id) h o = unsubscribe-InOrder h id o
  step-InOrder shut_down h o = shutdown-InOrder h o
  step-InOrder (waiting i) h o = record {
    bounded = o.bounded;
    ended = o.ended;
    made =
        All-weaken (λ (s : Stream). s.id < h.made) (λ (s : Stream). s.id < h.made + 1) h.streams
          (λ s lt. omega (arith, lt)) o.made;
  }
  step-InOrder (stopped id) h o = record { bounded = o.bounded; ended = o.ended; made = o.made }
  step-InOrder connected h o =
      let w = wake-InOrder h every o in
      record { bounded = w.bounded; ended = w.ended; made = w.made }
  step-InOrder (notified channel payload) h o = hear-InOrder h channel payload o
  step-InOrder (taken id) h o =
      update-InOrder h (has_id id) drained (λ s. refl) (λ s. refl) (λ s e. e) o

  steps-InOrder : (es : List HubEvent) (h : Hub) → InOrder h → InOrder (run_hub parse es h)
  unfolding run_hub
  steps-InOrder [] h o = o
  steps-InOrder (e ∷ es) h o = steps-InOrder es (hub_step parse e h) (step-InOrder e h o)

  pub run-InOrder : (es : List HubEvent) → InOrder (run_hub parse es new_hub)
  unfolding count
  run-InOrder es =
      steps-InOrder es new_hub (record { bounded = λ u. omega arith; ended = inl refl; made = tt })
