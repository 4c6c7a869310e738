-- ===== src/Realtime/Lasting.antt =====
-- What stays true of a stream while it is with the hub (core/internal/realtime/hub.go).
use native.Mathlib.Decide.{ℕ_discrete}
use mathlib.Core.Option
use notekeeper.Common.{
  ℕ, ◌+◌, ◌<◌, ◌≡◌, ◌≢◌, ◌⊎◌, inl, inr, refl, ap, ◌∙◌, Bool, true, false, Option, none, some, List,
  [], ◌∷◌, arith, leb, if◌then◌else◌, All, Bool-cases, Option-cases,
}
use notekeeper.Common.Str.{Str, codes, str_eq, cut}
use notekeeper.Db.Rows.{find, update, count, find-update, find-fits, find-delete, find-delete-other}
use notekeeper.Realtime.{
  max_streams, Stream, Hub, close, awaken, of_user, of_session, has_id, every, new_stream,
  subscribe, unsubscribe, shutdown, wait_outbox, stop_waiting, wake_outbox, wake_user, wake_all,
  colon, Channel, channel_changes, channel_sessions, channel_outbox, HubEvent, subscribed,
  unsubscribed, shut_down, waiting, stopped, connected, notified, taken, revoke, hear, catch_up,
  hub_step, run_hub,
}

abbrev pub drained : Stream → Stream
drained s = record s { wake = false }

-- A revocation closes some streams, or does nothing.
pub revoke-cases :
    (parse : Str → Option ℕ) (h : Hub) (payload : Str)
    → (revoke parse h payload ≡ h)
      ⊎ ((p : Stream → Bool) × (revoke parse h payload
            ≡ record h { streams = update p (close false) h.streams }))
unfolding revoke
revoke-cases parse h payload = elim (Option-cases (parse (cut colon payload).1)) [
  | inl e ↦ inl (ground (arith, e))
  | inr (uid, e) ↦ elim (Bool-cases (cut colon payload).2) [
    | inr c ↦ inl (ground (arith, e, c))
    | inl c ↦ elim (Bool-cases (str_eq (cut colon payload).0 (codes "s"))) [
      | inl k ↦ inr (of_session uid, ground (arith, e, c, k))
      | inr k ↦ elim (Bool-cases (str_eq (cut colon payload).0 (codes "u"))) [
        | inl u ↦ inr (of_user uid, ground (arith, e, c, k, u))
        | inr u ↦ inl (ground (arith, e, c, k, u))
      ]
    ]
  ]
]

-- An event that does not take the wake of the stream, if that matters.
abbrev pub Quiet : ℕ → (Stream → Type 0) → HubEvent → Type 0
Quiet id P (taken k) = (k ≢ id) ⊎ ((s : Stream) → P s → P (drained s))
Quiet id P (subscribed user session) = Unit {0}
Quiet id P (unsubscribed k) = Unit {0}
Quiet id P shut_down = Unit {0}
Quiet id P (waiting i) = Unit {0}
Quiet id P (stopped k) = Unit {0}
Quiet id P connected = Unit {0}
Quiet id P (notified channel payload) = Unit {0}

module _ (parse : Str → Option ℕ) (id : ℕ) (P : Stream → Type 0)
    (awakens : (s : Stream) → P s → P (awaken s))
    (closes : (b : Bool) (s : Stream) → P s → P (close b s)) where
  -- The stream has been made, and is gone or has the property.
  abbrev pub Lasts : Hub → Type 0
  Lasts h =
      (id < h.made)
      × ((find (has_id id) h.streams ≡ none)
          ⊎ ((s : Stream) × (find (has_id id) h.streams ≡ some s) × P s))

  update-Lasts :
      (ss : List Stream) (p : Stream → Bool) (f : Stream → Stream)
      → ((s : Stream) → (f s).id ≡ s.id)
      → ((s : Stream) → s.id ≡ id → P s → (p s ≡ false) ⊎ P (f s))
      → (find (has_id id) ss ≡ none) ⊎ ((s : Stream) × (find (has_id id) ss ≡ some s) × P s)
      → (find (has_id id) (update p f ss) ≡ none)
        ⊎ ((s : Stream) × (find (has_id id) (update p f ss) ≡ some s) × P s)
  update-Lasts ss p f same keep (inl e) = inl (
      find-update (has_id id) p f ss (λ s. ground (arith, same s))
      ∙ ap (Option.map (λ s. if p s then f s else s)) e)
  update-Lasts ss p f same keep (inr (s, e, h)) =
      let found =
        find-update (has_id id) p f ss (λ s. ground (arith, same s))
        ∙ ap (Option.map (λ s. if p s then f s else s)) e in
      inr (
        _,
        found,
        after (Bool-cases (p s)) (keep s (ground (arith, find-fits (has_id id) ss s e)) h),
      )
    where
      after : (p s ≡ true) ⊎ (p s ≡ false) → (p s ≡ false) ⊎ P (f s) → P (if p s then f s else s)
      after (inl t) (inl n) = absurd (cc)
      after (inl t) (inr q) = rw t q
      after (inr n) k = rw n h

  close-id : (b : Bool) (s : Stream) → (close b s).id ≡ s.id
  close-id b s = ground arith

  close-Lasts :
      (h : Hub) (p : Stream → Bool) (b : Bool)
      → Lasts h
      → Lasts (record h { streams = update p (close b) h.streams })
  close-Lasts h p b (lt, l) =
      (lt, update-Lasts h.streams p (close b) (close-id b) (λ s _ q. inr (closes b s q)) l)

  wake-Lasts :
      (h : Hub) (p : Stream → Bool)
      → Lasts h
      → Lasts (record h { streams = update p awaken h.streams })
  wake-Lasts h p (lt, l) =
      (lt, update-Lasts h.streams p awaken (λ s. refl) (λ s _ q. inr (awakens s q)) l)

  subscribe-Lasts :
      (h : Hub) (user session : ℕ) → Lasts h → Lasts (hub_step parse (subscribed user session) h)
  unfolding hub_step subscribe find
  subscribe-Lasts h user session (lt, l) =
      elim (Bool-cases (leb max_streams (count (of_user user) h.streams))) [
        | inl e ↦
            let q : hub_step parse (subscribed user session) h ≡ h = ground (arith, e) in
            rw q (lt, l)
        | inr e ↦
            let q : hub_step parse (subscribed user session) h ≡ joined = ground (arith, e) in
            rw q (omega (arith, lt), added l)
      ]
    where
      joined : Hub
      joined = record h { streams = new_stream h user session ∷ h.streams; made = h.made + 1 }

      new_id : (new_stream h user session).id ≡ h.made
      new_id = ground arith

      skip : find (has_id id) (new_stream h user session ∷ h.streams) ≡ find (has_id id) h.streams
      skip = ground (arith, lt, new_id)

      added :
          (find (has_id id) h.streams ≡ none)
            ⊎ ((s : Stream) × (find (has_id id) h.streams ≡ some s) × P s)
          → (find (has_id id) (new_stream h user session ∷ h.streams) ≡ none)
            ⊎ ((s : Stream) × (find (has_id id) (new_stream h user session ∷ h.streams) ≡ some s)
                × P s)
      added (inl e) = inl (skip ∙ e)
      added (inr (s, e, q)) = inr (s, skip ∙ e, q)

  unsubscribe-Lasts : (h : Hub) (k : ℕ) → Lasts h → Lasts (unsubscribe h k)
  unfolding unsubscribe
  unsubscribe-Lasts h k (lt, l) = elim (ℕ_discrete k id) [
    | yes e ↦ (lt, inl (rw e (find-delete (has_id id) h.streams)))
    | no ne ↦
        let same =
          find-delete-other (has_id id) (has_id k) h.streams (λ s e. ground (arith, e, ne)) in
        (lt, rw same l)
  ]

  revoke-Lasts : (h : Hub) (payload : Str) → Lasts h → Lasts (revoke parse h payload)
  revoke-Lasts h payload l = elim (revoke-cases parse h payload) [
    | inl e ↦ rw e l
    | inr (p, e) ↦ rw e (close-Lasts h p false l)
  ]

  hear-Lasts :
      (h : Hub) (channel : Channel) (payload : Str) → Lasts h → Lasts (hear parse h channel payload)
  unfolding hear wake_user wake_outbox
  hear-Lasts h channel_changes payload l = elim (Option-cases (parse (cut colon payload).0)) [
    | inl e ↦ let q : hear parse h channel_changes payload ≡ h = ground (arith, e) in rw q l
    | inr (uid, e) ↦
        let q : hear parse h channel_changes payload ≡ wake_user h uid = ground (arith, e) in
        rw q (wake-Lasts h (of_user uid) l)
  ]
  hear-Lasts h channel_sessions payload l = revoke-Lasts h payload l
  hear-Lasts h channel_outbox payload l = elim (Option-cases (parse payload)) [
    | inl e ↦ let q : hear parse h channel_outbox payload ≡ h = ground (arith, e) in rw q l
    | inr (i, e) ↦
        let q : hear parse h channel_outbox payload ≡ wake_outbox h i = ground (arith, e) in rw q l
  ]

  step-Lasts : (e : HubEvent) (h : Hub) → Quiet id P e → Lasts h → Lasts (hub_step parse e h)
  unfolding hub_step shutdown wait_outbox stop_waiting catch_up wake_all
  step-Lasts (subscribed user session) h q l = subscribe-Lasts h user session l
  step-Lasts (unsubscribed k) h q l = unsubscribe-Lasts h k l
  step-Lasts shut_down h q l = close-Lasts h every true l
  step-Lasts (waiting i) h q (lt, l) = (omega (arith, lt), l)
  step-Lasts (stopped k) h q l = l
  step-Lasts connected h q l = wake-Lasts h every l
  step-Lasts (notified channel payload) h q l = hear-Lasts h channel payload l
  step-Lasts (taken k) h (inl ne) (lt, l) = (
    lt,
    update-Lasts h.streams (has_id k) drained (λ s. refl) (λ s i p. inl (ground (arith, i, ne))) l,
  )
  step-Lasts (taken k) h (inr keep) (lt, l) =
      (lt, update-Lasts h.streams (has_id k) drained (λ s. refl) (λ s _ p. inr (keep s p)) l)

  pub run-Lasts :
      (es : List HubEvent) (h : Hub) → All (Quiet id P) es → Lasts h → Lasts (run_hub parse es h)
  unfolding run_hub
  run-Lasts [] h q l = l
  run-Lasts (e ∷ es) h (q, qs) l = run-Lasts es (hub_step parse e h) qs (step-Lasts e h q l)
