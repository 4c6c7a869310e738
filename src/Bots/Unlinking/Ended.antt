-- ===== src/Bots/Unlinking/Ended.antt =====
-- What the end of a link ends (core/internal/bots/identities.go, `Unlink`, with `Handle` of
-- core/internal/ingest/ingest.go): the events of the account are turned away, and no reminder waits for the
-- chat.
use mathlib.Core.Path.{subst}
use notekeeper.Common.{
  ap, Option-cases, ℕ, ◌+◌, ltb, ◌≡◌, ◌≢◌, refl, sym, Bool, true, false, Option, none, some, List,
  [], ◌∷◌, arith, ◌==◌, All, Bool-cases, inl, inr,
}
use notekeeper.Common.Str.{Str, str_eq, str_eq_refl}
use notekeeper.Db.Rows.{All-weaken, find, find-All, update, delete, All-update, All-delete, All-of}
use notekeeper.Db.Feed.{status, change}
use notekeeper.Db.{queued, claimed, OutboxItem, OutboxKind, Result, ok, err, ◌>>=◌}
use notekeeper.Reminders.Endings.{cancel}
use notekeeper.Ingest.{What, Event, Outcome, rejected, Principal, Identity}
use notekeeper.Ingest.Checks.{sanitize, validate}
use notekeeper.Ingest.Tables.{exceeded, Intake, is_identity}
use notekeeper.Ingest.Handle.{
  Service, is_sender, notice_gap, unlink_notice_due, answer_unlinked, resolve_identity,
  answer_linked, answer_active, limited, within_limits, answer_sender, handle,
}
use notekeeper.Bots.{NoticeIds, queue_notices, security_notice, notice_targets}
use notekeeper.Bots.Unlinking.{
  waits_in, cancel_in, reminders_only, reminders_and_notices, Request, say_farewell, is_linked_to,
  unlinked, unlink_row, unlink_by, unlink,
}

abbrev Gives : {A : Type 0} → (A → Type 0) → Result A → Type 0
Gives P (err e) = Unit {0}
Gives P (ok a) = P a

-- An event that is turned away changes nothing.
abbrev TurnedAway : Intake → Outcome × Intake → Type 0
TurnedAway s (out, t) = (t ≡ s) × (out.result ≡ rejected)

-- No row has the identity and the user.
abbrev Gone : Request → Intake → Type 0
Gone q s = All (λ i. is_linked_to q i ≡ false) s.identities

unlinked-Gone : (q : Request) (i : Identity) (s : Intake) → Gone q (unlinked q i s)
unfolding unlinked
unlinked-Gone q i s =
    All-delete (λ _. Unit {0}) (λ i. is_linked_to q i ≡ false) (is_linked_to q) s.identities
      (λ i _ h. h) (All-of (λ _. Unit {0}) s.identities (λ _. tt))

unlink-Gone : (q : Request) (s : Intake) → Gives (Gone q) (unlink q s)
unfolding unlink
unlink-Gone q s = by_status (status q.user s.db.users)
  where
    by_row : (o : Option Identity) → Gives (Gone q) (unlink_row o q s)
    by_row none = unfold unlink_row in tt
    by_row (some i) =
        unfold unlink_row in
        elim (Bool-cases (i.user_id == q.user)) [
          | inl yes_ ↦ rw yes_ (unlinked-Gone q i s)
          | inr no_ ↦ rw no_ tt
        ]

    by_status : (o : Option Bool) → Gives (Gone q) (unlink_by o q s)
    by_status none = unfold unlink_by in tt
    by_status (some active) =
        unfold unlink_by in by_row (find (is_identity q.identity) s.identities)

module _ (v : Service) (bot : Principal) (ev : Event) (ident : Identity) (s : Intake) where
  linked-TurnedAway :
      (cur : Option Identity)
      → ((i : Identity) → cur ≡ some i → (i.user_id == ident.user_id) ≡ false)
      → Gives (TurnedAway s) (answer_linked cur v bot ident ev s)
  unfolding answer_linked
  linked-TurnedAway none h = (refl, refl)
  linked-TurnedAway (some i) h = rw (h i refl) (refl, refl)

  active-TurnedAway :
      (active : Option Bool)
      → ((i : Identity)
          → find (is_identity ident.id) s.identities ≡ some i
          → (i.user_id == ident.user_id) ≡ false)
      → Gives (TurnedAway s) (answer_active active v bot ident ev s)
  unfolding answer_active
  active-TurnedAway none h = tt
  active-TurnedAway (some false) h = (refl, refl)
  active-TurnedAway (some true) h = linked-TurnedAway _ h

  limits-TurnedAway :
      (m : Result (Outcome × Intake))
      → Gives (TurnedAway s) m
      → Gives (TurnedAway s) (m >>= λ end. ok (within_limits v ident.user_id s end))
  unfolding within_limits limited
  limits-TurnedAway (err e) h = tt
  limits-TurnedAway (ok (out, t)) h = by_limit (exceeded v.limits ident.user_id s t)
    where
      by_limit : (o : Option What) → TurnedAway s (limited o s (out, t))
      by_limit none = h
      by_limit (some what) = (refl, refl)

handle-TurnedAway :
    (q : Request) (v : Service) (bot : Principal) (ev : Event) (ident : Identity) (seen s : Intake)
    → resolve_identity bot ev.sender seen ≡ some ident
    → ident.id ≡ q.identity
    → ident.user_id ≡ q.user
    → Gone q s
    → Gives (TurnedAway s) (handle v bot ev seen s)
unfolding handle answer_sender
handle-TurnedAway q v bot ev ident seen s who same own gone =
    by_valid (validate v.utf8 (sanitize v.utf8 ev))
  where
    other_user :
        (i : Identity)
        → find (is_identity ident.id) s.identities ≡ some i
        → (i.user_id == ident.user_id) ≡ false
    other_user i found =
        let (p, fits) =
          find-All (λ i. is_linked_to q i ≡ false) (is_identity ident.id) s.identities i found
            gone in
        ground (arith, p, fits, same, own)

    by_valid :
        (m : Result (Unit {0}))
        → Gives (TurnedAway s) (
            m >>= λ _.
            answer_sender (resolve_identity bot ev.sender seen) v bot (sanitize v.utf8 ev) s)
    by_valid (err e) = tt
    by_valid (ok _) = rw who (
        limits-TurnedAway v bot (sanitize v.utf8 ev) ident s
          (answer_active (status ident.user_id s.db.users) v bot ident (sanitize v.utf8 ev) s)
          (active-TurnedAway v bot (sanitize v.utf8 ev) ident s (status ident.user_id s.db.users)
            other_user))

-- An answer that tells a sender that nobody has linked changes only who has been told and when.
abbrev OnlyTold : Intake → Outcome × Intake → Type 0
OnlyTold s (out, t) = (out.result ≡ rejected) × (t ≡ record s { senders = t.senders })

notice-senders :
    (bot : ℕ) (sender : Str) (now : ℕ) (s : Intake)
    → let t = (unlink_notice_due bot sender now s).1 in t ≡ record s { senders = t.senders }
unfolding unlink_notice_due
notice-senders bot sender now s = elim (Option-cases (find (is_sender bot sender) s.senders)) [
  | inl e ↦ rw (e, unlink_notice_due) refl
  | inr (w, e) ↦ elim (Bool-cases (ltb (w.last_notice_at + notice_gap) now)) [
    | inl long ↦ rw (e, long, unlink_notice_due) refl
    | inr recent ↦ rw (e, recent, unlink_notice_due) refl
  ]
]

unlinked-OnlyTold :
    (bot : ℕ) (sender : Str) (now : ℕ) (s : Intake) → OnlyTold s (answer_unlinked bot sender now s)
unfolding answer_unlinked
unlinked-OnlyTold bot sender now s = (refl, notice-senders bot sender now s)

handle-unknown :
    (v : Service) (bot : Principal) (ev : Event) (seen s : Intake)
    → resolve_identity bot ev.sender seen ≡ none
    → Gives (OnlyTold s) (handle v bot ev seen s)
unfolding handle answer_sender
handle-unknown v bot ev seen s who = by_valid (validate v.utf8 (sanitize v.utf8 ev))
  where
    by_valid :
        (m : Result (Unit {0}))
        → Gives (OnlyTold s) (
            m >>= λ _.
            answer_sender (resolve_identity bot ev.sender seen) v bot (sanitize v.utf8 ev) s)
    by_valid (err e) = tt
    by_valid (ok _) = rw who (unlinked-OnlyTold bot.instance_id _ v.now s)

-- When a link is ended, an event of its account is rejected in every store with the identities that the end
-- of the link leaves, whether the lookup of the sender found the identity, while it was linked, or finds
-- none. Nothing changes but, where it finds none, the record of when the sender was told how to link.
pub unlink_ends :
    (q : Request) (v : Service) (bot : Principal) (ev : Event) (seen s t u : Intake)
    (r : Outcome × Intake)
    → unlink q s ≡ ok t
    → u.identities ≡ t.identities
    → ((ident : Identity)
        → resolve_identity bot ev.sender seen ≡ some ident
        → (ident.id ≡ q.identity) × (ident.user_id ≡ q.user))
    → handle v bot ev seen u ≡ ok r
    → (r.0.result ≡ rejected)
      × (r.1 ≡ record u { senders = r.1.senders })
      × ((ident : Identity) → resolve_identity bot ev.sender seen ≡ some ident → r.1 ≡ u)
unlink_ends q v bot ev seen s t u r ended left whose answer =
    let gone : Gone q t = subst (Gives (Gone q)) ended (unlink-Gone q s) in
    let gone_still : Gone q u = subst (All (λ i. is_linked_to q i ≡ false)) (sym left) gone in
    elim (Option-cases (resolve_identity bot ev.sender seen)) [
      | inl none_ ↦
          let (x, y) = subst (Gives (OnlyTold u)) answer (handle-unknown v bot ev seen u none_) in
          (x, y, λ ident e. absurd (ground (arith, none_, e)))
      | inr (ident, found) ↦
          let (same, own) = whose ident found in
          let (x, y) =
            subst (Gives (TurnedAway u)) answer
              (handle-TurnedAway q v bot ev ident seen u found same own gone_still) in
          (y, rw x refl, λ i e. x)
    ]

-- No reminder waits for a chat.
module _ (q : Request) (bot : ℕ) (c : Str) where
  abbrev Quiet : List OutboxItem → Type 0
  Quiet = All (λ o. waits_in reminders_only q.user bot c o ≡ false)

  notices-Quiet :
      (ids : NoticeIds) (user payload now created : ℕ) (is : List Identity) (k : ℕ)
      (items : List OutboxItem)
      → Quiet items
      → Quiet (queue_notices ids k user payload now created is items)
  unfolding queue_notices
  notices-Quiet ids user payload now created [] k items h = h
  notices-Quiet ids user payload now created (i ∷ is) k items h =
      notices-Quiet ids user payload now created is (k + 1) _ (refl, h)

  fewer : (k : OutboxKind) → reminders_only k ≡ true → reminders_and_notices k ≡ true
  fewer OutboxKind.reminder h = refl
  fewer OutboxKind.notice h = absurd (cc)
  fewer OutboxKind.lifecycle h = absurd (cc)

  cancelled-Quiet :
      (items : List OutboxItem)
      → Quiet (update (waits_in reminders_and_notices q.user bot c) (cancel q.now) items)
  cancelled-Quiet items =
      All-update (λ _. Unit {0}) (λ o. waits_in reminders_only q.user bot c o ≡ false)
        (waits_in reminders_and_notices q.user bot c) (cancel q.now) items (λ o _ _. ground arith)
        (λ o _ h. elim (Bool-cases (reminders_only o.kind)) [
          | inl e ↦ ground (arith, fewer o.kind e, h, e)
          | inr e ↦ rw e refl
        ])
        (All-of (λ _. Unit {0}) items (λ _. tt))

  unlinked-Quiet :
      (i : Identity) (s : Intake)
      → i.bot_instance_id ≡ bot
      → i.conversation_id ≡ some c
      → Quiet (unlinked q i s).db.outbox
  unfolding unlinked security_notice say_farewell cancel_in change
  unlinked-Quiet i s here there =
      rw (here, there)
        (notices-Quiet q.notice_ids q.user q.notice q.now q.database_now
          (notice_targets q.user (delete (is_linked_to q) s.identities)) 0 _
          (refl, cancelled-Quiet s.db.outbox))

-- A reminder of a user that a bot has for a chat is neither queued nor claimed.
abbrev pub NotWaiting : ℕ → ℕ → Str → OutboxItem → Type 0
NotWaiting user bot c o =
    o.kind ≡ OutboxKind.reminder
    → o.user_id ≡ some user
    → o.bot_instance_id ≡ bot
    → o.conversation_id ≡ c
    → (o.state ≢ queued) × (o.state ≢ claimed)

waits_in-NotWaiting :
    (user bot : ℕ) (c : Str) (o : OutboxItem)
    → waits_in reminders_only user bot c o ≡ false
    → NotWaiting user bot c o
waits_in-NotWaiting user bot c o h kind own here there =
    let same : str_eq o.conversation_id c ≡ true = rw there (str_eq_refl c) in
    let reminder_kind : reminders_only o.kind ≡ true = ap reminders_only kind in
    (
      (λ e. absurd (ground (arith, h, reminder_kind, same, own, here, e))),
      (λ e. absurd (ground (arith, h, reminder_kind, same, own, here, e))),
    )

unlink-Quiet :
    (q : Request) (i : Identity) (c : Str) (s t : Intake)
    → find (is_identity q.identity) s.identities ≡ some i
    → i.conversation_id ≡ some c
    → unlink q s ≡ ok t
    → Quiet q i.bot_instance_id c t.db.outbox
unfolding unlink
unlink-Quiet q i c s t row there ended =
    subst (Gives (λ u. Quiet q i.bot_instance_id c u.db.outbox)) ended
      (by_status (status q.user s.db.users))
  where
    by_status :
        (o : Option Bool) → Gives (λ u. Quiet q i.bot_instance_id c u.db.outbox) (unlink_by o q s)
    by_status none = unfold unlink_by in tt
    by_status (some active) =
        unfold unlink_by unlink_row in
        rw row (elim (Bool-cases (i.user_id == q.user)) [
          | inl yes_ ↦ rw yes_ (unlinked-Quiet q i.bot_instance_id c i s refl there)
          | inr no_ ↦ rw no_ tt
        ])

-- When a link is ended, no reminder of the user that the bot has for the chat of the account is queued or
-- claimed.
pub unlink_silences :
    (q : Request) (i : Identity) (c : Str) (s t : Intake)
    → find (is_identity q.identity) s.identities ≡ some i
    → i.conversation_id ≡ some c
    → unlink q s ≡ ok t
    → All (NotWaiting q.user i.bot_instance_id c) t.db.outbox
unlink_silences q i c s t row there ended =
    All-weaken (λ o. waits_in reminders_only q.user i.bot_instance_id c o ≡ false)
      (NotWaiting q.user i.bot_instance_id c) t.db.outbox
      (waits_in-NotWaiting q.user i.bot_instance_id c) (unlink-Quiet q i c s t row there ended)
