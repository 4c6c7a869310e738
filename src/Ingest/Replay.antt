-- ===== src/Ingest/Replay.antt =====
-- An event that is delivered again gets the answer of the first time (core/internal/ingest/ingest.go, `Handle`).
use mathlib.Core.Path.{subst}
use notekeeper.Common.{
  ℕ, ◌≡◌, refl, sym, ap, ◌∙◌, Bool, true, false, Option, none, some, arith, Bool-cases, inl, inr,
  ◌==◌,
}
use notekeeper.Common.Str.{Str, str_eq_refl}
use notekeeper.Db.Rows.{find, update}
use notekeeper.Db.Feed.{status}
use notekeeper.Db.{Result, ok, err, ◌>>=◌}
use notekeeper.Ingest.{What, Answer, rejected, Outcome, Event, Principal, Identity}
use notekeeper.Ingest.Checks.{sanitize, validate}
use notekeeper.Ingest.Tables.{Intake, IngestEvent, is_event, is_identity, exceeded}
use notekeeper.Ingest.Handle.{
  Service, entered, with_answer, answer_row, answer_linked, answer_active, limited, within_limits,
  resolve_identity, answer_sender, handle,
}
use notekeeper.Ingest.Ends.{Ends, answer_new-Ends}
use notekeeper.Ingest.Through.{handle-sender}

abbrev pub is_rejected : Answer → Bool
is_rejected rejected = true
is_rejected _ = false

-- The row of the event holds the answer, and is the user's.
abbrev pub Answered : ℕ → Str → ℕ → Outcome → Intake → Type 0
Answered bot event user out t =
    (e : IngestEvent) × (find (is_event bot event) t.events ≡ some e)
    × (e.user_id ≡ user)
    × (e.result ≡ out)

-- The answer stands in the row of the event, unless the event is rejected.
abbrev Rowed : ℕ → Str → ℕ → Outcome × Intake → Type 0
Rowed bot event user (out, t) = is_rejected out.result ≡ false → Answered bot event user out t

abbrev AllRowed : ℕ → Str → ℕ → Result (Outcome × Intake) → Type 0
AllRowed bot event user (err e) = Unit {0}
AllRowed bot event user (ok r) = Rowed bot event user r

module _ (v : Service) (bot : Principal) (ident : Identity) (ev : Event) (s : Intake) where
  with_answer-Rowed :
      (m : Result (Outcome × Intake))
      → Ends (entered bot ident ev s) m
      → AllRowed bot.instance_id ev.event_id ident.user_id
          (m >>= λ r. ok (r.0, with_answer bot ident ev r.0 r.1))
  unfolding find update
  with_answer-Rowed (err e) q = tt
  with_answer-Rowed (ok (out, t)) (a, q) = λ h. (
    record {
      bot_instance_id = bot.instance_id;
      event_id = ev.event_id;
      user_id = ident.user_id;
      result = out;
    },
    rw a.0 (ground (arith, str_eq_refl ev.event_id)),
    refl,
    refl,
  )

  answer_row-Rowed :
      (row : Option IngestEvent)
      → find (is_event bot.instance_id ev.event_id) s.events ≡ row
      → AllRowed bot.instance_id ev.event_id ident.user_id (answer_row row v bot ident ev s)
  unfolding answer_row
  answer_row-Rowed none f =
      with_answer-Rowed _ (answer_new-Ends v bot ident ev (entered bot ident ev s))
  answer_row-Rowed (some row) f = elim (Bool-cases (row.user_id == ident.user_id)) [
    | inl mine ↦ rw mine (λ h. (row, f, ground (arith, mine), refl))
    | inr other ↦ rw other tt
  ]

  answer_linked-Rowed :
      (cur : Option Identity)
      → AllRowed bot.instance_id ev.event_id ident.user_id (answer_linked cur v bot ident ev s)
  unfolding answer_linked
  answer_linked-Rowed none = λ h. absurd (cc)
  answer_linked-Rowed (some cur) = elim (Bool-cases (cur.user_id == ident.user_id)) [
    | inl same ↦ rw same (answer_row-Rowed _ refl)
    | inr gone ↦ rw gone (λ h. absurd (cc))
  ]

  answer_active-Rowed :
      (active : Option Bool)
      → AllRowed bot.instance_id ev.event_id ident.user_id (answer_active active v bot ident ev s)
  unfolding answer_active
  answer_active-Rowed none = tt
  answer_active-Rowed (some false) = λ h. absurd (cc)
  answer_active-Rowed (some true) = answer_linked-Rowed _

limited-Rowed :
    (bot : ℕ) (event : Str) (user : ℕ) (s : Intake) (what : Option What) (end : Outcome × Intake)
    → Rowed bot event user end
    → Rowed bot event user (limited what s end)
unfolding limited
limited-Rowed bot event user s none end q = q
limited-Rowed bot event user s (some what) end q = λ h. absurd (cc)

answer_sender-Rowed :
    (v : Service) (bot : Principal) (ev : Event) (s : Intake) (ident : Identity)
    → AllRowed bot.instance_id ev.event_id ident.user_id (answer_sender (some ident) v bot ev s)
unfolding answer_sender
answer_sender-Rowed v bot ev s ident =
    after (answer_active (status ident.user_id s.db.users) v bot ident ev s)
      (answer_active-Rowed v bot ident ev s _)
  where
    after :
        (m : Result (Outcome × Intake))
        → AllRowed bot.instance_id ev.event_id ident.user_id m
        → AllRowed bot.instance_id ev.event_id ident.user_id
            (m >>= λ end. ok (within_limits v ident.user_id s end))
    after (err e) q = tt
    after (ok end) q =
        limited-Rowed bot.instance_id ev.event_id ident.user_id s
          (exceeded v.limits ident.user_id s end.1) end q

-- The sender is one that the user, who is active, has linked to the bot.
abbrev pub Linked : Principal → Str → ℕ → Intake → Type 0
Linked bot sender user s =
    (i : Identity) × (resolve_identity bot sender s ≡ some i)
    × (i.user_id ≡ user)
    × (find (is_identity i.id) s.identities ≡ some i)
    × (status user s.db.users ≡ some true)

-- A store that does not change exceeds no limit.
exceeded-same : (v : Service) (user : ℕ) (s : Intake) → exceeded v.limits user s s ≡ none
unfolding exceeded
exceeded-same v user s = ground arith

answer_again :
    (w : Service) (bot : Principal) (i : Identity) (ev : Event) (u : Intake) (out : Outcome)
    (old : IngestEvent)
    → find (is_identity i.id) u.identities ≡ some i
    → status i.user_id u.db.users ≡ some true
    → find (is_event bot.instance_id ev.event_id) u.events ≡ some old
    → old.user_id ≡ i.user_id
    → old.result ≡ out
    → answer_sender (some i) w bot ev u ≡ ok (out, u)
unfolding answer_sender answer_active answer_linked answer_row within_limits limited
answer_again w bot i ev u out old found on row owner answer =
    let stored : answer_active (status i.user_id u.db.users) w bot i ev u ≡ ok (out, u) =
      ground (arith, on, found, row, owner, answer) in
    let none_ : exceeded w.limits i.user_id u u ≡ none = exceeded-same w i.user_id u in
    rw stored (rw none_ refl)

-- An event that was answered, and not rejected, is answered in the same way at every later time at
-- which its row is still there and the sender is linked to the same, active user; that leaves the store
-- as it is.
pub handle_replay :
    (v w : Service) (bot : Principal) (ev : Event) (seen s t u : Intake) (ident : Identity)
    (out : Outcome)
    → handle v bot ev seen s ≡ ok (out, t)
    → is_rejected out.result ≡ false
    → resolve_identity bot ev.sender seen ≡ some ident
    → w.utf8 ≡ v.utf8
    → find (is_event bot.instance_id ev.event_id) u.events
      ≡ find (is_event bot.instance_id ev.event_id) t.events
    → Linked bot ev.sender ident.user_id u
    → handle w bot ev u u ≡ ok (out, u)
unfolding handle sanitize
handle_replay v w bot ev seen s t u ident out e kept who same row (i, r, mine, found, on) =
    let (valid, f) = handle-sender v bot ev seen s (out, t) e in
    let stored : AllRowed bot.instance_id ev.event_id ident.user_id (ok (out, t)) =
      subst (AllRowed bot.instance_id ev.event_id ident.user_id)
        (ap (λ o. answer_sender o v bot (sanitize v.utf8 ev) s) (sym who) ∙ f)
        (answer_sender-Rowed v bot (sanitize v.utf8 ev) s ident) in
    let (old, g, owner, answer) = stored kept in
    let again : answer_sender (some i) w bot (sanitize v.utf8 ev) u ≡ ok (out, u) =
      answer_again w bot i (sanitize v.utf8 ev) u out old found (rw mine on) (row ∙ g)
        (owner ∙ sym mine) answer in
    let ordered : validate w.utf8 (sanitize w.utf8 ev) ≡ ok tt =
      ap (λ c. validate c (sanitize c ev)) same ∙ valid in
    let alike : sanitize w.utf8 ev ≡ sanitize v.utf8 ev = ap (λ c. sanitize c ev) same in
    rw ordered (rw (r, alike) again)
