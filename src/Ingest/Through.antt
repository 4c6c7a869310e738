-- ===== src/Ingest/Through.antt =====
-- What holds of every end of `Handle` (core/internal/ingest/ingest.go): a rule for statements on the content
-- that an event leaves, from what the handlers of a new event do.
use mathlib.Core.Path.{subst}
use notekeeper.Common.{
  ◌≡◌, refl, Bool, true, false, Option, none, some, arith, Bool-cases, inl, inr, ◌==◌,
}
use notekeeper.Db.Feed.{status}
use notekeeper.Db.{Result, ok, err, ◌>>=◌, Result-cases}
use notekeeper.Ingest.{What, Outcome, Event, Principal, Identity}
use notekeeper.Ingest.Checks.{sanitize, validate}
use notekeeper.Ingest.Tables.{Intake, IngestEvent, exceeded}
use notekeeper.Ingest.Handle.{
  Service, answer_new, entered, with_answer, answer_row, answer_linked, answer_active, limited,
  within_limits, answer_unlinked, resolve_identity, answer_sender, handle,
}
use notekeeper.Ingest.Ends.{Same}

-- An event that is in order is answered by the sender's identity.
pub handle-sender :
    (v : Service) (bot : Principal) (ev : Event) (seen s : Intake) (r : Outcome × Intake)
    → handle v bot ev seen s ≡ ok r
    → (validate v.utf8 (sanitize v.utf8 ev) ≡ ok tt)
      × (answer_sender (resolve_identity bot ev.sender seen) v bot (sanitize v.utf8 ev) s ≡ ok r)
unfolding handle
handle-sender v bot ev seen s r e = elim (Result-cases (validate v.utf8 (sanitize v.utf8 ev))) [
  | inr (x, f) ↦ absurd (ground (arith, e, f))
  | inl (tt, f) ↦ (f, ground (arith, e, f))
]

-- What holds of the result, if there is one.
abbrev pub Gives : (Outcome × Intake → Type 0) → Result (Outcome × Intake) → Type 0
Gives P (err e) = Unit {0}
Gives P (ok r) = P r

module _ (P : Outcome × Intake → Type 0) (v : Service) (bot : Principal) (ev : Event) (s : Intake)
    (same : (out : Outcome) (u : Intake) → Same s u → P (out, u)) where
  -- What the handler of a new event gives.
  abbrev pub New : Identity → Type 0
  New ident =
      (out : Outcome) (t : Intake)
      → answer_new v bot ident ev (entered bot ident ev s) ≡ ok (out, t)
      → P (out, with_answer bot ident ev out t)

  answer_row-Gives :
      (ident : Identity) (row : Option IngestEvent)
      → New ident
      → Gives P (answer_row row v bot ident ev s)
  unfolding answer_row
  answer_row-Gives ident none h =
      elim (Result-cases (answer_new v bot ident ev (entered bot ident ev s))) [
        | inl ((out, t), e) ↦ rw e (h out t e)
        | inr (x, e) ↦ rw e tt
      ]
  answer_row-Gives ident (some row) h = elim (Bool-cases (row.user_id == ident.user_id)) [
    | inl mine ↦ rw mine (same row.result s (refl, refl))
    | inr other ↦ rw other tt
  ]

  answer_linked-Gives :
      (ident : Identity) (cur : Option Identity)
      → New ident
      → Gives P (answer_linked cur v bot ident ev s)
  unfolding answer_linked
  answer_linked-Gives ident none h = same _ s (refl, refl)
  answer_linked-Gives ident (some cur) h = elim (Bool-cases (cur.user_id == ident.user_id)) [
    | inl yes_ ↦ rw yes_ (answer_row-Gives ident _ h)
    | inr no_ ↦ rw no_ (same _ s (refl, refl))
  ]

  answer_active-Gives :
      (ident : Identity) (active : Option Bool)
      → New ident
      → Gives P (answer_active active v bot ident ev s)
  unfolding answer_active
  answer_active-Gives ident none h = tt
  answer_active-Gives ident (some false) h = same _ s (refl, refl)
  answer_active-Gives ident (some true) h = answer_linked-Gives ident _ h

  limited-Gives : (what : Option What) (end : Outcome × Intake) → P end → P (limited what s end)
  unfolding limited
  limited-Gives none end h = h
  limited-Gives (some what) end h = same _ s (refl, refl)

  pub answer_sender-Gives :
      (who : Option Identity)
      → ((ident : Identity) → who ≡ some ident → New ident)
      → Gives P (answer_sender who v bot ev s)
  unfolding answer_sender answer_unlinked
  answer_sender-Gives none h = same _ _ (ground arith)
  answer_sender-Gives (some ident) h =
      after (answer_active (status ident.user_id s.db.users) v bot ident ev s)
        (answer_active-Gives ident _ (h ident refl))
    where
      after :
          (m : Result (Outcome × Intake))
          → Gives P m
          → Gives P (m >>= λ end. ok (within_limits v ident.user_id s end))
      after (err e) q = tt
      after (ok end) q = limited-Gives (exceeded v.limits ident.user_id s end.1) end q

-- The rule: what holds of every answer that leaves the content, and of what a new event of the sender
-- gives, holds of what the event leaves.
pub handle-Gives :
    (P : Outcome × Intake → Type 0) (v : Service) (bot : Principal) (ev : Event) (seen s : Intake)
    (r : Outcome × Intake)
    → ((out : Outcome) (u : Intake) → Same s u → P (out, u))
    → (validate v.utf8 (sanitize v.utf8 ev) ≡ ok tt
        → (ident : Identity) → resolve_identity bot ev.sender seen ≡ some ident
        → (out : Outcome) (t : Intake)
        → answer_new v bot ident (sanitize v.utf8 ev) (entered bot ident (sanitize v.utf8 ev) s)
          ≡ ok (out, t)
        → P (out, with_answer bot ident (sanitize v.utf8 ev) out t))
    → handle v bot ev seen s ≡ ok r
    → P r
handle-Gives P v bot ev seen s r same new e =
    let (valid, f) = handle-sender v bot ev seen s r e in
    subst (Gives P) f (
      answer_sender-Gives P v bot (sanitize v.utf8 ev) s same (resolve_identity bot ev.sender seen)
        (new valid))
