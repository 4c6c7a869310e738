-- ===== src/Ingest/Answered.antt =====
-- Every note has a part, whatever event is handled (core/internal/ingest/ingest.go, `deleted` and `Handle`).
use mathlib.Core.Path.{subst}
use notekeeper.Common.{
  ℕ, ◌≤◌, ◌<◌, ◌≡◌, refl, sym, ap, ◌∙◌, true, some, List, [], ◌∷◌, arith, All, Bool-cases,
  Option-cases, inl, inr, length, ltb, leb,
}
use notekeeper.Db.Rows.{update_one, update_one-rows, All-update, All-weaken, All-select}
use notekeeper.Db.Feed.{change}
use notekeeper.Db.{Db, Entity, upsert, ok, Result-cases, is_active}
use notekeeper.Reminders.Trash.{on_dismiss}
use notekeeper.Reminders.Trash.Apart.{on_dismiss-notes, on_dismiss-parts}
use notekeeper.Notes.{in_state, dismissed}
use notekeeper.Notes.Regroup.{part_by_id, count_note_parts}
use notekeeper.Notes.Regroup.Kept.{HasPart, Kept}
use notekeeper.Ingest.{
  Outcome, Kind, message_created, message_edited, message_deleted, Event, Principal, Identity,
}
use notekeeper.Ingest.Checks.{sanitize, validate, good_kind}
use notekeeper.Ingest.Tables.{Intake, SourceRow}
use notekeeper.Ingest.Create.{Delivery}
use notekeeper.Ingest.Change.{is_own, own_rows, to_trash, take_parts, remove_mine, handle_deleted}
use notekeeper.Ingest.Handle.{
  Service, delivery, dispatch, answer_new, entered, resolve_identity, handle,
}
use notekeeper.Ingest.Found.{OneRow, Found, found-same, message_rows-Found}
use notekeeper.Ingest.Kept.{InNote, take_parts-Kept}
use notekeeper.Ingest.Filled.{Fills, handle_created-Fills, handle_edited-Fills}
use notekeeper.Ingest.Through.{handle-Gives}

-- The parts that the sender has in the message are parts of one note.
abbrev pub Together : Delivery → Intake → Type 0
Together d s = (note : ℕ) × All (λ r. r.part.note_id ≡ note) (own_rows d s)

to_trash-Fills : (d : Delivery) (note : ℕ) (s : Intake) → Kept s.db → Fills (to_trash d note s)
unfolding to_trash change
to_trash-Fills d note s k =
    let user = d.identity.user_id in
    let fits = in_state true note user in
    elim (Option-cases (update_one fits (dismissed d.now) s.db.notes)) [
      | inl e ↦ rw e tt
      | inr ((n, ns), e) ↦
          let rest : Db = record s.db { notes = ns } in
          let end : Db =
            change (on_dismiss rest user note) user Entity.note note upsert (some n.version) in
          let rows = update_one-rows fits (dismissed d.now) s.db.notes n ns e in
          let kept : Kept rest = rw rows (
            All-update (HasPart s.db.parts) (HasPart s.db.parts) fits (dismissed d.now) s.db.notes
              (λ m p _. p) (λ m p _. p) k) in
          let notes : end.notes ≡ rest.notes = on_dismiss-notes rest user note in
          let parts : end.parts ≡ rest.parts = on_dismiss-parts rest user note in
          let kept_end : Kept end = rw (notes, parts) kept in rw e kept_end
    ]

own_rows-InNote :
    (d : Delivery) (s : Intake) (note : ℕ)
    → OneRow d.identity.user_id s.db.parts
    → All (λ r. r.part.note_id ≡ note) (own_rows d s)
    → All (InNote d.identity.user_id note s.db.parts) (own_rows d s)
unfolding own_rows
own_rows-InNote d s note one together =
    both (own_rows d s)
      (All-select (Found d s.db.parts) (Found d s.db.parts) (is_own d) _ (λ r h e. h)
        (message_rows-Found d s.db one))
      together
  where
    both :
        (rs : List SourceRow)
        → All (Found d s.db.parts) rs
        → All (λ r. r.part.note_id ≡ note) rs
        → All (InNote d.identity.user_id note s.db.parts) rs
    both [] f h = tt
    both (r ∷ rs) (f, fs) (h, hs) = (
      All-weaken _ (λ p. part_by_id d.identity.user_id r.part.id p ≡ true → p.note_id ≡ note)
          s.db.parts (λ p same fits. ap (λ x. x.note_id) (same fits) ∙ h)
          (found-same d.identity.user_id r.part.id s.db.parts r.part one f.0),
      both rs fs hs,
    )

take_parts-Fills :
    (d : Delivery) (s : Intake) (note : ℕ) (mine : List SourceRow)
    → OneRow d.identity.user_id s.db.parts
    → All (InNote d.identity.user_id note s.db.parts) mine
    → length mine < count_note_parts d.identity.user_id note s.db.parts
    → Kept s.db
    → Fills (take_parts d note mine s)
take_parts-Fills d s note mine one i more k = elim (Result-cases (take_parts d note mine s)) [
  | inr (x, e) ↦ rw e tt
  | inl ((out, t), e) ↦
      rw e (take_parts-Kept d.identity.user_id note d mine s out t refl one i more k e)
]

remove_mine-Fills :
    (d : Delivery) (s : Intake) (note : ℕ) (mine : List SourceRow)
    → OneRow d.identity.user_id s.db.parts
    → All (InNote d.identity.user_id note s.db.parts) mine
    → All (λ r. r.part.note_id ≡ note) mine
    → Kept s.db
    → Fills (remove_mine d mine s)
unfolding remove_mine
remove_mine-Fills d s note [] one i h k = k
remove_mine-Fills d s note (r ∷ rs) one i (h, hs) k =
    elim (Bool-cases
      (leb (count_note_parts d.identity.user_id r.part.note_id s.db.parts) (length (r ∷ rs)))) [
        | inl all_ ↦ elim (Bool-cases (is_active r.note_state)) [
          | inl on ↦ rw (all_, on) (to_trash-Fills d r.part.note_id s k)
          | inr off ↦ rw (all_, off) k
        ]
        | inr some_ ↦
            let more : length (r ∷ rs)
                < count_note_parts d.identity.user_id r.part.note_id s.db.parts =
              ground (arith, some_) in
            let here : All (InNote d.identity.user_id r.part.note_id s.db.parts) (r ∷ rs) =
              subst (λ m. All (InNote d.identity.user_id m s.db.parts) (r ∷ rs)) (sym h) i in
            rw some_ (take_parts-Fills d s r.part.note_id (r ∷ rs) one here more k)
      ]

handle_deleted-Fills :
    (d : Delivery) (s : Intake)
    → OneRow d.identity.user_id s.db.parts
    → Together d s
    → Kept s.db
    → Fills (handle_deleted d s)
unfolding handle_deleted
handle_deleted-Fills d s one (note, h) k =
    remove_mine-Fills d s note (own_rows d s) one (own_rows-InNote d s note one h) h k

-- A message that is new or edited has a part.
has_parts :
    (v : Service) (ev : Event)
    → validate v.utf8 ev ≡ ok tt
    → ev.kind ≡ message_created
    → 1 ≤ length ev.parts
unfolding validate good_kind
has_parts v ev e c = ground (arith, e, c)

dispatch-Fills :
    (k : Kind) (order : List ℕ → List ℕ) (d : Delivery) (s : Intake)
    → (k ≡ message_created → 1 ≤ length d.event.parts)
    → OneRow d.identity.user_id s.db.parts
    → Together d s
    → Kept s.db
    → Fills (dispatch k order d s)
unfolding dispatch
dispatch-Fills message_created order d s some_ one h k = handle_created-Fills d s k (some_ refl)
dispatch-Fills message_edited order d s some_ one h k = handle_edited-Fills order d s k
dispatch-Fills message_deleted order d s some_ one h k = handle_deleted-Fills d s one h k
dispatch-Fills Kind.unknown order d s some_ one h k = handle_deleted-Fills d s one h k

answer_new-Fills :
    (v : Service) (bot : Principal) (ident : Identity) (ev : Event) (s : Intake)
    → (ev.kind ≡ message_created → 1 ≤ length ev.parts)
    → OneRow ident.user_id s.db.parts
    → Together (delivery v bot ident ev) s
    → Kept s.db
    → Fills (answer_new v bot ident ev s)
unfolding answer_new
answer_new-Fills v bot ident ev s some_ one h k =
    elim (Bool-cases (ltb ev.timestamp ident.linked_at)) [
      | inl old ↦ rw old k
      | inr new_ ↦
          rw new_ (dispatch-Fills ev.kind v.order (delivery v bot ident ev) s some_ one h k)
    ]

module _ (v : Service) (bot : Principal) (ev : Event) (seen s : Intake) where
  -- If the ids of parts are of one row each, and the parts that the sender has in a message lie in one
  -- note, then no event leaves a note without a part.
  pub handle-Kept :
      (out : Outcome) (t : Intake)
      → ((user : ℕ) → OneRow user s.db.parts)
      → ((ident : Identity)
          → resolve_identity bot ev.sender seen ≡ some ident
          → Together (delivery v bot ident (sanitize v.utf8 ev)) s)
      → Kept s.db
      → handle v bot ev seen s ≡ ok (out, t)
      → Kept t.db
  unfolding own_rows
  handle-Kept out t one together k e =
      handle-Gives (λ r. Kept r.1.db) v bot ev seen s (out, t)
        (λ out' u same. subst Kept (sym same.0) k)
        (λ valid ident who out' u f.
          let ev' : Event = sanitize v.utf8 ev in
          subst Fills f (
            answer_new-Fills v bot ident ev' (entered bot ident ev' s) (has_parts v ev' valid)
              (one ident.user_id) (together ident who) k))
        e
