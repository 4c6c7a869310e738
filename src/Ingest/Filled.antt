-- ===== src/Ingest/Filled.antt =====
-- Every note has a part, whatever event is handled (core/internal/ingest/ingest.go, `Handle`).
use notekeeper.Common.{
  ℕ, ◌+◌, ◌≤◌, ◌≡◌, refl, Bool, true, false, List, [], ◌∷◌, arith, All, Bool-cases, inl, inr, ◌&&◌,
  if◌then◌else◌, length,
}
use notekeeper.Common.Str.{Str}
use notekeeper.Db.Rows.{count, count-update, All-update, All-weaken}
use notekeeper.Db.Feed.{change}
use notekeeper.Db.{Db, Note, Part, Result, ok, err, Result-cases}
use notekeeper.Grouping.{Decision, Target, new, existing}
use notekeeper.Reminders.{is_note}
use notekeeper.Notes.Regroup.{own_part, part_by_id, touched, next_part_ordinal}
use notekeeper.Notes.Regroup.Kept.{HasPart, Kept}
use notekeeper.Notes.Parts.{touch_note}
use notekeeper.Notes.Parts.Room.{touch_note-rows}
use notekeeper.Ingest.{EventPart, Outcome}
use notekeeper.Ingest.Tables.{Intake, SourceRow}
use notekeeper.Ingest.Create.{
  Delivery, message_rows, decision, inbox_note, insert_chat_part, insert_chat_parts, start_note,
  join_note, by_target, store_message, handle_created,
}
use notekeeper.Ingest.Change.{
  is_newer, differs, rewritten, own_texts, texts, Edits, apply_edit, apply_edits, edits,
  touch_notes, head_note, answer_edits, handle_edited,
}
use notekeeper.Ingest.Kept.{parts_of}

-- What holds of the store that is left, if there is one.
abbrev pub Fills : Result (Outcome × Intake) → Type 0
Fills (err e) = Unit {0}
Fills (ok (out, t)) = Kept t.db

-- The parts of a store may become more, and its notes may change but for their ids.
Kept-more :
    (ps qs : List Part) (ns : List Note)
    → ((n : Note) → parts_of n ps ≤ parts_of n qs)
    → All (HasPart ps) ns
    → All (HasPart qs) ns
Kept-more ps qs ns more h =
    All-weaken (HasPart ps) (HasPart qs) ns (λ n p. omega (arith, p, more n)) h

touch_note-Kept :
    (db : Db) (user note now : ℕ) (n : Note) (t : Db)
    → Kept db
    → touch_note db user note now ≡ ok (n, t)
    → Kept t
touch_note-Kept db user note now n t k e =
    let (ns, ps) = touch_note-rows db user note now n t e in
    rw (ns, ps)
      (All-update (HasPart db.parts) (HasPart db.parts) (is_note note user) (touched now) db.notes
        (λ m p _. p) (λ m p _. p) k)

insert_chat_parts-notes :
    (d : Delivery) (note ordinal : ℕ) (dec : Decision) (index : ℕ) (ps : List EventPart)
    (s : Intake)
    → (insert_chat_parts d note ordinal dec index ps s).0.db.notes ≡ s.db.notes
unfolding insert_chat_parts
insert_chat_parts-notes d note ordinal dec index [] s = refl
insert_chat_parts-notes d note ordinal dec index (p ∷ ps) s =
    insert_chat_parts-notes d note ordinal dec (index + 1) ps _

-- No note loses a part, and the note of the message gains as many as the event has.
insert_chat_parts-more :
    (d : Delivery) (note ordinal : ℕ) (dec : Decision) (n : Note) (index : ℕ) (ps : List EventPart)
    (s : Intake)
    → let t = (insert_chat_parts d note ordinal dec index ps s).0 in
      parts_of n s.db.parts + (if is_note note d.identity.user_id n then length ps else 0)
      ≤ parts_of n t.db.parts
unfolding insert_chat_parts count
insert_chat_parts-more d note ordinal dec n index [] s = ground arith
insert_chat_parts-more d note ordinal dec n index (p ∷ ps) s = ground (
  arith,
  insert_chat_parts-more d note ordinal dec n (index + 1) ps
      (insert_chat_part d s index p note (ordinal + index) dec).0,
)

module _ (d : Delivery) (s : Intake) (k : Kept s.db) where
  -- A note of its own has the parts of the event, of which there is one at least.
  start_note-Fills : (dec : Decision) → 1 ≤ length d.event.parts → Fills (start_note d dec s)
  unfolding start_note change
  start_note-Fills dec some_ =
      let s' : Intake = record s { db = record s.db { notes = inbox_note d ∷ s.db.notes } } in
      let more : (n : Note) → _ =
        λ n. insert_chat_parts-more d d.ids.note 0 dec n 0 d.event.parts s' in
      let mine : is_note d.ids.note d.identity.user_id (inbox_note d) ≡ true = ground arith in
      rw (insert_chat_parts-notes d d.ids.note 0 dec 0 d.event.parts s') (
        ground (arith, more (inbox_note d), some_, mine),
        Kept-more s.db.parts _ s.db.notes (λ n. omega (arith, more n)) k,
      )

  join_note-Fills : (dec : Decision) → Fills (join_note d dec s)
  unfolding join_note
  join_note-Fills dec =
      let user = d.identity.user_id in
      let note = dec.note_id in
      let next = next_part_ordinal user note s.db.parts in
      let t : Intake = (insert_chat_parts d note next dec 0 d.event.parts s).0 in
      let kept : Kept t.db = rw (insert_chat_parts-notes d note next dec 0 d.event.parts s) (
        Kept-more s.db.parts t.db.parts s.db.notes
          (λ n. omega (arith, insert_chat_parts-more d note next dec n 0 d.event.parts s)) k) in
      elim (Result-cases (touch_note t.db user note d.now)) [
        | inr (x, e) ↦ rw e tt
        | inl ((n, db), e) ↦ rw e (touch_note-Kept t.db user note d.now n db kept e)
      ]

  by_target-Fills :
      (target : Target) (dec : Decision)
      → 1 ≤ length d.event.parts
      → Fills (by_target target d dec s)
  unfolding by_target
  by_target-Fills new dec some_ = start_note-Fills dec some_
  by_target-Fills existing dec some_ = join_note-Fills dec

  store_message-Fills :
      (rows : List SourceRow) → 1 ≤ length d.event.parts → Fills (store_message d rows s)
  unfolding store_message
  store_message-Fills [] some_ = by_target-Fills (decision d s.db).target (decision d s.db) some_
  store_message-Fills (r ∷ rs) some_ = k

  pub handle_created-Fills : 1 ≤ length d.event.parts → Fills (handle_created d s)
  unfolding handle_created
  handle_created-Fills some_ = store_message-Fills _ some_

apply_edit-Kept :
    (d : Delivery) (i : ℕ) (old : SourceRow) (t : Str) (e : Edits)
    → Kept e.intake.db
    → Kept (apply_edit d i old t e).intake.db
unfolding apply_edit
apply_edit-Kept d i old t e k =
    let user = d.identity.user_id in
    let same : (n : Note) → _ = λ n.
      count-update (own_part n.user_id n.id) (part_by_id user old.part.id)
        (rewritten d.event.timestamp t) e.intake.db.parts (λ r. refl) in
    elim (Bool-cases (is_newer d old.part && differs t old.part)) [
      | inl yes_ ↦
          rw yes_ (Kept-more e.intake.db.parts _ e.intake.db.notes (λ n. omega (arith, same n)) k)
      | inr no_ ↦ rw no_ k
    ]

apply_edits-Kept :
    (d : Delivery) (i : ℕ) (olds : List SourceRow) (ts : List Str) (e : Edits)
    → Kept e.intake.db
    → Kept (apply_edits d i olds ts e).intake.db
unfolding apply_edits
apply_edits-Kept d i olds [] e k = k
apply_edits-Kept d i [] (t ∷ ts) e k = k
apply_edits-Kept d i (old ∷ olds) (t ∷ ts) e k =
    apply_edits-Kept d (i + 1) olds ts (apply_edit d i old t e) (apply_edit-Kept d i old t e k)

touch_notes-Kept :
    (user now : ℕ) (ids : List ℕ) (last : ℕ) (db : Db) (note : ℕ) (t : Db)
    → Kept db
    → touch_notes user now ids last db ≡ ok (note, t)
    → Kept t
unfolding touch_notes
touch_notes-Kept user now [] last db note t k e = let q : t ≡ db = ground (arith, e) in rw q k
touch_notes-Kept user now (id ∷ ids) last db note t k e =
    elim (Result-cases (touch_note db user id now)) [
      | inr (x, f) ↦ absurd (ground (arith, e, f))
      | inl ((n, db'), f) ↦
          touch_notes-Kept user now ids id db' note t (touch_note-Kept db user id now n db' k f)
            (ground (arith, e, f))
    ]

answer_edits-Fills :
    (order : List ℕ → List ℕ) (d : Delivery) (seen : Bool) (e : Edits) (s : Intake)
    → Kept s.db
    → Kept e.intake.db
    → Fills (answer_edits order d seen e s)
unfolding answer_edits
answer_edits-Fills order d false e s k l = k
answer_edits-Fills order d true e s k l =
    let head : ℕ = head_note (message_rows d s.db) in
    elim (Result-cases
      (touch_notes d.identity.user_id d.now (order e.touched_ids) head e.intake.db)) [
        | inr (x, f) ↦ rw f tt
        | inl ((note, db), f) ↦ rw f (
            touch_notes-Kept d.identity.user_id d.now (order e.touched_ids) head e.intake.db note db
              l f)
      ]

pub handle_edited-Fills :
    (order : List ℕ → List ℕ) (d : Delivery) (s : Intake)
    → Kept s.db
    → Fills (handle_edited order d s)
unfolding handle_edited edits
handle_edited-Fills order d s k = answer_edits-Fills order d (edits d s).seen (edits d s) s k (
    apply_edits-Kept d 0 (own_texts d (message_rows d s.db)) (texts d.event.parts)
      (record { intake = s; touched_ids = []; seen = false }) k)
