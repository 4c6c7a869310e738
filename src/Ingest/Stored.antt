-- ===== src/Ingest/Stored.antt =====
-- A new chat message is stored whole, in the note that the grouping chose, and once
-- (core/internal/ingest/ingest.go, `created`).
use mathlib.Core.Path.{subst}
use notekeeper.Common.{ℕ, ◌≡◌, ◌≢◌, refl, sym, ap, ◌∙◌, some, List, [], ◌∷◌, ◌++◌, arith, inl, inr}
use notekeeper.Db.Rows.{count}
use notekeeper.Db.Feed.{change}
use notekeeper.Db.{Part, Result, ok, err, Result-cases}
use notekeeper.Grouping.{Decision, Target, new, existing}
use notekeeper.Notes.Regroup.{list_parts, next_part_ordinal, count_note_parts}
use notekeeper.Notes.Parts.{touch_note}
use notekeeper.Notes.Parts.Room.{touch_note-rows}
use notekeeper.Ingest.{Outcome}
use notekeeper.Ingest.Tables.{Intake}
use notekeeper.Ingest.Create.{
  Delivery, message_rows, decision, inbox_note, insert_chat_parts, start_note, join_note, by_target,
  store_message, handle_created,
}
use notekeeper.Ingest.Joined.{Written, insert_chat_parts-Written, insert_chat_parts-elsewhere}

next_part_ordinal-zero :
    (user note : ℕ) (ps : List Part)
    → count_note_parts user note ps ≡ 0
    → next_part_ordinal user note ps ≡ 0
unfolding count next_part_ordinal
next_part_ordinal-zero user note [] h = refl
next_part_ordinal-zero user note (p ∷ ps) h = ground (arith, h, next_part_ordinal-zero user note ps)

-- The note that the parts of a message go to.
abbrev pub note_for : Target → Delivery → Decision → ℕ
note_for new d dec = d.ids.note
note_for existing d dec = dec.note_id

-- The parts stand behind those of the note, and those of another note are as they were.
abbrev Stores : Delivery → Intake → ℕ → ℕ → Result (Outcome × Intake) → Type 0
Stores d s note other (err e) = Unit {0}
Stores d s note other (ok (out, t)) =
    let user = d.identity.user_id in
    (out.note_id ≡ some note)
    × ((rows : List Part) × (list_parts user note t.db ≡ list_parts user note s.db ++ rows)
        × Written d note s.db.attachments s.db.parts 0 d.event.parts rows)
    × (list_parts user other t.db ≡ list_parts user other s.db)

module _ (d : Delivery) (s : Intake) (dec : Decision) (other : ℕ) where
  start_note-Stores :
      count_note_parts d.identity.user_id d.ids.note s.db.parts ≡ 0
      → other ≢ d.ids.note
      → Stores d s d.ids.note other (start_note d dec s)
  unfolding start_note list_parts change
  start_note-Stores fresh apart =
      let s' : Intake = record s { db = record s.db { notes = inbox_note d ∷ s.db.notes } } in
      let none_ = next_part_ordinal-zero d.identity.user_id d.ids.note s.db.parts fresh in
      (
        refl,
        insert_chat_parts-Written d d.ids.note 0 dec 0 d.event.parts s' (omega (arith, none_)),
        insert_chat_parts-elsewhere d d.ids.note 0 dec other apart 0 d.event.parts s',
      )

  join_note-Stores : other ≢ dec.note_id → Stores d s dec.note_id other (join_note d dec s)
  unfolding join_note list_parts
  join_note-Stores apart =
      let user = d.identity.user_id in
      let note = dec.note_id in
      let next = next_part_ordinal user note s.db.parts in
      let t : Intake = (insert_chat_parts d note next dec 0 d.event.parts s).0 in
      elim (Result-cases (touch_note t.db user note d.now)) [
        | inr (x, e) ↦ rw e tt
        | inl ((n, db), e) ↦
            let same : db.parts ≡ t.db.parts = (touch_note-rows t.db user note d.now n db e).1 in
            let (rows, l, w) =
              insert_chat_parts-Written d note next dec 0 d.event.parts s (omega arith) in
            let away = insert_chat_parts-elsewhere d note next dec other apart 0 d.event.parts s in
            rw e (refl, (rows, rw same l, w), rw same away)
      ]

  by_target-Stores :
      (target : Target)
      → count_note_parts d.identity.user_id d.ids.note s.db.parts ≡ 0
      → other ≢ note_for target d dec
      → Stores d s (note_for target d dec) other (by_target target d dec s)
  unfolding by_target
  by_target-Stores new fresh apart = start_note-Stores fresh apart
  by_target-Stores existing fresh apart = join_note-Stores apart

-- A message that is new and is stored: the answer names the note that the grouping chose, or the new
-- one, whose id is of no part; that note has its old parts, and behind them one part for each part of
-- the event, in order, with the source; a text is stored as its text, and an uploaded file as that file
-- if it is the user's and no part before it has it, and as a failed one only if not; and another note
-- has its old parts.
pub handle_created_stores :
    (d : Delivery) (s : Intake) (out : Outcome) (t : Intake) (other : ℕ)
    → message_rows d s.db ≡ []
    → count_note_parts d.identity.user_id d.ids.note s.db.parts ≡ 0
    → other ≢ note_for (decision d s.db).target d (decision d s.db)
    → handle_created d s ≡ ok (out, t)
    → let user = d.identity.user_id in
      let note = note_for (decision d s.db).target d (decision d s.db) in
      (out.note_id ≡ some note)
      × ((rows : List Part) × (list_parts user note t.db ≡ list_parts user note s.db ++ rows)
          × Written d note s.db.attachments s.db.parts 0 d.event.parts rows)
      × (list_parts user other t.db ≡ list_parts user other s.db)
unfolding handle_created store_message
handle_created_stores d s out t other fresh free apart e =
    let dec = decision d s.db in
    let end : by_target dec.target d dec s ≡ ok (out, t) =
      ap (λ rows. store_message d rows s) (sym fresh) ∙ e in
    subst (Stores d s (note_for dec.target d dec) other) end
      (by_target-Stores d s dec other dec.target free apart)
