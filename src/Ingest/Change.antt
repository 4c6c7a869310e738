-- ===== src/Ingest/Change.antt =====
-- A chat message that is edited or deleted (core/internal/ingest/ingest.go, `edited` and `deleted`).
use notekeeper.Common.{
  ℕ, ◌+◌, Bool, true, false, not, ◌&&◌, none, some, List, [], ◌∷◌, ltb, leb, ◌==◌, if◌then◌else◌,
  length,
}
use notekeeper.Common.Str.{Str, str_eq}
use notekeeper.Db.Rows.{update, update_one, delete, select, sort_by}
use notekeeper.Db.Feed.{change}
use notekeeper.Db.{Db, Part, Entity, upsert, internal, Result, ok, ◌>>=◌, or_fail, is_active}
use notekeeper.Reminders.Trash.{on_dismiss}
use notekeeper.Notes.{dismissed, in_state}
use notekeeper.Notes.Regroup.{count_note_parts, part_by_id}
use notekeeper.Notes.Parts.{touch_note, delete_part_file}
use notekeeper.Ingest.{
  PartType, EventPart, updated, removed, ignored, Outcome, ok_feedback, no_feedback, about, refusal,
}
use notekeeper.Ingest.Tables.{PartVersion, Intake, SourceRow, source_index, is_text}
use notekeeper.Ingest.Create.{Delivery, message_rows, chat_version}

-- A part of the message that this identity wrote.
unfoldable pub is_own : Delivery → SourceRow → Bool
is_own d r = elim r.part.source [ none ↦ false | some s ↦ s.identity_id == d.identity.id ]

unfoldable pub is_own_text : Delivery → SourceRow → Bool
unfolding is_own
is_own_text d r = is_text r.part.kind && is_own d r

-- `olds`
unfoldable pub own_texts : Delivery → List SourceRow → List SourceRow
unfolding is_own_text
own_texts d rows = sort_by (λ r. source_index r.part) (select (is_own_text d) rows)

-- The edit is the later one, and the text is another one.
unfoldable pub is_newer : Delivery → Part → Bool
is_newer d old = elim old.text_edited_at [ none ↦ true | some t ↦ ltb t d.event.timestamp ]

unfoldable pub differs : Str → Part → Bool
differs text old = elim old.body [ none ↦ true | some t ↦ not (str_eq t text) ]

-- UpdatePartText
abbrev pub rewritten : ℕ → Str → Part → Part
rewritten at text p = record p { body = some text; text_edited_at = some at }

-- `changed[id] = true`
unfoldable pub add_id : ℕ → List ℕ → List ℕ
add_id id [] = id ∷ []
add_id id (i ∷ is) = if i == id then i ∷ is else i ∷ add_id id is

pub record Edits : Type 0 where
  pub intake : Intake
  pub touched_ids : List ℕ
  pub seen : Bool

-- One round of the loop: the k-th old text gets the k-th new one.
unfoldable pub apply_edit : Delivery → ℕ → SourceRow → Str → Edits → Edits
unfolding is_newer differs add_id
apply_edit d k old text e =
    let user = d.identity.user_id in
    let s = e.intake in
    let versions = chat_version d k old.part.id text (is_newer d old.part) ∷ s.versions in
    if is_newer d old.part && differs text old.part
    then record {
      intake = record s {
        db = record s.db {
          parts =
              update (part_by_id user old.part.id) (rewritten d.event.timestamp text) s.db.parts;
        };
        versions = versions;
      };
      touched_ids = add_id old.part.note_id e.touched_ids;
      seen = true;
    }
    else record {
      intake = record s { versions = versions };
      touched_ids = e.touched_ids;
      seen = true;
    }

-- The loop over the parts of the event: those that are no text are passed over, and it ends with the
-- old texts.
unfoldable pub texts : List EventPart → List Str
texts [] = []
texts (p ∷ ps) = let rest = texts ps in elim p.type [ PartType.text ↦ p.body ∷ rest | _ ↦ rest ]

unfoldable pub apply_edits : Delivery → ℕ → List SourceRow → List Str → Edits → Edits
unfolding apply_edit
apply_edits d k olds [] e = e
apply_edits d k [] (t ∷ ts) e = e
apply_edits d k (old ∷ olds) (t ∷ ts) e = apply_edits d (k + 1) olds ts (apply_edit d k old t e)

-- The changed notes, touched in the given order; the answer names the last one.
unfoldable pub touch_notes : ℕ → ℕ → List ℕ → ℕ → Db → Result (ℕ × Db)
unfolding touch_note
touch_notes user now [] last db = ok (last, db)
touch_notes user now (id ∷ ids) last db = do
  (n, db') ← touch_note db user id now
  touch_notes user now ids id db'

abbrev pub head_note : List SourceRow → ℕ
head_note [] = 0
head_note (r ∷ rs) = r.part.note_id

-- The edits of a message.
unfoldable pub edits : Delivery → Intake → Edits
unfolding own_texts apply_edits texts
edits d s =
    apply_edits d 0 (own_texts d (message_rows d s.db)) (texts d.event.parts)
      (record { intake = s; touched_ids = []; seen = false })

-- The end of `edited`, by whether an old text was seen; `order` is the order in which Go walks the keys of the map of the notes that have changed.
unfoldable pub answer_edits :
    (List ℕ → List ℕ) → Delivery → Bool → Edits → Intake → Result (Outcome × Intake)
unfolding touch_notes
answer_edits order d false e s = ok (refusal ignored none, s)
answer_edits order d true e s = do
  (note, db) ←
      touch_notes d.identity.user_id d.now (order e.touched_ids) (head_note (message_rows d s.db))
        e.intake.db
  ok (about updated note ok_feedback, record e.intake { db = db })

-- `edited`
unfoldable pub handle_edited : (List ℕ → List ℕ) → Delivery → Intake → Result (Outcome × Intake)
unfolding edits answer_edits
handle_edited order d s = answer_edits order d (edits d s).seen (edits d s) s

-- DeleteNotePart: the history of the part goes with it.
abbrev pub version_of : ℕ → ℕ → PartVersion → Bool
version_of user part v = v.user_id == user && v.part_id == part

-- The loop over the parts of the message, with their files.
unfoldable pub remove_parts : ℕ → List SourceRow → Intake → Result Intake
unfolding delete_part_file
remove_parts user [] s = ok s
remove_parts user (r ∷ rs) s = do
  db ←
      delete_part_file (record s.db { parts = delete (part_by_id user r.part.id) s.db.parts }) user
        r.part
  remove_parts user rs
      (record s { db = db; versions = delete (version_of user r.part.id) s.versions })

-- The two ends of `deleted`: the note goes to the Trash as it is, or it loses the parts.
unfoldable pub to_trash : Delivery → ℕ → Intake → Result (Outcome × Intake)
to_trash d note s =
    let user = d.identity.user_id in
    do
      (n, ns) ← or_fail (update_one (in_state true note user) (dismissed d.now) s.db.notes) internal
      ok (
        about removed note no_feedback,
        record s {
          db =
              change (on_dismiss (record s.db { notes = ns }) user note) user Entity.note note
                upsert (some n.version);
        },
      )

unfoldable pub take_parts : Delivery → ℕ → List SourceRow → Intake → Result (Outcome × Intake)
unfolding remove_parts touch_note
take_parts d note mine s = do
  t ← remove_parts d.identity.user_id mine s
  (n, db) ← touch_note t.db d.identity.user_id note d.now
  ok (about removed note no_feedback, record t { db = db })

-- `deleted`, with the parts of the message that are `mine`.
unfoldable pub remove_mine : Delivery → List SourceRow → Intake → Result (Outcome × Intake)
unfolding to_trash take_parts
remove_mine d [] s = ok (refusal ignored none, s)
remove_mine d (r ∷ rs) s =
    if leb (count_note_parts d.identity.user_id r.part.note_id s.db.parts) (length (r ∷ rs))
    then if is_active r.note_state
      then to_trash d r.part.note_id s
      else ok (about removed r.part.note_id no_feedback, s)
    else take_parts d r.part.note_id (r ∷ rs) s

unfoldable pub own_rows : Delivery → Intake → List SourceRow
unfolding is_own
own_rows d s = select (is_own d) (message_rows d s.db)

unfoldable pub handle_deleted : Delivery → Intake → Result (Outcome × Intake)
unfolding remove_mine own_rows
handle_deleted d s = remove_mine d (own_rows d s) s
