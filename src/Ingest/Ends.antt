-- ===== src/Ingest/Ends.antt =====
-- How the handlers of an event end (core/internal/ingest/ingest.go, `created`, `edited` and `deleted`): they leave
-- the tables that `Handle` writes, and the content too where they ignore the event.
use notekeeper.Common.{
  ℕ, ◌+◌, ◌≡◌, refl, ◌∙◌, Bool, true, false, List, [], ◌∷◌, arith, Bool-cases, leb, length,
  Option-cases, inl, inr, ltb,
}
use notekeeper.Common.Str.{Str}
use notekeeper.Db.Rows.{delete, update_one}
use notekeeper.Db.{Result, ok, err, ◌>>=◌, Result-cases, Db, is_active}
use notekeeper.Grouping.{Decision, new, existing}
use notekeeper.Notes.{in_state, dismissed}
use notekeeper.Notes.Parts.{touch_note, delete_part_file}
use notekeeper.Notes.Regroup.{next_part_ordinal, count_note_parts, part_by_id}
use notekeeper.Ingest.{
  Answer, appended, updated, removed, ignored, rejected, about, ok_feedback, no_feedback, LostFile,
  Outcome, EventPart, Kind, message_created, message_edited, message_deleted, Event, Principal,
  Identity,
}
use notekeeper.Ingest.Tables.{Intake, SourceRow}
use notekeeper.Ingest.Create.{
  Delivery, message_rows, decision, insert_chat_parts, start_note, join_note, kept_files,
  handle_created, store_message, by_target,
}
use notekeeper.Ingest.Change.{
  own_texts, apply_edit, head_note, apply_edits, edits, Edits, touch_notes, handle_edited, texts,
  answer_edits, version_of, remove_parts, to_trash, take_parts, remove_mine, handle_deleted,
}
use notekeeper.Ingest.Handle.{Service, delivery, dispatch, answer_new}

abbrev pub is_silent : Answer → Bool
is_silent ignored = true
is_silent rejected = true
is_silent _ = false

-- The content of the store is as it was.
abbrev pub Same : Intake → Intake → Type 0
Same s t = (t.db ≡ s.db) × (t.versions ≡ s.versions)

abbrev pub Quiet : Intake → Outcome × Intake → Type 0
Quiet s (out, t) = is_silent out.result ≡ true → Same s t

-- The tables that only `Handle` itself writes.
abbrev pub Aside : Intake → Intake → Type 0
Aside s t = (t.events ≡ s.events) × (t.identities ≡ s.identities)

-- How a handler may end.
abbrev pub Ends : Intake → Result (Outcome × Intake) → Type 0
Ends s (err e) = Unit {0}
Ends s (ok (out, t)) = Aside s t × Quiet s (out, t)

-- An end that writes the store of notes last, and is neither ignored nor rejected.
Ends-written :
    {A : Type 0} (s t : Intake) (m : Result (A × Db)) (out : A → Outcome)
    → Aside s t
    → ((a : A) → is_silent (out a).result ≡ false)
    → Ends s (m >>= λ r. ok (out r.0, record t { db = r.1 }))
Ends-written s t (err e) out a h = tt
Ends-written s t (ok (x, db)) out a h = (a, λ q. absurd (ground (arith, q, h x)))

pub insert_chat_parts-Aside :
    (d : Delivery) (note ordinal : ℕ) (dec : Decision) (index : ℕ) (ps : List EventPart)
    (s : Intake)
    → Aside s (insert_chat_parts d note ordinal dec index ps s).0
unfolding insert_chat_parts
insert_chat_parts-Aside d note ordinal dec index [] s = (refl, refl)
insert_chat_parts-Aside d note ordinal dec index (p ∷ ps) s =
    insert_chat_parts-Aside d note ordinal dec (index + 1) ps _

module _ (d : Delivery) (s : Intake) where
  start_note-Ends : (dec : Decision) → Ends s (start_note d dec s)
  unfolding start_note
  start_note-Ends dec =
      (insert_chat_parts-Aside d d.ids.note 0 dec 0 d.event.parts _, λ h. absurd (cc))

  join_note-Ends : (dec : Decision) → Ends s (join_note d dec s)
  unfolding join_note
  join_note-Ends dec =
      let user = d.identity.user_id in
      let r : Intake × List LostFile =
        insert_chat_parts d dec.note_id (next_part_ordinal user dec.note_id s.db.parts) dec 0
          d.event.parts s in
      Ends-written s r.0 (touch_note r.0.db user dec.note_id d.now)
        (λ n. about appended dec.note_id (kept_files r.1))
        (insert_chat_parts-Aside d dec.note_id (next_part_ordinal user dec.note_id s.db.parts) dec 0
          d.event.parts s)
        (λ n. refl)

  store_message-Ends : (rows : List SourceRow) → Ends s (store_message d rows s)
  unfolding store_message by_target
  store_message-Ends [] =
      let dec = decision d s.db in
      elim dec.target as (λ t. Ends s (by_target t d dec s)) [
        | new ↦ start_note-Ends dec
        | existing ↦ join_note-Ends dec
      ]
  store_message-Ends (r ∷ rs) = ((refl, refl), λ h. (refl, refl))

  handle_created-Ends : Ends s (handle_created d s)
  unfolding handle_created
  handle_created-Ends = store_message-Ends _

apply_edit-Aside :
    (d : Delivery) (k : ℕ) (old : SourceRow) (t : Str) (e : Edits)
    → Aside e.intake (apply_edit d k old t e).intake
unfolding apply_edit
apply_edit-Aside d k old t e = ground arith

apply_edits-Aside :
    (d : Delivery) (k : ℕ) (olds : List SourceRow) (ts : List Str) (e : Edits)
    → Aside e.intake (apply_edits d k olds ts e).intake
unfolding apply_edits
apply_edits-Aside d k olds [] e = (refl, refl)
apply_edits-Aside d k [] (t ∷ ts) e = (refl, refl)
apply_edits-Aside d k (old ∷ olds) (t ∷ ts) e =
    let (a, b) = apply_edit-Aside d k old t e in
    let (a', b') = apply_edits-Aside d (k + 1) olds ts (apply_edit d k old t e) in (a' ∙ a, b' ∙ b)

remove_parts-Aside :
    (user : ℕ) (rs : List SourceRow) (s t : Intake) → remove_parts user rs s ≡ ok t → Aside s t
unfolding remove_parts
remove_parts-Aside user [] s t e = let same : s ≡ t = ground (arith, e) in rw (← same) (refl, refl)
remove_parts-Aside user (r ∷ rs) s t e =
    let gone : Db = record s.db { parts = delete (part_by_id user r.part.id) s.db.parts } in
    elim (Result-cases (delete_part_file gone user r.part)) [
      | inr (x, f) ↦ absurd (ground (arith, e, f))
      | inl (db, f) ↦
          remove_parts-Aside user rs
            (record s { db = db; versions = delete (version_of user r.part.id) s.versions }) t
            (ground (arith, e, f))
    ]

module _ (d : Delivery) (s : Intake) where
  handle_edited-Ends : (order : List ℕ → List ℕ) → Ends s (handle_edited order d s)
  unfolding handle_edited edits
  handle_edited-Ends order =
      elim (edits d s).seen as (λ b. Ends s (answer_edits order d b (edits d s) s)) [
        | true ↦
            let e = edits d s in
            Ends-written s e.intake
              (touch_notes d.identity.user_id d.now (order e.touched_ids)
                (head_note (message_rows d s.db)) e.intake.db)
              (λ note. about updated note ok_feedback)
              (apply_edits-Aside d 0 (own_texts d (message_rows d s.db)) (texts d.event.parts)
                (record { intake = s; touched_ids = []; seen = false }))
              (λ note. refl)
        | false ↦ ((refl, refl), λ h. (refl, refl))
      ]

  take_parts-Ends : (note : ℕ) (mine : List SourceRow) → Ends s (take_parts d note mine s)
  unfolding take_parts
  take_parts-Ends note mine = elim (Result-cases (remove_parts d.identity.user_id mine s)) [
    | inr (x, e) ↦ rw e tt
    | inl (t, e) ↦ rw e (
        Ends-written s t (touch_note t.db d.identity.user_id note d.now)
          (λ n. about removed note no_feedback) (remove_parts-Aside d.identity.user_id mine s t e)
          (λ n. refl))
  ]

  to_trash-Ends : (note : ℕ) → Ends s (to_trash d note s)
  unfolding to_trash
  to_trash-Ends note =
      elim (Option-cases
        (update_one (in_state true note d.identity.user_id) (dismissed d.now) s.db.notes)) [
          | inl e ↦ rw e tt
          | inr (r, e) ↦ rw e ((refl, refl), λ h. absurd (cc))
        ]

  remove_mine-Ends : (mine : List SourceRow) → Ends s (remove_mine d mine s)
  unfolding remove_mine
  remove_mine-Ends [] = ((refl, refl), λ h. (refl, refl))
  remove_mine-Ends (r ∷ rs) =
      elim (Bool-cases
        (leb (count_note_parts d.identity.user_id r.part.note_id s.db.parts) (length (r ∷ rs)))) [
          | inr some_ ↦ rw some_ (take_parts-Ends r.part.note_id (r ∷ rs))
          | inl all_ ↦ elim (Bool-cases (is_active r.note_state)) [
            | inl on ↦ rw (all_, on) (to_trash-Ends r.part.note_id)
            | inr off ↦ rw (all_, off) ((refl, refl), λ h. absurd (cc))
          ]
        ]

  handle_deleted-Ends : Ends s (handle_deleted d s)
  unfolding handle_deleted
  handle_deleted-Ends = remove_mine-Ends _

dispatch-Ends :
    (k : Kind) (order : List ℕ → List ℕ) (d : Delivery) (s : Intake) → Ends s (dispatch k order d s)
unfolding dispatch
dispatch-Ends message_created order d s = handle_created-Ends d s
dispatch-Ends message_edited order d s = handle_edited-Ends d s order
dispatch-Ends message_deleted order d s = handle_deleted-Ends d s
dispatch-Ends Kind.unknown order d s = handle_deleted-Ends d s

module _ (v : Service) (bot : Principal) (ident : Identity) (ev : Event) (s : Intake) where
  pub answer_new-Ends : Ends s (answer_new v bot ident ev s)
  unfolding answer_new
  answer_new-Ends = elim (Bool-cases (ltb ev.timestamp ident.linked_at)) [
    | inl old ↦ rw old ((refl, refl), λ h. (refl, refl))
    | inr new_ ↦ rw new_ (dispatch-Ends ev.kind v.order (delivery v bot ident ev) s)
  ]
