-- ===== src/Ingest/Latest.antt =====
-- The latest edit of a text wins (core/internal/ingest/ingest.go, `edited`).
use mathlib.Core.Option
use mathlib.Core.Path.{subst}
use notekeeper.Common.{
  ℕ, ◌+◌, ◌<◌, ◌≡◌, refl, ap, ◌∙◌, Bool, true, false, none, some, List, [], ◌∷◌, arith, All,
  Bool-cases, Option-cases, ◌⊎◌, inl, inr, ◌&&◌, if◌then◌else◌,
}
use notekeeper.Common.Str.{Str, str_eq→eq}
use notekeeper.Db.Rows.{find, find-update, find-fits, All-select, All-weaken}
use notekeeper.Db.Rows.Sorted.{sort-All}
use notekeeper.Db.{Db, Part, PartKind, text, Source, ok, Result-cases}
use notekeeper.Notes.Regroup.{part_by_id}
use notekeeper.Notes.Parts.{touch_note}
use notekeeper.Notes.Parts.Room.{touch_note-rows}
use notekeeper.Ingest.{Outcome}
use notekeeper.Ingest.Tables.{Intake, SourceRow, source_index, is_text, from_message}
use notekeeper.Ingest.Create.{Delivery, message_rows}
use notekeeper.Ingest.Found.{OneRow, InMessage, Found, message_rows-Found}
use notekeeper.Ingest.Change.{
  Edits, is_own_text, own_texts, is_newer, differs, rewritten, apply_edit, apply_edits, texts,
  edits, touch_notes, head_note, answer_edits, handle_edited,
}

-- A text that this identity wrote in the message of the event.
abbrev pub OwnText : Delivery → Part → Type 0
OwnText d p =
    (p.kind ≡ text)
    × ((s : Source) × (p.source ≡ some s)
        × (s.identity_id ≡ d.identity.id)
        × (s.bot_instance_id ≡ d.bot)
        × (s.conversation_id ≡ d.event.conversation)
        × (s.message_id ≡ d.event.message_id))

-- The text was not edited at that time, or later.
abbrev pub EditedBefore : ℕ → Part → Type 0
EditedBefore at p = (p.text_edited_at ≡ none) ⊎ ((t : ℕ) × (p.text_edited_at ≡ some t) × (t < at))

is_text-kind : (k : PartKind) → is_text k ≡ true → k ≡ text
is_text-kind text h = refl
is_text-kind PartKind.attachment h = absurd (cc)
is_text-kind PartKind.failed_attachment h = absurd (cc)
is_text-kind PartKind.unsupported h = absurd (cc)

own_known :
    (d : Delivery) (r : SourceRow) → InMessage d r.part → is_own_text d r ≡ true → OwnText d r.part
unfolding is_own_text from_message
own_known d r m own = elim (Option-cases r.part.source) [
  | inl e ↦ absurd (ground (arith, m, e))
  | inr (s, e) ↦ (
    is_text-kind r.part.kind (ground (arith, own)),
    (
      s,
      e,
      ground (arith, own, e),
      ground (arith, m, e),
      str_eq→eq s.conversation_id d.event.conversation (ground (arith, m, e)),
      str_eq→eq s.message_id d.event.message_id (ground (arith, m, e)),
    ),
  )
]

newer-EditedBefore :
    (d : Delivery) (p : Part) → is_newer d p ≡ true → EditedBefore d.event.timestamp p
unfolding is_newer
newer-EditedBefore d p h = elim (Option-cases p.text_edited_at) [
  | inl e ↦ inl e
  | inr (t, e) ↦ inr (t, e, ground (arith, h, e))
]

abbrev pub Among : Str → List Str → Type 0
Among t [] = ⊥
Among t (x ∷ xs) = (t ≡ x) ⊎ Among t xs

-- What an edit may do to a part: nothing, or, to a text of the sender in that message that was not
-- edited at that time or later, give it one of the new texts and the time of the edit.
abbrev pub Edited : Delivery → List Str → Part → Part → Type 0
Edited d ts p q =
    (q ≡ p)
    ⊎ ((t : Str) × Among t ts
        × OwnText d p
        × EditedBefore d.event.timestamp p
        × (q ≡ record p { body = some t; text_edited_at = some d.event.timestamp }))

abbrev Old : Delivery → List Part → SourceRow → Type 0
Old d ps r =
    (find (part_by_id d.identity.user_id r.part.id) ps ≡ some r.part)
    × InMessage d r.part
    × (is_own_text d r ≡ true)

own_texts-Old :
    (d : Delivery) (db : Db)
    → OneRow d.identity.user_id db.parts
    → All (Old d db.parts) (own_texts d (message_rows d db))
unfolding own_texts
own_texts-Old d db one =
    sort-All (λ r. source_index r.part) (Old d db.parts) _
      (All-select (Found d db.parts) (Old d db.parts) (is_own_text d) _ (λ r h e. (h.0, h.1, e))
        (message_rows-Found d db one))

module _ (d : Delivery) (ts : List Str) (id : ℕ) (p : Part) (ps : List Part) where
  -- The row of the part, as it is while the edits go on.
  abbrev Current : Edits → Type 0
  Current e =
      (q : Part) × (find (part_by_id d.identity.user_id id) e.intake.db.parts ≡ some q)
      × (q.id ≡ p.id)
      × Edited d ts p q

  -- An edit of the row of the part.
  hit :
      (old : SourceRow) (t : Str) (q : Part)
      → old.part ≡ p
      → Old d ps old
      → Among t ts
      → is_newer d old.part ≡ true
      → Edited d ts p q
      → Edited d ts p (rewritten d.event.timestamp t q)
  hit old t q same (o, m, own) a later c = inr (
    t,
    a,
    subst (OwnText d) same (own_known d old m own),
    subst (EditedBefore d.event.timestamp) same (newer-EditedBefore d old.part later),
    end c,
  )
    where
      end : Edited d ts p q → rewritten d.event.timestamp t q ≡ rewritten d.event.timestamp t p
      end (inl e) = ap (rewritten d.event.timestamp t) e
      end (inr (t', _, _, _, e)) = ap (rewritten d.event.timestamp t) e

  apply_edit-Current :
      (k : ℕ) (old : SourceRow) (t : Str) (e : Edits)
      → find (part_by_id d.identity.user_id id) ps ≡ some p
      → Old d ps old
      → Among t ts
      → Current e
      → Current (apply_edit d k old t e)
  unfolding apply_edit
  apply_edit-Current k old t e f o a (q, g, i, c) =
      elim (Bool-cases (is_newer d old.part && differs t old.part)) [
        | inr no_ ↦ rw no_ (q, g, i, c)
        | inl yes_ ↦
            let user = d.identity.user_id in
            let moved =
              find-update (part_by_id user id) (part_by_id user old.part.id)
                (rewritten d.event.timestamp t) e.intake.db.parts (λ r. refl)
              ∙ ap
                  (Option.map (λ r.
                    if part_by_id user old.part.id r then rewritten d.event.timestamp t r else r))
                  g in
            elim (Bool-cases (part_by_id user old.part.id q)) [
              | inr miss ↦ rw yes_ (q, moved ∙ ground (arith, miss), i, c)
              | inl here ↦
                  let fits = find-fits (part_by_id user id) ps p f in
                  let same_id : old.part.id ≡ id = ground (arith, here, i, fits) in
                  let same : old.part ≡ p = ground (arith, o.0, f, same_id) in
                  rw yes_ (
                    rewritten d.event.timestamp t q,
                    moved ∙ ground (arith, here),
                    i,
                    hit old t q same o a (ground (arith, yes_)) c,
                  )
            ]
      ]

  apply_edits-Current :
      (k : ℕ) (olds : List SourceRow) (news : List Str) (e : Edits)
      → find (part_by_id d.identity.user_id id) ps ≡ some p
      → All (Old d ps) olds
      → All (λ t. Among t ts) news
      → Current e
      → Current (apply_edits d k olds news e)
  unfolding apply_edits
  apply_edits-Current k olds [] e f o a r = r
  apply_edits-Current k [] (t ∷ news) e f o a r = r
  apply_edits-Current k (old ∷ olds) (t ∷ news) e f (o, os) (a, as_) r =
      apply_edits-Current (k + 1) olds news (apply_edit d k old t e) f os as_
        (apply_edit-Current k old t e f o a r)

All-Among : (ts : List Str) → All (λ t. Among t ts) ts
All-Among [] = tt
All-Among (t ∷ ts) = (
  inl refl,
  All-weaken (λ x. Among x ts) (λ x. Among x (t ∷ ts)) ts (λ x h. inr h) (All-Among ts),
)

touch_notes-parts :
    (user now : ℕ) (ids : List ℕ) (last : ℕ) (db : Db) (note : ℕ) (t : Db)
    → touch_notes user now ids last db ≡ ok (note, t)
    → t.parts ≡ db.parts
unfolding touch_notes
touch_notes-parts user now [] last db note t e =
    let q : t ≡ db = ground (arith, e) in ap (λ x. x.parts) q
touch_notes-parts user now (id ∷ ids) last db note t e =
    elim (Result-cases (touch_note db user id now)) [
      | inr (x, f) ↦ absurd (ground (arith, e, f))
      | inl ((n, db'), f) ↦
          touch_notes-parts user now ids id db' note t (ground (arith, e, f))
          ∙ (touch_note-rows db user id now n db' f).1
    ]

answer_edits-parts :
    (order : List ℕ → List ℕ) (d : Delivery) (seen : Bool) (e : Edits) (s : Intake) (out : Outcome)
    (t : Intake)
    → answer_edits order d seen e s ≡ ok (out, t)
    → (t.db.parts ≡ s.db.parts) ⊎ (t.db.parts ≡ e.intake.db.parts)
unfolding answer_edits
answer_edits-parts order d false e s out t h =
    let q : t ≡ s = ground (arith, h) in inl (ap (λ x. x.db.parts) q)
answer_edits-parts order d true e s out t h =
    elim (Result-cases (
      touch_notes d.identity.user_id d.now (order e.touched_ids) (head_note (message_rows d s.db))
        e.intake.db)) [
          | inr (x, f) ↦ absurd (ground (arith, h, f))
          | inl ((note, db), f) ↦
              let q : t.db ≡ db = ground (arith, h, f) in
              inr (
                ap (λ x. x.parts) q
                ∙ touch_notes-parts d.identity.user_id d.now (order e.touched_ids)
                    (head_note (message_rows d s.db)) e.intake.db note db f)
        ]

-- An edit of a chat message leaves each part as it is, or gives it a text of the event and the time of
-- the edit; the latter only if the sender wrote the part in that message as a text, and it was not
-- edited since. The ids of parts are of one row each.
pub handle_edited_latest :
    (order : List ℕ → List ℕ) (d : Delivery) (s : Intake) (out : Outcome) (t : Intake) (id : ℕ)
    (p : Part)
    → OneRow d.identity.user_id s.db.parts
    → handle_edited order d s ≡ ok (out, t)
    → find (part_by_id d.identity.user_id id) s.db.parts ≡ some p
    → (q : Part) × (find (part_by_id d.identity.user_id id) t.db.parts ≡ some q)
      × Edited d (texts d.event.parts) p q
unfolding handle_edited edits
handle_edited_latest order d s out t id p one e f =
    let start : Edits = record { intake = s; touched_ids = []; seen = false } in
    let (q, g, _, c) =
      apply_edits-Current d (texts d.event.parts) id p s.db.parts 0
        (own_texts d (message_rows d s.db)) (texts d.event.parts) start f (own_texts-Old d s.db one)
        (All-Among (texts d.event.parts)) (p, f, refl, inl refl) in
    elim (answer_edits-parts order d (edits d s).seen (edits d s) s out t e) [
      | inl same ↦ (p, ap (find (part_by_id d.identity.user_id id)) same ∙ f, inl refl)
      | inr same ↦ (q, ap (find (part_by_id d.identity.user_id id)) same ∙ g, c)
    ]
