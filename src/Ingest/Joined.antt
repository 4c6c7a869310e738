-- ===== src/Ingest/Joined.antt =====
-- What a new chat message leaves in the store (core/internal/ingest/ingest.go, `created`).
use notekeeper.Common.{
  ℕ, ◌+◌, ◌≤◌, ◌≡◌, ◌≢◌, refl, sym, ap, ◌∙◌, true, false, some, List, [], ◌∷◌, ◌++◌, append_assoc,
  append-nil, arith, Option-cases, Bool-cases, ◌⊎◌, inl, inr, ltb, none, ◌==◌, ◌&&◌, All,
}
use notekeeper.Common.Str.{Str, codes}
use notekeeper.Db.Rows.{All-find-none, All-weaken, find, select, sort_by}
use notekeeper.Db.Rows.Sorted.{sort_by-last, sort-All}
use notekeeper.Db.{Db, Attachment, FailedFile, Part, PartKind}
use notekeeper.Grouping.{Decision}
use notekeeper.Notes.Regroup.{own_part, list_parts, next_part_ordinal}
use notekeeper.Blobs.{is_attachment}
use notekeeper.Notes.Parts.{uses_attachment}
use notekeeper.Notes.Parts.Room.{ordinals_below}
use notekeeper.Ingest.{PartType, EventPart}
use notekeeper.Ingest.Tables.{Intake}
use notekeeper.Ingest.Create.{
  Delivery, or_default, link_upload, linked, held, chat_part, insert_chat_part, insert_chat_parts,
}

-- A file that a part can still be given: it is the user's, and no part of the user has it.
abbrev pub Usable : ℕ → List Attachment → List Part → ℕ → Type 0
Usable user files used a =
    ((file : Attachment) × (find (λ f. f.id == a && f.user_id == user) files ≡ some file))
    × All (λ q. ¬ ((q.user_id ≡ user) × (q.attachment_id ≡ some a))) used

-- A part that holds the place of a file, with the file's name and size.
abbrev IsFailed : EventPart → Part → (FailedFile → Type 0) → Type 0
IsFailed p r Why =
    (r.kind ≡ PartKind.failed_attachment)
    × ((f : FailedFile) × (r.failed ≡ some f)
        × (f.filename ≡ p.filename)
        × (f.size ≡ p.size)
        × Why f)

abbrev HasFile : EventPart → Part → Type 0
HasFile p r = (r.kind ≡ PartKind.attachment) × (r.attachment_id ≡ p.upload_id)

-- What a part of an event is stored as, where the user has `files` and `used` are the parts before it: a
-- text as its text; an uploaded file as that file if it can be used, and as a failed one only if not; what
-- cannot be shown, or was not fetched, with the description or the reason that the event gives.
abbrev pub Holds : ℕ → List Attachment → List Part → PartType → EventPart → Part → Type 0
Holds user files used PartType.text p r = (r.kind ≡ PartKind.text) × (r.body ≡ some p.body)
Holds user files used PartType.unsupported p r =
    (r.kind ≡ PartKind.unsupported) × (p.description ≢ [] → r.body ≡ some p.description)
Holds user files used PartType.attachment_failed p r =
    IsFailed p r (λ f. p.reason ≢ [] → f.reason ≡ p.reason)
Holds user files used _ p r =
    ((a : ℕ) → p.upload_id ≡ some a → Usable user files used a → HasFile p r)
    × (HasFile p r ⊎ IsFailed p r (λ f. f.reason ≡ codes "upload_missing"))

or_default-given : (v def : Str) → v ≢ [] → or_default v def ≡ v
or_default-given [] def h = absurd (h refl)
or_default-given (c ∷ v) def h = refl

module _ (d : Delivery) (note : ℕ) where
  -- The rows are those of the parts of the event, one for each and in their order, from `k` on, where
  -- the user has `files` and the parts before them are `used`.
  abbrev pub Written : List Attachment → List Part → ℕ → List EventPart → List Part → Type 0
  Written files used k [] [] = Unit {0}
  Written files used k [] (r ∷ rs) = ⊥
  Written files used k (p ∷ ps) [] = ⊥
  Written files used k (p ∷ ps) (r ∷ rs) =
      (r.note_id ≡ note)
      × (r.created_at ≡ d.event.timestamp)
      × (r.source
          ≡ some (record {
            bot_instance_id = d.bot;
            identity_id = d.identity.id;
            conversation_id = d.event.conversation;
            message_id = d.event.message_id;
            part_index = k;
          }))
      × Holds d.identity.user_id files used p.type p r
      × Written files (r ∷ used) (k + 1) ps rs

  link_upload-id :
      (db : Db) (p : EventPart) (a : ℕ)
      → link_upload db d.identity.user_id p ≡ some a
      → some a ≡ p.upload_id
  unfolding link_upload
  link_upload-id db p a e = elim (Option-cases p.upload_id) [
    | inl f ↦ absurd (ground (arith, e, f))
    | inr (b, f) ↦ elim (Option-cases (find (is_attachment b d.identity.user_id) db.attachments)) [
      | inl g ↦ absurd (ground (arith, e, f, g))
      | inr (file, g) ↦ elim (Option-cases (find (uses_attachment d.identity.user_id b) db.parts)) [
        | inl h ↦ ground (arith, e, f, g, h)
        | inr (q, h) ↦ absurd (ground (arith, e, f, g, h))
      ]
    ]
  ]

  link_upload-Usable :
      (db : Db) (p : EventPart) (a : ℕ)
      → p.upload_id ≡ some a
      → Usable d.identity.user_id db.attachments db.parts a
      → link_upload db d.identity.user_id p ≡ some a
  unfolding link_upload
  link_upload-Usable db p a up ((file, there), free) =
      let user = d.identity.user_id in
      let there' : find (is_attachment a user) db.attachments ≡ some file = there in
      let unused : find (uses_attachment user a) db.parts ≡ none =
        All-find-none (uses_attachment user a) db.parts (
          All-weaken _ (λ q. uses_attachment user a q ≡ false) db.parts (λ q no_. apart q no_)
            free) in
      ground (arith, up, there', unused)
    where
      apart :
          (q : Part)
          → ¬ ((q.user_id ≡ d.identity.user_id) × (q.attachment_id ≡ some a))
          → uses_attachment d.identity.user_id a q ≡ false
      apart q no_ = elim (Option-cases q.attachment_id) [
        | inl e ↦ rw e refl
        | inr (b, e) ↦ elim (Bool-cases (uses_attachment d.identity.user_id a q)) [
          | inr f ↦ f
          | inl f ↦
              let same : (b == a && q.user_id == d.identity.user_id) ≡ true =
                ground (arith, e, f) in
              absurd (no_ (ground (arith, same), ground (arith, e, same)))
        ]
      ]

  linked-Holds :
      (index ordinal : ℕ) (dec : Decision) (db : Db) (p : EventPart)
      → let r =
          chat_part d index note ordinal dec (linked p (link_upload db d.identity.user_id p)) in
        ((a : ℕ)
          → p.upload_id ≡ some a
          → Usable d.identity.user_id db.attachments db.parts a
          → HasFile p r)
        × (HasFile p r ⊎ IsFailed p r (λ f. f.reason ≡ codes "upload_missing"))
  linked-Holds index ordinal dec db p = (
    (λ a up usable. rw (link_upload-Usable db p a up usable) (refl, sym up)),
    elim (Option-cases (link_upload db d.identity.user_id p)) [
      | inl e ↦ rw e (inr (refl, (_, refl, refl, refl, refl)))
      | inr (a, e) ↦ rw e (inl (refl, link_upload-id db p a e))
    ],
  )

  held-Holds :
      (t : PartType) (index ordinal : ℕ) (dec : Decision) (db : Db) (p : EventPart)
      → Holds d.identity.user_id db.attachments db.parts t p
          (chat_part d index note ordinal dec (held t db d.identity.user_id p))
  unfolding held
  held-Holds PartType.text index ordinal dec db p = (refl, refl)
  held-Holds PartType.unsupported index ordinal dec db p =
      (refl, λ h. ap (λ b. some b) (or_default-given p.description _ h))
  held-Holds PartType.attachment_failed index ordinal dec db p =
      (refl, (_, refl, refl, refl, or_default-given p.reason _))
  held-Holds PartType.attachment index ordinal dec db p = linked-Holds index ordinal dec db p
  held-Holds PartType.unknown index ordinal dec db p = linked-Holds index ordinal dec db p

  -- A part with a higher ordinal than the others of the note comes behind them.
  appended_last :
      (r : Part) (db : Db)
      → r.user_id ≡ d.identity.user_id
      → r.note_id ≡ note
      → next_part_ordinal d.identity.user_id note db.parts ≤ r.ordinal
      → (list_parts d.identity.user_id note (record db { parts = r ∷ db.parts })
          ≡ list_parts d.identity.user_id note db ++ r ∷ [])
        × (next_part_ordinal d.identity.user_id note (r ∷ db.parts) ≡ r.ordinal + 1)
  unfolding list_parts next_part_ordinal select
  appended_last r db u n h =
      let user = d.identity.user_id in
      let own : List Part = select (own_part user note) db.parts in
      let rows : select (own_part user note) (r ∷ db.parts) ≡ r ∷ own = ground (arith, u, n) in
      let last =
        sort_by-last (λ p. p.ordinal) r own
          (sort-All (λ p. p.ordinal) (λ p. ltb p.ordinal r.ordinal ≡ true) own
            (ordinals_below user note r.ordinal db.parts h)) in
      (ap (sort_by (λ p. p.ordinal)) rows ∙ last, ground (arith, u, n, h))

  appended_elsewhere :
      (m : ℕ) (r : Part) (db : Db)
      → m ≢ note
      → r.note_id ≡ note
      → list_parts d.identity.user_id m (record db { parts = r ∷ db.parts })
        ≡ list_parts d.identity.user_id m db
  unfolding list_parts select
  appended_elsewhere m r db apart n =
      let away : own_part d.identity.user_id m r ≡ false = ground (arith, apart, n) in rw away refl

-- The parts of an event are written behind those of the note, and no other note gets one.
module _ (d : Delivery) (note ordinal : ℕ) (dec : Decision) where
  inserted : ℕ → EventPart → Intake → Part
  inserted index p s =
      chat_part d index note (ordinal + index) dec (held p.type s.db d.identity.user_id p)

  pub insert_chat_parts-Written :
      (index : ℕ) (ps : List EventPart) (s : Intake)
      → next_part_ordinal d.identity.user_id note s.db.parts ≤ ordinal + index
      → (rows : List Part) × (list_parts d.identity.user_id note
            (insert_chat_parts d note ordinal dec index ps s).0.db
          ≡ list_parts d.identity.user_id note s.db ++ rows)
        × Written d note s.db.attachments s.db.parts index ps rows
  unfolding insert_chat_parts inserted
  insert_chat_parts-Written index [] s h = ([], sym (append-nil _), tt)
  insert_chat_parts-Written index (p ∷ ps) s h =
      let r : Part = inserted index p s in
      let (last, next) = appended_last d note r s.db refl refl h in
      let (rows, e, w) =
        insert_chat_parts-Written (index + 1) ps
          (insert_chat_part d s index p note (ordinal + index) dec).0 (omega (arith, next)) in
      (
        r ∷ rows,
        e ∙ (ap (λ l. l ++ rows) last ∙ append_assoc _ (r ∷ []) rows),
        (refl, refl, refl, held-Holds d note p.type index (ordinal + index) dec s.db p, w),
      )

  pub insert_chat_parts-elsewhere :
      (m : ℕ)
      → m ≢ note
      → (index : ℕ) (ps : List EventPart) (s : Intake)
      → list_parts d.identity.user_id m (insert_chat_parts d note ordinal dec index ps s).0.db
        ≡ list_parts d.identity.user_id m s.db
  unfolding insert_chat_parts inserted
  insert_chat_parts-elsewhere m apart index [] s = refl
  insert_chat_parts-elsewhere m apart index (p ∷ ps) s =
      insert_chat_parts-elsewhere m apart (index + 1) ps _
      ∙ appended_elsewhere d note m (inserted index p s) s.db apart refl
