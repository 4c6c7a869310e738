-- ===== src/Notes/Purge/Gone.antt =====
-- What is left of a note that is deleted for good (core/internal/notes/ops.go, `DeletePermanently`).
use mathlib.Core.Path.{subst}
use notekeeper.Common.{
  ℕ, ◌≡◌, ◌≢◌, ◌≤◌, inl, inr, refl, ◌∙◌, Bool, true, false, ◌&&◌, ◌==◌, none, some, List, [], ◌∷◌,
  arith, All, Option-cases, Bool-cases,
}
use notekeeper.Db.Rows.{
  NoneOf, find, find-none-All, delete-All, All-delete, All-weaken, count, update, delete,
  find-delete, All-update, All-of,
}
use notekeeper.Db.Feed.{change}
use notekeeper.Db.{
  Db, Note, Part, ShareLink, Blob, queued, claimed, Attachment, OutboxItem, Reminder, Entity, Op,
  ok, is_active, Result-cases,
}
use notekeeper.Blobs.{is_attachment, is_blob, delete_file}
use notekeeper.Blobs.Accounted.{delete_file-rows, delete_file-attachments}
use notekeeper.Reminders.{is_note, of_note}
use notekeeper.Reminders.Endings.{cancel}
use notekeeper.Notes.{in_state}
use notekeeper.Notes.Regroup.{own_part, own_link}
use notekeeper.Notes.Purge.{
  is_of_note, file_of, is_queued_for_note, cancel_for_note, attachments_of, delete_note,
  delete_files, delete_permanently,
}

find-delete-none :
    (q p : Attachment → Bool) (rs : List Attachment)
    → find q rs ≡ none
    → find q (delete p rs) ≡ none
unfolding find delete
find-delete-none q p [] e = refl
find-delete-none q p (r ∷ rs) e = ground (arith, e, find-delete-none q p rs)

abbrev IsGone : ℕ → Db → ℕ → Type 0
IsGone user t a = find (is_attachment a user) t.attachments ≡ none

-- A file that is gone stays gone.
delete_file-IsGone :
    (db : Db) (user id a : ℕ) (t : Db)
    → delete_file db user id ≡ ok t
    → IsGone user db a
    → IsGone user t a
delete_file-IsGone db user id a t e g = elim (delete_file-attachments db user id t e) [
  | inl same ↦ rw same.0 g
  | inr less ↦
      rw less (find-delete-none (is_attachment a user) (is_attachment id user) db.attachments g)
]

delete_file-own :
    (db : Db) (user id : ℕ) (t : Db) → delete_file db user id ≡ ok t → IsGone user t id
delete_file-own db user id t e = elim (delete_file-attachments db user id t e) [
  | inl same ↦ rw same.0 same.1
  | inr less ↦ rw less (find-delete (is_attachment id user) db.attachments)
]

-- What the deletion of files leaves alone.
abbrev SameRows : Db → Db → Type 0
SameRows db t =
    (t.notes ≡ db.notes)
    × (t.parts ≡ db.parts)
    × (t.reminders ≡ db.reminders)
    × (t.links ≡ db.links)
    × (t.outbox ≡ db.outbox)

delete_files-IsGone :
    (db : Db) (user : ℕ) (ids : List ℕ) (t : Db)
    → delete_files db user ids ≡ ok t
    → SameRows db t × All (IsGone user t) ids × ((a : ℕ) → IsGone user db a → IsGone user t a)
unfolding delete_files
delete_files-IsGone db user [] t e =
    let same : t ≡ db = ground (arith, e) in rw same ((refl, refl, refl, refl, refl), tt, λ a g. g)
delete_files-IsGone db user (id ∷ ids) t e = elim (Result-cases (delete_file db user id)) [
  | inr (x, f) ↦ absurd (ground (arith, e, f))
  | inl (u, f) ↦
      let ((n, p, r, l, o), gone, stays) =
        delete_files-IsGone u user ids t (ground (arith, e, f)) in
      let (n', p', r', l', o') = delete_file-rows db user id u f in
      (
        (n ∙ n', p ∙ p', r ∙ r', l ∙ l', o ∙ o'),
        (stays id (delete_file-own db user id u f), gone),
        λ a g. stays a (delete_file-IsGone db user id a u f g),
      )
]

cancelled :
    (user note now : ℕ) (rs : List Reminder) (os : List OutboxItem)
    → All
        (λ o. is_queued_for_note user note rs o ≡ false)
        (update (is_queued_for_note user note rs) (cancel now) os)
cancelled user note now rs os =
    All-update (λ o. Unit {0}) (λ o. is_queued_for_note user note rs o ≡ false)
      (is_queued_for_note user note rs) (cancel now) os (λ o _ _. ground arith) (λ o _ e. e)
      (All-of (λ o. Unit {0}) os (λ o. tt))

-- Nothing of a note is left in a store: no row of it, no part, reminder or link; no attachment of a part
-- that it had, where that was there with its file; and no message of a reminder that it had is queued
-- or claimed.
pub record Purged (user id : ℕ) (before t : Db) : Type 0 where
  pub no_note : NoneOf (λ (n : Note). n.user_id) (λ n. n.id) user id t.notes
  pub no_parts : NoneOf (λ (p : Part). p.user_id) (λ p. p.note_id) user id t.parts
  pub no_reminders : NoneOf (λ (r : Reminder). r.user_id) (λ r. r.note_id) user id t.reminders
  pub no_links : NoneOf (λ (l : ShareLink). l.user_id) (λ l. l.note_id) user id t.links
  pub no_files :
      All
        (λ p.
          p.user_id ≡ user
          → p.note_id ≡ id
          → (a : ℕ) (file : Attachment) (blob : Blob) → p.attachment_id ≡ some a
          → find (λ f. f.id == a && f.user_id == user) before.attachments ≡ some file
          → find (λ b. b.id == file.blob_id && b.user_id == user) before.blobs ≡ some blob
          → NoneOf (λ (f : Attachment). f.user_id) (λ f. f.id) user a t.attachments)
        before.parts
  pub no_messages :
      All
        (λ r.
          r.user_id ≡ user
          → r.note_id ≡ id
          → All
              (λ o.
                o.user_id ≡ some user
                → o.reminder_id ≡ some r.id
                → (o.state ≢ queued) × (o.state ≢ claimed))
              t.outbox)
        before.reminders

module _ (user id : ℕ) where
  gone-NoneOf :
      (a : ℕ) (fs : List Attachment)
      → find (is_attachment a user) fs ≡ none
      → NoneOf (λ (f : Attachment). f.user_id) (λ f. f.id) user a fs
  gone-NoneOf a fs h =
      All-weaken (λ f. is_attachment a user f ≡ false) (λ f. ¬ ((f.user_id ≡ user) × (f.id ≡ a))) fs
        (λ f e (u, i). absurd (ground (arith, e, u, i))) (find-none-All (is_attachment a user) fs h)

  -- The note is of one row, which is in the Trash, so all its rows are.
  all_trashed :
      (ns : List Note) (n : Note)
      → find (is_note id user) ns ≡ some n
      → is_active n.state ≡ false
      → count (is_note id user) ns ≤ 1
      → All (λ m. is_note id user m ≡ true → in_state false id user m ≡ true) ns
  unfolding find count
  all_trashed [] n f trash one = tt
  all_trashed (m ∷ ns) n f trash one = elim (Bool-cases (is_note id user m)) [
    | inl e ↦
        let same : m ≡ n = ground (arith, e, f) in
        let none_else : count (is_note id user) ns ≡ 0 = ground (arith, e, one) in
        ((λ _. ground (arith, e, same, trash)), no_other ns none_else)
    | inr e ↦ (
      (λ h. absurd (ground (arith, e, h))),
      all_trashed ns n (ground (arith, e, f)) trash (ground (arith, e, one)),
    )
  ]
    where
      no_other :
          (ms : List Note)
          → count (is_note id user) ms ≡ 0
          → All (λ m. is_note id user m ≡ true → in_state false id user m ≡ true) ms
      no_other [] h = tt
      no_other (m ∷ ms) h = ((λ e. absurd (ground (arith, e, h))), no_other ms (ground (arith, h)))

  -- What holds of the files of a note holds of the file of each of its parts.
  each_file :
      (P : ℕ → Type 0) (db : Db) (ps : List Part)
      → All P (attachments_of db user id ps)
      → All (λ p. own_part user id p ≡ true → (a : ℕ) → file_of db user p ≡ some a → P a) ps
  unfolding attachments_of
  each_file P db [] h = tt
  each_file P db (p ∷ ps) h = elim (Bool-cases (own_part user id p)) [
    | inr e ↦
        let same : attachments_of db user id (p ∷ ps) ≡ attachments_of db user id ps = rw e refl in
        ((λ q. absurd (ground (arith, e, q))), each_file P db ps (subst (All P) same h))
    | inl e ↦ elim (Option-cases (file_of db user p)) [
      | inl f ↦
          let same : attachments_of db user id (p ∷ ps) ≡ attachments_of db user id ps =
            rw (e, f) refl in
          ((λ q a g. absurd (ground (arith, f, g))), each_file P db ps (subst (All P) same h))
      | inr (x, f) ↦
          let same : attachments_of db user id (p ∷ ps) ≡ x ∷ attachments_of db user id ps =
            rw (e, f) refl in
          let (here, rest) = subst (All P) same h in
          (
            (λ q a g. let one : x ≡ a = ground (arith, f, g) in subst P one here),
            each_file P db ps rest,
          )
    ]
  ]

  -- Each reminder of a note is one of those whose messages are cancelled.
  each_reminder :
      (rs : List Reminder)
      → All
          (λ r.
            (o : OutboxItem)
            → r.user_id ≡ user
            → r.note_id ≡ id
            → o.reminder_id ≡ some r.id
            → is_of_note user id rs o ≡ true)
          rs
  unfolding is_of_note find
  each_reminder [] = tt
  each_reminder (r ∷ rs) = (
    (λ o u n e. ground (arith, u, n, e)),
    All-weaken
        (λ q.
          (o : OutboxItem)
          → q.user_id ≡ user
          → q.note_id ≡ id
          → o.reminder_id ≡ some q.id
          → is_of_note user id rs o ≡ true)
        (λ q.
          (o : OutboxItem)
          → q.user_id ≡ user
          → q.note_id ≡ id
          → o.reminder_id ≡ some q.id
          → is_of_note user id (r ∷ rs) o ≡ true)
        rs (λ q h o u n e. ground (arith, h o u n e)) (each_reminder rs),
  )

  file_known :
      (db : Db) (p : Part) (a : ℕ) (file : Attachment) (blob : Blob)
      → p.attachment_id ≡ some a
      → find (λ f. f.id == a && f.user_id == user) db.attachments ≡ some file
      → find (λ b. b.id == file.blob_id && b.user_id == user) db.blobs ≡ some blob
      → file_of db user p ≡ some a
  unfolding file_of
  file_known db p a file blob e f g =
      let f' : find (is_attachment a user) db.attachments ≡ some file = f in
      let g' : find (is_blob file.blob_id user) db.blobs ≡ some blob = g in
      ground (arith, e, f', g')

  rows-Purged :
      (db t : Db) (n : Note)
      → find (is_note id user) db.notes ≡ some n
      → is_active n.state ≡ false
      → count (is_note id user) db.notes ≤ 1
      → t.notes ≡ delete (in_state false id user) db.notes
      → t.parts ≡ delete (own_part user id) db.parts
      → t.reminders ≡ delete (of_note user id) db.reminders
      → t.links ≡ delete (own_link user id) db.links
      → All (IsGone user t) (attachments_of db user id db.parts)
      → All (λ o. is_queued_for_note user id db.reminders o ≡ false) t.outbox
      → Purged user id db t
  rows-Purged db t n f trash one ns ps rs ls files os = record {
    no_note = rw ns (
        All-delete (λ m. is_note id user m ≡ true → in_state false id user m ≡ true)
          (λ m. ¬ ((m.user_id ≡ user) × (m.id ≡ id))) (in_state false id user) db.notes
          (λ m q e (u, i). absurd (ground (arith, q, e, u, i)))
          (all_trashed db.notes n f trash one));
    no_parts = rw ps (
        All-weaken _ (λ p. ¬ ((p.user_id ≡ user) × (p.note_id ≡ id))) _
          (λ p e (u, i). absurd (ground (arith, e, u, i)))
          (delete-All (own_part user id) db.parts));
    no_reminders = rw rs (
        All-weaken _ (λ r. ¬ ((r.user_id ≡ user) × (r.note_id ≡ id))) _
          (λ r e (u, i). absurd (ground (arith, e, u, i)))
          (delete-All (of_note user id) db.reminders));
    no_links = rw ls (
        All-weaken _ (λ l. ¬ ((l.user_id ≡ user) × (l.note_id ≡ id))) _
          (λ l e (u, i). absurd (ground (arith, e, u, i)))
          (delete-All (own_link user id) db.links));
    no_files =
        All-weaken _ _ db.parts
          (λ p each u i a file blob e f g.
            gone-NoneOf a t.attachments
              (each (ground (arith, u, i)) a (file_known db p a file blob e f g)))
          (each_file (IsGone user t) db db.parts files);
    no_messages =
        All-weaken _ _ db.reminders
          (λ r known u i.
            All-weaken (λ o. is_queued_for_note user id db.reminders o ≡ false) _ t.outbox
              (λ o e w j. not_waiting o (known o u i j) w e) os)
          (each_reminder db.reminders);
  }
    where
      not_waiting :
          (o : OutboxItem)
          → is_of_note user id db.reminders o ≡ true
          → o.user_id ≡ some user
          → is_queued_for_note user id db.reminders o ≡ false
          → (o.state ≢ queued) × (o.state ≢ claimed)
      not_waiting o k w e =
          ((λ q. absurd (ground (arith, k, w, e, q))), (λ q. absurd (ground (arith, k, w, e, q))))

-- A note that is deleted for good, of which there was one row, was in the Trash, and nothing of it is left:
-- no row of it, no part, reminder or link; none of the attachments that its parts had and that were
-- there with their file; and no message of its reminders that is queued or claimed.
pub delete_permanently-Purged :
    (db : Db) (user id now : ℕ) (t : Db)
    → count (is_note id user) db.notes ≤ 1
    → delete_permanently db user id now ≡ ok t
    → ((n : Note) × (find (is_note id user) db.notes ≡ some n) × (is_active n.state ≡ false))
      × Purged user id db t
unfolding delete_permanently cancel_for_note delete_note change
delete_permanently-Purged db user id now t one e =
    let ids : List ℕ = attachments_of db user id db.parts in
    elim (Option-cases (find (is_note id user) db.notes)) [
      | inl f ↦ absurd (ground (arith, e, f))
      | inr (n, f) ↦
          elim (Result-cases
            (delete_files (delete_note (cancel_for_note db user id now) user id) user ids)) [
              | inr (x, g) ↦ ground (arith, e, f, g)
              | inl (u, g) ↦
                  let ((ns, ps, rs, ls, os), gone, _) =
                    delete_files-IsGone (delete_note (cancel_for_note db user id now) user id) user
                      ids u g in
                  let trash : is_active n.state ≡ false = ground (arith, e, f) in
                  let end : t ≡ change u user Entity.note id Op.delete none =
                    ground (arith, e, f, g, trash) in
                  (
                    (n, f, trash),
                    rw end (
                        rows-Purged user id db (change u user Entity.note id Op.delete none) n f
                          trash one ns ps rs ls gone
                          (rw os (cancelled user id now db.reminders db.outbox))),
                  )
            ]
    ]
