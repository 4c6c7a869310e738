-- ===== src/Blobs/Accounted.antt =====
-- The deletion of a file (core/internal/blobs/blobs.go, `Delete`).
use notekeeper.Common.{
  ℕ, ◌+◌, ◌≤◌, ◌≡◌, inl, inr, refl, ap, ◌∙◌, true, ◌&&◌, ◌⊎◌, none, some, List, [], ◌∷◌, arith,
  ◌==◌, if◌then◌else◌, Bool-cases, Option-cases,
}
use mathlib.Core.Option
use notekeeper.Db.Rows.{find, update, delete, count, find-update, find-fits}
use notekeeper.Db.{Db, Attachment, Blob, UserStorage, ok}
use notekeeper.Blobs.{is_attachment, is_blob, uses_blob, of_owner, released, delete_file}

-- A deletion leaves all but the files and their space as it is.
pub delete_file-rows :
    (db : Db) (user id : ℕ) (t : Db)
    → delete_file db user id ≡ ok t
    → (t.notes ≡ db.notes)
      × (t.parts ≡ db.parts)
      × (t.reminders ≡ db.reminders)
      × (t.links ≡ db.links)
      × (t.outbox ≡ db.outbox)
unfolding delete_file
delete_file-rows db user id t e =
    elim (Option-cases (find (is_attachment id user) db.attachments)) [
      | inl f ↦ let same : t ≡ db = ground (arith, e, f) in rw same (refl, refl, refl, refl, refl)
      | inr (a, f) ↦ elim (Option-cases (find (is_blob a.blob_id user) db.blobs)) [
        | inl g ↦ absurd (ground (arith, e, f, g))
        | inr (blob, g) ↦
            elim (Option-cases
              (find (uses_blob a.blob_id user) (delete (is_attachment id user) db.attachments))) [
                | inr (other, h) ↦
                    let same : t ≡ record db {
                      attachments = delete (is_attachment id user) db.attachments;
                    } =
                      ground (arith, e, f, g, h) in
                    rw same (refl, refl, refl, refl, refl)
                | inl h ↦
                    let same : t ≡ record db {
                      attachments = delete (is_attachment id user) db.attachments;
                      blobs = delete (is_blob a.blob_id user) db.blobs;
                      storage = update (of_owner user) (released blob.size_bytes) db.storage;
                    } =
                      ground (arith, e, f, g, h) in
                    rw same (refl, refl, refl, refl, refl)
              ]
      ]
    ]

-- A deletion takes the attachment off, if it is there.
pub delete_file-attachments :
    (db : Db) (user id : ℕ) (t : Db)
    → delete_file db user id ≡ ok t
    → ((t.attachments ≡ db.attachments) × (find (is_attachment id user) db.attachments ≡ none))
      ⊎ (t.attachments ≡ delete (is_attachment id user) db.attachments)
unfolding delete_file
delete_file-attachments db user id t e =
    elim (Option-cases (find (is_attachment id user) db.attachments)) [
      | inl f ↦ let same : t ≡ db = ground (arith, e, f) in rw same (inl (refl, f))
      | inr (a, f) ↦ elim (Option-cases (find (is_blob a.blob_id user) db.blobs)) [
        | inl g ↦ absurd (ground (arith, e, f, g))
        | inr (blob, g) ↦
            elim (Option-cases
              (find (uses_blob a.blob_id user) (delete (is_attachment id user) db.attachments))) [
                | inr (other, h) ↦
                    let same : t ≡ record db {
                      attachments = delete (is_attachment id user) db.attachments;
                    } =
                      ground (arith, e, f, g, h) in
                    rw same (inr refl)
                | inl h ↦
                    let same : t ≡ record db {
                      attachments = delete (is_attachment id user) db.attachments;
                      blobs = delete (is_blob a.blob_id user) db.blobs;
                      storage = update (of_owner user) (released blob.size_bytes) db.storage;
                    } =
                      ground (arith, e, f, g, h) in
                    rw same (inr refl)
              ]
      ]
    ]

-- The bytes of the whole files of a user.
unfoldable pub total : ℕ → List Blob → ℕ
total user [] = 0
total user (b ∷ bs) = (if b.user_id == user && b.complete then b.size_bytes else 0) + total user bs

-- The space that is counted for a user is that of the files.
abbrev pub IsAccounted : ℕ → Db → Type 0
IsAccounted user db =
    (s : UserStorage) × (find (of_owner user) db.storage ≡ some s)
    × (s.used_bytes ≡ total user db.blobs)

total-none :
    (user id : ℕ) (bs : List Blob)
    → count (is_blob id user) bs ≤ 0
    → total user (delete (is_blob id user) bs) ≡ total user bs
unfolding total count delete
total-none user id [] h = refl
total-none user id (b ∷ bs) h = ground (arith, h, total-none user id bs)

total-delete :
    (user id : ℕ) (bs : List Blob) (blob : Blob)
    → count (is_blob id user) bs ≤ 1
    → find (is_blob id user) bs ≡ some blob
    → blob.complete ≡ true
    → total user bs ≡ blob.size_bytes + total user (delete (is_blob id user) bs)
unfolding total count delete find
total-delete user id [] blob h e c = absurd (cc)
total-delete user id (b ∷ bs) blob h e c = elim (Bool-cases (is_blob id user b)) [
  | inl t ↦
      let same : b ≡ blob = ground (arith, e, t) in
      let rest = total-none user id bs (ground (arith, h, t)) in
      let whole : b.complete ≡ true = rw same c in
      let size : b.size_bytes ≡ blob.size_bytes = ap (λ b. b.size_bytes) same in
      ground (arith, t, rest, whole, size)
  | inr f ↦
      ground
        (arith, f, total-delete user id bs blob (ground (arith, h, f)) (ground (arith, e, f)) c)
]

-- A deletion of a file keeps the count: the bytes of a file that no attachment uses any more are taken off
-- it, and those of one that is still used are not. Each file is one row, and those of attachments are whole.
pub delete_file-IsAccounted :
    (db : Db) (user id : ℕ) (t : Db)
    → ((blob : ℕ) → count (is_blob blob user) db.blobs ≤ 1)
    → ((a : Attachment) (b : Blob)
        → find (is_attachment id user) db.attachments ≡ some a
        → find (is_blob a.blob_id user) db.blobs ≡ some b
        → b.complete ≡ true)
    → IsAccounted user db
    → delete_file db user id ≡ ok t
    → IsAccounted user t
unfolding delete_file
delete_file-IsAccounted db user id t one whole (s, own, used) e =
    elim (Option-cases (find (is_attachment id user) db.attachments)) [
      | inl f ↦ let same : t ≡ db = ground (arith, e, f) in rw same (s, own, used)
      | inr (a, f) ↦ elim (Option-cases (find (is_blob a.blob_id user) db.blobs)) [
        | inl g ↦ absurd (ground (arith, e, f, g))
        | inr (blob, g) ↦
            elim (Option-cases
              (find (uses_blob a.blob_id user) (delete (is_attachment id user) db.attachments))) [
                | inr (other, h) ↦
                    let same : t ≡ record db {
                      attachments = delete (is_attachment id user) db.attachments;
                    } =
                      ground (arith, e, f, g, h) in
                    rw same (s, own, used)
                | inl h ↦
                    let same : t ≡ record db {
                      attachments = delete (is_attachment id user) db.attachments;
                      blobs = delete (is_blob a.blob_id user) db.blobs;
                      storage = update (of_owner user) (released blob.size_bytes) db.storage;
                    } =
                      ground (arith, e, f, g, h) in
                    let fewer =
                      total-delete user a.blob_id db.blobs blob (one a.blob_id) g
                        (whole a blob f g) in
                    let found : find (of_owner user)
                          (update (of_owner user) (released blob.size_bytes) db.storage)
                        ≡ some (released blob.size_bytes s) =
                      find-update (of_owner user) (of_owner user) (released blob.size_bytes)
                        db.storage (λ _. refl)
                      ∙ ap
                          (Option.map
                            (λ s. if of_owner user s then released blob.size_bytes s else s))
                          own
                      ∙ rw (find-fits (of_owner user) db.storage s own) refl in
                    rw same (released blob.size_bytes s, found, omega (arith, used, fewer))
              ]
      ]
    ]
