-- ===== src/Blobs.antt =====
-- The files of a user (core/internal/blobs/blobs.go, core/internal/store/dbq/blobs.sql.go): what the deletion
-- of an attachment does to the files and to the space that is counted.
pub mod Accounted
use notekeeper.Common.{
  ℕ, ◌+◌, ◌-◌, Bool, true, false, ◌&&◌, Option, none, some, List, [], ◌∷◌, ◌==◌, if◌then◌else◌,
}
use notekeeper.Db.Rows.{find, update, delete}
use notekeeper.Db.{Db, Attachment, Blob, UserStorage, not_found, Result, ok, err}

-- GetAttachment and DeleteAttachment
abbrev pub is_attachment : ℕ → ℕ → Attachment → Bool
is_attachment id user a = a.id == id && a.user_id == user

-- GetBlob and DeleteBlob
abbrev pub is_blob : ℕ → ℕ → Blob → Bool
is_blob id user b = b.id == id && b.user_id == user

-- BlobIsShared
abbrev pub uses_blob : ℕ → ℕ → Attachment → Bool
uses_blob blob user a = a.blob_id == blob && a.user_id == user

abbrev pub of_owner : ℕ → UserStorage → Bool
of_owner user s = s.user_id == user

-- ReleaseUsed; the count does not go below zero.
abbrev pub released : ℕ → UserStorage → UserStorage
released n s = record s { used_bytes = s.used_bytes - n }

-- `Delete`
unfoldable pub delete_file : Db → ℕ → ℕ → Result Db
delete_file db user id = elim (find (is_attachment id user) db.attachments) [
  | none ↦ ok db
  | some a ↦ elim (find (is_blob a.blob_id user) db.blobs) [
    | none ↦ err not_found
    | some blob ↦
        let rest : List Attachment = delete (is_attachment id user) db.attachments in
        elim (find (uses_blob a.blob_id user) rest) [
          | some other ↦ ok (record db { attachments = rest })
          | none ↦ ok (record db {
            attachments = rest;
            blobs = delete (is_blob a.blob_id user) db.blobs;
            storage = update (of_owner user) (released blob.size_bytes) db.storage;
          })
        ]
  ]
]
