-- ===== src/Outbox/Files.antt =====
-- Whose file an item lets a bot read (core/internal/outbox/outbox.go, `AttachmentOwner`).
use notekeeper.Common.{ℕ, Bool, false, ◌||◌, Option, none, some, List, [], ◌∷◌, ◌==◌, if◌then◌else◌}
use notekeeper.Db.Rows.{find}
use notekeeper.Db.{Db}
use notekeeper.Outbox.{is_claimed_by}

-- `AttachmentOwner`; `listed` reads the ids of the files in a payload, if it can be read.
is_listed : ℕ → List ℕ → Bool
is_listed a [] = false
is_listed a (b ∷ bs) = b == a || is_listed a bs

pub attachment_owner : (Option ℕ → Option (List ℕ)) → Db → ℕ → ℕ → ℕ → Option ℕ
unfolding is_listed
attachment_owner listed db instance item attachment =
    elim (find (is_claimed_by item instance) db.outbox) [
      | none ↦ none
      | some o ↦ elim o.user_id [
        | none ↦ none
        | some user ↦ elim (listed o.payload) [
          | none ↦ none
          | some ids ↦ if is_listed attachment ids then some user else none
        ]
      ]
    ]
