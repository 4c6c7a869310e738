-- ===== src/Outbox/Expiry.antt =====
-- Closing the items that have waited too long (core/internal/outbox/outbox.go, `Expire`).
use notekeeper.Common.{ℕ, ◌+◌, Bool, ◌&&◌, ◌||◌, Option, none, some, List, [], ◌∷◌, ltb, ◌==◌, take}
use notekeeper.Db.Rows.{find, update, select, sort_by}
use notekeeper.Db.{Db, OutboxItem, OutboxState, Error}
use notekeeper.Outbox.{expire_after, is_queued, is_claimed, expire_item, notify_failure, set_outbox}

-- StaleOutbox and ExpireOutboxItem.
abbrev pub is_open : OutboxState → Bool
is_open s = is_queued s || is_claimed s

abbrev pub is_stale : ℕ → OutboxItem → Bool
is_stale now o = is_open o.state && ltb (o.created_at + expire_after) now

abbrev pub is_open_item : ℕ → OutboxItem → Bool
is_open_item id o = o.id == id && is_open o.state

-- The loop of `Expire`: an error ends it. An item that was closed meanwhile is passed over.
unfoldable pub expire_all : (Db → ℕ) → Db → ℕ → List OutboxItem → Option Error × Db
unfolding expire_item notify_failure
expire_all new_id db now [] = (none, db)
expire_all new_id db now (o ∷ os) =
    let db' = set_outbox db (update (is_open_item o.id) (expire_item now) db.outbox) in
    let told = notify_failure new_id db' o.user_id o.kind in
    elim (find (is_open_item o.id) db.outbox) [
      | none ↦ expire_all new_id db now os
      | some _ ↦ elim told.0 [ none ↦ expire_all new_id told.1 now os | some e ↦ told ]
    ]

-- `Expire`
unfoldable pub expire : (Db → ℕ) → Db → ℕ → Option Error × Db
unfolding expire_all
expire new_id db now =
    expire_all new_id db now
      (take 200 (sort_by (λ o. o.created_at) (select (is_stale now) db.outbox)))
