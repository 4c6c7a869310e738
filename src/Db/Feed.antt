-- ===== src/Db/Feed.antt =====
-- The change feed (`UserTx.Change` of core/internal/store/store.go).
pub mod Gapless
use notekeeper.Common.{
  ℕ, ◌+◌, ◌≡◌, refl, Bool, Option, none, some, List, ◌∷◌, arith, ◌==◌, if◌then◌else◌,
}
use mathlib.Core.Option
use notekeeper.Db.Rows.{find, update, find-update}
use notekeeper.Db.{Db, User, Entity, Op}

abbrev pub is_user : ℕ → User → Bool
is_user user u = u.id == user

-- NextChangeSeq: the counter of the user's row, after it is raised. The transaction has locked that row
-- before, so it is there; the query would fail without it, and the 0 stands for nothing.
pub next_change_seq : List User → ℕ → ℕ
next_change_seq us user = elim (find (is_user user) us) [ none ↦ 0 | some u ↦ u.change_seq + 1 ]

-- `Change`
unfoldable pub change : Db → ℕ → Entity → ℕ → Op → Option ℕ → Db
unfolding next_change_seq
change db user entity id op version =
    let seq = next_change_seq db.users user in
    record db {
      users = update (is_user user) (λ u. record u { change_seq = u.change_seq + 1 }) db.users;
      changes =
          record {
            user_id = user;
            seq = seq;
            entity = entity;
            entity_id = id;
            op = op;
            version = version;
          }
          ∷ db.changes;
    }

-- The feed is apart from what the services keep.
pub change_same :
    (db : Db) (user : ℕ) (entity : Entity) (id : ℕ) (op : Op) (version : Option ℕ)
    → let db' = change db user entity id op version in
      (db'.notes ≡ db.notes)
      × (db'.reminders ≡ db.reminders)
      × (db'.outbox ≡ db.outbox)
      × (db'.notifications ≡ db.notifications)
unfolding change
change_same db user entity id op version = (refl, refl, refl, refl)

-- Whether a user is there and active.
abbrev pub status : ℕ → List User → Option Bool
status user us = Option.map (λ (u : User). u.active) (find (is_user user) us)

pub status-change :
    (db : Db) (user other : ℕ) (entity : Entity) (id : ℕ) (op : Op) (version : Option ℕ)
    → status other (change db user entity id op version).users ≡ status other db.users
unfolding change
status-change db user other entity id op version =
    rw
      (find-update (is_user other) (is_user user) (λ u. record u { change_seq = u.change_seq + 1 })
        db.users (λ r. refl))
      (same (find (is_user other) db.users))
  where
    same :
        (o : Option User)
        → Option.map
            (λ (u : User). u.active)
            (Option.map
              (λ (u : User). if u.id == user then record u { change_seq = u.change_seq + 1 } else u)
              o)
          ≡ Option.map (λ (u : User). u.active) o
    same none = refl
    same (some u) = ground arith
