-- ===== src/Db/Feed/Gapless.antt =====
-- The numbers of the change feed (core/internal/store/store.go, `UserTx.Change`).
use native.Mathlib.Decide.{ℕ_discrete}
use notekeeper.Common.{
  ℕ, ◌+◌, ◌≡◌, refl, ◌≢◌, ◌∙◌, true, Option, some, List, [], ◌∷◌, arith, ◌==◌, if◌then◌else◌,
}
use notekeeper.Db.Rows.{find, update, select, find-update, find-fits}
use notekeeper.Db.{Db, User, Change, Entity, Op}
use notekeeper.Db.Feed.{is_user, next_change_seq, change}

-- The changes, the newest first, are numbered from `n` down to `floor + 1`.
abbrev pub Numbered : List Change → ℕ → ℕ → Type 0
Numbered [] n floor = n ≡ floor
Numbered (c ∷ cs) n floor = (m : ℕ) × (n ≡ m + 1) × (c.seq ≡ n) × Numbered cs m floor

-- The changes of a user.
abbrev pub feed : ℕ → Db → List Change
feed user db = select (λ c. c.user_id == user) db.changes

-- The feed of a user has no gap above a floor, up to which the changes have been purged; the floor is 0
-- if none has.
abbrev pub Gapless : ℕ → ℕ → Db → Type 0
Gapless user floor db =
    (u : User) × (find (is_user user) db.users ≡ some u)
    × Numbered (feed user db) u.change_seq floor

abbrev raised : User → User
raised u = record u { change_seq = u.change_seq + 1 }

find-raised :
    (us : List User) (who user : ℕ) (u : User)
    → find (is_user user) us ≡ some u
    → find (is_user user) (update (is_user who) raised us)
      ≡ some (if u.id == who then raised u else u)
find-raised us who user u e =
    let fits : (u.id == user) ≡ true = find-fits (is_user user) us u e in
    find-update (is_user user) (is_user who) raised us (λ r. refl) ∙ ground (arith, e, fits)

next_change_seq-found :
    (us : List User) (user : ℕ) (u : User)
    → find (is_user user) us ≡ some u
    → next_change_seq us user ≡ u.change_seq + 1
unfolding next_change_seq
next_change_seq-found us user u e = rw (e, next_change_seq) refl

feed-own :
    (db : Db) (user : ℕ) (entity : Entity) (id : ℕ) (op : Op) (version : Option ℕ) (u : User)
    → find (is_user user) db.users ≡ some u
    → feed user (change db user entity id op version)
      ≡ record {
        user_id = user;
        seq = u.change_seq + 1;
        entity = entity;
        entity_id = id;
        op = op;
        version = version;
      }
        ∷ feed user db
unfolding change select
feed-own db user entity id op version u e = ground (arith, next_change_seq-found db.users user u e)

feed-other :
    (db : Db) (who user : ℕ) (entity : Entity) (id : ℕ) (op : Op) (version : Option ℕ)
    → who ≢ user
    → feed user (change db who entity id op version) ≡ feed user db
unfolding change select
feed-other db who user entity id op version n = ground arith

own-Gapless :
    (db : Db) (user floor : ℕ) (entity : Entity) (id : ℕ) (op : Op) (version : Option ℕ)
    → Gapless user floor db
    → Gapless user floor (change db user entity id op version)
unfolding change
own-Gapless db user floor entity id op version (u, e, ns) = (
  raised u,
  find-raised db.users user user u e ∙ ground (arith, find-fits (is_user user) db.users u e),
  rw (feed-own db user entity id op version u e) (u.change_seq, refl, refl, ns),
)

other-Gapless :
    (db : Db) (who user floor : ℕ) (entity : Entity) (id : ℕ) (op : Op) (version : Option ℕ)
    → who ≢ user
    → Gapless user floor db
    → Gapless user floor (change db who entity id op version)
unfolding change
other-Gapless db who user floor entity id op version n (u, e, ns) = (
  u,
  find-raised db.users who user u e ∙ ground (arith, find-fits (is_user user) db.users u e),
  rw (feed-other db who user entity id op version n) ns,
)

-- If the feed of a user is numbered without a gap from the user's counter down to a floor, up to which
-- changes may have been purged, it is so after any change, of this user or another.
pub change-Gapless :
    (db : Db) (who user floor : ℕ) (entity : Entity) (id : ℕ) (op : Op) (version : Option ℕ)
    → Gapless user floor db
    → Gapless user floor (change db who entity id op version)
change-Gapless db who user floor entity id op version h = elim (ℕ_discrete who user) [
  | yes e ↦ rw e (own-Gapless db user floor entity id op version h)
  | no n ↦ other-Gapless db who user floor entity id op version n h
]
