-- ===== src/Shares/Revoked.antt =====
-- A link that is revoked never opens again (core/internal/shares/shares.go, `Revoke`, `resolve` and `Open`).
use mathlib.Core.Path.{subst}
use notekeeper.Common.{
  ℕ, ◌≤◌, ◌≡◌, refl, sym, Bool, true, false, ◌&&◌, Option, none, some, List, [], ◌∷◌, arith,
  Bool-cases, inl, inr, All, if◌then◌else◌,
}
use notekeeper.Common.Str.{Str}
use notekeeper.Db.Rows.{
  find, find-All, update, update_one, update_one-rows, delete, select, All-update, All-delete,
}
use notekeeper.Db.Feed.{status, change}
use notekeeper.Db.{Db, Note, ShareLink, Entity, Op, Result, ok, err, ◌>>=◌, or_fail, not_found}
use notekeeper.Reminders.{is_note}
use notekeeper.Ingest.Tables.{Intake}
use notekeeper.Shares.{
  Config, Order, Shared, is_open_at, is_live_of, create_share, revocable, revoked, revoke_share,
  revoke_all, revoke_all_by, show_note, tell_revoked, purge, opens, resolve, resolve_row,
  resolve_note, valid_token, viewed, is_link, open_share,
}
use notekeeper.Shares.Limits.{Made, create-Made}

-- No row of the link is live, from a time on.
abbrev IsOver : ℕ → ℕ → ShareLink → Type 0
IsOver k now l = (is_link k l && is_open_at now l) ≡ false

abbrev pub Over : ℕ → ℕ → Db → Type 0
Over k now db = All (IsOver k now) db.links

-- An update keeps links over where it gives no row more life.
update-Over :
    (k now : ℕ) (p : ShareLink → Bool) (f : ShareLink → ShareLink) (ls : List ShareLink)
    → ((l : ShareLink) → IsOver k now l → IsOver k now (f l))
    → All (IsOver k now) ls
    → All (IsOver k now) (update p f ls)
update-Over k now p f ls keep h =
    All-update (IsOver k now) (IsOver k now) p f ls (λ l q _. keep l q) (λ l q _. q) h

revoked-IsOver : (k now at : ℕ) (l : ShareLink) → IsOver k now (revoked at l)
revoked-IsOver k now at l = ground arith

-- Of one owner, a revocation ends the link.
revoke-rows :
    (k user now : ℕ) (ls : List ShareLink)
    → All (λ l. is_link k l ≡ true → l.user_id ≡ user) ls
    → All (IsOver k now) (update (revocable k user now) (revoked now) ls)
revoke-rows k user now ls own =
    All-update (λ l. is_link k l ≡ true → l.user_id ≡ user) (IsOver k now) (revocable k user now)
      (revoked now) ls (λ l _ _. revoked-IsOver k now now l)
      (λ l q no_. elim (Bool-cases (is_link k l)) [
        | inl e ↦ ground (arith, q e, e, no_)
        | inr e ↦ ground (arith, e)
      ])
      own

abbrev Leaves : (Db → Type 0) → Result Db → Type 0
Leaves P (err e) = Unit {0}
Leaves P (ok db) = P db

revoke_share-Leaves :
    (P : List ShareLink → Type 0) (user id now : ℕ) (db : Db)
    → P (update (revocable id user now) (revoked now) db.links)
    → Leaves (λ d. P d.links) (revoke_share user id now db)
unfolding revoke_share change
revoke_share-Leaves P user id now db h = by_user (status user db.users)
  where
    by_row :
        (o : Option (ShareLink × List ShareLink))
        → update_one (revocable id user now) (revoked now) db.links ≡ o
        → Leaves
            (λ d. P d.links)
            (or_fail o not_found >>= λ r.
              ok (change (record db { links = r.1 }) user Entity.share_link id Op.delete none))
    by_row none e = tt
    by_row (some (l, ls)) e = subst P (sym (update_one-rows _ _ db.links l ls e)) h

    by_user :
        (a : Option Bool)
        → Leaves
            (λ d. P d.links)
            (or_fail a not_found >>= λ active.
              or_fail (update_one (revocable id user now) (revoked now) db.links) not_found >>= λ r.
              ok (change (record db { links = r.1 }) user Entity.share_link id Op.delete none))
    by_user none = tt
    by_user (some a) = by_row _ refl

tell_revoked-links :
    (user : ℕ) (ls : List ShareLink) (db : Db) → (tell_revoked user ls db).links ≡ db.links
unfolding tell_revoked change
tell_revoked-links user [] db = refl
tell_revoked-links user (l ∷ ls) db = tell_revoked-links user ls _

-- What may happen to the links after one is revoked: links of other ids are made, links are revoked,
-- opened, purged and deleted, and all else leaves the links as they are.
pub data Step (k : ℕ) : Db → Db → Type 0 where
  creates :
      (c : Config) (o : Order) (s t : Intake)
      → ¬ (o.id ≡ k)
      → create_share c o s ≡ ok t
      → Step k s.db t.db
  revokes : (user id at : ℕ) (a b : Db) → revoke_share user id at a ≡ ok b → Step k a b
  revokes_all : (user at n : ℕ) (a b : Db) → revoke_all user at a ≡ ok (n, b) → Step k a b
  views :
      (c : Config) (hash : Str → ℕ) (token : Str) (at : ℕ) (seen noted content a b : Db)
      (shown : Shared)
      → open_share c hash token at seen noted content a ≡ ok (shown, b)
      → Step k a b
  purges : (cutoff : ℕ) (a : Db) → Step k a (purge cutoff a)
  removes : (p : ShareLink → Bool) (a b : Db) → b.links ≡ delete p a.links → Step k a b
  others : (a b : Db) → b.links ≡ a.links → Step k a b

pub data Steps (k : ℕ) : Db → Db → Type 0 where
  stop : (a : Db) → Steps k a a
  step : (a b c : Db) → Step k a b → Steps k b c → Steps k a c

module _ (k now : ℕ) where
  abbrev Kept : List ShareLink → Type 0
  Kept = All (IsOver k now)

  revoke_share-Over :
      (user id at : ℕ) (a b : Db) → revoke_share user id at a ≡ ok b → Over k now a → Over k now b
  revoke_share-Over user id at a b e h = subst (Leaves (λ d. Kept d.links)) e (
      revoke_share-Leaves Kept user id at a (
        update-Over k now (revocable id user at) (revoked at) a.links
          (λ l _. revoked-IsOver k now at l) h))

  revoke_all-Over :
      (user at n : ℕ) (a b : Db) → revoke_all user at a ≡ ok (n, b) → Over k now a → Over k now b
  unfolding revoke_all
  revoke_all-Over user at n a b e h = by_user (status user a.users) e
    where
      by_user : (o : Option Bool) → revoke_all_by o user at a ≡ ok (n, b) → Over k now b
      by_user none q = unfold revoke_all_by in absurd (cc)
      by_user (some v) q =
          unfold revoke_all_by in
          let same : tell_revoked user (select (is_live_of user at) a.links)
                (record a { links = update (is_live_of user at) (revoked at) a.links })
              ≡ b =
            ground (arith, q) in
          subst (λ d. Over k now d) same
            (subst Kept (sym (tell_revoked-links user (select (is_live_of user at) a.links) _)) (
              update-Over k now (is_live_of user at) (revoked at) a.links
                (λ l _. revoked-IsOver k now at l) h))

  viewed-IsOver : (at : ℕ) (l : ShareLink) → IsOver k now l → IsOver k now (viewed at l)
  viewed-IsOver at l h = h

  abbrev Shows : Result (Shared × Db) → Type 0
  Shows (err e) = Unit {0}
  Shows (ok (x, b)) = Over k now b

  open-Over :
      (c : Config) (hash : Str → ℕ) (token : Str) (at : ℕ) (seen noted content a : Db)
      → Over k now a
      → Shows (open_share c hash token at seen noted content a)
  unfolding open_share
  open-Over c hash token at seen noted content a h = by_link (resolve c hash token at seen noted)
    where
      by_note : (l : ShareLink) (n : Option Note) → Shows (show_note n l at content a)
      by_note l none = unfold show_note in tt
      by_note l (some n) =
          unfold show_note in
          update-Over k now (is_link l.id) (viewed at) a.links (viewed-IsOver at) h

      by_link :
          (m : Result ShareLink)
          → Shows (
              m >>= λ l.
              show_note (find (is_note l.note_id l.user_id) content.notes) l at content a)
      by_link (err e) = tt
      by_link (ok l) = by_note l _

  create-Over :
      (c : Config) (o : Order) (s t : Intake)
      → ¬ (o.id ≡ k)
      → create_share c o s ≡ ok t
      → Over k now s.db
      → Over k now t.db
  create-Over c o s t fresh e h =
      subst (Made Kept) e (create-Made Kept c o s (λ life _. (ground (arith, fresh), h)))

  Step-Over : (a b : Db) → Step k a b → Over k now a → Over k now b
  Step-Over _ _ (creates c o s t fresh e) h = create-Over c o s t fresh e h
  Step-Over a b (revokes user id at _ _ e) h = revoke_share-Over user id at a b e h
  Step-Over a b (revokes_all user at n _ _ e) h = revoke_all-Over user at n a b e h
  Step-Over a b (views c hash token at seen noted content _ _ shown e) h =
      subst Shows e (open-Over c hash token at seen noted content a h)
  Step-Over a _ (purges cutoff _) h =
      unfold purge in All-delete (IsOver k now) (IsOver k now) _ a.links (λ l q _. q) h
  Step-Over a b (removes p _ _ e) h =
      subst Kept (sym e) (All-delete (IsOver k now) (IsOver k now) p a.links (λ l q _. q) h)
  Step-Over a b (others _ _ e) h = subst Kept (sym e) h

  Steps-Over : (a b : Db) → Steps k a b → Over k now a → Over k now b
  Steps-Over a _ (stop _) h = h
  Steps-Over a c (step _ b _ s ss) h = Steps-Over b c ss (Step-Over a b s h)

  -- No lookup gives the link.
  resolve-Other :
      (c : Config) (hash : Str → ℕ) (token : Str) (later : ℕ) (seen noted : Db) (l : ShareLink)
      → now ≤ later
      → Over k now seen
      → resolve c hash token later seen noted ≡ ok l
      → ¬ (l.id ≡ k)
  unfolding resolve
  resolve-Other c hash token later seen noted l le h e =
      by_row
        (find (opens (hash (if c.enabled && valid_token token then token else [])) later seen.users)
          seen.links)
        (c.enabled && valid_token token) refl e
    where
      by_note : (q : ShareLink) (n : Option Note) → resolve_note n q ≡ ok l → q ≡ l
      by_note q none r = unfold resolve_note in absurd (cc)
      by_note q (some n) r = unfold resolve_note in ground (arith, r)

      by_row :
          (o : Option ShareLink) (usable : Bool)
          → find
              (opens (hash (if c.enabled && valid_token token then token else [])) later seen.users)
              seen.links
            ≡ o
          → resolve_row o usable noted ≡ ok l
          → ¬ (l.id ≡ k)
      by_row none usable found r = unfold resolve_row in absurd (cc)
      by_row (some q) false found r = unfold resolve_row in absurd (cc)
      by_row (some q) true found r =
          unfold resolve_row in
          let same : q ≡ l = by_note q (find (is_note q.note_id q.user_id) noted.notes) r in
          let (over, live) = find-All (IsOver k now) _ seen.links q found h in
          ground (arith, same, over, live, le)

-- A link that is revoked never opens again: after `Revoke`, and whatever links of other ids are made
-- and whatever links are revoked, opened, purged and deleted then, in any order, no token is resolved to it at
-- that time or later, the rows of its id being of the user.
pub revoked_stays_closed :
    (k user now later : ℕ) (db d seen noted : Db) (c : Config) (hash : Str → ℕ) (token : Str)
    (l : ShareLink)
    → All (λ x. is_link k x ≡ true → x.user_id ≡ user) db.links
    → revoke_share user k now db ≡ ok d
    → Steps k d seen
    → now ≤ later
    → resolve c hash token later seen noted ≡ ok l
    → ¬ (l.id ≡ k)
revoked_stays_closed k user now later db d seen noted c hash token l own ended between le opened =
    resolve-Other k now c hash token later seen noted l le
      (Steps-Over k now d seen between (
        subst (Leaves (λ x. All (IsOver k now) x.links)) ended (
          revoke_share-Leaves (All (IsOver k now)) user k now db
            (revoke-rows k user now db.links own))))
      opened
