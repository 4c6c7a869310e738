-- ===== src/Shares/Limits.antt =====
-- How many links a user may have (core/internal/shares/shares.go, `Create`).
use mathlib.Core.Path.{subst}
use notekeeper.Common.{
  ℕ, ◌≤◌, ◌≡◌, refl, sym, Bool, true, false, Option, none, some, List, [], ◌∷◌, leb, arith,
  Bool-cases, inl, inr,
}
use notekeeper.Db.Rows.{find, count}
use notekeeper.Db.Feed.{status, change}
use notekeeper.Db.{
  Db, Note, ShareLink, not_found, limit, invalid, not_active, is_active, Result, ok, err, ◌>>=◌,
  ◌>>◌, or_fail, guard,
}
use notekeeper.Reminders.{is_note}
use notekeeper.Ingest.Tables.{Intake}
use notekeeper.Bots.{security_notice}
use notekeeper.Shares.{
  Config, Order, is_live_of, has_room, new_link, tell_created, store_link, lifetime, create_share,
  presets,
}

-- The links that are live at a time were live before.
count-later :
    (user now later : ℕ) (ls : List ShareLink)
    → now ≤ later
    → count (is_live_of user later) ls ≤ count (is_live_of user now) ls
unfolding count
count-later user now later [] le = omega arith
count-later user now later (l ∷ ls) le = ground (arith, count-later user now later ls le)

pub tell-links :
    (m : Bool) (o : Order) (s : Intake) (db : Db) → (tell_created m o s db).links ≡ db.links
unfolding tell_created security_notice change
tell-links true o s db = refl
tell-links false o s db = refl

abbrev pub Made : (List ShareLink → Type 0) → Result Intake → Type 0
Made P (err e) = Unit {0}
Made P (ok t) = P t.db.links

store_link-links :
    (o : Order) (life : ℕ) (s : Intake)
    → (store_link o life s).db.links ≡ new_link o life ∷ s.db.links
unfolding store_link change
store_link-links o life s = tell-links o.muted o s _

-- What holds of the links with the new one, where there is room, holds after `Create`.
module _ (P : List ShareLink → Type 0) (c : Config) (o : Order) (s : Intake)
    (fits : (life : ℕ) → has_room c o s.db.links ≡ true → P (new_link o life ∷ s.db.links)) where
  in_room :
      (life : ℕ) (b : Bool)
      → has_room c o s.db.links ≡ b
      → Made P (guard b limit >> ok (store_link o life s))
  in_room life false e = tt
  in_room life true e = subst P (sym (store_link-links o life s)) (fits life e)

  on_note :
      (life : ℕ) (n : Option Note)
      → Made P (
          or_fail n not_found >>= λ m.
          guard (is_active m.state) not_active
          >> (guard (has_room c o s.db.links) limit >> ok (store_link o life s)))
  on_note life none = tt
  on_note life (some n) = elim (Bool-cases (is_active n.state)) [
    | inl e ↦ rw e (in_room life _ refl)
    | inr e ↦ rw e tt
  ]

  by_user :
      (life : ℕ) (a : Option Bool)
      → Made P (
          or_fail a not_found >>= λ active.
          or_fail (find (is_note o.note o.user) s.db.notes) not_found >>= λ m.
          guard (is_active m.state) not_active
          >> (guard (has_room c o s.db.links) limit >> ok (store_link o life s)))
  by_user life none = tt
  by_user life (some a) = on_note life _

  pub create-Made : Made P (create_share c o s)
  unfolding create_share
  create-Made = elim (Bool-cases c.enabled) [
    | inr off ↦ rw off tt
    | inl on ↦ rw on (by_preset (lifetime o.preset presets))
  ]
    where
      by_preset :
          (p : Option ℕ)
          → Made P (
              or_fail p invalid >>= λ life.
              guard (leb life c.max_lifetime) invalid
              >> (or_fail (status o.user s.db.users) not_found >>= λ active.
                  or_fail (find (is_note o.note o.user) s.db.notes) not_found >>= λ m.
                  guard (is_active m.state) not_active
                  >> (guard (has_room c o s.db.links) limit >> ok (store_link o life s))))
      by_preset none = tt
      by_preset (some life) = elim (Bool-cases (leb life c.max_lifetime)) [
        | inl e ↦ rw e (by_user life _)
        | inr e ↦ rw e tt
      ]

-- When `Create` succeeds, the user has at most `MaxActive` live links, the new one counted, at that
-- time and at every later one while no other link is made.
pub create_share_limits :
    (c : Config) (o : Order) (s t : Intake) (later : ℕ)
    → create_share c o s ≡ ok t
    → o.now ≤ later
    → count (is_live_of o.user later) t.db.links ≤ c.max_active
unfolding count
create_share_limits c o s t later made le =
    subst (Made (λ ls. count (is_live_of o.user later) ls ≤ c.max_active)) made (
      create-Made (λ ls. count (is_live_of o.user later) ls ≤ c.max_active) c o s
        (λ life room. ground (arith, count-later o.user o.now later s.db.links le, room)))
