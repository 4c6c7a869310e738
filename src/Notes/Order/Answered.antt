-- ===== src/Notes/Order/Answered.antt =====
-- What the manual order of a category answers (core/internal/notes/ops.go, `NoteGroup`).
use native.Mathlib.Decide.{ℕ_discrete}
use notekeeper.Common.{
  ℕ, ◌≡◌, ◌≢◌, ◌⊎◌, inl, inr, refl, sym, ap, ◌∙◌, Bool, true, false, Option, none, some, List, [],
  ◌∷◌, arith, if◌then◌else◌, All, Bool-cases, map,
}
use notekeeper.Common.Str.{Str}
use notekeeper.Db.Rows.{find, select}
use notekeeper.Db.{Db, Note}
use notekeeper.Fracindex.{valid}
use notekeeper.Position.{ok}
use notekeeper.Position.Neighbours.{Before, Answers}
use notekeeper.Notes.Order.{
  in_group, is_member, keys, above, below, has_null, greatest, last_key, position_of, note_group,
}
use notekeeper.Notes.Order.Keys.{
  Among, UpTo, least-Among, greatest-Among, least-UpTo, greatest-UpTo, Among-above, above-Among,
  Among-below, below-Among,
}

-- A note in a category has a well-formed key there.
abbrev pub HasPlace : Note → Type 0
HasPlace n = (n.category_id ≡ none) ⊎ ((k : Str) × (n.position ≡ some k) × (valid k ≡ true))

abbrev pub WellPlaced : Db → Type 0
WellPlaced db = All HasPlace db.notes

-- A key that is there and well-formed.
abbrev Good : Option Str → Type 0
Good o = (k : Str) × (o ≡ some k) × (valid k ≡ true)

in_group-Good :
    (user category exclude : ℕ) (n : Note)
    → HasPlace n
    → in_group user category exclude n ≡ true
    → Good n.position
in_group-Good user category exclude n (inl e) h = absurd (ground (arith, e, h))
in_group-Good user category exclude n (inr g) h = g

keys-Good :
    (user category exclude : ℕ) (rs : List Note)
    → All HasPlace rs
    → All Good (map (λ n. n.position) (select (in_group user category exclude) rs))
unfolding select
keys-Good user category exclude [] h = tt
keys-Good user category exclude (r ∷ rs) (h, hs) =
    go (keys-Good user category exclude rs hs) (in_group user category exclude r) refl
  where
    go :
        All Good (map (λ n. n.position) (select (in_group user category exclude) rs))
        → (b : Bool) → in_group user category exclude r ≡ b
        → All Good (
            map
              (λ n. n.position)
              (if b
                then r ∷ select (in_group user category exclude) rs
                else select (in_group user category exclude) rs))
    go ih true e = (in_group-Good user category exclude r h e, ih)
    go ih false e = ih

Good-has_null : (ks : List (Option Str)) → All Good ks → has_null ks ≡ false
unfolding has_null
Good-has_null [] g = refl
Good-has_null (none ∷ ks) ((k, e, v), g) = absurd (cc)
Good-has_null (some x ∷ ks) (_, g) = Good-has_null ks g

last_key-Good : (ks : List (Option Str)) → All Good ks → last_key ks ≡ greatest ks
unfolding last_key
last_key-Good ks g = rw (Good-has_null ks g) refl

Good-valid : (ks : List (Option Str)) (m : Str) → All Good ks → Among m ks → valid m ≡ true
Good-valid [] m g h = elim h [ ]
Good-valid (x ∷ ks) m ((k, e, v), g) (inl q) = let p : k ≡ m = cc in rw (← p) v
Good-valid (x ∷ ks) m (_, g) (inr h) = Good-valid ks m g h

member-Among :
    (user category exclude id : ℕ) (rs : List Note) (k : Str)
    → id ≢ exclude
    → position_of (find (is_member user category id) rs) ≡ some k
    → Among k (map (λ n. n.position) (select (in_group user category exclude) rs))
unfolding find select position_of
member-Among user category exclude id [] k ne e = absurd (cc)
member-Among user category exclude id (r ∷ rs) k ne e =
    elim (Bool-cases (is_member user category id r)) [
      | inl here ↦
          let q : in_group user category exclude r ≡ true = ground arith in
          let p : r.position ≡ some k = ground (arith, here, e) in rw q (inl p)
      | inr away ↦
          let ih = member-Among user category exclude id rs k ne (ground (arith, away, e)) in
          elim (Bool-cases (in_group user category exclude r)) [
            | inl q ↦ rw q (inr ih)
            | inr q ↦ rw q ih
          ]
    ]

module _ (user category exclude now : ℕ) where
  -- The key of an active note of the category other than the one that is placed.
  abbrev pub HasKey : Db → Str → Type 0
  HasKey db k = Among k (keys user category exclude db)

  order-Good : (db : Db) → WellPlaced db → All Good (keys user category exclude db)
  unfolding keys
  order-Good db h = keys-Good user category exclude db.notes h

  -- In a store whose notes have their places the order answers as placing needs it.
  pub note_group-Answers :
      (db : Db) → WellPlaced db → Answers (note_group user category exclude now) (HasKey db) db
  unfolding note_group
  note_group-Answers db h = record {
    members_valid = λ k m. Good-valid (keys user category exclude db) k (order-Good db h) m;
    key_of_member = λ id k e. key_of_member id k e;
    after_some = λ a k e.
        above-Among a k (keys user category exclude db)
          (least-Among (above a (keys user category exclude db)) k (ground (arith, e)));
    after_next = λ a r m e t b.
        let (k, q, u) =
          least-UpTo (above a (keys user category exclude db)) m
            (Among-above a m (keys user category exclude db) t b) in
        nearest r m k (ground (arith, e, q)) u;
    before_some = λ b k e.
        below-Among b k (keys user category exclude db)
          (greatest-Among (below b (keys user category exclude db)) k (ground (arith, e)));
    before_next = λ b r m e t l.
        let (k, q, u) =
          greatest-UpTo (below b (keys user category exclude db)) m
            (Among-below b m (keys user category exclude db) t l) in
        furthest r m k (ground (arith, e, q)) u;
    first_some = λ k e. least-Among (keys user category exclude db) k (ground (arith, e));
    first_least = λ r m e t.
        let (k, q, u) = least-UpTo (keys user category exclude db) m t in
        nearest r m k (ground (arith, e, q)) u;
    last_some = λ k e. greatest-Among (keys user category exclude db) k (last_key-greatest k e);
    last_greatest = λ r m e t.
        let (k, q, u) = greatest-UpTo (keys user category exclude db) m t in
        furthest r m k
          (ground (arith, e, q, last_key-Good (keys user category exclude db) (order-Good db h))) u;
  }
    where
      key_of_member :
          (id : ℕ) (k : Str)
          → (note_group user category exclude now).key_of db id ≡ ok (some k)
          → HasKey db k
      key_of_member id k e = elim (ℕ_discrete id exclude) [
        | yes same ↦ absurd (ground (arith, same, e))
        | no other ↦
            member-Among user category exclude id db.notes k other (ground (arith, other, e))
      ]

      nearest :
          (r : Option Str) (m k : Str)
          → r ≡ some k
          → UpTo k m
          → (r ≡ some m) ⊎ ((k : Str) × (r ≡ some k) × Before k m)
      nearest r m k e (inl q) = inl (e ∙ ap some q)
      nearest r m k e (inr b) = inr (k, e, b)

      furthest :
          (r : Option Str) (m k : Str)
          → r ≡ some k
          → UpTo m k
          → (r ≡ some m) ⊎ ((k : Str) × (r ≡ some k) × Before m k)
      furthest r m k e (inl q) = inl (e ∙ ap some (sym q))
      furthest r m k e (inr b) = inr (k, e, b)

      last_key-greatest :
          (k : Str)
          → (note_group user category exclude now).last db ≡ ok (some k)
          → greatest (keys user category exclude db) ≡ some k
      last_key-greatest k e =
          ground (arith, e, last_key-Good (keys user category exclude db) (order-Good db h))
