-- ===== src/Realtime/Drain/Batches.antt =====
-- The rows that one read of a drain gives (core/internal/server/sse.go, `drain`).
use notekeeper.Common.{
  ℕ, zero, suc, ◌+◌, ◌≤◌, ◌<◌, ◌≡◌, ◌⊎◌, inl, inr, refl, Bool, true, false, some, List, [], ◌∷◌,
  ◌++◌, arith, ltb, ◌==◌, All, Bool-cases, take, length, length-append, min,
}
use notekeeper.Db.Rows.{find, select, sort_by}
use notekeeper.Db.Rows.Sorted.{sort_by-last}
use notekeeper.Db.Feed.{is_user}
use notekeeper.Db.Feed.Gapless.{Numbered, feed}
use notekeeper.Db.{Db, User, Change}
use notekeeper.Realtime.Drain.{
  is_later, list_changes, min_seq, oldest_change_seq, changes_lost, last_seq,
}

-- The changes are numbered upwards from behind `a`.
abbrev pub Up : ℕ → List Change → Type 0
Up a [] = Unit {0}
Up a (c ∷ cs) = (c.seq ≡ a + 1) × Up (a + 1) cs

Numbered-floor : (cs : List Change) (n floor : ℕ) → Numbered cs n floor → floor ≤ n
Numbered-floor [] n floor e = omega (arith, e)
Numbered-floor (c ∷ cs) n floor (m, e, _, h) = omega (arith, e, Numbered-floor cs m floor h)

abbrev past : ℕ → Change → Bool
past last c = ltb last c.seq

none_past :
    (cs : List Change) (n floor last : ℕ)
    → Numbered cs n floor
    → n ≤ last
    → select (past last) cs ≡ []
unfolding select
none_past [] n floor last h le = refl
none_past (c ∷ cs) n floor last (m, e, q, h) le =
    ground (arith, e, q, le, none_past cs m floor last h (omega (arith, e, le)))

Up-append :
    (a : ℕ) (cs : List Change) (c : Change)
    → Up a cs
    → c.seq ≡ a + length cs + 1
    → Up a (cs ++ c ∷ [])
Up-append a [] c u e = (omega (arith, e), tt)
Up-append a (x ∷ cs) c (q, u) e = (q, Up-append (a + 1) cs c u (omega (arith, e)))

Up-below :
    (a b : ℕ) (cs : List Change) → Up a cs → a + length cs < b → All (λ c. ltb c.seq b ≡ true) cs
Up-below a b [] u lt = tt
Up-below a b (x ∷ cs) (q, u) lt =
    (ground (arith, q, lt), Up-below (a + 1) b cs u (omega (arith, lt)))

-- The changes behind the last one that is seen, in order, where none of them has been purged.
later-Up :
    (cs : List Change) (n floor last : ℕ)
    → Numbered cs n floor
    → floor ≤ last
    → last ≤ n
    → Up last (sort_by (λ c. c.seq) (select (past last) cs))
      × (last + length (sort_by (λ c. c.seq) (select (past last) cs)) ≡ n)
unfolding select sort_by
later-Up [] n floor last e f l = (tt, omega (arith, e, f, l))
later-Up (c ∷ cs) n floor last (m, e, q, h) f l = elim (Bool-cases (past last c)) [
  | inr x ↦
      let same : select (past last) (c ∷ cs) ≡ [] =
        none_past (c ∷ cs) n floor last (m, e, q, h) (ground (arith, x, q, l)) in
      rw same (tt, ground (arith, x, q, l))
  | inl x ↦
      let kept : List Change = select (past last) cs in
      let (u, len) = later-Up cs m floor last h f (ground (arith, x, e, q)) in
      let whole : select (past last) (c ∷ cs) ≡ c ∷ kept = ground (arith, x) in
      let sorted =
        sort_by-last (λ c. c.seq) c kept
          (Up-below last c.seq (sort_by (λ c. c.seq) kept) u (omega (arith, len, e, q))) in
      rw (whole, sorted)
        (
          Up-append last (sort_by (λ c. c.seq) kept) c u (omega (arith, len, e, q)),
          omega (arith, len, e, length-append (sort_by (λ c. c.seq) kept) (c ∷ [])),
        )
]

Up-take : (a k : ℕ) (cs : List Change) → Up a cs → Up a (take k cs)
Up-take a zero cs u = tt
Up-take a (suc k) [] u = tt
Up-take a (suc k) (c ∷ cs) (q, u) = (q, Up-take (a + 1) k cs u)

length-take : (k : ℕ) (cs : List Change) → length (take k cs) ≡ min k (length cs)
length-take zero cs = omega arith
length-take (suc k) [] = omega arith
length-take (suc k) (c ∷ cs) = omega (arith, length-take k cs)

Up-last_seq : (a : ℕ) (cs : List Change) → Up a cs → last_seq a cs ≡ a + length cs
Up-last_seq a [] u = omega arith
Up-last_seq a (c ∷ cs) (q, u) = rw q (omega (arith, Up-last_seq (a + 1) cs u))

select-feed :
    (cs : List Change) (user last : ℕ)
    → select (is_later user last) cs ≡ select (past last) (select (λ c. c.user_id == user) cs)
unfolding select
select-feed [] user last = refl
select-feed (c ∷ cs) user last = ground (arith, select-feed cs user last)

min_seq-Numbered :
    (cs : List Change) (n floor : ℕ)
    → Numbered cs n floor
    → ((cs ≡ []) × (n ≡ floor)) ⊎ (min_seq cs ≡ some (floor + 1))
unfolding min_seq
min_seq-Numbered [] n floor e = inl (refl, e)
min_seq-Numbered (c ∷ cs) n floor (m, e, q, h) = elim (min_seq-Numbered cs m floor h) [
  | inl (x, y) ↦ inr (rw x (ground (arith, e, q, y)))
  | inr x ↦ inr (ground (arith, x, e, q, Numbered-floor cs m floor h))
]

-- The feed of a user is numbered from the counter down, with none missing but the oldest.
abbrev pub Retained : ℕ → Db → Type 0
Retained user db =
    (u : User) × (floor : ℕ) × (find (is_user user) db.users ≡ some u)
    × Numbered (feed user db) u.change_seq floor

-- What a read gives that does not find the changes lost.
pub read_rows :
    (db : Db) (user last limit : ℕ) (u : User) (floor : ℕ)
    → Numbered (feed user db) u.change_seq floor
    → changes_lost last (oldest_change_seq db user) u.change_seq ≡ false
    → Up last (list_changes db user last limit)
      × (last_seq last (list_changes db user last limit)
          ≡ last + length (list_changes db user last limit))
      × (last + length (list_changes db user last limit) ≡ min (last + limit) u.change_seq)
unfolding list_changes oldest_change_seq
read_rows db user last limit u floor h lost =
    let le : last ≤ u.change_seq = ground (arith, lost) in
    let low : floor ≤ last = floor_low in
    let all : List Change = sort_by (λ c. c.seq) (select (past last) (feed user db)) in
    let (up, len) = later-Up (feed user db) u.change_seq floor last h low le in
    let up' = Up-take last limit all up in
    rw (select-feed db.changes user last)
      (up', Up-last_seq last (take limit all) up', omega (arith, len, length-take limit all))
  where
    floor_low : floor ≤ last
    floor_low = elim (min_seq-Numbered (feed user db) u.change_seq floor h) [
      | inl (e, n) ↦
          let z : oldest_change_seq db user ≡ 0 = rw (e, oldest_change_seq) refl in
          ground (arith, z, n, lost)
      | inr e ↦
          let z : oldest_change_seq db user ≡ floor + 1 = rw (e, oldest_change_seq) refl in
          ground (arith, z, lost, Numbered-floor (feed user db) u.change_seq floor h)
    ]
