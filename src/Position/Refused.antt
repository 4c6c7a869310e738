-- ===== src/Position/Refused.antt =====
-- How `Place` can end: which hints it refuses, and the state it leaves (core/internal/position/position.go).
use notekeeper.Common.{
  ℕ, ◌≡◌, ◌⊎◌, inl, inr, refl, Bool, Option, none, some, arith, leb, length, Bool-cases,
}
use notekeeper.Common.Str.{Str}
use notekeeper.Fracindex.{max_length}
use notekeeper.Position.{
  neighbour, ok, err, Group, Hints, place_hints, place_once, place, Result-cases,
}
use notekeeper.Position.Placed.{Known}

-- A hint that is given and names no member.
abbrev pub Unknown : {S : Type 0} → Group S → S → Option ℕ → Type 0
Unknown g s o = (id : ℕ) × (o ≡ some id) × (g.key_of s id ≡ ok none)

refused :
    {S : Type 0} (g : Group S) (Has : Str → Type 0) (s : S) (a b : Option ℕ) (top : Bool)
    → Unknown g s a ⊎ (Known g Has s a × Unknown g s b)
    → place_hints g s a b top ≡ err neighbour
unfolding place_hints
refused g Has s none b top (inl (id, e, u)) = absurd (cc)
refused g Has s (some a) none top (inl (id, e, u)) =
    let p : g.key_of s a ≡ ok none = cc in rw p refl
refused g Has s (some a) (some b) top (inl (id, e, u)) =
    let p : g.key_of s a ≡ ok none = cc in rw p refl
refused g Has s none none top (inr (k, (id, e, u))) = absurd (cc)
refused g Has s (some a) none top (inr (k, (id, e, u))) = absurd (cc)
refused g Has s none (some b) top (inr (_, (id, e, u))) =
    let p : g.key_of s b ≡ ok none = cc in rw p refl
refused g Has s (some a) (some b) top (inr ((k, q), (id, e, u))) =
    let p : g.key_of s b ≡ ok none = cc in rw q (rw p refl)

pub place-Unknown :
    {S : Type 0} (g : Group S) (Has : Str → Type 0) (s : S) (h : Hints)
    → Unknown g s h.after_id ⊎ (Known g Has s h.after_id × Unknown g s h.before_id)
    → place g s h ≡ err neighbour
unfolding place
place-Unknown g Has s h u = rw (refused g Has s h.after_id h.before_id h.default_top u) refl

-- An id that is no member is refused, whichever hint it stands in, alone or beside a member.
pub place_stranger :
    {S : Type 0} (g : Group S) (s : S) (id other : ℕ) (k : Str) (default_top : Bool)
    → g.key_of s id ≡ ok none
    → g.key_of s other ≡ ok (some k)
    → (place g s (record { after_id = some id; before_id = none; default_top = default_top })
        ≡ err neighbour)
      × (place g s (record { after_id = none; before_id = some id; default_top = default_top })
          ≡ err neighbour)
      × (place g s
            (record { after_id = some id; before_id = some other; default_top = default_top })
          ≡ err neighbour)
      × (place g s
            (record { after_id = some other; before_id = some id; default_top = default_top })
          ≡ err neighbour)
unfolding place place_hints
place_stranger g s id other k d e o = (rw e refl, rw e refl, rw e refl, rw o (rw e refl))

-- A placing that succeeds leaves the state or a rebalanced one.
pub place-left :
    {S : Type 0} (g : Group S) (s : S) (h : Hints) (k : Str) (u : S)
    → place g s h ≡ ok (k, u)
    → (u ≡ s) ⊎ (g.rebalance s ≡ ok u)
unfolding place
place-left g s h k u e = elim (Result-cases (place_once g s h)) [
  | inr (x, f) ↦ ground (arith, e, f)
  | inl (k', f) ↦ elim (Bool-cases (leb (length k') max_length)) [
    | inl short ↦ inl (ground (arith, e, f, short))
    | inr long ↦ elim (Result-cases (g.rebalance s)) [
      | inr (x, r) ↦ ground (arith, e, f, long, r)
      | inl (t, r) ↦ elim (Result-cases (place_once g t h)) [
        | inr (x, q) ↦ ground (arith, e, f, long, r, q)
        | inl (k'', q) ↦ ground (arith, e, f, long, r, q)
      ]
    ]
  ]
]
