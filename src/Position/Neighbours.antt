-- ===== src/Position/Neighbours.antt =====
-- What the store of a list answers about neighbours (core/internal/position/position.go).
use notekeeper.Common.{ℕ, ◌≡◌, ◌⊎◌, inl, inr, refl, true, Option, none, some, [], ◌∷◌}
use notekeeper.Common.Str.{Str, StrLt, str_ltb, str_ltb→StrLt, StrLt→str_ltb, StrLt-trans}
use notekeeper.Fracindex.{valid}
use notekeeper.Fracindex.Between.{IsBound, InOrder, between_ok, valid-ne-nil}
use notekeeper.Position.{ok, Group, or_open, between_key}

-- `a` sorts strictly before `b`.
abbrev pub Before : Str → Str → Type 0
Before a b = str_ltb a b ≡ true

-- What a store promises of the keys of its members, in one state: they are well-formed, and the
-- answers about neighbours are the nearest members.
pub record Answers {S : Type 0} (g : Group S) (Has : Str → Type 0) (s : S) : Type 0 where
  pub members_valid : (k : Str) → Has k → valid k ≡ true
  pub key_of_member : (id : ℕ) (k : Str) → g.key_of s id ≡ ok (some k) → Has k
  pub after_some : (a k : Str) → g.after s a ≡ ok (some k) → Has k × Before a k
  pub after_next :
      (a : Str) (r : Option Str) (m : Str)
      → g.after s a ≡ ok r
      → Has m
      → Before a m
      → (r ≡ some m) ⊎ ((k : Str) × (r ≡ some k) × Before k m)
  pub before_some : (b k : Str) → g.before s b ≡ ok (some k) → Has k × Before k b
  pub before_next :
      (b : Str) (r : Option Str) (m : Str)
      → g.before s b ≡ ok r
      → Has m
      → Before m b
      → (r ≡ some m) ⊎ ((k : Str) × (r ≡ some k) × Before m k)
  pub first_some : (k : Str) → g.first s ≡ ok (some k) → Has k
  pub first_least :
      (r : Option Str) (m : Str)
      → g.first s ≡ ok r
      → Has m
      → (r ≡ some m) ⊎ ((k : Str) × (r ≡ some k) × Before k m)
  pub last_some : (k : Str) → g.last s ≡ ok (some k) → Has k
  pub last_greatest :
      (r : Option Str) (m : Str)
      → g.last s ≡ ok r
      → Has m
      → (r ≡ some m) ⊎ ((k : Str) × (r ≡ some k) × Before m k)

-- The store answers every question.
pub record Responds {S : Type 0} (g : Group S) (s : S) : Type 0 where
  pub after_ok : (a : Str) → (r : Option Str) × (g.after s a ≡ ok r)
  pub before_ok : (b : Str) → (r : Option Str) × (g.before s b ≡ ok r)
  pub first_ok : (r : Option Str) × (g.first s ≡ ok r)
  pub last_ok : (r : Option Str) × (g.last s ≡ ok r)

pub Before-trans : (a b c : Str) → Before a b → Before b c → Before a c
Before-trans a b c p q =
    StrLt→str_ltb a c (StrLt-trans a b c (str_ltb→StrLt a b p) (str_ltb→StrLt b c q))

-- `Between` on two bounds in order.
pub between_key-ok :
    (lo hi : Str)
    → IsBound lo
    → IsBound hi
    → InOrder lo hi
    → (k : Str) × (between_key lo hi ≡ ok k) × (valid k ≡ true) × Before lo k × InOrder k hi
unfolding between_key
between_key-ok lo hi hl hh o =
    let (k, e, v, below, above) = between_ok lo hi hl hh o in
    (k, rw (e, between_key), v, below, above)

pub InOrder-member : (k m : Str) → valid m ≡ true → InOrder k m → Before k m
InOrder-member k m v (inl e) = absurd (valid-ne-nil m v e)
InOrder-member k m v (inr h) = h

-- Below the nearest member, so below every further one.
pub below_nearest :
    (o : Option Str) (k m : Str)
    → ((n : Str) → o ≡ some n → valid n ≡ true)
    → InOrder k (or_open o)
    → (o ≡ some m) ⊎ ((n : Str) × (o ≡ some n) × Before n m)
    → Before k m
below_nearest none k m v i (inl q) = absurd (cc)
below_nearest none k m v i (inr (n, q, p)) = absurd (cc)
below_nearest (some n) k m v i (inl q) =
    let e : n ≡ m = cc in rw (← e) (InOrder-member k n (v n refl) i)
below_nearest (some n) k m v i (inr (n', q, p)) =
    let e : n' ≡ n = cc in Before-trans k n m (InOrder-member k n (v n refl) i) (rw e at p)

pub above_nearest :
    (o : Option Str) (k m : Str)
    → Before (or_open o) k
    → (o ≡ some m) ⊎ ((n : Str) × (o ≡ some n) × Before m n)
    → Before m k
above_nearest none k m i (inl q) = absurd (cc)
above_nearest none k m i (inr (n, q, p)) = absurd (cc)
above_nearest (some n) k m i (inl q) = let e : n ≡ m = cc in rw (← e) i
above_nearest (some n) k m i (inr (n', q, p)) =
    let e : n' ≡ n = cc in Before-trans m n k (rw e at p) i

pub IsBound-or_open :
    (o : Option Str) → ((n : Str) → o ≡ some n → valid n ≡ true) → IsBound (or_open o)
IsBound-or_open none v = inl refl
IsBound-or_open (some n) v = inr (v n refl)

pub nonempty : (k : Str) → valid k ≡ true → StrLt [] k
nonempty [] v = absurd (valid-ne-nil [] v refl)
nonempty (c ∷ k) v = tt

pub InOrder-nil :
    (o : Option Str) → ((n : Str) → o ≡ some n → valid n ≡ true) → InOrder [] (or_open o)
InOrder-nil none v = inl refl
InOrder-nil (some n) v = inr (StrLt→str_ltb [] n (nonempty n (v n refl)))
