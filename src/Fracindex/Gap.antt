-- ===== src/Fracindex/Gap.antt =====
-- The gap between two keys and their common prefix (core/internal/fracindex/fracindex.go, `midpoint`).
use mathlib.Core.Path.{subst}
use notekeeper.Common.{
  ℕ, zero, suc, ◌≡◌, inl, inr, refl, some, [], ◌∷◌, ◌++◌, arith, ◌==◌, take, drop, Bool-cases,
  ==→eq,
}
use notekeeper.Common.Str.{Str, StrLt}
use notekeeper.Fracindex.Digits.{Val, val-injective, Key, Key-head, Key-tail}
use notekeeper.Fracindex.{common_prefix}

-- An empty bound is open.
abbrev pub Below : Str → Str → Type 0
Below k [] = Unit {0}
Below k (y ∷ b) = StrLt k (y ∷ b)

-- A well-formed key strictly inside the gap.
abbrev pub Inside : Str → Str → Str → Type 0
Inside a b k = Key k × StrLt a k × Below k b

pub Key-cons : (c d : ℕ) (k : Str) → Val c d → Key k → StrLt [] k → Key (c ∷ k)
Key-cons c d [] v h p = elim p [ ]
Key-cons c d (y ∷ k) v h p = ((d, v), h)

pub StrLt-nil : (a k : Str) → StrLt a k → StrLt [] k
StrLt-nil a [] h = elim h [ ]
StrLt-nil a (y ∷ k) h = tt

pub Below-of_StrLt : (k b : Str) → StrLt k b → Below k b
Below-of_StrLt k [] h = tt
Below-of_StrLt k (y ∷ b) h = h

-- A common first digit is put in front.
Inside-cons :
    (x d : ℕ) (a b k : Str) → Val x d → StrLt a b → Inside a b k → Inside (x ∷ a) (x ∷ b) (x ∷ k)
Inside-cons x d a [] k v l h = elim l [ ]
Inside-cons x d a (y ∷ b) k v l h =
    (Key-cons x d k v h.0 (StrLt-nil a k h.1), inr (refl, h.1), inr (refl, h.2))

Inside-cons_zero :
    (c : ℕ) (b k : Str) → Val c 0 → StrLt [] b → Inside [] b k → Inside [] (c ∷ b) (c ∷ k)
Inside-cons_zero c [] k v l h = elim l [ ]
Inside-cons_zero c (y ∷ b) k v l h = (Key-cons c 0 k v h.0 h.1, tt, inr (refl, h.2))

-- What is left behind the common prefix is again a gap, and its keys fit the whole gap.
abbrev pub Rest : Str → Str → ℕ → Type 0
Rest a b n =
    Key (drop n a)
    × Key (drop n b)
    × StrLt (drop n a) (drop n b)
    × ((k : Str) → Inside (drop n a) (drop n b) k → Inside a b (take n b ++ k))

pub Key-zero_tail : (c : ℕ) (b : Str) → Val c 0 → Key (c ∷ b) → StrLt [] b
Key-zero_tail c [] v (d, w, p) = absurd (ground arith)
Key-zero_tail c (y ∷ b) v k = tt

StrLt-tail : (x c : ℕ) (a b : Str) → x ≡ c → StrLt (x ∷ a) (c ∷ b) → StrLt a b
StrLt-tail x c a b e (inl h) = absurd (omega arith)
StrLt-tail x c a b e (inr h) = h.1

Rest-nil : (c : ℕ) (b : Str) (n : ℕ) → Val c 0 → StrLt [] b → Rest [] b n → Rest [] (c ∷ b) (suc n)
Rest-nil c b zero v l r = (r.0, r.1, r.2, λ k i. Inside-cons_zero c b k v l (r.3 k i))
Rest-nil c b (suc n) v l r = (r.0, r.1, r.2, λ k i. Inside-cons_zero c b _ v l (r.3 k i))

Rest-cons :
    (x d : ℕ) (a b : Str) (n : ℕ) → Val x d → StrLt a b → Rest a b n → Rest (x ∷ a) (x ∷ b) (suc n)
Rest-cons x d a b n v l r = (r.0, r.1, r.2, λ k i. Inside-cons x d a b _ v l (r.3 k i))

-- The prefix is counted, and a prefix of length 0 means that the first digits differ.
abbrev pub Counts : Str → Str → Type 0
Counts a b = (n : ℕ) × (common_prefix a b ≡ some n) × Rest a b n

Counts-nil :
    (c : ℕ) (b : Str) (d : ℕ)
    → Val c d
    → Key (c ∷ b)
    → (StrLt [] b → Counts [] b)
    → Counts [] (c ∷ b)
unfolding common_prefix
Counts-nil c b zero v kb ih =
    let l : StrLt [] b = Key-zero_tail c b v kb in
    let (n, e, r) = ih l in (suc n, ground arith, Rest-nil c b n v l r)
Counts-nil c b (suc d) v kb ih = (0, ground arith, (tt, kb, tt, λ k i. i))

Counts-cons :
    (x d c e : ℕ) (a b : Str)
    → Val x d
    → Val c e
    → Key (x ∷ a)
    → Key (c ∷ b)
    → StrLt (x ∷ a) (c ∷ b)
    → (StrLt a b → Counts a b)
    → Counts (x ∷ a) (c ∷ b)
unfolding common_prefix
Counts-cons x d c e a b v w ka kb l ih = elim (Bool-cases (d == e)) [
  | inl same ↦
      let x≡c : x ≡ c = val-injective x c e (rw (==→eq d e same) at v) w in
      let (n, p, r) = ih (StrLt-tail x c a b x≡c l) in
      (
        suc n,
        ground arith,
        subst (λ y. Rest (x ∷ a) (y ∷ b) (suc n)) x≡c
            (Rest-cons x d a b n v (StrLt-tail x c a b x≡c l) r),
      )
  | inr differ ↦ (0, ground arith, (ka, kb, l, λ k i. i))
]

pub common_prefix-Rest : (a b : Str) → Key a → Key b → StrLt a b → Counts a b
common_prefix-Rest a [] ka kb l = elim l [ ]
common_prefix-Rest [] (c ∷ b) ka kb l =
    let (d, v) = Key-head c b kb in
    Counts-nil c b d v kb (common_prefix-Rest [] b tt (Key-tail c b kb))
common_prefix-Rest (x ∷ a) (c ∷ b) ka kb l =
    let (d, v) = Key-head x a ka in
    let (e, w) = Key-head c b kb in
    Counts-cons x d c e a b v w ka kb l (common_prefix-Rest a b (Key-tail x a ka) (Key-tail c b kb))
