-- ===== src/Fracindex/Between.antt =====
-- `Between` (core/internal/fracindex/fracindex.go): when it refuses, and where its key lies.
use notekeeper.Common.{
  ℕ, zero, suc, ◌+◌, ◌≡◌, ◌≢◌, ◌↔◌, ◌<◌, ◌⊎◌, inl, inr, refl, not, ◌&&◌, true, false, some, [], ◌∷◌,
  arith, length, ◌==◌, Bool-cases, Option-cases,
}
use notekeeper.Common.Str.{Str, StrLt, str_eq, str_ltb, index_byte, str_ltb→StrLt, StrLt→str_ltb}
use notekeeper.Fracindex.Digits.{digits, Val, val_mono, val-injective, zero_char, Key}
use notekeeper.Fracindex.Gap.{Below, StrLt-nil}
use notekeeper.Fracindex.Midpoint.{midpoint-Inside}
use notekeeper.Fracindex.{
  order, invalid, ok, err, all_digits, ends_in_zero, between, valid, midpoint,
}

pub nonzero : (c d : ℕ) → Val c d → (c == b'0') ≡ false → 0 < d
unfolding index_byte
nonzero c zero v h = ground (arith, val-injective c b'0' 0 v refl)
nonzero c (suc d) v h = omega arith

all_digits-Key : (k : Str) → all_digits k ≡ true → ends_in_zero k ≡ false → Key k
unfolding all_digits ends_in_zero
all_digits-Key [] h z = tt
all_digits-Key (c ∷ []) h z = elim (Option-cases (index_byte digits c)) [
  | inl e ↦ absurd (ground arith)
  | inr (d, v) ↦ (d, v, nonzero c d v z)
]
all_digits-Key (c ∷ c' ∷ k) h z = elim (Option-cases (index_byte digits c)) [
  | inl e ↦ absurd (ground arith)
  | inr (d, v) ↦ ((d, v), all_digits-Key (c' ∷ k) (ground arith) z)
]

Key-all_digits : (k : Str) → Key k → all_digits k ≡ true
unfolding all_digits
Key-all_digits [] h = refl
Key-all_digits (c ∷ []) h = ground arith
Key-all_digits (c ∷ c' ∷ k) h = ground (arith, Key-all_digits (c' ∷ k))

Key-ends_in_zero : (k : Str) → Key k → ends_in_zero k ≡ false
unfolding ends_in_zero
Key-ends_in_zero [] h = refl
Key-ends_in_zero (c ∷ []) (d, v, p) = ground (arith, val_mono b'0' 0 c d zero_char v p)
Key-ends_in_zero (c ∷ c' ∷ k) h = Key-ends_in_zero (c' ∷ k) h.1

pub valid-Key : (k : Str) → valid k ≡ true → Key k
unfolding valid str_eq
valid-Key [] h = tt
valid-Key (c ∷ k) h = all_digits-Key (c ∷ k) (ground arith) (ground arith)

pub Key-valid : (k : Str) → Key k → StrLt [] k → valid k ≡ true
unfolding valid str_eq
Key-valid [] h p = elim p [ ]
Key-valid (c ∷ k) h p = ground (arith, Key-all_digits (c ∷ k) h, Key-ends_in_zero (c ∷ k) h)

pub valid-ne-nil : (k : Str) → valid k ≡ true → k ≢ []
unfolding valid str_eq
valid-ne-nil [] h = cc
valid-ne-nil (c ∷ k) h = λ e. cc

-- An open end, or a well-formed key.
abbrev pub IsBound : Str → Type 0
IsBound a = (a ≡ []) ⊎ (valid a ≡ true)

-- The upper end is open or above the lower one.
abbrev pub InOrder : Str → Str → Type 0
InOrder a b = (b ≡ []) ⊎ (str_ltb a b ≡ true)

pub IsBound-Key : (a : Str) → IsBound a → Key a
IsBound-Key [] h = tt
IsBound-Key (c ∷ a) (inl e) = absurd (cc)
IsBound-Key (c ∷ a) (inr v) = valid-Key (c ∷ a) v

InOrder-Below : (a b : Str) → InOrder a b → Below a b
InOrder-Below a [] h = tt
InOrder-Below a (y ∷ b) (inl e) = absurd (cc)
InOrder-Below a (y ∷ b) (inr h) = str_ltb→StrLt a (y ∷ b) h

Below-InOrder : (a b : Str) → Below a b → InOrder a b
Below-InOrder a [] h = inl refl
Below-InOrder a (y ∷ b) h = inr (StrLt→str_ltb a (y ∷ b) h)

between-midpoint :
    (a b k : Str)
    → IsBound a
    → IsBound b
    → InOrder a b
    → midpoint (length a + length b + 1) a b ≡ some k
    → between a b ≡ some (ok k)
unfolding between str_eq
between-midpoint [] [] k ha hb o e = rw e
between-midpoint [] (y ∷ b) k ha hb o e = ground arith
between-midpoint (x ∷ a) [] k ha hb o e = ground arith
between-midpoint (x ∷ a) (y ∷ b) k ha hb o e = ground arith

-- Between two bounds in order there is a result: a well-formed key strictly above the lower bound and
-- strictly below the upper one, an open end bounding nothing.
pub between_ok :
    (a b : Str)
    → IsBound a
    → IsBound b
    → InOrder a b
    → (k : Str) × (between a b ≡ some (ok k))
      × (valid k ≡ true)
      × (str_ltb a k ≡ true)
      × InOrder k b
between_ok a b ha hb o =
    let (k, e, i) =
      midpoint-Inside (length a + length b + 1) a b (omega arith) (IsBound-Key a ha)
        (IsBound-Key b hb) (InOrder-Below a b o) in
    (
      k,
      between-midpoint a b k ha hb o e,
      Key-valid k i.0 (StrLt-nil a k i.1),
      StrLt→str_ltb a k i.1,
      Below-InOrder k b i.2,
    )

-- The tests of `Between`, decided.
IsBound-test :
    (a : Str)
    → (((not (str_eq a []) && not (valid a)) ≡ true) × (¬ IsBound a))
      ⊎ (((not (str_eq a []) && not (valid a)) ≡ false) × IsBound a)
unfolding str_eq
IsBound-test [] = inr (refl, inl refl)
IsBound-test (x ∷ a) = elim (Bool-cases (valid (x ∷ a))) [
  | inl e ↦ inr (rw e, inr e)
  | inr e ↦ inl (rw e, λ h. ground arith)
]

InOrder-test :
    (a b : Str)
    → (((not (str_eq b []) && not (str_ltb a b)) ≡ true) × (¬ InOrder a b))
      ⊎ (((not (str_eq b []) && not (str_ltb a b)) ≡ false) × InOrder a b)
unfolding str_eq
InOrder-test a [] = inr (refl, inl refl)
InOrder-test a (y ∷ b) = elim (Bool-cases (str_ltb a (y ∷ b))) [
  | inl e ↦ inr (rw e, inr e)
  | inr e ↦ inl (rw e, λ h. ground arith)
]

-- What `Between` answers, by the three tests.
between_invalid : (a b : Str) → (¬ IsBound a) ⊎ (¬ IsBound b) → between a b ≡ some (err invalid)
unfolding between
between_invalid a b h = ground (arith, IsBound-test a, IsBound-test b)

between_order : (a b : Str) → IsBound a → IsBound b → ¬ InOrder a b → between a b ≡ some (err order)
unfolding between
between_order a b ha hb h = ground (arith, IsBound-test a, IsBound-test b, InOrder-test a b)

-- The refusals, both exactly: it answers that an argument is invalid if and only if one is neither
-- empty nor well-formed, and that the order is wrong if and only if both are good and the upper one
-- is present and not above the lower one.
pub between_refuses :
    (a b : Str)
    → ((between a b ≡ some (err invalid)) ↔ ((¬ IsBound a) ⊎ (¬ IsBound b)))
      × ((between a b ≡ some (err order)) ↔ (IsBound a × IsBound b × (¬ InOrder a b)))
between_refuses a b = elim (IsBound-test a) [
  | inl (_, na) ↦ invalid_only (inl na) (λ t. na t.0)
  | inr (_, ha) ↦ elim (IsBound-test b) [
    | inl (_, nb) ↦ invalid_only (inr nb) (λ t. nb t.1)
    | inr (_, hb) ↦ elim (InOrder-test a b) [
      | inl (_, no_order) ↦ order_only ha hb no_order
      | inr (_, o) ↦ neither ha hb o
    ]
  ]
]
  where
    invalid_only :
        (¬ IsBound a) ⊎ (¬ IsBound b)
        → ¬ (IsBound a × IsBound b × (¬ InOrder a b))
        → ((between a b ≡ some (err invalid)) ↔ ((¬ IsBound a) ⊎ (¬ IsBound b)))
          × ((between a b ≡ some (err order)) ↔ (IsBound a × IsBound b × (¬ InOrder a b)))
    invalid_only h n = (
      ((λ _. h), (λ _. between_invalid a b h)),
      ((λ e. cc (between_invalid a b h)), (λ t. absurd (n t))),
    )

    order_only :
        IsBound a
        → IsBound b
        → ¬ InOrder a b
        → ((between a b ≡ some (err invalid)) ↔ ((¬ IsBound a) ⊎ (¬ IsBound b)))
          × ((between a b ≡ some (err order)) ↔ (IsBound a × IsBound b × (¬ InOrder a b)))
    order_only ha hb n = (
      ((λ e. cc (between_order a b ha hb n)), (λ t. ground arith)),
      ((λ _. (ha, hb, n)), (λ _. between_order a b ha hb n)),
    )

    neither :
        IsBound a
        → IsBound b
        → InOrder a b
        → ((between a b ≡ some (err invalid)) ↔ ((¬ IsBound a) ⊎ (¬ IsBound b)))
          × ((between a b ≡ some (err order)) ↔ (IsBound a × IsBound b × (¬ InOrder a b)))
    neither ha hb o =
        let (k, e, _, _, _) = between_ok a b ha hb o in
        (((λ x. cc e), (λ t. ground arith)), ((λ x. cc e), (λ t. absurd (t.2 o))))
