-- ===== src/Fracindex/Midpoint.antt =====
-- `midpoint` (core/internal/fracindex/fracindex.go): with enough fuel the key lies inside the gap.
use notekeeper.Common.{
  ℕ, zero, suc, ◌+◌, ◌/◌, ◌<◌, ◌≡◌, ◌≢◌, inl, inr, refl, false, some, [], ◌∷◌, ◌++◌, arith, ltb,
  length, get_elem?, take, drop, length-drop-le, Bool-cases,
}
use notekeeper.Common.Str.{Str, StrLt, index_byte}
use notekeeper.Fracindex.Digits.{
  digits, Val, val-lt, get_elem?-val, val_mono, val-injective, zero_char, middle, char_of, Key,
  Key-head, Key-tail,
}
use notekeeper.Fracindex.{common_prefix, midpoint, digit_char}
use notekeeper.Fracindex.Gap.{
  Below, Inside, Key-cons, StrLt-nil, Below-of_StrLt, Rest, Key-zero_tail, common_prefix-Rest,
}

digit_char-some : (d c : ℕ) → get_elem? digits d ≡ some c → digit_char d ≡ some (c ∷ [])
unfolding digit_char
digit_char-some d c e = rw e

abbrev pub Mid : ℕ → Str → Str → Type 0
Mid f a b = (k : Str) × (midpoint f a b ≡ some k) × Inside a b k

Mid-open : (f : ℕ) → Mid (suc f) [] []
unfolding midpoint digit_char index_byte
Mid-open f = (b'V' ∷ [], refl, ((31, refl, omega arith), tt, tt))

-- Behind the last key: the next digit, or one place further behind a key that begins with `z`.
Mid-up : (f x d : ℕ) (a : Str) → Val x d → Key (x ∷ a) → Mid f a [] → Mid (suc f) (x ∷ a) []
unfolding midpoint
Mid-up f x d a v ka (k, e, i) = elim (Bool-cases (ltb d 61)) [
  | inl below ↦
      let (c, g, w) = char_of (d + 1) (ground arith) in
      (
        c ∷ [],
        ground (arith, digit_char-some (d + 1) c g),
        ((d + 1, w, omega arith), inl (val_mono x d c (d + 1) v w (omega arith)), tt),
      )
  | inr top ↦ (x ∷ k, ground arith, (Key-cons x d k v i.0 (StrLt-nil a k i.1), inr (refl, i.1), tt))
]

-- Before the first key: the digit below, or one place further.
Mid-down_one : (f y : ℕ) (b : Str) → Val y 1 → Mid (suc f) [] (y ∷ b)
unfolding midpoint
Mid-down_one f y b v = (
  b'0' ∷ b'V' ∷ [],
  ground arith,
  (
    ((0, zero_char), (31, middle, omega arith)),
    tt,
    inl (val_mono b'0' 0 y 1 zero_char v (omega arith)),
  ),
)

Mid-down_zero : (f y : ℕ) (b : Str) → Val y 0 → StrLt [] b → Mid f [] b → Mid (suc f) [] (y ∷ b)
unfolding midpoint
Mid-down_zero f y [] v l m = elim l [ ]
Mid-down_zero f y (z ∷ b) v l (k, e, i) = (
  b'0' ∷ k,
  ground arith,
  (Key-cons b'0' 0 k zero_char i.0 i.1, tt, inr (val-injective b'0' y 0 zero_char v, i.2)),
)

midpoint-below :
    (f y d : ℕ) (b r : Str)
    → Val y (suc (suc d))
    → digit_char (suc d) ≡ some r
    → midpoint (suc f) [] (y ∷ b) ≡ some r
unfolding midpoint
midpoint-below f y d b r v e = ground arith

Mid-down :
    (f y d : ℕ) (b : Str)
    → Val y d
    → Key (y ∷ b)
    → (StrLt [] b → Mid f [] b)
    → Mid (suc f) [] (y ∷ b)
unfolding midpoint
Mid-down f y zero b v kb ih =
    let l : StrLt [] b = Key-zero_tail y b v kb in Mid-down_zero f y b v l (ih l)
Mid-down f y (suc zero) b v kb ih = Mid-down_one f y b v
Mid-down f y (suc (suc d)) b v kb ih =
    let (c, g, w) = char_of (suc d) (omega (arith, val-lt y (suc (suc d)) v)) in
    (
      c ∷ [],
      midpoint-below f y d b (c ∷ []) v (digit_char-some (suc d) c g),
      ((suc d, w, omega arith), tt, inl (val_mono c (suc d) y (suc (suc d)) w v (omega arith))),
    )

-- The first digits are consecutive.
Mid-narrow :
    (f x d y e : ℕ) (b a : Str)
    → Val x d
    → Val y e
    → d < e
    → ltb (d + 1) e ≡ false
    → Key (y ∷ b)
    → common_prefix (x ∷ a) (y ∷ b) ≡ some 0
    → Mid f a []
    → Mid (suc f) (x ∷ a) (y ∷ b)
unfolding midpoint
Mid-narrow f x d y e [] a v w h narrow kb p (k, q, i) = (
  x ∷ k,
  ground (arith, digit_char-some d x (get_elem?-val x d v)),
  (Key-cons x d k v i.0 (StrLt-nil a k i.1), inr (refl, i.1), inl (val_mono x d y e v w h)),
)
Mid-narrow f x d y e (z ∷ b) a v w h narrow kb p m =
    (y ∷ [], ground arith, ((e, w, omega arith), inl (val_mono x d y e v w h), inr (refl, tt)))

-- Between two keys whose first digits are `d` and `e`, `d` below `e`.
Mid-apart :
    (f x d y e : ℕ) (a b : Str)
    → Val x d
    → Val y e
    → d < e
    → Key (x ∷ a)
    → Key (y ∷ b)
    → common_prefix (x ∷ a) (y ∷ b) ≡ some 0
    → Mid f a []
    → Mid (suc f) (x ∷ a) (y ∷ b)
unfolding midpoint
Mid-apart f x d y e a b v w h ka kb p m = elim (Bool-cases (ltb (d + 1) e)) [
  | inl wide ↦
      let (c, g, u) = char_of ((d + e + 1) / 2) (ground (arith, val-lt y e w)) in
      (
        c ∷ [],
        ground (arith, digit_char-some ((d + e + 1) / 2) c g),
        (
          ((d + e + 1) / 2, u, omega arith),
          inl (val_mono x d c ((d + e + 1) / 2) v u (ground arith)),
          inl (val_mono c ((d + e + 1) / 2) y e u w (ground arith)),
        ),
      )
  | inr narrow ↦ Mid-narrow f x d y e b a v w h narrow kb p m
]

Mid-prefix :
    (f x y n : ℕ) (a b : Str)
    → common_prefix (x ∷ a) (y ∷ b) ≡ some (suc n)
    → Rest (x ∷ a) (y ∷ b) (suc n)
    → Mid f (drop n a) (drop n b)
    → Mid (suc f) (x ∷ a) (y ∷ b)
unfolding midpoint
Mid-prefix f x y n a b p r (k, e, i) = (y ∷ (take n b ++ k), ground arith, r.3 k i)

first-differ :
    (x d y e : ℕ) (a b : Str) → Val x d → Val y e → common_prefix (x ∷ a) (y ∷ b) ≡ some 0 → d ≢ e
unfolding common_prefix
first-differ x d y e a b v w p = ground arith

val-functional : (c c' d d' : ℕ) → c ≡ c' → Val c d → Val c' d' → d ≡ d'
val-functional c c' d d' e v w = cc

first-lt : (x d y e : ℕ) (a b : Str) → Val x d → Val y e → d ≢ e → StrLt (x ∷ a) (y ∷ b) → d < e
first-lt x d y e a b v w h (inl l) = ground (arith, val_mono y e x d w v)
first-lt x d y e a b v w h (inr l) = absurd (h (val-functional x y d e l.0 v w))

Mid-gap :
    (f x y : ℕ) (a b : Str) (n : ℕ)
    → Key (x ∷ a)
    → Key (y ∷ b)
    → StrLt (x ∷ a) (y ∷ b)
    → common_prefix (x ∷ a) (y ∷ b) ≡ some n
    → Rest (x ∷ a) (y ∷ b) n
    → Mid f a []
    → ((k : ℕ)
        → Key (drop k a)
        → Key (drop k b)
        → Below (drop k a) (drop k b)
        → Mid f (drop k a) (drop k b))
    → Mid (suc f) (x ∷ a) (y ∷ b)
Mid-gap f x y a b zero ka kb l p r up inner =
    let (d, v) = Key-head x a ka in
    let (e, w) = Key-head y b kb in
    Mid-apart f x d y e a b v w (first-lt x d y e a b v w (first-differ x d y e a b v w p) l) ka kb
      p up
Mid-gap f x y a b (suc n) ka kb l p r up inner =
    Mid-prefix f x y n a b p r (inner n r.0 r.1 (Below-of_StrLt (drop n a) (drop n b) r.2))

-- With enough fuel there is a key, and it lies inside the gap.
pub midpoint-Inside :
    (f : ℕ) (a b : Str) → length a + length b < f → Key a → Key b → Below a b → Mid f a b
midpoint-Inside zero a b h ka kb l = elim h [ ]
midpoint-Inside (suc f) [] [] h ka kb l = Mid-open f
midpoint-Inside (suc f) (x ∷ a) [] h ka kb l =
    let (d, v) = Key-head x a ka in
    Mid-up f x d a v ka (midpoint-Inside f a [] (omega arith) (Key-tail x a ka) tt tt)
midpoint-Inside (suc f) [] (y ∷ b) h ka kb l =
    let (d, v) = Key-head y b kb in
    Mid-down f y d b v kb
      (λ q. midpoint-Inside f [] b (omega arith) tt (Key-tail y b kb) (Below-of_StrLt [] b q))
midpoint-Inside (suc f) (x ∷ a) (y ∷ b) h ka kb l =
    let (n, p, r) = common_prefix-Rest (x ∷ a) (y ∷ b) ka kb l in
    Mid-gap f x y a b n ka kb l p r (midpoint-Inside f a [] (omega arith) (Key-tail x a ka) tt tt)
      (λ k.
        midpoint-Inside f (drop k a) (drop k b)
          (omega (arith, length-drop-le k a, length-drop-le k b)))
