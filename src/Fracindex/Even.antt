-- ===== src/Fracindex/Even.antt =====
-- `Even` (core/internal/fracindex/fracindex.go): as many keys as asked for, well-formed, ascending.
use native.Mathlib.Nat.{div-add-mod}
use notekeeper.Common.{
  ℕ, zero, suc, ◌+◌, ◌*◌, ◌/◌, ◌%◌, ◌≤◌, ◌<◌, ◌≡◌, ◌⊎◌, inl, inr, refl, sym, ap, ◌∙◌, true, List,
  [], ◌∷◌, ◌++◌, append_assoc, arith, length, All, length-append, append-nil, Bool-cases, ◌==◌,
}
use notekeeper.Common.Str.{Str, StrLt, str_ltb, StrLt→str_ltb}
use notekeeper.Fracindex.Digits.{Val, char_of, val_mono, middle, Key}
use notekeeper.Fracindex.Between.{Key-valid, nonzero}
use notekeeper.Fracindex.Gap.{StrLt-nil}
use mathlib.Core.Path.{subst}
use notekeeper.Fracindex.{
  valid, ends_in_zero, pow, digit_byte, encode_from, encode, width_loop, even_key, even_from, even,
}

-- Texts of one length are ordered before what follows them is read.
StrLt-append : (a b x y : Str) → length a ≡ length b → StrLt a b → StrLt (a ++ x) (b ++ y)
StrLt-append a [] x y e l = elim l [ ]
StrLt-append [] (d ∷ b) x y e l = absurd (omega arith)
StrLt-append (c ∷ a) (d ∷ b) x y e (inl l) = inl l
StrLt-append (c ∷ a) (d ∷ b) x y e (inr l) = inr (l.0, StrLt-append a b x y (omega arith) l.1)

StrLt-append_same : (a : Str) (c d : ℕ) → c < d → StrLt (a ++ c ∷ []) (a ++ d ∷ [])
StrLt-append_same [] c d h = inl h
StrLt-append_same (x ∷ a) c d h = inr (refl, StrLt-append_same a c d h)

encode_from-append : (w v : ℕ) (acc : Str) → encode_from w v acc ≡ encode_from w v [] ++ acc
unfolding encode_from
encode_from-append zero v acc = refl
encode_from-append (suc w) v acc = rw (
  encode_from-append w (v / 62) (digit_byte (v % 62) ∷ acc),
  encode_from-append w (v / 62) (digit_byte (v % 62) ∷ []),
  append_assoc,
)

digit_byte-val : (d : ℕ) → d < 62 → Val (digit_byte d) d
unfolding digit_byte
digit_byte-val d h = let (c, e, v) = char_of d h in rw e v

-- The last place is written last.
encode-suc : (w v : ℕ) → encode v (suc w) ≡ encode (v / 62) w ++ digit_byte (v % 62) ∷ []
unfolding encode
encode-suc w v = unfold encode_from in encode_from-append w (v / 62) (digit_byte (v % 62) ∷ [])

length-encode : (w v : ℕ) → length (encode v w) ≡ w
length-encode zero v = unfold encode encode_from in refl
length-encode (suc w) v = omega (
  arith,
  ap length (encode-suc w v),
  length-append (encode (v / 62) w) (digit_byte (v % 62) ∷ []),
  length-encode w (v / 62),
)

digit_byte_mono : (d e : ℕ) → d < e → e < 62 → digit_byte d < digit_byte e
digit_byte_mono d e h l =
    val_mono (digit_byte d) d (digit_byte e) e (digit_byte-val d (omega arith)) (digit_byte-val e l)
      h

-- Numbers of one width are ordered as their texts are.
encode_mono : (w v v' : ℕ) → v < v' → v' < pow 62 w → StrLt (encode v w) (encode v' w)
unfolding pow
encode_mono zero v v' h l = absurd (omega arith)
encode_mono (suc w) v v' h l =
    rw (encode-suc w v, encode-suc w v')
      (elim (lower_or_same (v / 62) (v' / 62) (omega arith)) [
        | inl q ↦
            StrLt-append (encode (v / 62) w) (encode (v' / 62) w) _ _
              (length-encode w (v / 62) ∙ sym (length-encode w (v' / 62)))
              (encode_mono w (v / 62) (v' / 62) q (omega arith))
        | inr q ↦ rw q (
            StrLt-append_same (encode (v' / 62) w) _ _
              (digit_byte_mono (v % 62) (v' % 62) (omega arith) (omega arith)))
      ])
  where
    lower_or_same : (a b : ℕ) → a ≤ b → (a < b) ⊎ (a ≡ b)
    lower_or_same a b h = omega arith

-- Every byte of `encode` is a digit.
abbrev AreDigits : Str → Type 0
AreDigits = All (λ c. (d : ℕ) × Val c d)

AreDigits-append : (a b : Str) → AreDigits a → AreDigits b → AreDigits (a ++ b)
AreDigits-append [] b ha hb = hb
AreDigits-append (c ∷ a) b (v, ha) hb = (v, AreDigits-append a b ha hb)

encode-AreDigits : (w v : ℕ) → AreDigits (encode v w)
encode-AreDigits zero v = unfold encode encode_from in tt
encode-AreDigits (suc w) v = rw (encode-suc w v) (
    AreDigits-append (encode (v / 62) w) _ (encode-AreDigits w (v / 62))
      ((v % 62, digit_byte-val (v % 62) (omega arith)), tt))

Key-append : (a : Str) (c d : ℕ) → AreDigits a → Val c d → 0 < d → Key (a ++ c ∷ [])
Key-append [] c d h v p = (d, v, p)
Key-append (x ∷ []) c d (vx, h) v p = (vx, (d, v, p))
Key-append (x ∷ y ∷ a) c d (vx, h) v p = (vx, Key-append (y ∷ a) c d h v p)

ends_in_zero-append : (a : Str) (c : ℕ) → ends_in_zero (a ++ c ∷ []) ≡ (c == b'0')
unfolding ends_in_zero
ends_in_zero-append [] c = refl
ends_in_zero-append (x ∷ []) c = refl
ends_in_zero-append (x ∷ y ∷ a) c = ends_in_zero-append (y ∷ a) c

-- A key is the encoding, perhaps with one more byte.
even_key-encode : (v w : ℕ) → (e : Str) × (even_key v w ≡ encode v w ++ e)
unfolding even_key
even_key-encode v w = elim (Bool-cases (ends_in_zero (encode v w))) [
  | inl z ↦ (b'V' ∷ [], rw z)
  | inr z ↦ ([], rw (z, append-nil))
]

even_key_mono : (w v v' : ℕ) → v < v' → v' < pow 62 w → StrLt (even_key v w) (even_key v' w)
even_key_mono w v v' h l =
    let (e, p) = even_key-encode v w in
    let (e', p') = even_key-encode v' w in
    rw (p, p')
      (StrLt-append (encode v w) (encode v' w) e e' (length-encode w v ∙ sym (length-encode w v'))
        (encode_mono w v v' h l))

even_key-Key : (w v : ℕ) → Key (even_key v (suc w))
unfolding even_key
even_key-Key w v = elim (Bool-cases (ends_in_zero (encode v (suc w)))) [
  | inl z ↦
      rw z (Key-append (encode v (suc w)) b'V' 31 (encode-AreDigits (suc w) v) middle (omega arith))
  | inr z ↦ rw z (
      rw (encode-suc w v) (
        Key-append (encode (v / 62) w) (digit_byte (v % 62)) (v % 62) (encode-AreDigits w (v / 62))
          (digit_byte-val (v % 62) (omega arith))
          (nonzero (digit_byte (v % 62)) (v % 62) (digit_byte-val (v % 62) (omega arith)) (
            sym (ends_in_zero-append (encode (v / 62) w) (digit_byte (v % 62)))
            ∙ (rw (encode-suc w v) at z)))))
]

-- The width is found: there are more texts of that width than keys.
width_loop-pow : (f w m n : ℕ) → w + f ≡ m → n < pow 62 m → n < pow 62 (width_loop f w n)
unfolding width_loop
width_loop-pow zero w m n e h = subst (λ k. n < pow 62 k) (sym (let q : w ≡ m = omega arith in q)) h
width_loop-pow (suc f) w m n e h =
    ground (arith, width_loop-pow f (w + 1) m n (let q : w + 1 + f ≡ m = omega arith in q) h)

lt-pow : (n : ℕ) → n < pow 62 n
unfolding pow
lt-pow zero = omega arith
lt-pow (suc n) = omega (arith, lt-pow n)

-- Each key sorts before the next.
abbrev pub Increasing : List Str → Type 0
Increasing [] = Unit {0}
Increasing (k ∷ []) = Unit {0}
Increasing (k ∷ l ∷ ks) = (str_ltb k l ≡ true) × Increasing (l ∷ ks)

even_key-valid : (w v : ℕ) → 0 < v → v < pow 62 (suc w) → valid (even_key v (suc w)) ≡ true
even_key-valid w v p l =
    Key-valid (even_key v (suc w)) (even_key-Key w v)
      (StrLt-nil (even_key 0 (suc w)) (even_key v (suc w)) (even_key_mono (suc w) 0 v p l))

length-even_from : (c i step w : ℕ) → length (even_from c i step w) ≡ c
unfolding even_from
length-even_from zero i step w = refl
length-even_from (suc c) i step w = ap suc (length-even_from c (i + 1) step w)

-- The keys that are left stand below the end of the space.
even_from-valid :
    (c i step w : ℕ)
    → 0 < step
    → (i + c) * step < pow 62 (suc w)
    → All (λ k. valid k ≡ true) (even_from c i step (suc w))
unfolding even_from
even_from-valid zero i step w p h = tt
even_from-valid (suc c) i step w p h = (
  even_key-valid w ((i + 1) * step) (grind arith) (grind arith),
  even_from-valid c (i + 1) step w p (grind arith),
)

even_from-Increasing :
    (c i step w : ℕ)
    → 0 < step
    → (i + c) * step < pow 62 (suc w)
    → Increasing (even_from c i step (suc w))
unfolding even_from
even_from-Increasing zero i step w p h = tt
even_from-Increasing (suc zero) i step w p h = tt
even_from-Increasing (suc (suc c)) i step w p h = (
  StrLt→str_ltb _ _
      (even_key_mono (suc w) ((i + 1) * step) ((i + 1 + 1) * step) (grind arith) (grind arith)),
  even_from-Increasing (suc c) (i + 1) step w p (grind arith),
)

pow-suc : (n : ℕ) → pow 62 (suc n) ≡ pow 62 n * 62
unfolding pow
pow-suc n = refl

step_bounds :
    (total n : ℕ) → n < total → (0 < total / (n + 1)) × ((0 + n) * (total / (n + 1)) < total)
step_bounds total n h = (grind arith, grind (arith, div-add-mod total (n + 1)))

-- For every count there are that many keys, each well-formed and each sorting before the next.
pub even_ok :
    (n : ℕ) → (length (even n) ≡ n) × All (λ k. valid k ≡ true) (even n) × Increasing (even n)
unfolding even
even_ok n =
    let w = width_loop n 1 n in
    let wide : n < pow 62 w =
      width_loop-pow n 1 (suc n) n (omega arith) (omega (arith, lt-pow n, pow-suc n)) in
    let (p, h) = step_bounds (pow 62 (suc w)) n (omega (arith, pow-suc w)) in
    let step = pow 62 (suc w) / (n + 1) in
    (
      length-even_from n 0 step (suc w),
      even_from-valid n 0 step w p h,
      even_from-Increasing n 0 step w p h,
    )
