-- ===== src/Fracindex.antt =====
-- Fractional position keys (core/internal/fracindex/fracindex.go): `Valid`, `Between`, `midpoint`
-- and `Even` over byte lists.
mod Digits
mod Gap
mod Midpoint
pub mod Between
pub mod Even
mod Tests
use mathlib.Core.Option
use notekeeper.Common.{
  ℕ, zero, suc, ◌+◌, ◌-◌, ◌*◌, ◌/◌, ◌%◌, ◌<◌, ◌≡◌, refl, Bool, true, false, ◌&&◌, ◌||◌, not, Option,
  none, some, List, [], ◌∷◌, ◌++◌, ltb, leb, ◌==◌, if◌then◌else◌, length, get_elem?, take, drop,
  ◌>>=◌,
}
use Digits.{digits}
use notekeeper.Common.Str.{Str, str_eq, str_ltb, index_byte}

abbrev pub max_length : ℕ
max_length = 48

pub data Error : Type 0 where
  order invalid : Error

pub data Result {ℓ} (A : Type ℓ) : Type ℓ where
  ok : A → Result A
  err : Error → Result A

-- The loop of `Valid`: every byte is in the alphabet.
all_digits : Str → Bool
all_digits [] = true
all_digits (c ∷ k) = elim (index_byte digits c) [ none ↦ false | some _ ↦ all_digits k ]

ends_in_zero : Str → Bool
ends_in_zero [] = false
ends_in_zero (c ∷ []) = c == b'0'
ends_in_zero (c ∷ d ∷ k) = ends_in_zero (d ∷ k)

unfoldable pub valid : Str → Bool
unfolding all_digits ends_in_zero
valid k = if str_eq k [] || ends_in_zero k then false else all_digits k

-- `none` is -1, a byte outside the alphabet; a position past the end is the digit 0.
digit : Str → ℕ → Option ℕ
digit k i = elim (get_elem? k i) [ none ↦ some 0 | some c ↦ index_byte digits c ]

abbrev slice_from : Str → ℕ → Str
slice_from s n = drop n s

-- `string(digits[i])`, where `none` is an index out of range.
digit_char : ℕ → Option Str
digit_char i = Option.map (λ c. c ∷ []) (get_elem? digits i)

-- The loop of `midpoint` that counts the common prefix, `a` being padded with the smallest digit.
pub common_prefix : Str → Str → Option ℕ
unfolding digit
common_prefix a [] = some 0
common_prefix a (c ∷ b) = do
  da ← digit a 0
  db ← index_byte digits c
  elim (da == db) [ true ↦ Option.map suc (common_prefix (slice_from a 1) b) | false ↦ some 0 ]

-- `midpoint`, with fuel for its calls of itself. `none` is: no fuel is left, or a byte outside the
-- alphabet is read; `Between` checks its arguments first, so neither happens there.
pub midpoint : ℕ → Str → Str → Option Str
unfolding digit
midpoint zero a b = none
-- both ends open: 0 and 62 stand for the first digits
midpoint (suc f) [] [] = digit_char ((0 + length digits + 1) / 2)
midpoint (suc f) (x ∷ a) [] = do
  i ← digit (x ∷ a) 0
  elim (ltb i (length digits - 1)) [
    | true ↦ digit_char (i + 1)
    | false ↦ Option.map (λ rest. x ∷ rest) (midpoint f (slice_from (x ∷ a) 1) [])
  ]
midpoint (suc f) [] (y ∷ b) = do
  i ← digit (y ∷ b) 0
  elim (leb 2 i) [
    | true ↦ digit_char (i - 1)
    | false ↦ elim (ltb 1 (length (y ∷ b)) && i == 0) [
      | true ↦ Option.map (λ rest. b'0' ∷ rest) (midpoint f [] b)
      | false ↦ some (b'0' ∷ b'V' ∷ [])
    ]
  ]
midpoint (suc f) (x ∷ a) (y ∷ b) = do
  n ← common_prefix (x ∷ a) (y ∷ b)
  elim (ltb 0 n) [
    | true ↦
        Option.map (λ rest. take n (y ∷ b) ++ rest)
          (midpoint f (slice_from (x ∷ a) n) (drop n (y ∷ b)))
    | false ↦ do
      da ← digit (x ∷ a) 0
      db ← index_byte digits y
      elim (ltb (da + 1) db) [
        | true ↦ digit_char ((da + db + 1) / 2)
        | false ↦ elim (ltb 1 (length (y ∷ b))) [
          | true ↦ some (y ∷ [])
          | false ↦ do
            c ← digit_char da
            Option.map (λ rest. c ++ rest) (midpoint f (slice_from (x ∷ a) 1) [])
        ]
      ]
  ]

-- An empty `a` means before everything, an empty `b` after everything.
pub between : Str → Str → Option (Result Str)
unfolding valid
between a b =
    if (not (str_eq a []) && not (valid a)) || (not (str_eq b []) && not (valid b))
    then some (err invalid)
    else if not (str_eq b []) && not (str_ltb a b)
    then some (err order)
    else Option.map ok (midpoint (length a + length b + 1) a b)

-- `pow`: a loop of multiplications.
pow : ℕ → ℕ → ℕ
pow base zero = 1
pow base (suc exp) = pow base exp * base

-- `digits[i]` at an index below 62.
digit_byte : ℕ → ℕ
digit_byte i = elim (get_elem? digits i) [ none ↦ 0 | some c ↦ c ]

-- The loop of `encode`, which fills its buffer from the last place; `acc` is what is filled.
encode_from : ℕ → ℕ → Str → Str
unfolding digit_byte
encode_from zero v acc = acc
encode_from (suc width) v acc =
    encode_from width (v / length digits) (digit_byte (v % length digits) ∷ acc)

encode : ℕ → ℕ → Str
unfolding encode_from
encode v width = encode_from width v []

-- The loop of `Even` over `width`, with fuel.
width_loop : ℕ → ℕ → ℕ → ℕ
width_loop zero width n = width
width_loop (suc fuel) width n = elim (ltb (pow (length digits) width) (n + 1)) [
  | true ↦ width_loop fuel (width + 1) n
  | false ↦ width
]

-- One key of `Even`; it must not end in the smallest digit.
even_key : ℕ → ℕ → Str
unfolding encode ends_in_zero
even_key v width = let k = encode v width in if ends_in_zero k then k ++ b'V' ∷ [] else k

-- The loop of `Even`: `count` keys are left, the next of them for `i`.
even_from : ℕ → ℕ → ℕ → ℕ → List Str
unfolding even_key
even_from zero i step width = []
even_from (suc count) i step width =
    even_key ((i + 1) * step) width ∷ even_from count (i + 1) step width

-- Go's `int` does not overflow here for any list that fits in memory.
pub even : ℕ → List Str
unfolding even_from width_loop
even n =
    let width = suc (width_loop n 1 n) in even_from n 0 (pow (length digits) width / (n + 1)) width
