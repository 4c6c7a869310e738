-- ===== src/Bots/Codes.antt =====
-- The text of pairing codes (core/internal/auth/random.go, `NewPairingCode` and `NormalisePairingCode`). Go's
-- `strings.ToUpper` is a parameter, and the random bytes are an argument.
use notekeeper.Common.{
  ℕ, zero, suc, not, ◌&&◌, ◌%◌, ◌<◌, ◌≡◌, refl, ap, ◌∙◌, Bool, true, false, Option, none, some,
  List, [], ◌∷◌, ◌++◌, arith, All, ◌==◌, ◌||◌, if◌then◌else◌, length, take, drop, get_elem?,
  get_elem?-lt, map,
}
use notekeeper.Common.Str.{Str, codes}

-- The digits of Crockford's base 32.
abbrev pub crockford : Str
crockford = codes "0123456789ABCDEFGHJKMNPQRSTVWXYZ"

abbrev dash : ℕ
dash = b'-'

unfoldable pub has_code : ℕ → Str → Bool
has_code c [] = false
has_code c (x ∷ xs) = x == c || has_code c xs

-- `crockford[int(v)&31]`
unfoldable pub crockford_digit : ℕ → ℕ
crockford_digit v = elim (get_elem? crockford (v % 32)) [ none ↦ 0 | some c ↦ c ]

abbrev with_dash : Str → Str
with_dash s = take 4 s ++ (dash ∷ drop 4 s)

-- `NewPairingCode`, of the random bytes.
unfoldable pub new_pairing_code : List ℕ → Str
new_pairing_code bytes = with_dash (map crockford_digit bytes)

-- The letters that are taken for digits.
unfoldable pub look_alike : ℕ → ℕ
look_alike c = if c == b'O' then b'0' else if c == b'I' || c == b'L' then b'1' else c

abbrev push : ℕ → Option Str → Option Str
push c none = none
push c (some r) = some (c ∷ r)

-- The loop of `NormalisePairingCode`; `none` is that the text cannot be a code.
unfoldable pub read_code : Str → Option Str
unfolding look_alike has_code
read_code [] = some []
read_code (c ∷ s) =
    let rest = read_code s in
    if c == dash || c == b' '
    then rest
    else if has_code (look_alike c) crockford
    then push (look_alike c) rest
    else none

unfoldable pub of_length : Option Str → Option Str
of_length none = none
of_length (some s) = if length s == 8 then some (with_dash s) else none

-- `NormalisePairingCode`; `none` is "".
unfoldable pub normalise_pairing_code : (Str → Str) → Str → Option Str
unfolding read_code of_length
normalise_pairing_code to_upper s = of_length (read_code (to_upper s))

-- A digit of the alphabet is read as it is.
abbrev IsDigit : ℕ → Type 0
IsDigit c = ((c == dash || c == b' ') ≡ false) × (look_alike c ≡ c) × (has_code c crockford ≡ true)

abbrev digit_test : ℕ → Bool
digit_test c = not (c == dash || c == b' ') && look_alike c == c && has_code c crockford

-- What every character of a text passes, the one at a place passes.
passes : (ℕ → Bool) → Str → Bool
passes p [] = true
passes p (c ∷ s) = p c && passes p s

get_elem-passes :
    (p : ℕ → Bool) (s : Str) (i c : ℕ) → passes p s ≡ true → get_elem? s i ≡ some c → p c ≡ true
unfolding passes
get_elem-passes p [] i c h at_i = absurd (cc)
get_elem-passes p (x ∷ s) zero c h at_i = ground (arith, h, at_i)
get_elem-passes p (x ∷ s) (suc i) c h at_i = get_elem-passes p s i c (ground (arith, h)) at_i

digits_pass : passes digit_test crockford ≡ true
unfolding passes look_alike has_code
digits_pass = refl

crockford_digit-IsDigit : (v : ℕ) → IsDigit (crockford_digit v)
unfolding crockford_digit
crockford_digit-IsDigit v =
    let small : v % 32 < length crockford = omega arith in
    let (c, there) = get_elem?-lt crockford (v % 32) small in
    let t : digit_test c ≡ true =
      get_elem-passes digit_test crockford (v % 32) c digits_pass there in
    let same : crockford_digit v ≡ c = ap (λ o. elim o [ none ↦ 0 | some d ↦ d ]) there in
    rw same (ground (arith, t), ground (arith, t), ground (arith, t))

abbrev prepend : Str → Option Str → Option Str
prepend xs none = none
prepend xs (some s) = some (xs ++ s)

-- Digits are read as they are.
read_code-digits :
    (xs rest : Str) → All IsDigit xs → read_code (xs ++ rest) ≡ prepend xs (read_code rest)
unfolding read_code
read_code-digits [] rest h = same (read_code rest)
  where
    same : (o : Option Str) → o ≡ prepend [] o
    same none = refl
    same (some s) = refl
read_code-digits (x ∷ xs) rest ((plain, alike, known), hs) =
    rw (plain, alike, known, read_code-digits xs rest hs) (more (read_code rest))
  where
    more : (o : Option Str) → push x (prepend xs o) ≡ prepend (x ∷ xs) o
    more none = refl
    more (some s) = refl

-- Eight digits are a code, with a dash in the middle or without.
module _ (p q r s t u v w : ℕ) where
  abbrev front : Str
  front = p ∷ q ∷ r ∷ s ∷ []

  abbrev back : Str
  back = t ∷ u ∷ v ∷ w ∷ []

  eight_digits :
      All IsDigit front
      → All IsDigit back
      → (of_length (read_code (front ++ dash ∷ back)) ≡ some (front ++ dash ∷ back))
        × (of_length (read_code (front ++ back)) ≡ some (front ++ dash ∷ back))
  unfolding of_length read_code
  eight_digits a b =
      let last : read_code back ≡ some back = read_code-digits back [] b in
      let dashed : read_code (dash ∷ back) ≡ some back = last in
      let first = read_code-digits front (dash ∷ back) a in
      let plain = read_code-digits front back a in
      (
        ap of_length (first ∙ ap (prepend front) dashed),
        ap of_length (plain ∙ ap (prepend front) last),
      )

-- A code that is made is read back as it is, with its dash or without, where the letters of its digits are
-- capitals already.
pub normalise-new :
    (to_upper : Str → Str) (a b c d e f g h : ℕ)
    → let bytes = a ∷ b ∷ c ∷ d ∷ e ∷ f ∷ g ∷ h ∷ [] in
      to_upper (new_pairing_code bytes) ≡ new_pairing_code bytes
      → to_upper (map crockford_digit bytes) ≡ map crockford_digit bytes
      → (normalise_pairing_code to_upper (new_pairing_code bytes) ≡ some (new_pairing_code bytes))
        × (normalise_pairing_code to_upper (map crockford_digit bytes)
            ≡ some (new_pairing_code bytes))
unfolding normalise_pairing_code new_pairing_code
normalise-new to_upper a b c d e f g h plain spaced =
    let digit = crockford_digit-IsDigit in
    let (dashed, without) =
      eight_digits (crockford_digit a) (crockford_digit b) (crockford_digit c) (crockford_digit d)
        (crockford_digit e) (crockford_digit f) (crockford_digit g) (crockford_digit h)
        (digit a, (digit b, (digit c, (digit d, tt))))
        (digit e, (digit f, (digit g, (digit h, tt)))) in
    (
      ap (λ s. of_length (read_code s)) plain ∙ dashed,
      ap (λ s. of_length (read_code s)) spaced ∙ without,
    )
