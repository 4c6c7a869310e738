-- ===== src/Fracindex/Digits.antt =====
-- The alphabet of the keys, and the keys as a predicate (core/internal/fracindex/fracindex.go).
use notekeeper.Common.{ℕ, ◌<◌, ◌≡◌, refl, some, [], ◌∷◌, arith, get_elem?, get_elem?-lt}
use notekeeper.Common.Str.{
  Str, codes, index_byte, get_elem?-index_byte, index_byte-get_elem?, get_elem?-mono, Ascending,
}

abbrev pub digits : Str
digits = codes "0123456789ABCDEFGHIJKLMNOPQRSTUVWXYZabcdefghijklmnopqrstuvwxyz"

-- The byte `c` is the digit `d`.
abbrev pub Val : ℕ → ℕ → Type 0
Val c d = index_byte digits c ≡ some d

pub zero_char : Val b'0' 0
unfolding index_byte
zero_char = refl

pub middle : Val b'V' 31
unfolding index_byte
middle = refl

digits-Ascending : Ascending digits
digits-Ascending = omega arith

pub val-lt : (c d : ℕ) → Val c d → d < 62
val-lt c d v = (get_elem?-index_byte digits c d v).1

pub get_elem?-val : (c d : ℕ) → Val c d → get_elem? digits d ≡ some c
get_elem?-val c d v = (get_elem?-index_byte digits c d v).0

pub val_mono : (c d c' d' : ℕ) → Val c d → Val c' d' → d < d' → c < c'
val_mono c d c' d' v v' h =
    get_elem?-mono digits d d' c c' digits-Ascending (get_elem?-val c d v) (get_elem?-val c' d' v')
      h

pub val-injective : (c c' d : ℕ) → Val c d → Val c' d → c ≡ c'
val-injective c c' d v v' = cc (get_elem?-val c d v, get_elem?-val c' d v')

-- Every number below 62 has a byte.
pub char_of : (d : ℕ) → d < 62 → (c : ℕ) × (get_elem? digits d ≡ some c) × Val c d
char_of d h =
    let (c, e) = get_elem?-lt digits d h in
    (c, e, index_byte-get_elem? digits d c digits-Ascending e)

-- Empty, or a key that `Valid` accepts.
abbrev pub Key : Str → Type 0
Key [] = Unit {0}
Key (c ∷ []) = (d : ℕ) × Val c d × (0 < d)
Key (c ∷ c' ∷ k) = ((d : ℕ) × Val c d) × Key (c' ∷ k)

pub Key-head : (c : ℕ) (k : Str) → Key (c ∷ k) → (d : ℕ) × Val c d
Key-head c [] h = (h.0, h.1)
Key-head c (c' ∷ k) h = h.0

pub Key-tail : (c : ℕ) (k : Str) → Key (c ∷ k) → Key k
Key-tail c [] h = tt
Key-tail c (c' ∷ k) h = h.1
