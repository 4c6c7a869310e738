-- ===== src/Common/Str.antt =====
-- Texts as lists of bytes, their order (plain byte comparison), and the search for a byte.
use Prim.Native.Nat.{ℕ, zero, suc, ◌<◌}
use Prim.Native.Char.{code}
use Prim.Native.String.{String}
use mathlib.Core.Path.{◌≡◌, refl}
use mathlib.Core.Logic.{◌⊎◌, inl, inr}
use mathlib.Core.Bool.{Bool, true, false, ◌&&◌}
use mathlib.Core.List.{List, [], ◌∷◌}
use mathlib.Core.Option
use mathlib.Core.Option.{Option, none, some}
use native.Mathlib.Omega.{arith}
use notekeeper.Common.Tests.{ltb, ◌==◌, if◌then◌else◌, Bool-cases, Option-cases}
use notekeeper.Common.Lists.{length, get_elem?}

abbrev pub Str : Type 0
Str = List ℕ

-- The code points of a literal; these are its bytes when the text is ASCII.
abbrev pub codes : String → Str
codes String.[] = []
codes (String.◌∷◌ c s) = code c ∷ codes s

unfoldable pub str_eq : Str → Str → Bool
str_eq [] [] = true
str_eq (x ∷ a) (y ∷ b) = x == y && str_eq a b
str_eq _ _ = false

pub str_eq→eq : (a b : Str) → str_eq a b ≡ true → a ≡ b
unfolding str_eq
str_eq→eq [] [] h = refl
str_eq→eq [] (y ∷ b) h = cc
str_eq→eq (x ∷ a) [] h = cc
str_eq→eq (x ∷ a) (y ∷ b) h = ground (arith, str_eq→eq a b)

pub str_eq_refl : (a : Str) → str_eq a a ≡ true
unfolding str_eq
str_eq_refl [] = refl
str_eq_refl (x ∷ a) = ground (arith, str_eq_refl a)

-- Go's `a < b` on strings.
unfoldable pub str_ltb : Str → Str → Bool
str_ltb a [] = false
str_ltb [] (y ∷ b) = true
str_ltb (x ∷ a) (y ∷ b) = if ltb x y then true else if x == y then str_ltb a b else false

-- The same order as a statement.
abbrev pub StrLt : Str → Str → Type 0
StrLt a [] = ⊥
StrLt [] (y ∷ b) = Unit {0}
StrLt (x ∷ a) (y ∷ b) = (x < y) ⊎ ((x ≡ y) × StrLt a b)

pub str_ltb→StrLt : (a b : Str) → str_ltb a b ≡ true → StrLt a b
unfolding str_ltb
str_ltb→StrLt [] [] h = cc
str_ltb→StrLt (x ∷ a) [] h = cc
str_ltb→StrLt [] (y ∷ b) h = tt
str_ltb→StrLt (x ∷ a) (y ∷ b) h = ground (arith, str_ltb→StrLt a b)

pub StrLt→str_ltb : (a b : Str) → StrLt a b → str_ltb a b ≡ true
unfolding str_ltb
StrLt→str_ltb [] [] h = elim h [ ]
StrLt→str_ltb (x ∷ a) [] h = elim h [ ]
StrLt→str_ltb [] (y ∷ b) h = refl
StrLt→str_ltb (x ∷ a) (y ∷ b) h = ground (arith, StrLt→str_ltb a b)

pub StrLt-trans : (a b c : Str) → StrLt a b → StrLt b c → StrLt a c
StrLt-trans a b [] p q = q
StrLt-trans a [] (z ∷ c) p q = elim p [ ]
StrLt-trans [] (y ∷ b) (z ∷ c) p q = tt
StrLt-trans (x ∷ a) (y ∷ b) (z ∷ c) (inl p) (inl q) = inl (omega arith)
StrLt-trans (x ∷ a) (y ∷ b) (z ∷ c) (inl p) (inr q) = inl (omega arith)
StrLt-trans (x ∷ a) (y ∷ b) (z ∷ c) (inr p) (inl q) = inl (omega arith)
StrLt-trans (x ∷ a) (y ∷ b) (z ∷ c) (inr p) (inr q) = inr (omega arith, StrLt-trans a b c p.1 q.1)

pub StrLt-irrefl : (a : Str) → StrLt a a → ⊥
StrLt-irrefl [] h = h
StrLt-irrefl (x ∷ a) (inl h) = omega arith
StrLt-irrefl (x ∷ a) (inr h) = StrLt-irrefl a h.1

-- `strings.IndexByte`, with `none` for -1.
unfoldable pub index_byte : Str → ℕ → Option ℕ
index_byte [] c = none
index_byte (x ∷ s) c = if x == c then some 0 else Option.map suc (index_byte s c)

pub get_elem?-index_byte :
    (s : Str) (c i : ℕ) → index_byte s c ≡ some i → (get_elem? s i ≡ some c) × (i < length s)
unfolding index_byte
get_elem?-index_byte [] c i h = cc
get_elem?-index_byte (x ∷ s) c i h = elim (Bool-cases (x == c)) [
  | inl e ↦ ground arith
  | inr e ↦ elim (Option-cases (index_byte s c)) [
    | inl n ↦ ground arith
    | inr (j, p) ↦ ground (arith, get_elem?-index_byte s c j p)
  ]
]

-- Every byte is above the ones before it.
abbrev pub Ascending : Str → Type 0
Ascending [] = Unit {0}
Ascending (x ∷ []) = Unit {0}
Ascending (x ∷ y ∷ s) = (x < y) × Ascending (y ∷ s)

pub Ascending-tail : (x : ℕ) (s : Str) → Ascending (x ∷ s) → Ascending s
Ascending-tail x [] h = tt
Ascending-tail x (y ∷ s) h = h.1

pub Ascending-head :
    (x : ℕ) (s : Str) (i c : ℕ) → Ascending (x ∷ s) → get_elem? s i ≡ some c → x < c
Ascending-head x [] i c h e = cc
Ascending-head x (y ∷ s) zero c h e = ground arith
Ascending-head x (y ∷ s) (suc i) c h e = ground (arith, Ascending-head y s i c)

pub index_byte-get_elem? :
    (s : Str) (i c : ℕ) → Ascending s → get_elem? s i ≡ some c → index_byte s c ≡ some i
unfolding index_byte
index_byte-get_elem? [] i c h e = cc
index_byte-get_elem? (x ∷ s) zero c h e = ground arith
index_byte-get_elem? (x ∷ s) (suc i) c h e =
    ground (arith, Ascending-head x s i c h e, index_byte-get_elem? s i c (Ascending-tail x s h) e)

pub get_elem?-mono :
    (s : Str) (i j c d : ℕ)
    → Ascending s
    → get_elem? s i ≡ some c
    → get_elem? s j ≡ some d
    → i < j
    → c < d
get_elem?-mono [] i j c d h p q l = cc
get_elem?-mono (x ∷ s) i zero c d h p q l = absurd (omega arith)
get_elem?-mono (x ∷ s) zero (suc j) c d h p q l = ground (arith, Ascending-head x s j d h q)
get_elem?-mono (x ∷ s) (suc i) (suc j) c d h p q l =
    get_elem?-mono s i j c d (Ascending-tail x s h) p q (omega arith)

-- Two texts are equal, or one of them is the smaller.
pub str_ltb_total : (a b : Str) → str_ltb a b ≡ false → (b ≡ a) ⊎ (str_ltb b a ≡ true)
unfolding str_ltb
str_ltb_total [] [] h = inl refl
str_ltb_total [] (y ∷ b) h = absurd (ground arith)
str_ltb_total (x ∷ a) [] h = inr refl
str_ltb_total (x ∷ a) (y ∷ b) h = elim (str_ltb-cons x y a b h) [
  | inl less ↦ inr (ground arith)
  | inr (same, rest) ↦ elim (str_ltb_total a b rest) [
    | inl e ↦ inl (cc)
    | inr l ↦ inr (ground arith)
  ]
]
  where
    str_ltb-cons :
        (x y : ℕ) (a b : Str)
        → str_ltb (x ∷ a) (y ∷ b) ≡ false
        → (y < x) ⊎ ((x ≡ y) × (str_ltb a b ≡ false))
    str_ltb-cons x y a b h = ground arith

-- `strings.Cut` at one byte: what stands before it, what follows it, and whether it is there.
unfoldable pub cut : ℕ → Str → Str × Str × Bool
cut c [] = ([], [], false)
cut c (x ∷ s) = if x == c then ([], s, true) else (x ∷ (cut c s).0, (cut c s).1, (cut c s).2)

-- `strings.Split` at one byte; there is always a first piece.
abbrev pub onto_first : ℕ → List Str → List Str
onto_first x [] = (x ∷ []) ∷ []
onto_first x (p ∷ ps) = (x ∷ p) ∷ ps

unfoldable pub split_at : ℕ → Str → List Str
split_at c [] = [] ∷ []
split_at c (x ∷ s) = if x == c then [] ∷ split_at c s else onto_first x (split_at c s)
