-- ===== src/Position.antt =====
-- Placement between neighbours (core/internal/position/position.go). The store of the list is a
-- parameter: a `Group` answers from a state and may fail, and `Rebalance` gives the next state.
pub mod Neighbours
pub mod Placed
pub mod Refused
mod Tests
use notekeeper.Common.{
  ℕ, ◌≡◌, ◌⊎◌, inl, inr, refl, Bool, true, false, Option, none, some, [], ltb, leb, if◌then◌else◌,
  length,
}
use notekeeper.Common.Str.{Str, str_ltb}
use notekeeper.Fracindex
use notekeeper.Fracindex.{between, max_length}

-- `key` wraps an error of the key package; `backend` is any error of the store.
pub data Error : Type 0 where
  neighbour backend stuck : Error
  key : Fracindex.Error → Error

pub data Result {ℓ} (A : Type ℓ) : Type ℓ where
  err : Error → Result A
  ok : A → Result A

infixl 5 ◌>>=◌
abbrev pub ◌>>=◌ {κ ℓ} :
    {Value : Type κ} {Next : Type ℓ} → Result Value → (Value → Result Next) → Result Next
err why >>= next = err why
ok value >>= next = next value

-- A missing answer is `ok none`, the source's ok=false.
pub record Group (S : Type 0) : Type 0 where
  pub key_of : S → ℕ → Result (Option Str)
  pub after : S → Str → Result (Option Str)
  pub before : S → Str → Result (Option Str)
  pub first : S → Result (Option Str)
  pub last : S → Result (Option Str)
  pub rebalance : S → Result S

pub record Hints : Type 0 where
  pub after_id : Option ℕ
  pub before_id : Option ℕ
  pub default_top : Bool

-- An empty text is an open bound.
abbrev pub or_open : Option Str → Str
or_open none = []
or_open (some k) = k

-- `orNeighbour`: an id that is no member.
abbrev pub or_neighbour : Result (Option Str) → Result Str
or_neighbour (ok none) = err neighbour
or_neighbour (ok (some k)) = ok k
or_neighbour (err e) = err e

-- `fracindex.Between`; `stuck` is a call that gives no answer, which does not happen.
pub between_key : Str → Str → Result Str
between_key lo hi = elim (between lo hi) [
  | none ↦ err stuck
  | some r ↦ elim r [ Fracindex.ok k ↦ ok k | Fracindex.err e ↦ err (key e) ]
]

module _ {S : Type 0} (g : Group S) where
  pub place_hints : S → Option ℕ → Option ℕ → Bool → Result Str
  unfolding between_key
  place_hints s (some a_id) (some b_id) top = do
    a ← or_neighbour (g.key_of s a_id)
    b ← or_neighbour (g.key_of s b_id)
    elim (str_ltb a b) [
      | true ↦ between_key a b
      | false ↦ g.after s a >>= λ hi. between_key a (or_open hi)
    ]
  place_hints s (some a_id) none top = do
    a ← or_neighbour (g.key_of s a_id)
    hi ← g.after s a
    between_key a (or_open hi)
  place_hints s none (some b_id) top = do
    b ← or_neighbour (g.key_of s b_id)
    lo ← g.before s b
    between_key (or_open lo) b
  place_hints s none none true = do hi ← g.first s; between_key [] (or_open hi)
  place_hints s none none false = do lo ← g.last s; between_key (or_open lo) []

  -- `place`
  pub place_once : S → Hints → Result Str
  unfolding place_hints
  place_once s h = place_hints s h.after_id h.before_id h.default_top

  -- `Place`: a key that is too long is computed again behind a rebalance.
  pub place : S → Hints → Result (Str × S)
  unfolding place_once
  place s h = do
    k ← place_once s h
    elim (leb (length k) max_length) [
      | true ↦ ok (k, s)
      | false ↦ do t ← g.rebalance s; k' ← place_once t h; ok (k', t)
    ]

pub Result-cases {ℓ} :
    {A : Type ℓ} (m : Result A) → ((a : A) × (m ≡ ok a)) ⊎ ((e : Error) × (m ≡ err e))
Result-cases (ok a) = inl (a, refl)
Result-cases (err e) = inr (e, refl)
