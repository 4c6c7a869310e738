-- ===== src/Notes/Order/Keys.antt =====
-- The least and the greatest of the keys that a query lists (core/internal/notes/ops.go, `NoteGroup`).
use notekeeper.Common.{
  ◌≡◌, ◌⊎◌, inl, inr, refl, ap, Bool, true, false, Option, none, some, List, [], ◌∷◌, arith,
  if◌then◌else◌, Bool-cases,
}
use notekeeper.Common.Str.{Str, str_ltb, str_ltb_total}
use notekeeper.Position.Neighbours.{Before, Before-trans}
use notekeeper.Notes.Order.{above, below, lesser, least, greater, greatest}

-- A key among the answers of a query.
abbrev pub Among : Str → List (Option Str) → Type 0
Among k [] = ⊥
Among k (x ∷ ks) = (x ≡ some k) ⊎ Among k ks

lesser-eq : (x k : Str) (r : Option Str) → lesser x r ≡ some k → (x ≡ k) ⊎ (r ≡ some k)
unfolding lesser
lesser-eq x k none e = inl (cc)
lesser-eq x k (some m) e = elim (Bool-cases (str_ltb m x)) [
  | inl l ↦ inr (ground (arith, l, e))
  | inr l ↦ inl (ground (arith, l, e))
]

greater-eq : (x k : Str) (r : Option Str) → greater x r ≡ some k → (x ≡ k) ⊎ (r ≡ some k)
unfolding greater
greater-eq x k none e = inl (cc)
greater-eq x k (some m) e = elim (Bool-cases (str_ltb x m)) [
  | inl l ↦ inr (ground (arith, l, e))
  | inr l ↦ inl (ground (arith, l, e))
]

pub least-Among : (ks : List (Option Str)) (k : Str) → least ks ≡ some k → Among k ks
unfolding least
least-Among [] k e = absurd (cc)
least-Among (none ∷ ks) k e = inr (least-Among ks k e)
least-Among (some x ∷ ks) k e = elim (lesser-eq x k (least ks) e) [
  | inl same ↦ inl (ap some same)
  | inr later ↦ inr (least-Among ks k later)
]

pub greatest-Among : (ks : List (Option Str)) (k : Str) → greatest ks ≡ some k → Among k ks
unfolding greatest
greatest-Among [] k e = absurd (cc)
greatest-Among (none ∷ ks) k e = inr (greatest-Among ks k e)
greatest-Among (some x ∷ ks) k e = elim (greater-eq x k (greatest ks) e) [
  | inl same ↦ inl (ap some same)
  | inr later ↦ inr (greatest-Among ks k later)
]

-- No greater than.
abbrev pub UpTo : Str → Str → Type 0
UpTo a b = (a ≡ b) ⊎ Before a b

UpTo-trans : (a b c : Str) → UpTo a b → UpTo b c → UpTo a c
UpTo-trans a b c (inl e) q = rw e q
UpTo-trans a b c (inr p) (inl e) = inr (rw (← e) p)
UpTo-trans a b c (inr p) (inr q) = inr (Before-trans a b c p q)

lesser-UpTo :
    (x : Str) (r : Option Str)
    → (k : Str) × (lesser x r ≡ some k) × UpTo k x × ((l : Str) → r ≡ some l → UpTo k l)
unfolding lesser
lesser-UpTo x none = (x, refl, inl refl, λ l e. absurd (cc))
lesser-UpTo x (some m) = elim (Bool-cases (str_ltb m x)) [
  | inl less ↦ (m, rw less refl, inr less, λ l e. inl (cc))
  | inr more ↦ (
    x,
    rw more refl,
    inl refl,
    λ l e. elim (str_ltb_total m x more) [
      | inl q ↦ inl (cc)
      | inr q ↦ let p : m ≡ l = cc in inr (rw (← p) q)
    ],
  )
]

greater-UpTo :
    (x : Str) (r : Option Str)
    → (k : Str) × (greater x r ≡ some k) × UpTo x k × ((l : Str) → r ≡ some l → UpTo l k)
unfolding greater
greater-UpTo x none = (x, refl, inl refl, λ l e. absurd (cc))
greater-UpTo x (some m) = elim (Bool-cases (str_ltb x m)) [
  | inl less ↦ (m, rw less refl, inr less, λ l e. inl (cc))
  | inr more ↦ (
    x,
    rw more refl,
    inl refl,
    λ l e. elim (str_ltb_total x m more) [
      | inl q ↦ inl (cc)
      | inr q ↦ let p : m ≡ l = cc in inr (rw (← p) q)
    ],
  )
]

-- The least key is found, and no greater than any; and so the greatest.
pub least-UpTo :
    (ks : List (Option Str)) (m : Str) → Among m ks → (k : Str) × (least ks ≡ some k) × UpTo k m
unfolding least
least-UpTo [] m h = elim h [ ]
least-UpTo (none ∷ ks) m (inl e) = absurd (cc)
least-UpTo (none ∷ ks) m (inr h) = least-UpTo ks m h
least-UpTo (some x ∷ ks) m (inl e) =
    let (k, q, low, _) = lesser-UpTo x (least ks) in let p : x ≡ m = cc in (k, q, rw (← p) low)
least-UpTo (some x ∷ ks) m (inr h) =
    let (l, e, u) = least-UpTo ks m h in
    let (k, q, _, rest) = lesser-UpTo x (least ks) in (k, q, UpTo-trans k l m (rest l e) u)

pub greatest-UpTo :
    (ks : List (Option Str)) (m : Str) → Among m ks → (k : Str) × (greatest ks ≡ some k) × UpTo m k
unfolding greatest
greatest-UpTo [] m h = elim h [ ]
greatest-UpTo (none ∷ ks) m (inl e) = absurd (cc)
greatest-UpTo (none ∷ ks) m (inr h) = greatest-UpTo ks m h
greatest-UpTo (some x ∷ ks) m (inl e) =
    let (k, q, high, _) = greater-UpTo x (greatest ks) in
    let p : x ≡ m = cc in (k, q, rw (← p) high)
greatest-UpTo (some x ∷ ks) m (inr h) =
    let (l, e, u) = greatest-UpTo ks m h in
    let (k, q, _, rest) = greater-UpTo x (greatest ks) in (k, q, UpTo-trans m l k u (rest l e))

-- The keys above one, and below one.
pub Among-above :
    (a m : Str) (ks : List (Option Str)) → Among m ks → Before a m → Among m (above a ks)
unfolding above
Among-above a m [] h b = h
Among-above a m (none ∷ ks) (inl e) b = absurd (cc)
Among-above a m (none ∷ ks) (inr h) b = Among-above a m ks h b
Among-above a m (some k ∷ ks) (inl e) b =
    let p : k ≡ m = cc in let q : str_ltb a k ≡ true = rw p b in rw q (inl e)
Among-above a m (some k ∷ ks) (inr h) b = elim (Bool-cases (str_ltb a k)) [
  | inl q ↦ rw q (inr (Among-above a m ks h b))
  | inr q ↦ rw q (Among-above a m ks h b)
]

pub above-Among :
    (a m : Str) (ks : List (Option Str)) → Among m (above a ks) → Among m ks × Before a m
unfolding above
above-Among a m [] h = elim h [ ]
above-Among a m (none ∷ ks) h = let (h', b) = above-Among a m ks h in (inr h', b)
above-Among a m (some k ∷ ks) h = go (above-Among a m ks) (str_ltb a k) refl h
  where
    go :
        (Among m (above a ks) → Among m ks × Before a m)
        → (t : Bool) → str_ltb a k ≡ t
        → Among m (if t then some k ∷ above a ks else above a ks)
        → Among m (some k ∷ ks) × Before a m
    go ih true q (inl e) = let p : k ≡ m = cc in (inl e, rw (← p) q)
    go ih true q (inr h) = let (h', b) = ih h in (inr h', b)
    go ih false q h = let (h', b) = ih h in (inr h', b)

pub Among-below :
    (b m : Str) (ks : List (Option Str)) → Among m ks → Before m b → Among m (below b ks)
unfolding below
Among-below b m [] h l = h
Among-below b m (none ∷ ks) (inl e) l = absurd (cc)
Among-below b m (none ∷ ks) (inr h) l = Among-below b m ks h l
Among-below b m (some k ∷ ks) (inl e) l =
    let p : k ≡ m = cc in let q : str_ltb k b ≡ true = rw p l in rw q (inl e)
Among-below b m (some k ∷ ks) (inr h) l = elim (Bool-cases (str_ltb k b)) [
  | inl q ↦ rw q (inr (Among-below b m ks h l))
  | inr q ↦ rw q (Among-below b m ks h l)
]

pub below-Among :
    (b m : Str) (ks : List (Option Str)) → Among m (below b ks) → Among m ks × Before m b
unfolding below
below-Among b m [] h = elim h [ ]
below-Among b m (none ∷ ks) h = let (h', l) = below-Among b m ks h in (inr h', l)
below-Among b m (some k ∷ ks) h = go (below-Among b m ks) (str_ltb k b) refl h
  where
    go :
        (Among m (below b ks) → Among m ks × Before m b)
        → (t : Bool) → str_ltb k b ≡ t
        → Among m (if t then some k ∷ below b ks else below b ks)
        → Among m (some k ∷ ks) × Before m b
    go ih true q (inl e) = let p : k ≡ m = cc in (inl e, rw (← p) q)
    go ih true q (inr h) = let (h', l) = ih h in (inr h', l)
    go ih false q h = let (h', l) = ih h in (inr h', l)
