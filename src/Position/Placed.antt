-- ===== src/Position/Placed.antt =====
-- Where `Place` puts an item (core/internal/position/position.go).
use notekeeper.Common.{
  ℕ, ◌≤◌, ◌≡◌, ◌⊎◌, inl, inr, refl, ap, ◌∙◌, Bool, true, false, Option, none, some, [], arith,
  length, leb, Bool-cases,
}
use notekeeper.Common.Str.{Str, str_ltb, StrLt→str_ltb}
use notekeeper.Fracindex.{max_length, valid}
use notekeeper.Fracindex.Between.{InOrder}
use notekeeper.Position.{ok, Group, Hints, or_open, between_key, place_hints, place}
use notekeeper.Position.Neighbours.{
  Before, Answers, Responds, between_key-ok, InOrder-member, below_nearest, above_nearest,
  IsBound-or_open, nonempty, InOrder-nil,
}

module _ {S : Type 0} (g : Group S) (Has : Str → Type 0) where
  -- Where the key of an item with these hints stands among the members: right behind the one
  -- neighbour, right before the other, between both if they are in order, and else at an end.
  pub Spot : S → Option ℕ → Option ℕ → Bool → Str → Type 0
  Spot s (some a) (some b) top k =
      (ka : Str) × (kb : Str) × (g.key_of s a ≡ ok (some ka))
      × (g.key_of s b ≡ ok (some kb))
      × Before ka k
      × ((Before ka kb × Before k kb)
          ⊎ ((str_ltb ka kb ≡ false) × ((m : Str) → Has m → Before ka m → Before k m)))
  Spot s (some a) none top k =
      (ka : Str) × (g.key_of s a ≡ ok (some ka))
      × Before ka k
      × ((m : Str) → Has m → Before ka m → Before k m)
  Spot s none (some b) top k =
      (kb : Str) × (g.key_of s b ≡ ok (some kb))
      × Before k kb
      × ((m : Str) → Has m → Before m kb → Before m k)
  Spot s none none true k = (m : Str) → Has m → Before k m
  Spot s none none false k = (m : Str) → Has m → Before m k

  -- A hint that is given names a member.
  abbrev pub Known : S → Option ℕ → Type 0
  Known s none = Unit {0}
  Known s (some id) = (k : Str) × (g.key_of s id ≡ ok (some k))

  module _ (s : S) (w : Answers g Has s) (r : Responds g s) where
    InOrder-after : (a : Str) (o : Option Str) → g.after s a ≡ ok o → InOrder a (or_open o)
    InOrder-after a none e = inl refl
    InOrder-after a (some k) e = inr (w.after_some a k e).1

    Before-before :
        (b : Str) (o : Option Str) → valid b ≡ true → g.before s b ≡ ok o → InOrder (or_open o) b
    Before-before b none v e = inr (StrLt→str_ltb [] b (nonempty b v))
    Before-before b (some k) v e = inr (w.before_some b k e).1

    member_valid : (id : ℕ) (k : Str) → g.key_of s id ≡ ok (some k) → valid k ≡ true
    member_valid id k e = w.members_valid k (w.key_of_member id k e)

    -- Right behind the member with key `ka`.
    behind :
        (ka : Str)
        → valid ka ≡ true
        → (o : Option Str) → g.after s ka ≡ ok o
        → (k : Str) × (between_key ka (or_open o) ≡ ok k)
          × (valid k ≡ true)
          × Before ka k
          × ((m : Str) → Has m → Before ka m → Before k m)
    behind ka v o e =
        let good =
          λ (n : Str) (q : o ≡ some n). w.members_valid n (w.after_some ka n (e ∙ ap ok q)).0 in
        let (k, b, vk, lo, hi) =
          between_key-ok ka (or_open o) (inr v) (IsBound-or_open o good) (InOrder-after ka o e) in
        (k, b, vk, lo, λ m h l. below_nearest o k m good hi (w.after_next ka o m e h l))

    in_front :
        (kb : Str)
        → valid kb ≡ true
        → (o : Option Str) → g.before s kb ≡ ok o
        → (k : Str) × (between_key (or_open o) kb ≡ ok k)
          × (valid k ≡ true)
          × Before k kb
          × ((m : Str) → Has m → Before m kb → Before m k)
    in_front kb v o e =
        let good =
          λ (n : Str) (q : o ≡ some n). w.members_valid n (w.before_some kb n (e ∙ ap ok q)).0 in
        let (k, b, vk, lo, hi) =
          between_key-ok (or_open o) kb (IsBound-or_open o good) (inr v) (Before-before kb o v e) in
        (
          k,
          b,
          vk,
          InOrder-member k kb v hi,
          λ m h l. above_nearest o k m lo (w.before_next kb o m e h l),
        )

    top :
        (o : Option Str)
        → g.first s ≡ ok o
        → (k : Str) × (between_key [] (or_open o) ≡ ok k)
          × (valid k ≡ true)
          × ((m : Str) → Has m → Before k m)
    top o e =
        let good = λ (n : Str) (q : o ≡ some n). w.members_valid n (w.first_some n (e ∙ ap ok q)) in
        let (k, b, vk, lo, hi) =
          between_key-ok [] (or_open o) (inl refl) (IsBound-or_open o good) (InOrder-nil o good) in
        (k, b, vk, λ m h. below_nearest o k m good hi (w.first_least o m e h))

    end :
        (o : Option Str)
        → g.last s ≡ ok o
        → (k : Str) × (between_key (or_open o) [] ≡ ok k)
          × (valid k ≡ true)
          × ((m : Str) → Has m → Before m k)
    end o e =
        let good = λ (n : Str) (q : o ≡ some n). w.members_valid n (w.last_some n (e ∙ ap ok q)) in
        let (k, b, vk, lo, hi) =
          between_key-ok (or_open o) [] (IsBound-or_open o good) (inl refl) (inl refl) in
        (k, b, vk, λ m h. above_nearest o k m lo (w.last_greatest o m e h))

    place_hints-Spot :
        (after_id before_id : Option ℕ) (default_top : Bool)
        → Known s after_id
        → Known s before_id
        → (k : Str) × (place_hints g s after_id before_id default_top ≡ ok k)
          × (valid k ≡ true)
          × Spot s after_id before_id default_top k
    unfolding place_hints Spot
    place_hints-Spot (some a) (some b) d (ka, ea) (kb, eb) = elim (Bool-cases (str_ltb ka kb)) [
      | inl below ↦
          let (k, e, vk, lo, hi) =
            between_key-ok ka kb (inr (member_valid a ka ea)) (inr (member_valid b kb eb))
              (inr below) in
          (
            k,
            ground arith,
            vk,
            (ka, kb, ea, eb, lo, inl (below, InOrder-member k kb (member_valid b kb eb) hi)),
          )
      | inr moved ↦
          let (o, eo) = r.after_ok ka in
          let (k, e, vk, lo, near) = behind ka (member_valid a ka ea) o eo in
          (k, ground arith, vk, (ka, kb, ea, eb, lo, inr (moved, near)))
    ]
    place_hints-Spot (some a) none d (ka, ea) hb =
        let (o, eo) = r.after_ok ka in
        let (k, e, vk, lo, near) = behind ka (member_valid a ka ea) o eo in
        (k, rw (ea, eo) e, vk, (ka, ea, lo, near))
    place_hints-Spot none (some b) d ha (kb, eb) =
        let (o, eo) = r.before_ok kb in
        let (k, e, vk, hi, near) = in_front kb (member_valid b kb eb) o eo in
        (k, rw (eb, eo) e, vk, (kb, eb, hi, near))
    place_hints-Spot none none true ha hb =
        let (o, eo) = r.first_ok in let (k, e, vk, near) = top o eo in (k, rw eo e, vk, near)
    place_hints-Spot none none false ha hb =
        let (o, eo) = r.last_ok in let (k, e, vk, near) = end o eo in (k, rw eo e, vk, near)

-- A spot is one in another state that gives the same keys of ids and has no further member.
pub Spot-same :
    {S : Type 0} (g : Group S) (Has Has' : Str → Type 0) (s t : S) (a b : Option ℕ) (top : Bool)
    (k : Str)
    → ((id : ℕ) → g.key_of t id ≡ g.key_of s id)
    → ((m : Str) → Has' m → Has m)
    → Spot g Has s a b top k
    → Spot g Has' t a b top k
unfolding Spot
Spot-same g Has Has' s t (some a) (some b) top k e h (ka, kb, ea, eb, lo, inl p) =
    (ka, kb, e a ∙ ea, e b ∙ eb, lo, inl p)
Spot-same g Has Has' s t (some a) (some b) top k e h (ka, kb, ea, eb, lo, inr (p, q)) =
    (ka, kb, e a ∙ ea, e b ∙ eb, lo, inr (p, λ m i. q m (h m i)))
Spot-same g Has Has' s t (some a) none top k e h (ka, ea, lo, q) =
    (ka, e a ∙ ea, lo, λ m i. q m (h m i))
Spot-same g Has Has' s t none (some b) top k e h (kb, eb, lo, q) =
    (kb, e b ∙ eb, lo, λ m i. q m (h m i))
Spot-same g Has Has' s t none none true k e h q = λ m i. q m (h m i)
Spot-same g Has Has' s t none none false k e h q = λ m i. q m (h m i)

-- What `Place` needs of the store in a state: good answers, and hints that name members.
pub record Ready {S : Type 0} (g : Group S) (Has : Str → Type 0) (h : Hints) (s : S) : Type 0 where
  pub answers : Answers g Has s
  pub responds : Responds g s
  pub after_known : Known g Has s h.after_id
  pub before_known : Known g Has s h.before_id

place-short :
    {S : Type 0} (g : Group S) (s : S) (h : Hints) (k : Str)
    → place_hints g s h.after_id h.before_id h.default_top ≡ ok k
    → leb (length k) max_length ≡ true
    → place g s h ≡ ok (k, s)
unfolding place
place-short g s h k e short = ground arith

place-long :
    {S : Type 0} (g : Group S) (s t : S) (h : Hints) (k k' : Str)
    → place_hints g s h.after_id h.before_id h.default_top ≡ ok k
    → leb (length k) max_length ≡ false
    → g.rebalance s ≡ ok t
    → place_hints g t h.after_id h.before_id h.default_top ≡ ok k'
    → place g s h ≡ ok (k', t)
unfolding place
place-long g s t h k k' e long r e' = ground arith

-- `Place` succeeds if the store answers well before and after a rebalance. The key is well-formed and
-- stands in the spot that the hints ask for among the members of the state that is left: the first
-- state if the key is at most `max_length` long, and the rebalanced one otherwise.
pub place_ok :
    {S : Type 0} (g : Group S) (Has : S → Str → Type 0) (s t : S) (h : Hints)
    → g.rebalance s ≡ ok t
    → Ready g (Has s) h s
    → Ready g (Has t) h t
    → (k : Str) × (u : S) × (place g s h ≡ ok (k, u))
      × (valid k ≡ true)
      × Spot g (Has u) u h.after_id h.before_id h.default_top k
      × (((u ≡ s) × (length k ≤ max_length)) ⊎ (u ≡ t))
place_ok g Has s t h reb rs rt =
    let (k, e, v, spot) =
      place_hints-Spot g (Has s) s rs.answers rs.responds h.after_id h.before_id h.default_top
        rs.after_known rs.before_known in
    let (k', e', v', spot') =
      place_hints-Spot g (Has t) t rt.answers rt.responds h.after_id h.before_id h.default_top
        rt.after_known rt.before_known in
    elim (Bool-cases (leb (length k) max_length)) [
      | inl short ↦ (k, s, place-short g s h k e short, v, spot, inl (refl, ground arith))
      | inr long ↦ (k', t, place-long g s t h k k' e long reb e', v', spot', inr refl)
    ]
