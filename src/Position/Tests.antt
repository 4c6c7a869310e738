-- ===== src/Position/Tests.antt =====
-- Runs of the placement (core/internal/position/position.go) on a list with one member.
use notekeeper.Common.{
  ℕ, ◌≡◌, ◌≤◌, ◌⊎◌, inl, inr, refl, true, none, some, arith, length, ◌==◌, if◌then◌else◌,
  Bool-cases,
}
use notekeeper.Common.Str.{Str, codes, str_ltb, str_eq, index_byte}
use notekeeper.Fracindex.{valid, max_length}
use notekeeper.Position.Neighbours.{Answers, Responds}
use notekeeper.Position.Placed.{Spot, Ready, place_ok}
use notekeeper.Position.{ok, Group, Hints, place}

abbrev middle : Str
middle = codes "V"

-- The list: the member 1 has the key "V".
abbrev one_member : Group ℕ
one_member = record {
  key_of = λ s id. ok (if id == 1 then some middle else none);
  after = λ s a. ok (if str_ltb a middle then some middle else none);
  before = λ s b. ok (if str_ltb middle b then some middle else none);
  first = λ s. ok (some middle);
  last = λ s. ok (some middle);
  rebalance = λ s. ok s;
}

abbrev Member : ℕ → Str → Type 0
Member s k = k ≡ middle

middle-valid : valid middle ≡ true
unfolding valid str_eq index_byte
middle-valid = refl

one_member-Answers : (s : ℕ) → Answers one_member (Member s) s
one_member-Answers s = record {
  members_valid = λ k e. rw e middle-valid;
  key_of_member = λ id k e. elim (Bool-cases (id == 1)) [
    | inl p ↦ ground (arith, p, e)
    | inr p ↦ absurd (ground (arith, p, e))
  ];
  after_some = λ a k e. elim (Bool-cases (str_ltb a middle)) [
    | inl p ↦ (ground (arith, p, e), let q : k ≡ middle = ground (arith, p, e) in rw q p)
    | inr p ↦ absurd (ground (arith, p, e))
  ];
  after_next =
      λ a r m e h b. let p : str_ltb a middle ≡ true = rw h at b in inl (ground (arith, p, e, h));
  before_some = λ b k e. elim (Bool-cases (str_ltb middle b)) [
    | inl p ↦ (ground (arith, p, e), let q : k ≡ middle = ground (arith, p, e) in rw q p)
    | inr p ↦ absurd (ground (arith, p, e))
  ];
  before_next =
      λ b r m e h l. let p : str_ltb middle b ≡ true = rw h at l in inl (ground (arith, p, e, h));
  first_some = λ k e. ground (arith, e);
  first_least = λ r m e h. inl (ground (arith, e, h));
  last_some = λ k e. ground (arith, e);
  last_greatest = λ r m e h. inl (ground (arith, e, h));
}

one_member-Responds : (s : ℕ) → Responds one_member s
one_member-Responds s = record {
  after_ok = λ a. (_, refl);
  before_ok = λ b. (_, refl);
  first_ok = (_, refl);
  last_ok = (_, refl);
}

abbrev behind : Hints
behind = record { after_id = some 1; before_id = none; default_top = true }

one_member-Ready : (s : ℕ) → Ready one_member (Member s) behind s
one_member-Ready s = record {
  answers = one_member-Answers s;
  responds = one_member-Responds s;
  after_known = (middle, refl);
  before_known = tt;
}

place_ok_example :
    (k : Str) × (u : ℕ) × (place one_member 0 behind ≡ ok (k, u))
    × (valid k ≡ true)
    × Spot one_member (Member u) u (some 1) none true k
    × (((u ≡ 0) × (length k ≤ max_length)) ⊎ (u ≡ 0))
place_ok_example =
    place_ok one_member Member 0 0 behind refl (one_member-Ready 0) (one_member-Ready 0)
