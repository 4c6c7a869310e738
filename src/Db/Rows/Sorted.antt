-- ===== src/Db/Rows/Sorted.antt =====
-- Rows in the order of a number.
use notekeeper.Common.{
  ℕ, ◌+◌, ◌≡◌, refl, ap, ◌∙◌, Bool, true, false, List, [], ◌∷◌, ◌++◌, arith, ltb, leb, Bool-cases,
  All, map, inl, inr,
}
use notekeeper.Db.Rows.{insert_by, sort_by, select}

module _ {ℓ} {A : Type ℓ} (key : A → ℕ) where
  insert_low :
      (b : ℕ) (r : A) (xs ys : List A)
      → ltb (key r) b ≡ true
      → All (λ y. ltb (key y) b ≡ false) ys
      → insert_by key r (xs ++ ys) ≡ insert_by key r xs ++ ys
  unfolding insert_by
  insert_low b r [] [] l h = refl
  insert_low b r [] (y ∷ ys) l (h, hs) = ground (arith, l, h)
  insert_low b r (x ∷ xs) ys l h = ground (arith, insert_low b r xs ys l h)

  insert_high :
      (b : ℕ) (r : A) (xs ys : List A)
      → ltb (key r) b ≡ false
      → All (λ x. ltb (key x) b ≡ true) xs
      → insert_by key r (xs ++ ys) ≡ xs ++ insert_by key r ys
  unfolding insert_by
  insert_high b r [] ys l h = refl
  insert_high b r (x ∷ xs) ys l (h, hs) = ground (arith, l, h, insert_high b r xs ys l hs)

  insert-All : (P : A → Type 0) (r : A) (xs : List A) → P r → All P xs → All P (insert_by key r xs)
  unfolding insert_by
  insert-All P r [] p h = (p, tt)
  insert-All P r (x ∷ xs) p (h, hs) = elim (Bool-cases (leb (key r) (key x))) [
    | inl e ↦ rw e (p, (h, hs))
    | inr e ↦ rw e (h, insert-All P r xs p hs)
  ]

  pub sort-All : (P : A → Type 0) (xs : List A) → All P xs → All P (sort_by key xs)
  unfolding sort_by
  sort-All P [] h = tt
  sort-All P (x ∷ xs) (h, hs) = insert-All P x (sort_by key xs) h (sort-All P xs hs)

  pub select-All : (q : A → Bool) (rs : List A) → All (λ r. q r ≡ true) (select q rs)
  unfolding select
  select-All q [] = tt
  select-All q (r ∷ rs) = elim (Bool-cases (q r)) [
    | inl e ↦ rw e (e, select-All q rs)
    | inr e ↦ rw e (select-All q rs)
  ]

  -- The rows below a bound come first, and each of the two groups stands in its own order.
  pub sort_by-parted :
      (b : ℕ) (rs : List A)
      → sort_by key rs
        ≡ sort_by key (select (λ r. ltb (key r) b) rs)
          ++ sort_by key (select (λ r. leb b (key r)) rs)
  unfolding sort_by select
  sort_by-parted b [] = refl
  sort_by-parted b (r ∷ rs) =
      let lows : List A = sort_by key (select (λ r. ltb (key r) b) rs) in
      let highs : List A = sort_by key (select (λ r. leb b (key r)) rs) in
      elim (Bool-cases (ltb (key r) b)) [
        | inl e ↦
            let over = insert_low b r lows highs e (
              sort-All (λ r. ltb (key r) b ≡ false) (select (λ r. leb b (key r)) rs)
                (highs_over rs)) in
            ground (arith, e, over, sort_by-parted b rs)
        | inr e ↦
            let under = insert_high b r lows highs e (
              sort-All (λ r. ltb (key r) b ≡ true) (select (λ r. ltb (key r) b) rs)
                (select-All (λ r. ltb (key r) b) rs)) in
            ground (arith, e, under, sort_by-parted b rs)
      ]
    where
      highs_over : (rs : List A) → All (λ r. ltb (key r) b ≡ false) (select (λ r. leb b (key r)) rs)
      highs_over [] = tt
      highs_over (r ∷ rs) = elim (Bool-cases (leb b (key r))) [
        | inl e ↦ rw e (ground (arith, e), highs_over rs)
        | inr e ↦ rw e (highs_over rs)
      ]

  insert-map :
      (f : A → A) (d : ℕ)
      → ((r : A) → key (f r) ≡ key r + d)
      → (r : A) (xs : List A) → insert_by key (f r) (map f xs) ≡ map f (insert_by key r xs)
  unfolding insert_by
  insert-map f d h r [] = refl
  insert-map f d h r (x ∷ xs) = ground (arith, h r, h x, insert-map f d h r xs)

  -- A change that raises all the numbers by as much keeps the order.
  pub sort_by-map :
      (f : A → A) (d : ℕ) (rs : List A)
      → ((r : A) → key (f r) ≡ key r + d)
      → sort_by key (map f rs) ≡ map f (sort_by key rs)
  unfolding sort_by
  sort_by-map f d [] h = refl
  sort_by-map f d (r ∷ rs) h =
      ap (insert_by key (f r)) (sort_by-map f d rs h) ∙ insert-map f d h r (sort_by key rs)

  insert_last :
      (r : A) (xs : List A)
      → All (λ x. ltb (key x) (key r) ≡ true) xs
      → insert_by key r xs ≡ xs ++ r ∷ []
  unfolding insert_by
  insert_last r [] h = refl
  insert_last r (x ∷ xs) (h, hs) = ground (arith, h, insert_last r xs hs)

  -- A row with a number above the others' comes last.
  pub sort_by-last :
      (r : A) (rs : List A)
      → All (λ x. ltb (key x) (key r) ≡ true) (sort_by key rs)
      → sort_by key (r ∷ rs) ≡ sort_by key rs ++ r ∷ []
  unfolding sort_by
  sort_by-last r rs h = insert_last r (sort_by key rs) h
