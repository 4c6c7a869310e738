-- ===== src/Db/Rows.antt =====
-- Queries over a table: the first row that fits, an update and a deletion of the rows that fit, and
-- how many fit.
pub mod Sorted
use mathlib.Core.Option
use notekeeper.Common.{
  ℕ, ◌+◌, ◌≤◌, ◌≡◌, refl, Bool, true, false, Option, none, some, List, [], ◌∷◌, arith,
  if◌then◌else◌, leb, Bool-cases, Option-cases, All, ◌⊎◌, inl, inr,
}

module _ {ℓ} {A : Type ℓ} where
  unfoldable pub find : (A → Bool) → List A → Option A
  find p [] = none
  find p (r ∷ rs) = if p r then some r else find p rs

  unfoldable pub update : (A → Bool) → (A → A) → List A → List A
  update p f [] = []
  update p f (r ∷ rs) = (if p r then f r else r) ∷ update p f rs

  unfoldable pub delete : (A → Bool) → List A → List A
  delete p [] = []
  delete p (r ∷ rs) = if p r then delete p rs else r ∷ delete p rs

  unfoldable pub count : (A → Bool) → List A → ℕ
  count p [] = 0
  count p (r ∷ rs) = (if p r then 1 else 0) + count p rs

  unfoldable pub select : (A → Bool) → List A → List A
  select p [] = []
  select p (r ∷ rs) = if p r then r ∷ select p rs else select p rs

  -- `order by`: the rows by a number that each has, those that were first staying first.
  insert_by : (A → ℕ) → A → List A → List A
  insert_by key r [] = r ∷ []
  insert_by key r (q ∷ qs) = if leb (key r) (key q) then r ∷ q ∷ qs else q ∷ insert_by key r qs

  unfoldable pub sort_by : (A → ℕ) → List A → List A
  unfolding insert_by
  sort_by key [] = []
  sort_by key (r ∷ rs) = insert_by key r (sort_by key rs)

  -- An update of one row that returns it (`returning *`); `none` is that no row fits.
  unfoldable pub update_one : (A → Bool) → (A → A) → List A → Option (A × List A)
  unfolding update find
  update_one p f rs = elim (find p rs) [ none ↦ none | some r ↦ some (f r, update p f rs) ]

  pub update_one-rows :
      (p : A → Bool) (f : A → A) (rs : List A) (r : A) (rs' : List A)
      → update_one p f rs ≡ some (r, rs')
      → rs' ≡ update p f rs
  unfolding update_one
  update_one-rows p f rs r rs' h = elim (Option-cases (find p rs)) [
    | inl e ↦ absurd (ground (arith, h, e))
    | inr (x, e) ↦
        let q : ◌≡◌ {A = Option (A × List A)} (some (f x, update p f rs)) (some (r, rs')) =
          ground (arith, h, e) in
        ground (arith, q)
  ]

  -- A row is found before an update if it is found after it, where the update keeps what is asked.
  pub find-update :
      (q p : A → Bool) (f : A → A) (rs : List A)
      → ((r : A) → q (f r) ≡ q r)
      → find q (update p f rs) ≡ Option.map (λ r. if p r then f r else r) (find q rs)
  unfolding find update
  find-update q p f [] h = refl
  find-update q p f (r ∷ rs) h = elim (Bool-cases (p r)) [
    | inl e ↦ ground (arith, h r, find-update q p f rs h)
    | inr e ↦ ground (arith, find-update q p f rs h)
  ]

  -- Nothing is found after an update that leaves no row that fits.
  pub find-update-none :
      (q p : A → Bool) (f : A → A) (rs : List A)
      → ((r : A) → p r ≡ true → q (f r) ≡ false)
      → ((r : A) → p r ≡ false → q r ≡ false)
      → find q (update p f rs) ≡ none
  unfolding find update
  find-update-none q p f [] h k = refl
  find-update-none q p f (r ∷ rs) h k = elim (Bool-cases (p r)) [
    | inl e ↦ ground (arith, h r e, find-update-none q p f rs h k)
    | inr e ↦ ground (arith, k r e, find-update-none q p f rs h k)
  ]

  pub All-weaken {κ} :
      (P Q : A → Type κ) (rs : List A) → ((r : A) → P r → Q r) → All P rs → All Q rs
  All-weaken P Q [] h a = tt
  All-weaken P Q (r ∷ rs) h (a, as_) = (h r a, All-weaken P Q rs h as_)

  pub All-of {κ} : (P : A → Type κ) (rs : List A) → ((r : A) → P r) → All P rs
  All-of P [] h = tt
  All-of P (r ∷ rs) h = (h r, All-of P rs h)

  pub find-fits : (q : A → Bool) (rs : List A) (r : A) → find q rs ≡ some r → q r ≡ true
  unfolding find
  find-fits q [] r h = absurd (cc)
  find-fits q (x ∷ rs) r h = elim (Bool-cases (q x)) [
    | inl e ↦ ground arith
    | inr e ↦ ground (arith, find-fits q rs r)
  ]

  pub find-All {κ} :
      (P : A → Type κ) (q : A → Bool) (rs : List A) (r : A)
      → find q rs ≡ some r
      → All P rs
      → P r × (q r ≡ true)
  unfolding find
  find-All P q [] r e h = absurd (cc)
  find-All P q (x ∷ rs) r e (h, hs) = elim (Bool-cases (q x)) [
    | inl here ↦ let p : x ≡ r = ground (arith, here, e) in rw (← p) (h, here)
    | inr away ↦ find-All P q rs r (ground (arith, away, e)) hs
  ]

  pub All-find-none : (q : A → Bool) (rs : List A) → All (λ r. q r ≡ false) rs → find q rs ≡ none
  unfolding find
  All-find-none q [] h = refl
  All-find-none q (r ∷ rs) (e, h) = rw e (All-find-none q rs h)

  pub find-none-All : (q : A → Bool) (rs : List A) → find q rs ≡ none → All (λ r. q r ≡ false) rs
  unfolding find
  find-none-All q [] h = tt
  find-none-All q (r ∷ rs) h = elim (Bool-cases (q r)) [
    | inl e ↦ absurd (ground (arith, e, h))
    | inr e ↦ (e, find-none-All q rs (ground (arith, e, h)))
  ]

  pub find-delete : (p : A → Bool) (rs : List A) → find p (delete p rs) ≡ none
  unfolding find delete
  find-delete p [] = refl
  find-delete p (r ∷ rs) = ground (arith, find-delete p rs)

  pub delete-All : (p : A → Bool) (rs : List A) → All (λ r. p r ≡ false) (delete p rs)
  delete-All p rs = find-none-All p (delete p rs) (find-delete p rs)

  -- A deletion of rows that do not fit does not change what is found.
  pub find-delete-other :
      (q p : A → Bool) (rs : List A)
      → ((r : A) → p r ≡ true → q r ≡ false)
      → find q (delete p rs) ≡ find q rs
  unfolding find delete
  find-delete-other q p [] h = refl
  find-delete-other q p (r ∷ rs) h = elim (Bool-cases (p r)) [
    | inl e ↦ ground (arith, e, h r e, find-delete-other q p rs h)
    | inr e ↦ ground (arith, e, find-delete-other q p rs h)
  ]

  -- Every row after an update is an old one that does not fit, or the new form of one that does.
  pub All-update {κ} :
      (P Q : A → Type κ) (p : A → Bool) (f : A → A) (rs : List A)
      → ((r : A) → P r → p r ≡ true → Q (f r))
      → ((r : A) → P r → p r ≡ false → Q r)
      → All P rs
      → All Q (update p f rs)
  unfolding update
  All-update P Q p f [] yes_case no_case h = tt
  All-update P Q p f (r ∷ rs) yes_case no_case (h, hs) =
      (head (Bool-cases (p r)), All-update P Q p f rs yes_case no_case hs)
    where
      head : (p r ≡ true) ⊎ (p r ≡ false) → Q (if p r then f r else r)
      head (inl e) = rw e (yes_case r h e)
      head (inr e) = rw e (no_case r h e)

  -- Every row after a deletion is an old one that does not fit.
  pub All-delete {κ} :
      (P Q : A → Type κ) (p : A → Bool) (rs : List A)
      → ((r : A) → P r → p r ≡ false → Q r)
      → All P rs
      → All Q (delete p rs)
  unfolding delete
  All-delete P Q p [] keep h = tt
  All-delete P Q p (r ∷ rs) keep (h, hs) = elim (Bool-cases (p r)) [
    | inl e ↦ rw e (All-delete P Q p rs keep hs)
    | inr e ↦ rw e (keep r h e, All-delete P Q p rs keep hs)
  ]

  -- Every row that is selected is an old one that fits.
  pub All-select {κ ι} :
      (P : A → Type κ) (Q : A → Type ι) (p : A → Bool) (rs : List A)
      → ((r : A) → P r → p r ≡ true → Q r)
      → All P rs
      → All Q (select p rs)
  unfolding select
  All-select P Q p [] fits h = tt
  All-select P Q p (r ∷ rs) fits (h, hs) = elim (Bool-cases (p r)) [
    | inl e ↦ rw e (fits r h e, All-select P Q p rs fits hs)
    | inr e ↦ rw e (All-select P Q p rs fits hs)
  ]

  pub count-update :
      (q p : A → Bool) (f : A → A) (rs : List A)
      → ((r : A) → q (f r) ≡ q r)
      → count q (update p f rs) ≡ count q rs
  unfolding count update
  count-update q p f [] h = refl
  count-update q p f (r ∷ rs) h = ground (arith, h r, count-update q p f rs h)

  pub count-delete : (q p : A → Bool) (rs : List A) → count q (delete p rs) ≤ count q rs
  unfolding count delete
  count-delete q p [] = omega arith
  count-delete q p (r ∷ rs) = ground (arith, count-delete q p rs)

-- No row has the owner `user` and the note `id`, or the id `id` where the rows have no note.
abbrev pub NoneOf : {A : Type 0} → (A → ℕ) → (A → ℕ) → ℕ → ℕ → List A → Type 0
NoneOf owner note user id = All (λ r. ¬ ((owner r ≡ user) × (note r ≡ id)))
