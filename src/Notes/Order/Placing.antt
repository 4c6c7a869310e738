-- ===== src/Notes/Order/Placing.antt =====
-- `Place` on the manual order of a category (core/internal/notes/ops.go, `NoteGroup`).
use native.Mathlib.Decide.{ℕ_discrete}
use notekeeper.Common.{
  ℕ, ◌≡◌, ◌≢◌, ◌⊎◌, inl, inr, refl, true, Option, none, some, arith, Option-cases,
}
use notekeeper.Common.Str.{Str}
use notekeeper.Db.Rows.{find, find-All}
use notekeeper.Db.{Db, Note}
use notekeeper.Fracindex.{valid}
use notekeeper.Position.{ok, err, neighbour, Hints, place}
use notekeeper.Position.Placed.{Known, Spot, Ready, place_ok}
use notekeeper.Position.Refused.{Unknown, place-Unknown}
use notekeeper.Notes.Order.{is_member, position_of, note_group, rebalance}
use notekeeper.Notes.Order.Answered.{HasPlace, WellPlaced, HasKey, note_group-Answers}
use notekeeper.Notes.Order.Rekeyed.{Found, Rekeyed, rebalance-Rekeyed}

HasPlace-key :
    (n : Note) (category : ℕ)
    → HasPlace n
    → n.category_id ≡ some category
    → (k : Str) × (n.position ≡ some k)
HasPlace-key n category (inl e) c = absurd (cc)
HasPlace-key n category (inr (k, e, _)) c = (k, e)

module _ (user category exclude now : ℕ) where
  -- A neighbour that may be given: a note of the category other than the one that is placed.
  abbrev pub Listed : Db → Option ℕ → Type 0
  Listed db none = Unit {0}
  Listed db (some id) = (id ≢ exclude) × Found (is_member user category id) db

  Listed-Rekeyed : (db t : Db) (o : Option ℕ) → Rekeyed db t → Listed db o → Listed t o
  Listed-Rekeyed db t none r h = tt
  Listed-Rekeyed db t (some id) (_, kept) (ne, f) =
      (ne, kept (is_member user category id) (λ _ _ _. refl) f)

  Listed-Known :
      (db : Db) (o : Option ℕ)
      → WellPlaced db
      → Listed db o
      → Known (note_group user category exclude now) (HasKey user category exclude now db) db o
  unfolding note_group position_of
  Listed-Known db none w h = tt
  Listed-Known db (some id) w (ne, (r, e)) =
      let (p, fits) = find-All HasPlace (is_member user category id) db.notes r e w in
      let (k, q) = HasPlace-key r category p (ground (arith, fits)) in (k, ground (arith, ne, e, q))

  ready :
      (db : Db) (h : Hints)
      → WellPlaced db
      → Listed db h.after_id
      → Listed db h.before_id
      → Ready (note_group user category exclude now) (HasKey user category exclude now db) h db
  unfolding note_group
  ready db h w a b = record {
    answers = note_group-Answers user category exclude now db w;
    responds = record {
      after_ok = λ a. (_, refl);
      before_ok = λ b. (_, refl);
      first_ok = (_, refl);
      last_ok = (_, refl);
    };
    after_known = Listed-Known db h.after_id w a;
    before_known = Listed-Known db h.before_id w b;
  }

  rebalances :
      (db t : Db)
      → rebalance user category exclude now db ≡ ok t
      → (note_group user category exclude now).rebalance db ≡ ok t
  unfolding note_group
  rebalances db t e = e

  -- A note is placed among the notes of a category whose rows have their places: the key is
  -- well-formed, and stands in the spot that the hints ask for in the store that is left, where
  -- every note has its place again and no row is lost.
  pub place-note_group :
      (db : Db) (h : Hints)
      → WellPlaced db
      → Listed db h.after_id
      → Listed db h.before_id
      → (k : Str) × (u : Db) × (place (note_group user category exclude now) db h ≡ ok (k, u))
        × (valid k ≡ true)
        × Spot
            (note_group user category exclude now)
            (HasKey user category exclude now u)
            u
            h.after_id
            h.before_id
            h.default_top
            k
        × Rekeyed db u
  place-note_group db h w a b =
      let (t, e, r) = rebalance-Rekeyed user category exclude now db w in
      let (k, u, p, v, spot, end) =
        place_ok (note_group user category exclude now) (HasKey user category exclude now) db t h
          (rebalances db t e) (ready db h w a b)
          (ready t h r.0 (Listed-Rekeyed db t h.after_id r a)
            (Listed-Rekeyed db t h.before_id r b)) in
      (k, u, p, v, spot, left r u end)
    where
      left :
          {t : Db} {A : Type 0} → Rekeyed db t → (u : Db) → ((u ≡ db) × A) ⊎ (u ≡ t) → Rekeyed db u
      left r u (inl (e, _)) = rw e (w, λ q _ h. h)
      left r u (inr e) = rw e r

  -- A hint is listed, or the order does not know it.
  Listed-or :
      (db : Db) (o : Option ℕ)
      → Listed db o ⊎ (Unknown (note_group user category exclude now) db o × ¬ Listed db o)
  unfolding note_group position_of
  Listed-or db none = inl tt
  Listed-or db (some id) = elim (ℕ_discrete id exclude) [
    | yes same ↦ inr ((id, refl, ground (arith, same)), λ h. h.0 same)
    | no other ↦ elim (Option-cases (find (is_member user category id) db.notes)) [
      | inl e ↦ inr ((id, refl, ground (arith, other, e)), λ h. ground (arith, e, h.1.1))
      | inr (r, e) ↦ inl (other, (r, e))
    ]
  ]

  -- Both hints are listed, or the placing is refused.
  pub place-Listed-or :
      (db : Db) (h : Hints)
      → WellPlaced db
      → (Listed db h.after_id × Listed db h.before_id)
        ⊎ ((place (note_group user category exclude now) db h ≡ err neighbour)
            × ¬ (Listed db h.after_id × Listed db h.before_id))
  place-Listed-or db h w = elim (Listed-or db h.after_id) [
    | inr (u, n) ↦ inr (
      place-Unknown (note_group user category exclude now) (HasKey user category exclude now db) db
          h (inl u),
      λ p. n p.0,
    )
    | inl a ↦ elim (Listed-or db h.before_id) [
      | inl b ↦ inl (a, b)
      | inr (u, n) ↦ inr (
        place-Unknown (note_group user category exclude now) (HasKey user category exclude now db)
            db h (inr (Listed-Known db h.after_id w a, u)),
        λ p. n p.1,
      )
    ]
  ]
