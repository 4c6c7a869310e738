-- ===== src/Notes/Regroup/Below.antt =====
-- What a split gives the two notes (core/internal/notes/ops.go, `Split`).
use native.Mathlib.Decide.{ℕ_discrete}
use mathlib.Core.Path.{subst}
use notekeeper.Common.{
  ℕ, ◌≤◌, ◌≡◌, ◌≢◌, refl, some, List, [], ◌∷◌, arith, Bool-cases, inl, inr, map,
}
use notekeeper.Common.Str.{Str}
use notekeeper.Db.Rows.{find, update, delete, select, count}
use notekeeper.Db.{Db, Note, Part}
use notekeeper.Reminders.{is_note}
use notekeeper.Notes.Order.{in_group, is_member, keys, position_of, note_group}
use notekeeper.Notes.Order.Keys.{Among}
use notekeeper.Notes.Order.Answered.{HasKey}
use notekeeper.Notes.Regroup.{own_part, touched, is_part, part_by_id, first_part}
use notekeeper.Notes.Regroup.Apart.{find-count}

module _ (user note part id : ℕ) (apart : note ≢ id) where
  pub rest_parts :
      (ps : List Part)
      → select (own_part user note) (update (part_by_id user part) (first_part id) ps)
        ≡ delete (part_by_id user part) (select (own_part user note) ps)
  unfolding select update delete
  rest_parts [] = refl
  rest_parts (p ∷ ps) = elim (Bool-cases (part_by_id user part p)) [
    | inl e ↦ ground (arith, e, apart, rest_parts ps)
    | inr e ↦ ground (arith, e, apart, rest_parts ps)
  ]

  no_parts :
      (ps : List Part)
      → count (own_part user id) ps ≡ 0
      → count (part_by_id user part) ps ≤ 0
      → select (own_part user id) (update (part_by_id user part) (first_part id) ps) ≡ []
  unfolding select update count
  no_parts [] h k = refl
  no_parts (p ∷ ps) h k = ground (arith, h, k, no_parts ps)

  pub new_parts :
      (ps : List Part) (p : Part)
      → count (own_part user id) ps ≡ 0
      → count (part_by_id user part) ps ≤ 1
      → find (is_part part note user) ps ≡ some p
      → select (own_part user id) (update (part_by_id user part) (first_part id) ps)
        ≡ first_part id p ∷ []
  unfolding select update count find
  new_parts [] p h k f = absurd (cc)
  new_parts (r ∷ ps) p h k f = elim (Bool-cases (is_part part note user r)) [
    | inl e ↦
        let same : r ≡ p = ground (arith, e, f) in
        let none_left : select (own_part user id) (update (part_by_id user part) (first_part id) ps)
            ≡ [] =
          no_parts ps (ground (arith, h)) (ground (arith, k, e)) in
        ground (arith, e, same, none_left)
    | inr e ↦
        let later : find (is_part part note user) ps ≡ some p = ground (arith, e, f) in
        let more = find-count (is_part part note user) ps p later in
        ground (
          arith,
          e,
          h,
          k,
          more,
          pids ps,
          new_parts ps p (ground (arith, h)) (ground (arith, k)) later,
        )
  ]
    where
      pids : (ps : List Part) → count (is_part part note user) ps ≤ count (part_by_id user part) ps
      pids [] = omega arith
      pids (p ∷ ps) = ground (arith, pids ps)

  -- The new note and the touch of the old one leave the order of the other notes as it is.
  same_keys :
      (category : ℕ) (later : ℕ) (ns : List Note)
      → map
          (λ n. n.position)
          (select (in_group user category id) (update (is_note note user) (touched later) ns))
        ≡ map (λ n. n.position) (select (in_group user category id) ns)
  unfolding select update
  same_keys category later [] = refl
  same_keys category later (n ∷ ns) = elim (Bool-cases (is_note note user n)) [
    | inl e ↦ ground (arith, e, same_keys category later ns)
    | inr e ↦ ground (arith, e, same_keys category later ns)
  ]

  same_key :
      (category later j : ℕ) (ns : List Note)
      → position_of
          (find (is_member user category j) (update (is_note note user) (touched later) ns))
        ≡ position_of (find (is_member user category j) ns)
  unfolding find update position_of
  same_key category later j [] = refl
  same_key category later j (n ∷ ns) = elim (Bool-cases (is_note note user n)) [
    | inl e ↦ ground (arith, e, same_key category later j ns)
    | inr e ↦ ground (arith, e, same_key category later j ns)
  ]

  module _ (category now later : ℕ) (new : Note) (is_new : new.id ≡ id) (u t : Db)
      (rows : t.notes ≡ update (is_note note user) (touched later) (new ∷ u.notes)) where
    pub key_of-same :
        (j : ℕ)
        → (note_group user category id now).key_of t j
          ≡ (note_group user category id now).key_of u j
    unfolding note_group update find
    key_of-same j = elim (ℕ_discrete j id) [
      | yes e ↦ ground (arith, e)
      | no e ↦ rw rows (ground (arith, e, apart, is_new, same_key category later j u.notes))
    ]

    pub HasKey-same : (m : Str) → HasKey user category id now t m → HasKey user category id now u m
    unfolding keys update select
    HasKey-same m h =
        let skip : map (λ n. n.position) (select (in_group user category id) t.notes)
            ≡ map (λ n. n.position) (select (in_group user category id) u.notes) =
          rw rows (ground (arith, apart, is_new, same_keys category later u.notes)) in
        subst (Among m) skip h
