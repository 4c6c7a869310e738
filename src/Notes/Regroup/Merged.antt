-- ===== src/Notes/Regroup/Merged.antt =====
-- What a merge of two notes leaves (core/internal/notes/ops.go, `Merge`).
use mathlib.Core.Option
use notekeeper.Common.{
  ℕ, ◌+◌, ◌≤◌, ◌≡◌, ◌≢◌, refl, ap, ◌∙◌, true, false, none, some, List, [], ◌∷◌, ◌++◌, arith, ◌==◌,
  ◌||◌, if◌then◌else◌, ltb, leb, Bool-cases, map, inl, inr,
}
use notekeeper.Db.Rows.{
  NoneOf, All-weaken, delete-All, find, update, update_one, delete, select, sort_by, find-update,
  find-fits, find-delete, find-delete-other,
}
use notekeeper.Db.Rows.Sorted.{sort_by-parted, sort_by-map}
use notekeeper.Db.Feed.{change}
use notekeeper.Db.{Db, Note, Part, ShareLink, Reminder, Entity, upsert, Op, ok, is_active}
use notekeeper.Reminders.{is_note, of_note}
use notekeeper.Notes.Regroup.{
  own_part, list_parts, next_part_ordinal, moved_part, moved_reminder, touched, own_link,
  delete_note_any_state, tell_deleted, merge_rows, merge,
}

-- A reminder of the source as it stands with the target; one of the target is as it was.
abbrev pub brought : ℕ → ℕ → Reminder → Reminder
brought target source r =
    if r.note_id == source then record r { note_id = target; version = r.version + 1 } else r

-- A part of the source as it stands behind those of the target, where `b` is the next free ordinal.
abbrev pub behind : ℕ → ℕ → Part → Part
behind target b p = record p { note_id = target; ordinal = p.ordinal + b }

-- The target, touched.
abbrev pub renewed : ℕ → Note → Note
renewed now n = record n { updated_at = now; version = n.version + 1 }

module _ (user target source : ℕ) (apart : target ≢ source) where
  -- The rows of the target below a bound that is free there are its old ones, and those from the bound
  -- on are the ones that have moved.
  old_parts :
      (b : ℕ) (ps : List Part)
      → next_part_ordinal user target ps ≤ b
      → select
          (λ p. ltb p.ordinal b)
          (select (own_part user target) (update (own_part user source) (moved_part target b) ps))
        ≡ select (own_part user target) ps
  unfolding select update next_part_ordinal
  old_parts b [] h = refl
  old_parts b (p ∷ ps) h = elim (Bool-cases (own_part user source p)) [
    | inl e ↦ ground (arith, e, apart, old_parts b ps (ground (arith, e, h, apart)))
    | inr e ↦ elim (Bool-cases (own_part user target p)) [
      | inl f ↦ ground (arith, e, f, h, old_parts b ps (ground (arith, f, h)))
      | inr f ↦ ground (arith, e, f, old_parts b ps (ground (arith, f, h)))
    ]
  ]

  new_parts :
      (b : ℕ) (ps : List Part)
      → next_part_ordinal user target ps ≤ b
      → select
          (λ p. leb b p.ordinal)
          (select (own_part user target) (update (own_part user source) (moved_part target b) ps))
        ≡ map (moved_part target b) (select (own_part user source) ps)
  unfolding select update next_part_ordinal
  new_parts b [] h = refl
  new_parts b (p ∷ ps) h = elim (Bool-cases (own_part user source p)) [
    | inl e ↦ ground (arith, e, apart, new_parts b ps (ground (arith, e, h, apart)))
    | inr e ↦ elim (Bool-cases (own_part user target p)) [
      | inl f ↦ ground (arith, e, f, h, new_parts b ps (ground (arith, f, h)))
      | inr f ↦ ground (arith, e, f, new_parts b ps (ground (arith, f, h)))
    ]
  ]

  -- The rows of the target in their order: its own, and then those of the source.
  merged_parts :
      (b : ℕ) (ps : List Part)
      → next_part_ordinal user target ps ≤ b
      → sort_by
          (λ p. p.ordinal)
          (select (own_part user target) (update (own_part user source) (moved_part target b) ps))
        ≡ sort_by (λ p. p.ordinal) (select (own_part user target) ps)
          ++ map (moved_part target b) (sort_by (λ p. p.ordinal) (select (own_part user source) ps))
  merged_parts b ps h =
      sort_by-parted (λ p. p.ordinal) b
        (select (own_part user target) (update (own_part user source) (moved_part target b) ps))
      ∙ rw (old_parts b ps h, new_parts b ps h)
          (ap (λ xs. sort_by (λ p. p.ordinal) (select (own_part user target) ps) ++ xs)
            (sort_by-map (λ p. p.ordinal) (moved_part target b) b (select (own_part user source) ps)
              (λ r. refl)))

  -- Deleting what is left of the source does not touch the target's rows.
  kept_parts :
      (ps : List Part)
      → select (own_part user target) (delete (own_part user source) ps)
        ≡ select (own_part user target) ps
  unfolding select delete
  kept_parts [] = refl
  kept_parts (p ∷ ps) = elim (Bool-cases (own_part user source p)) [
    | inl e ↦ ground (arith, e, apart, kept_parts ps)
    | inr e ↦ ground (arith, e, kept_parts ps)
  ]

  kept_reminders :
      (rs : List Reminder)
      → select
          (of_note user target)
          (delete (of_note user source) (update (of_note user source) (moved_reminder target) rs))
        ≡ map
            (brought target source)
            (select (λ r. of_note user target r || of_note user source r) rs)
  unfolding select delete update
  kept_reminders [] = refl
  kept_reminders (r ∷ rs) = elim (Bool-cases (of_note user source r)) [
    | inl e ↦ ground (arith, e, apart, kept_reminders rs)
    | inr e ↦ ground (arith, e, kept_reminders rs)
  ]

  kept_note :
      (ns : List Note)
      → find (is_note target user) (delete (is_note source user) ns) ≡ find (is_note target user) ns
  kept_note ns =
      find-delete-other (is_note target user) (is_note source user) ns
        (λ n e. ground (arith, e, apart))

tell_deleted-rows :
    (db : Db) (user : ℕ) (ls : List ShareLink)
    → let t = tell_deleted db user ls in
      (t.notes ≡ db.notes)
      × (t.parts ≡ db.parts)
      × (t.reminders ≡ db.reminders)
      × (t.links ≡ db.links)
unfolding tell_deleted change
tell_deleted-rows db user [] = (refl, refl, refl, refl)
tell_deleted-rows db user (l ∷ ls) =
    tell_deleted-rows (change db user Entity.share_link l.id Op.delete none) user ls

-- What a merge leaves: the target with all parts, first its own and then those of the source, each in
-- its old order; the reminders of both, with nothing but the note and the version of the source's
-- changed; and nothing of the source, its links included.
pub record MergedInto (user target source : ℕ) (db t : Db) (n : Note) : Type 0 where
  pub there : find (is_note target user) t.notes ≡ some n
  pub gone : find (is_note source user) t.notes ≡ none
  pub parts :
      list_parts user target t
      ≡ list_parts user target db
        ++ map (behind target (next_part_ordinal user target db.parts)) (list_parts user source db)
  pub no_parts : NoneOf (λ (p : Part). p.user_id) (λ p. p.note_id) user source t.parts
  pub reminders :
      select (of_note user target) t.reminders
      ≡ map
          (brought target source)
          (select (λ r. of_note user target r || of_note user source r) db.reminders)
  pub no_reminders : NoneOf (λ (r : Reminder). r.user_id) (λ r. r.note_id) user source t.reminders
  pub no_links : NoneOf (λ (l : ShareLink). l.user_id) (λ l. l.note_id) user source t.links

module _ (user target source now : ℕ) (apart : target ≢ source) (db : Db) (to from : Note)
    (found_to : find (is_note target user) db.notes ≡ some to)
    (found_from : find (is_note source user) db.notes ≡ some from)
    (active_to : is_active to.state ≡ true) (active_from : is_active from.state ≡ true) where
  abbrev left : Db
  left = merge_rows db user target source

  left-rows :
      (left.notes ≡ delete (is_note source user) db.notes)
      × (left.parts
          ≡ delete (own_part user source) (
              update
                (own_part user source)
                (moved_part target (next_part_ordinal user target db.parts))
                db.parts))
      × (left.reminders
          ≡ delete
              (of_note user source)
              (update (of_note user source) (moved_reminder target) db.reminders))
      × (left.links ≡ delete (own_link user source) db.links)
  unfolding merge_rows delete_note_any_state
  left-rows = tell_deleted-rows _ user (select (own_link user source) db.links)

  left-found : find (is_note target user) left.notes ≡ some to
  left-found = rw left-rows.0 (kept_note user target source apart db.notes ∙ found_to)

  abbrev end : Db
  end =
      change
        (change (record left { notes = update (is_note target user) (touched now) left.notes }) user
          Entity.note source Op.delete none)
        user Entity.note target upsert (some (touched now to).version)

  merge-end : merge db user target source now ≡ ok (touched now to, end)
  unfolding merge update_one
  merge-end =
      let ne : (target == source) ≡ false = ground (arith, apart) in
      rw ne (
        rw found_to
          (rw found_from (rw active_to (rw active_from (rw (left-found, update_one) refl)))))

  end-MergedInto : MergedInto user target source db end (touched now to)
  unfolding change list_parts
  end-MergedInto = record {
    there =
        find-update (is_note target user) (is_note target user) (touched now) left.notes (λ _. refl)
        ∙ ap (Option.map (λ r. if is_note target user r then touched now r else r)) left-found
        ∙ rw (find-fits (is_note target user) left.notes to left-found) refl;
    gone =
        find-update (is_note source user) (is_note target user) (touched now) left.notes (λ _. refl)
        ∙ ap (Option.map (λ r. if is_note target user r then touched now r else r)) (
            ap (find (is_note source user)) left-rows.0
            ∙ find-delete (is_note source user) db.notes);
    parts =
        ap (λ ps. sort_by (λ p. p.ordinal) (select (own_part user target) ps)) left-rows.1
        ∙ rw
            (kept_parts user target source apart (
              update (own_part user source)
                (moved_part target (next_part_ordinal user target db.parts)) db.parts))
            (merged_parts user target source apart (next_part_ordinal user target db.parts) db.parts
              (omega arith));
    no_parts = rw left-rows.1 (
        All-weaken _ (λ p. ¬ ((p.user_id ≡ user) × (p.note_id ≡ source))) _
          (λ p e (u, i). absurd (ground (arith, e, u, i))) (delete-All (own_part user source) _));
    reminders =
        ap (select (of_note user target)) left-rows.2
        ∙ kept_reminders user target source apart db.reminders;
    no_reminders = rw left-rows.2 (
        All-weaken _ (λ r. ¬ ((r.user_id ≡ user) × (r.note_id ≡ source))) _
          (λ r e (u, i). absurd (ground (arith, e, u, i))) (delete-All (of_note user source) _));
    no_links = rw left-rows.3 (
        All-weaken _ (λ l. ¬ ((l.user_id ≡ user) × (l.note_id ≡ source))) _
          (λ l e (u, i). absurd (ground (arith, e, u, i)))
          (delete-All (own_link user source) db.links));
  }

  -- Two active notes of a user are merged: the note that is answered is the target, with the time of the
  -- merge and the next version; the store that is left has with it the parts of both, first its own,
  -- and the reminders of both, of which only the source's change, in their note and their version; and
  -- there is nothing of the source.
  pub merge_ok :
      (t : Db) × (merge db user target source now ≡ ok (renewed now to, t))
      × MergedInto user target source db t (renewed now to)
  merge_ok = (end, merge-end, end-MergedInto)
