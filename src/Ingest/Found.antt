-- ===== src/Ingest/Found.antt =====
-- The rows of a message are found by their ids (core/internal/ingest/ingest.go, PartsBySourceMessage).
use notekeeper.Common.{
  ℕ, ◌≤◌, ◌≡◌, sym, ◌∙◌, Bool, true, Option, none, some, List, [], ◌∷◌, arith, All, Bool-cases,
  Option-cases, inl, inr,
}
use notekeeper.Db.Rows.{find, count, All-select, All-weaken}
use notekeeper.Db.Rows.Sorted.{sort-All}
use notekeeper.Db.{Db, Note, Part}
use notekeeper.Reminders.{is_note}
use notekeeper.Notes.Regroup.{part_by_id}
use notekeeper.Ingest.Tables.{
  SourceRow, source_index, from_message, join_notes, with_state, parts_by_source,
}
use notekeeper.Ingest.Create.{Delivery, message_rows}

-- The ids of the parts of a user are of one row each.
abbrev pub OneRow : ℕ → List Part → Type 0
OneRow user ps = (id : ℕ) → count (part_by_id user id) ps ≤ 1

-- The part is one of the message of the event.
abbrev pub InMessage : Delivery → Part → Type 0
InMessage d p =
    from_message d.identity.user_id d.bot d.event.conversation d.event.message_id p ≡ true

pub owner_known : (d : Delivery) (p : Part) → InMessage d p → p.user_id ≡ d.identity.user_id
unfolding from_message
owner_known d p h = elim (Option-cases p.source) [
  | inl e ↦ absurd (ground (arith, h, e))
  | inr (s, e) ↦ ground (arith, h, e)
]

-- A row that is the only one that fits is the one that is found.
abbrev Single : List Part → Part → Type 0
Single ps p =
    (q : Part → Bool) → q p ≡ true → (1 ≤ count q ps) × (count q ps ≤ 1 → find q ps ≡ some p)

all-Single : (ps : List Part) → All (Single ps) ps
unfolding count find
all-Single [] = tt
all-Single (p ∷ ps) = (
  (λ q h. (ground (arith, h), (λ one. ground (arith, h)))),
  All-weaken (Single ps) (Single (p ∷ ps)) ps (λ r s q h. behind q (s q h)) (all-Single ps),
)
  where
    behind :
        {r : Part} (q : Part → Bool)
        → (1 ≤ count q ps) × (count q ps ≤ 1 → find q ps ≡ some r)
        → (1 ≤ count q (p ∷ ps)) × (count q (p ∷ ps) ≤ 1 → find q (p ∷ ps) ≡ some r)
    behind q (some_, one) = elim (Bool-cases (q p)) [
      | inl e ↦ rw e (omega (arith, some_), λ two. absurd (omega (arith, some_, two)))
      | inr e ↦ rw e (omega (arith, some_), λ two. one (omega (arith, two)))
    ]

-- A part with the id of a row that is found is that row.
pub found-same :
    (user id : ℕ) (ps : List Part) (r : Part)
    → OneRow user ps
    → find (part_by_id user id) ps ≡ some r
    → All (λ p. part_by_id user id p ≡ true → p ≡ r) ps
found-same user id ps r one f =
    All-weaken (Single ps) (λ p. part_by_id user id p ≡ true → p ≡ r) ps
      (λ p s fits.
        let same : some p ≡ some r = sym ((s (part_by_id user id) fits).1 (one id)) ∙ f in
        ground (arith, same))
      (all-Single ps)

join-All :
    (P : Part → Type 0) (ns : List Note) (ps : List Part)
    → All P ps
    → All (λ r. P r.part) (join_notes ns ps)
unfolding join_notes
join-All P ns [] h = tt
join-All P ns (p ∷ ps) (h, hs) =
    with_state-All (join_notes ns ps) (find (is_note p.note_id p.user_id) ns) (join-All P ns ps hs)
  where
    with_state-All :
        (rest : List SourceRow) (o : Option Note)
        → All (λ r. P r.part) rest
        → All (λ r. P r.part) (with_state o p rest)
    with_state-All rest none k = k
    with_state-All rest (some n) k = (h, k)

-- A row of the message is the one with its id.
abbrev pub Found : Delivery → List Part → SourceRow → Type 0
Found d ps r =
    (find (part_by_id d.identity.user_id r.part.id) ps ≡ some r.part) × InMessage d r.part

pub message_rows-Found :
    (d : Delivery) (db : Db)
    → OneRow d.identity.user_id db.parts
    → All (Found d db.parts) (message_rows d db)
unfolding parts_by_source
message_rows-Found d db one = join-All FoundPart db.notes _ (
    sort-All source_index FoundPart _ (
      All-select (Single db.parts) FoundPart _ db.parts
        (λ p s e.
          let u = owner_known d p e in
          let fits : part_by_id d.identity.user_id p.id p ≡ true = ground (arith, u) in
          ((s (part_by_id d.identity.user_id p.id) fits).1 (one p.id), e))
        (all-Single db.parts)))
  where
    FoundPart : Part → Type 0
    FoundPart p = (find (part_by_id d.identity.user_id p.id) db.parts ≡ some p) × InMessage d p
