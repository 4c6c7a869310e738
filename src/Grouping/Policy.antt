-- ===== src/Grouping/Policy.antt =====
-- The grouping policy (core/internal/grouping/grouping.go), stated without its control flow.
use mathlib.Core.Option
use notekeeper.Common.{
  Bool-cases, inl, inr, ℕ, ◌+◌, ◌≤◌, ◌<◌, ◌≡◌, ◌⊎◌, ◌↔◌, refl, true, false, Option, none, some,
  arith,
}
use notekeeper.Grouping.{
  Reason, Event, Candidate, Related, new, existing, first, media_adjacency, decide,
}

-- The last part of the candidate lies at most `window` before the message, and not after it.
abbrev pub Near : Event → Candidate → ℕ → Type 0
Near ev c window =
    (0 < window) × (c.last_part_at ≤ ev.timestamp) × (ev.timestamp ≤ c.last_part_at + window)

-- A media-only message, or the first text of the note.
abbrev pub Fits : Event → Candidate → Type 0
Fits ev c =
    ((ev.content.has_text ≡ false) × (ev.content.has_media ≡ true))
    ⊎ ((ev.content.has_text ≡ true) × (c.has_text ≡ false))

-- The note that the message joins, and why.
pub data Joins (ev : Event) (window : ℕ) : Option Candidate → Option Related → ℕ → Type 0 where
  by_relation :
      (cand : Option Candidate) (r : Related) (n : ℕ)
      → r.active ≡ true
      → n ≡ r.note_id
      → Joins ev window cand (some r) n
  by_adjacency :
      (c : Candidate) (n : ℕ)
      → Near ev c window
      → Fits ev c
      → n ≡ c.note_id
      → Joins ev window (some c) none n

Joins-of_decide :
    (ev : Event) (cand : Option Candidate) (rel : Option Related) (window : ℕ)
    → (decide ev cand rel window).target ≡ existing
    → Joins ev window cand rel (decide ev cand rel window).note_id
unfolding decide
Joins-of_decide ev cand (some r) window h = by_relation cand r _ (ground arith) (ground arith)
Joins-of_decide ev none none window h = absurd (ground arith)
Joins-of_decide ev (some c) none window h =
    by_adjacency c _ (ground arith) (ground arith) (ground arith)

decide_of_Joins :
    (ev : Event) (cand : Option Candidate) (rel : Option Related) (window n : ℕ)
    → Joins ev window cand rel n
    → ((decide ev cand rel window).target ≡ existing) × ((decide ev cand rel window).note_id ≡ n)
unfolding decide
decide_of_Joins ev none none window n j = elim j [ ]
decide_of_Joins ev cand (some r) window n (by_relation _ _ _ a e) = ground arith
decide_of_Joins ev (some c) none window n (by_adjacency _ _ near fits e) = ground arith

-- The message joins the note `n` exactly if an active related note is `n`, or there is no relation and
-- `n` is the adjacent note, near enough in time and fitting. So a dismissed relation starts a note, and
-- two texts are never merged by their times.
pub decide_exact :
    (ev : Event) (cand : Option Candidate) (rel : Option Related) (window n : ℕ)
    → (((decide ev cand rel window).target ≡ existing) × ((decide ev cand rel window).note_id ≡ n))
      ↔ Joins ev window cand rel n
decide_exact ev cand rel window n = (
  (λ h. rw h.1 at (Joins-of_decide ev cand rel window h.0)),
  decide_of_Joins ev cand rel window n,
)

-- The reason for joining a note.
abbrev pub reason_of : Option Related → Option Reason
reason_of none = some media_adjacency
reason_of (some r) = some r.reason

-- What a decision carries besides its target: a new note is a first part and records the part that was
-- replied to, if one was given; joining gives the reason of the relation, or else media adjacency, and
-- records no part.
pub decide_records :
    (ev : Event) (cand : Option Candidate) (rel : Option Related) (window : ℕ)
    → let d = decide ev cand rel window in
      ((d.target ≡ new)
        × (d.note_id ≡ 0)
        × (d.reason ≡ first)
        × (d.related_part_id ≡ Option.map (λ (r : Related). r.part_id) rel))
      ⊎ ((d.target ≡ existing) × (d.related_part_id ≡ none) × (some d.reason ≡ reason_of rel))
unfolding decide
decide_records ev cand (some r) window = elim (Bool-cases r.active) [
  | inl e ↦ rw e (inr (refl, refl, refl))
  | inr e ↦ rw e (inl (refl, refl, refl, refl))
]
decide_records ev none none window = inl (refl, refl, refl, refl)
decide_records ev (some c) none window = ground arith

abbrev pub later_event : ℕ → Event → Event
later_event t ev = record ev { timestamp = ev.timestamp + t }

abbrev pub later_candidate : ℕ → Option Candidate → Option Candidate
later_candidate t none = none
later_candidate t (some c) = some (record c { last_part_at = c.last_part_at + t })

-- Only distances count: a backlog whose times are all shifted is grouped in the same way.
pub decide-shift :
    (t : ℕ) (ev : Event) (cand : Option Candidate) (rel : Option Related) (window : ℕ)
    → decide (later_event t ev) (later_candidate t cand) rel window ≡ decide ev cand rel window
unfolding decide
decide-shift t ev cand (some r) window = refl
decide-shift t ev none none window = refl
decide-shift t ev (some c) none window = ground arith
