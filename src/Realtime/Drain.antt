-- ===== src/Realtime/Drain.antt =====
-- How a stream catches up from the change feed (core/internal/server/sse.go, `events`). The reads of one
-- drain see the stores of a list, one store each; other transactions may commit in between.
pub mod Consecutive
pub mod Batches
use notekeeper.Common.{
  ℕ, ◌+◌, Bool, true, false, ◌&&◌, ◌||◌, Option, none, some, List, [], ◌∷◌, ◌++◌, ltb, leb, ◌==◌,
  if◌then◌else◌, map, take, length, min,
}
use mathlib.Core.Option
use notekeeper.Db.Rows.{find, select, sort_by}
use notekeeper.Db.Feed.{is_user}
use notekeeper.Db.{Db, User, Change}

-- sseBatch
abbrev pub sse_batch : ℕ
sse_batch = 200

-- ListChanges
abbrev pub is_later : ℕ → ℕ → Change → Bool
is_later user last c = c.user_id == user && ltb last c.seq

unfoldable pub list_changes : Db → ℕ → ℕ → ℕ → List Change
list_changes db user last limit =
    take limit (sort_by (λ c. c.seq) (select (is_later user last) db.changes))

-- OldestChangeSeq
abbrev pub or_min : ℕ → Option ℕ → ℕ
or_min n none = n
or_min n (some m) = min n m

pub min_seq : List Change → Option ℕ
min_seq [] = none
min_seq (c ∷ cs) = some (or_min c.seq (min_seq cs))

abbrev pub or_zero : Option ℕ → ℕ
or_zero none = 0
or_zero (some n) = n

pub oldest_change_seq : Db → ℕ → ℕ
unfolding min_seq
oldest_change_seq db user = or_zero (min_seq (select (λ c. c.user_id == user) db.changes))

-- CurrentChangeSeq
pub current_change_seq : Db → ℕ → Option ℕ
current_change_seq db user = Option.map (λ (u : User). u.change_seq) (find (is_user user) db.users)

-- `changesLost`
abbrev pub changes_lost : ℕ → ℕ → ℕ → Bool
changes_lost last oldest cur =
    ltb cur last || (ltb last cur && (oldest == 0 || ltb (last + 1) oldest))

-- What is written to the client.
pub data Frame : Type 0 where
  entry : Change → Frame
  resync : Frame

-- A drain that is `pending` goes on with the next read.
pub data Ending : Type 0 where
  drained failed pending : Ending

pub record Drained : Type 0 where
  pub frames : List Frame
  pub last : ℕ
  pub ending : Ending

abbrev pub last_seq : ℕ → List Change → ℕ
last_seq last [] = last
last_seq last (c ∷ cs) = last_seq c.seq cs

abbrev pub after_frames : List Frame → Drained → Drained
after_frames fs d = record d { frames = fs ++ d.frames }

-- `drain`
pub drain : List Db → ℕ → ℕ → Drained
unfolding oldest_change_seq current_change_seq
drain [] user last = record { frames = []; last = last; ending = pending }
drain (db ∷ dbs) user last =
    let rows : List Change = list_changes db user last sse_batch in
    let rest : Drained = drain dbs user (last_seq last rows) in
    elim (current_change_seq db user) [
      | none ↦ record { frames = []; last = last; ending = failed }
      | some cur ↦
          if changes_lost last (oldest_change_seq db user) cur
          then record { frames = resync ∷ []; last = cur; ending = drained }
          else if ltb (length rows) sse_batch
          then record { frames = map entry rows; last = last_seq last rows; ending = drained }
          else after_frames (map entry rows) rest
    ]
