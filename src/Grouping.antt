-- ===== src/Grouping.antt =====
-- Whether a chat message starts a note or joins one (core/internal/grouping/grouping.go). Times are
-- nanoseconds of the platform clock since a common origin; ids are numbers, 0 being no id.
pub mod Policy
mod Tests
use notekeeper.Common.{
  ℕ, ◌-◌, Bool, true, false, not, ◌&&◌, ◌||◌, Option, none, some, ltb, leb, if◌then◌else◌,
}

pub data Reason : Type 0 where
  first reply thread media_adjacency : Reason

pub data Target : Type 0 where
  new existing : Target

pub record Content : Type 0 where
  pub has_text : Bool
  pub has_media : Bool

pub record Event : Type 0 where
  pub timestamp : ℕ
  pub content : Content

pub record Candidate : Type 0 where
  pub note_id : ℕ
  pub last_part_at : ℕ
  pub has_text : Bool

pub record Related : Type 0 where
  pub note_id : ℕ
  pub part_id : ℕ
  pub active : Bool
  pub reason : Reason

pub record Decision : Type 0 where
  pub target : Target
  pub note_id : ℕ
  pub reason : Reason
  pub related_part_id : Option ℕ

start_new : Option ℕ → Decision
start_new related = record { target = new; note_id = 0; reason = first; related_part_id = related }

join : ℕ → Reason → Decision
join note reason = record {
  target = existing;
  note_id = note;
  reason = reason;
  related_part_id = none;
}

media_only : Content → Bool
media_only c = c.has_media && not c.has_text

-- `gap >= 0 && gap <= window`, where `gap` may be negative in the source.
in_window : ℕ → ℕ → ℕ → Bool
in_window now last window = leb last now && leb (now - last) window

unfoldable pub decide : Event → Option Candidate → Option Related → ℕ → Decision
unfolding start_new join media_only in_window
decide ev cand (some rel) window =
    if rel.active then join rel.note_id rel.reason else start_new (some rel.part_id)
decide ev none none window = start_new none
decide ev (some cand) none window =
    if ltb 0 window && in_window ev.timestamp cand.last_part_at window
    then if media_only ev.content || (ev.content.has_text && not cand.has_text)
      then join cand.note_id media_adjacency
      else start_new none
    else start_new none
