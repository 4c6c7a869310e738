-- ===== src/Grouping/Tests.antt =====
-- Runs of the grouping policy (core/internal/grouping/grouping.go).
use notekeeper.Common.{◌≡◌, ◌↔◌, refl, true, false, none, some}
use notekeeper.Grouping.Policy.{Joins, decide_exact}
use notekeeper.Grouping.{Event, Candidate, Related, reply, existing, decide}

abbrev photo : Event
photo = record { timestamp = 100; content = record { has_text = false; has_media = true } }

abbrev open_note : Candidate
open_note = record { note_id = 7; last_part_at = 95; has_text = true }

abbrev dismissed : Related
dismissed = record { note_id = 4; part_id = 9; active = false; reason = reply }

decide_exact_example :
    (((decide photo (some open_note) none 10).target ≡ existing)
      × ((decide photo (some open_note) none 10).note_id ≡ 7))
    ↔ Joins photo 10 (some open_note) none 7
decide_exact_example = decide_exact photo (some open_note) none 10 7

photo_joins : (decide photo (some open_note) none 10).note_id ≡ 7
unfolding decide
photo_joins = refl
