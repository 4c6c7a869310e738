-- ===== src/Notes/Regroup/Kept.antt =====
-- What it is that every note has a part (core/internal/notes/ops.go).
use notekeeper.Common.{◌≤◌, List, All}
use notekeeper.Db.Rows.{count}
use notekeeper.Db.{Db, Note, Part}
use notekeeper.Notes.Regroup.{own_part}

-- A part of the note is there.
abbrev pub HasPart : List Part → Note → Type 0
HasPart ps n = 1 ≤ count (own_part n.user_id n.id) ps

-- Every note has at least one part.
abbrev pub Kept : Db → Type 0
Kept db = All (HasPart db.parts) db.notes
