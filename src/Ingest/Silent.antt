-- ===== src/Ingest/Silent.antt =====
-- An event that is ignored or rejected leaves nothing of the message in the store
-- (core/internal/ingest/ingest.go, `Handle`).
use notekeeper.Common.{◌≡◌, true}
use notekeeper.Db.{ok}
use notekeeper.Ingest.{Outcome, Event, Principal}
use notekeeper.Ingest.Checks.{sanitize}
use notekeeper.Ingest.Tables.{Intake}
use notekeeper.Ingest.Handle.{Service, entered, handle}
use notekeeper.Ingest.Ends.{is_silent, Quiet, Ends, answer_new-Ends}
use notekeeper.Ingest.Through.{handle-Gives}
use mathlib.Core.Path.{subst}

-- An event that is ignored or rejected stores nothing: no note, part or reminder changes, no file is
-- taken or freed, no change is told, and no history is written.
pub handle_silent :
    (v : Service) (bot : Principal) (ev : Event) (seen s : Intake) (out : Outcome) (t : Intake)
    → handle v bot ev seen s ≡ ok (out, t)
    → is_silent out.result ≡ true
    → (t.db ≡ s.db) × (t.versions ≡ s.versions)
handle_silent v bot ev seen s out t e silent =
    handle-Gives (Quiet s) v bot ev seen s (out, t) (λ out u same h. same)
      (λ valid ident who out' u f.
        let ends = subst (Ends (entered bot ident (sanitize v.utf8 ev) s)) f (
          answer_new-Ends v bot ident (sanitize v.utf8 ev)
            (entered bot ident (sanitize v.utf8 ev) s)) in
        ends.1)
      e silent
