-- ===== src/Shares.antt =====
-- Links that show one note to whoever has them (core/internal/shares/shares.go,
-- core/internal/store/dbq/share.sql.go). The excerpts of the list of links are not modelled.
pub mod Tests
pub mod Limits
pub mod Revoked
use notekeeper.Common.{
  ℕ, ◌+◌, ◌*◌, Bool, true, false, not, ◌&&◌, ◌||◌, Option, none, some, List, [], ◌∷◌, ltb, leb,
  ◌==◌, if◌then◌else◌, length,
}
use notekeeper.Common.Str.{Str, codes, str_eq}
use notekeeper.Db.Rows.{find, update, update_one, delete, select, count}
use notekeeper.Db.Feed.{status, change}
use notekeeper.Db.{
  Db, Note, Part, PartKind, text, attachment, failed_attachment, unsupported, Attachment,
  FailedFile, ShareLink, User, Entity, upsert, Op, not_found, invalid, not_active, limit, disabled,
  is_active, Result, ok, err, ◌>>=◌, ◌>>◌, or_fail, guard,
}
use notekeeper.Reminders.{is_note}
use notekeeper.Notes.Regroup.{list_parts}
use notekeeper.Notes.Purge.{file_of}
use notekeeper.Ingest.Tables.{Intake}
use notekeeper.Bots.{NoticeIds, security_notice}

abbrev one_hour : ℕ
one_hour = 3600 * 1000000000

-- Presets
abbrev pub presets : List (Str × ℕ)
presets =
    (codes "1h", one_hour)
    ∷ (codes "1d", 24 * one_hour)
    ∷ (codes "7d", 168 * one_hour)
    ∷ (codes "30d", 720 * one_hour)
    ∷ []

unfoldable pub lifetime : Str → List (Str × ℕ) → Option ℕ
lifetime s [] = none
lifetime s ((name, d) ∷ ps) = if str_eq s name then some d else lifetime s ps

pub record Config : Type 0 where
  pub enabled : Bool
  pub max_lifetime : ℕ
  pub max_active : ℕ
  pub created_per_hour : ℕ

-- CountActiveShareLinks and CountShareLinksCreatedSince
abbrev pub is_unrevoked : Option ℕ → Bool
is_unrevoked none = true
is_unrevoked (some t) = false

abbrev pub is_open_at : ℕ → ShareLink → Bool
is_open_at now l = is_unrevoked l.revoked_at && ltb now l.expires_at

abbrev pub is_live_of : ℕ → ℕ → ShareLink → Bool
is_live_of user now l = l.user_id == user && is_open_at now l

abbrev pub is_recent_of : ℕ → ℕ → ShareLink → Bool
is_recent_of user now l = l.user_id == user && ltb now (l.created_at + one_hour)

-- What a creation is given: who asks for which note and how long, the token that is made with its
-- hash, the new ids, the text of the notice and whether the user muted it, and the clocks.
pub record Order : Type 0 where
  pub user : ℕ
  pub note : ℕ
  pub preset : Str
  pub token_hash : ℕ
  pub id : ℕ
  pub muted : Bool
  pub notice_ids : NoticeIds
  pub notice : ℕ
  pub now : ℕ
  pub database_now : ℕ

abbrev pub new_link : Order → ℕ → ShareLink
new_link o life = record {
  id = o.id;
  user_id = o.user;
  note_id = o.note;
  token_hash = o.token_hash;
  created_at = o.now;
  expires_at = o.now + life;
  revoked_at = none;
  last_accessed_at = none;
  view_count = 0;
}

unfoldable pub tell_created : Bool → Order → Intake → Db → Db
unfolding security_notice
tell_created true o s db = db
tell_created false o s db =
    security_notice o.notice_ids db s.identities o.user o.notice o.now o.database_now

unfoldable pub store_link : Order → ℕ → Intake → Intake
unfolding tell_created
store_link o life s = record s {
  db = tell_created o.muted o s (
      change (record s.db { links = new_link o life ∷ s.db.links }) o.user Entity.share_link o.id
        upsert none);
}

-- Whether a user may have one more link.
abbrev pub has_room : Config → Order → List ShareLink → Bool
has_room c o ls =
    ltb (count (is_live_of o.user o.now) ls) c.max_active
    && ltb (count (is_recent_of o.user o.now) ls) c.created_per_hour

-- `Create`
unfoldable pub create_share : Config → Order → Intake → Result Intake
unfolding lifetime store_link
create_share c o s = do
  guard c.enabled disabled
  life ← or_fail (lifetime o.preset presets) invalid
  guard (leb life c.max_lifetime) invalid
  active ← or_fail (status o.user s.db.users) not_found
  n ← or_fail (find (is_note o.note o.user) s.db.notes) not_found
  guard (is_active n.state) not_active
  guard (has_room c o s.db.links) limit
  ok (store_link o life s)

-- RevokeShareLink and RevokeAllShareLinks
abbrev pub revocable : ℕ → ℕ → ℕ → ShareLink → Bool
revocable id user now l = l.id == id && is_live_of user now l

abbrev pub revoked : ℕ → ShareLink → ShareLink
revoked now l = record l { revoked_at = some now }

-- `Revoke`
unfoldable pub revoke_share : ℕ → ℕ → ℕ → Db → Result Db
revoke_share user id now db = do
  active ← or_fail (status user db.users) not_found
  (l, ls) ← or_fail (update_one (revocable id user now) (revoked now) db.links) not_found
  ok (change (record db { links = ls }) user Entity.share_link id Op.delete none)

-- The loop of `RevokeAll`.
unfoldable pub tell_revoked : ℕ → List ShareLink → Db → Db
tell_revoked user [] db = db
tell_revoked user (l ∷ ls) db =
    tell_revoked user ls (change db user Entity.share_link l.id Op.delete none)

-- `RevokeAll`, by whether the user is there.
unfoldable pub revoke_all_by : Option Bool → ℕ → ℕ → Db → Result (ℕ × Db)
unfolding tell_revoked
revoke_all_by none user now db = err not_found
revoke_all_by (some active) user now db =
    let ended = select (is_live_of user now) db.links in
    ok (
      length ended,
      tell_revoked user ended
          (record db { links = update (is_live_of user now) (revoked now) db.links }),
    )

unfoldable pub revoke_all : ℕ → ℕ → Db → Result (ℕ × Db)
unfolding revoke_all_by
revoke_all user now db = revoke_all_by (status user db.users) user now db

-- `Purge`, PurgeShareLinks
abbrev pub ended_before : Option ℕ → ℕ → Bool
ended_before none cutoff = false
ended_before (some t) cutoff = ltb t cutoff

unfoldable pub purge : ℕ → Db → Db
purge cutoff db = record db {
  links = delete (λ l. ltb l.expires_at cutoff || ended_before l.revoked_at cutoff) db.links;
}

-- `validToken`
abbrev within : ℕ → ℕ → ℕ → Bool
within low high r = leb low r && leb r high

abbrev url_safe : ℕ → Bool
url_safe r =
    within b'a' b'z' r || within b'A' b'Z' r || within b'0' b'9' r || r == b'-' || r == b'_'

unfoldable pub all_url_safe : Str → Bool
all_url_safe [] = true
all_url_safe (r ∷ s) = url_safe r && all_url_safe s

unfoldable pub valid_token : Str → Bool
unfolding all_url_safe
valid_token s = length s == 32 && all_url_safe s

-- LookupShare
abbrev pub is_true : Option Bool → Bool
is_true none = false
is_true (some b) = b

abbrev pub opens : ℕ → ℕ → List User → ShareLink → Bool
opens hash now us l = l.token_hash == hash && is_open_at now l && is_true (status l.user_id us)

unfoldable pub resolve_note : Option Note → ShareLink → Result ShareLink
resolve_note none l = err not_found
resolve_note (some n) l = if is_active n.state then ok l else err not_found

unfoldable pub resolve_row : Option ShareLink → Bool → Db → Result ShareLink
unfolding resolve_note
resolve_row none usable db = err not_found
resolve_row (some l) false db = err not_found
resolve_row (some l) true db = resolve_note (find (is_note l.note_id l.user_id) db.notes) l

-- `resolve`: the link is looked up in one store and its note in another.
unfoldable pub resolve : Config → (Str → ℕ) → Str → ℕ → Db → Db → Result ShareLink
unfolding resolve_row valid_token
resolve c hash token now seen db =
    let usable = c.enabled && valid_token token in
    resolve_row (find (opens (hash (if usable then token else [])) now seen.users) seen.links)
      usable db

-- What a link shows of a part; a file whose row is gone is left out.
pub record SharedPart : Type 0 where
  pub kind : PartKind
  pub text : Str
  pub attachment : Option ℕ
  pub failed_filename : Str

abbrev with_text : PartKind → Option Str → SharedPart
with_text k none = record { kind = k; text = []; attachment = none; failed_filename = [] }
with_text k (some t) = record { kind = k; text = t; attachment = none; failed_filename = [] }

-- PartAttachmentInfo: an attachment of the user that is there with its file.
abbrev shared_file : Option ℕ → List SharedPart → List SharedPart
shared_file none rest = rest
shared_file (some id) rest =
    record { kind = attachment; text = []; attachment = some id; failed_filename = [] } ∷ rest

abbrev failed_name : Option FailedFile → SharedPart
failed_name none = record {
  kind = failed_attachment;
  text = [];
  attachment = none;
  failed_filename = [];
}
failed_name (some f) = record {
  kind = failed_attachment;
  text = [];
  attachment = none;
  failed_filename = f.filename;
}

unfoldable pub show_part : PartKind → Db → ℕ → Part → List SharedPart → List SharedPart
unfolding file_of
show_part text db user p rest = with_text text p.body ∷ rest
show_part unsupported db user p rest = with_text unsupported p.body ∷ rest
show_part attachment db user p rest = shared_file (file_of db user p) rest
show_part failed_attachment db user p rest = failed_name p.failed ∷ rest

unfoldable pub shared_parts : Db → ℕ → List Part → List SharedPart
unfolding show_part
shared_parts db user [] = []
shared_parts db user (p ∷ ps) = show_part p.kind db user p (shared_parts db user ps)

pub record Shared : Type 0 where
  pub created_at : ℕ
  pub expires_at : ℕ
  pub parts : List SharedPart

-- TouchShareLink
abbrev pub viewed : ℕ → ShareLink → ShareLink
viewed now l = record l { view_count = l.view_count + 1; last_accessed_at = some now }

abbrev pub is_link : ℕ → ShareLink → Bool
is_link id l = l.id == id

-- The content, and the count of the view.
unfoldable pub show_note : Option Note → ShareLink → ℕ → Db → Db → Result (Shared × Db)
unfolding shared_parts list_parts
show_note none l now content db = err not_found
show_note (some n) l now content db = ok (
  record {
    created_at = n.created_at;
    expires_at = l.expires_at;
    parts = shared_parts content l.user_id (list_parts l.user_id l.note_id content);
  },
  record db { links = update (is_link l.id) (viewed now) db.links },
)

-- `Open`: the link, its note and the content are read one after the other, in stores of their own,
-- and the view is counted in a fourth.
unfoldable pub open_share : Config → (Str → ℕ) → Str → ℕ → Db → Db → Db → Db → Result (Shared × Db)
unfolding resolve show_note
open_share c hash token now seen noted content db = do
  l ← resolve c hash token now seen noted
  show_note (find (is_note l.note_id l.user_id) content.notes) l now content db
