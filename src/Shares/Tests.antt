-- ===== src/Shares/Tests.antt =====
-- The theorems of Shares at concrete inputs.
use notekeeper.Common.{ℕ, ◌≤◌, ◌≡◌, refl, true, none, [], ◌∷◌, arith}
use notekeeper.Common.Str.{Str, codes, str_eq}
use notekeeper.Db.Rows.{find, update, count, update_one}
use notekeeper.Db.Feed.{change}
use notekeeper.Db.{Db, Note, active, ShareLink, Result, ok, err}
use notekeeper.Ingest.Tables.{Intake}
use notekeeper.Bots.Tests.{db, ids}
use notekeeper.Shares.{
  Config, Order, is_live_of, lifetime, create_share, revoke_share, resolve, resolve_row,
  resolve_note, valid_token, all_url_safe,
}
use notekeeper.Shares.Limits.{create_share_limits}
use notekeeper.Shares.Revoked.{stop, revoked_stays_closed}

abbrev config : Config
config = record {
  enabled = true;
  max_lifetime = 9000000000000;
  max_active = 2;
  created_per_hour = 30;
}

abbrev shared_note : Note
shared_note = record {
  id = 2;
  user_id = 1;
  category_id = none;
  position = none;
  state = active;
  deleted_at = none;
  created_at = 300;
  received_at = 300;
  updated_at = 300;
  version = 1;
}

abbrev link_of : ℕ → ℕ → ShareLink
link_of id hash = record {
  id = id;
  user_id = 1;
  note_id = 2;
  token_hash = hash;
  created_at = 400;
  expires_at = 5000;
  revoked_at = none;
  last_accessed_at = none;
  view_count = 0;
}

abbrev shared : Db
shared = record db { notes = shared_note ∷ []; links = link_of 5 8 ∷ [] }

abbrev order : Order
order = record {
  user = 1;
  note = 2;
  preset = codes "1h";
  token_hash = 9;
  id = 4;
  muted = true;
  notice_ids = ids;
  notice = 1;
  now = 1000;
  database_now = 1001;
}

abbrev before : Intake
before = record { db = shared; identities = []; versions = []; events = []; senders = [] }

abbrev made : Result Intake
made = create_share config order before

abbrev left_by : Result Intake → Intake
left_by (err e) = before
left_by (ok t) = t

makes : made ≡ ok (left_by made)
unfolding create_share lifetime str_eq find count
makes = refl

create_share_limits_example : count (is_live_of 1 2000) (left_by made).db.links ≤ 2
create_share_limits_example =
    create_share_limits config order before (left_by made) 2000 makes (omega arith)

abbrev both : Db
both = record shared { links = link_of 4 9 ∷ link_of 5 8 ∷ [] }

abbrev ended : Result Db
ended = revoke_share 1 4 1000 both

abbrev rest_of : Result Db → Db
rest_of (err e) = both
rest_of (ok d) = d

ends : ended ≡ ok (rest_of ended)
unfolding revoke_share find update_one
ends = refl

abbrev token : Str
token = codes "AAAAAAAAAAAAAAAAAAAAAAAAAAAAAAAA"

opens_other : resolve config (λ s. 8) token 1010 (rest_of ended) shared ≡ ok (link_of 5 8)
unfolding resolve resolve_row resolve_note find valid_token all_url_safe revoke_share update_one
    update change
opens_other = refl

revoked_stays_closed_example : ¬ (◌≡◌ {A = ℕ} 5 4)
revoked_stays_closed_example =
    revoked_stays_closed 4 1 1000 1010 both (rest_of ended) (rest_of ended) shared config (λ s. 8)
      token (link_of 5 8) ((λ e. refl), ((λ e. refl), tt)) ends (stop (rest_of ended)) (omega arith)
      opens_other
