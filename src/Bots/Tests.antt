-- ===== src/Bots/Tests.antt =====
-- The theorems of Bots at concrete inputs.
use notekeeper.Common.{ℕ, ◌+◌, ltb, ◌≡◌, refl, true, none, some, List, [], ◌∷◌, arith, All, map}
use notekeeper.Common.Str.{Str, codes, str_eq}
use notekeeper.Db.Rows.{find, delete, update, count, update_one}
use notekeeper.Db.Feed.{change}
use notekeeper.Db.{Db, OutboxItem, OutboxKind, Result, ok, err}
use notekeeper.Bots.{NoticeIds, outbox_item}
use notekeeper.Throttle.{blocked, wait_for}
use notekeeper.Ingest.{Identity}
use notekeeper.Ingest.Tables.{exceeded, parts_by_source, Intake, is_identity}
use notekeeper.Bots.Pairing.{
  PairingCode, Directory, Outside, Attempt, LinkEnd, linked, link_invalid_code, link, link_text,
  link_code, link_account, redeem, consume, insert_identity, close_attempt, count_guess,
  identity_in_domain,
}
use notekeeper.Bots.Unlinking.{Request, unlink, unlink_by, unlink_row}
use notekeeper.Bots.Unlinking.Ended.{NotWaiting, unlink_ends, unlink_silences}
use notekeeper.Bots.Once.{Names, stop, link_once}
use notekeeper.Ingest.{Outcome, refusal, rejected, identity_unlinked}
use notekeeper.Ingest.Checks.{validate, sanitize, has_nul, clean_text}
use notekeeper.Ingest.Handle.{
  handle, resolve_identity, answer_sender, answer_active, answer_linked, limited, within_limits,
}
use notekeeper.Ingest.Tests.{service, bot, said}
use notekeeper.Bots.Codes.{
  read_code, of_length, look_alike, has_code, crockford_digit, new_pairing_code,
  normalise_pairing_code, normalise-new,
}

abbrev bytes : List ℕ
bytes = 1 ∷ 2 ∷ 35 ∷ 4 ∷ 255 ∷ 6 ∷ 7 ∷ 8 ∷ []

normalise-new_example :
    (normalise_pairing_code (λ s. s) (new_pairing_code bytes) ≡ some (new_pairing_code bytes))
    × (normalise_pairing_code (λ s. s) (map crockford_digit bytes) ≡ some (new_pairing_code bytes))
normalise-new_example = normalise-new (λ s. s) 1 2 35 4 255 6 7 8 refl refl

-- Two accounts send the same code, and both read the store before either is linked.
abbrev env : Outside
env = record {
  to_upper = λ s. s;
  equal_fold = λ s t. str_eq s t;
  hash_token = λ s. 77;
  throttle_key = λ bot user. 3;
  type_of = λ bot. none;
}

abbrev pub ids : NoticeIds
ids = record { notification = 30; item = λ k. 40 + k }

abbrev attempt : Str → ℕ → ℕ → Attempt
attempt who identity now = record {
  bot = bot;
  external_user = who;
  conversation = codes "room";
  raw_code = codes "12345678";
  sent = 0;
  now = now;
  identity = identity;
  notice_ids = ids;
  notice = 1;
  database_now = now;
}

abbrev code : PairingCode
code = record {
  id = 9;
  user_id = 1;
  code_hash = 77;
  bot_instance_id = none;
  bot_type = codes "m";
  expires_at = 5000;
  used_at = none;
}

abbrev pub db : Db
db = record {
  users = record { id = 1; active = true; timezone = codes "UTC"; change_seq = 0 } ∷ [];
  categories = [];
  notes = [];
  parts = [];
  attachments = [];
  blobs = [];
  storage = [];
  links = [];
  reminders = [];
  outbox = [];
  sent = [];
  changes = [];
  notifications = [];
}

abbrev directory : Directory
directory = record {
  intake = record { db = db; identities = []; versions = []; events = []; senders = [] };
  pairing_codes = code ∷ [];
  throttle = λ key. none;
}

abbrev left_by : Result LinkEnd → Directory
left_by (err e) = directory
left_by (ok end) = end.1

abbrev first : Result LinkEnd
first = link env (attempt (codes "ann") 11 1000) directory directory

abbrev second : Result LinkEnd
second = link env (attempt (codes "bob") 12 1010) directory (left_by first)

names : (who : Str) (k now : ℕ) → ltb now 5000 ≡ true → Names env (attempt who k now) directory code
unfolding normalise_pairing_code read_code of_length look_alike has_code find
names who k now h = (codes "1234-5678", refl, rw h refl)

links : first ≡ ok ((linked, some 11), left_by first)
unfolding link link_text link_code link_account redeem consume insert_identity close_attempt
    count_guess identity_in_domain normalise_pairing_code read_code of_length look_alike has_code
    find blocked wait_for update_one update str_eq count
links = refl

fails : second ≡ ok ((link_invalid_code, none), left_by second)
unfolding link link_text link_code link_account redeem consume insert_identity close_attempt
    count_guess identity_in_domain normalise_pairing_code read_code of_length look_alike has_code
    find blocked wait_for update_one update str_eq count change
fails = refl

link_once_example : ¬ (link_invalid_code ≡ linked)
link_once_example =
    link_once env env (attempt (codes "ann") 11 1000) (attempt (codes "bob") 12 1010) directory
      directory (left_by first) directory (left_by first) (left_by second) code code (some 11)
      (link_invalid_code, none) (names (codes "ann") 11 1000 refl) links (stop (left_by first))
      (omega arith) (names (codes "bob") 12 1010 refl) refl fails

-- A chat with a reminder that waits for it.
abbrev linked_chat : Identity
linked_chat = record {
  id = 5;
  user_id = 1;
  bot_instance_id = 7;
  bot_type = codes "m";
  external_user_id = codes "ann";
  conversation_id = some (codes "room");
  reminder_target = true;
  linked_at = 100;
}

abbrev waiting : OutboxItem
waiting = outbox_item 20 7 OutboxKind.reminder (some 1) (codes "room") 4 500 500

abbrev store : Intake
store = record {
  db = record db { outbox = waiting ∷ [] };
  identities = linked_chat ∷ [];
  versions = [];
  events = [];
  senders = [];
}

abbrev request : Request
request = record {
  user = 1;
  identity = 5;
  notice_ids = ids;
  farewell_id = 60;
  farewell = 2;
  notice = 3;
  now = 1000;
  database_now = 1001;
}

abbrev kept_by : Result Intake → Intake
kept_by (err e) = store
kept_by (ok t) = t

unlinks : unlink request store ≡ ok (kept_by (unlink request store))
unfolding unlink unlink_by unlink_row find change
unlinks = refl

found_chat : find (is_identity 5) store.identities ≡ some linked_chat
unfolding find
found_chat = refl

unlink_silences_example :
    All (NotWaiting 1 7 (codes "room")) (kept_by (unlink request store)).db.outbox
unlink_silences_example =
    unlink_silences request linked_chat (codes "room") store (kept_by (unlink request store))
      found_chat refl unlinks

abbrev late : Result (Outcome × Intake)
late = handle service bot said store (kept_by (unlink request store))

who_said : resolve_identity bot said.sender store ≡ some linked_chat
unfolding resolve_identity find str_eq
who_said = refl

turned_away : late ≡ ok (refusal rejected (some identity_unlinked), kept_by (unlink request store))
unfolding handle answer_sender answer_active answer_linked find validate has_nul sanitize clean_text
    str_eq parts_by_source exceeded limited within_limits delete count change unlink unlink_by
    unlink_row update
turned_away = refl

whose_chat :
    (ident : Identity)
    → resolve_identity bot said.sender store ≡ some ident
    → (ident.id ≡ 5) × (ident.user_id ≡ 1)
whose_chat ident e = ground (arith, who_said, e)

unlink_ends_example :
    (rejected ≡ rejected)
    × (kept_by (unlink request store) ≡ record (kept_by (unlink request store)) {
      senders = (kept_by (unlink request store)).senders;
    })
    × ((ident : Identity)
        → resolve_identity bot said.sender store ≡ some ident
        → kept_by (unlink request store) ≡ kept_by (unlink request store))
unlink_ends_example =
    unlink_ends request service bot said store store (kept_by (unlink request store))
      (kept_by (unlink request store))
      (refusal rejected (some identity_unlinked), kept_by (unlink request store)) unlinks refl
      whose_chat turned_away
