-- ===== src/Ingest/Tests.antt =====
-- Runs of `Handle` (core/internal/ingest/ingest.go).
use notekeeper.Common.{
  ℕ, ◌+◌, ◌*◌, ◌≡◌, refl, true, false, Option, none, some, List, [], ◌∷◌, ◌++◌, arith, length,
}
use notekeeper.Common.Str.{Str, codes, str_eq}
use notekeeper.Db.Rows.{find, update_one, update, delete, count, select, sort_by}
use notekeeper.Db.Feed.{change}
use notekeeper.Db.{Note, active, Part, PartKind, grouped, Result, ok, err}
use notekeeper.Reminders.Trash.{on_dismiss}
use notekeeper.Notes.Parts.{touch_note}
use notekeeper.Notes.Regroup.{list_parts, count_note_parts, part_by_id}
use notekeeper.Notes.Regroup.Kept.{Kept}
use notekeeper.Grouping.{first}
use notekeeper.Ingest.{
  about, ok_feedback, no_feedback, Kind, message_created, message_edited, message_deleted, PartType,
  EventPart, Event, created, removed, updated, ignored, Outcome, Principal, Identity, refusal,
  before_link,
}
use notekeeper.Grouping
use notekeeper.Ingest.Create
use notekeeper.Ingest.Checks.{clean_text, Utf8, sanitize, validate, has_nul}
use notekeeper.Ingest.Tables.{Intake, exceeded, parts_by_source, sender_recent_note, note_has_text}
use notekeeper.Ingest.Create.{
  Ids, Delivery, handle_created, message_rows, decision, store_message, insert_chat_parts,
  join_note, start_note,
}
use notekeeper.Ingest.Change.{handle_edited, handle_deleted, texts, own_rows}
use notekeeper.Ingest.Handle.{
  Service, delivery, handle, window, answer_sender, answer_active, answer_linked, answer_row,
  answer_new, dispatch, limited, within_limits, second, resolve_identity,
}
use notekeeper.Ingest.Silent.{handle_silent}
use notekeeper.Ingest.Replay.{Linked, handle_replay}
use notekeeper.Ingest.Latest.{Edited, handle_edited_latest}
use notekeeper.Ingest.Joined.{Written}
use notekeeper.Ingest.Stored.{note_for, handle_created_stores}
use notekeeper.Ingest.Answered.{Together, handle-Kept}
use notekeeper.Ingest.Found.{OneRow}
use mathlib.Core.Path.{subst}

abbrev ascii : Utf8
ascii = record { valid_string = λ s. true; to_valid = λ s. s; rune_count = λ s. length s }

abbrev ids : Ids
ids = record { note = 50; part = λ i. 60 + i; version = λ i. 80 + i }

abbrev pub service : Service
service = record {
  utf8 = ascii;
  limits = record { max_notes = 10; max_text_bytes = 1000 };
  default_window = 60 * second;
  grouping_seconds = λ user. none;
  order = λ ids. ids;
  ids = ids;
  now = 1000;
  database_now = 1001;
}

abbrev pub bot : Principal
bot = record { instance_id = 7; type = codes "m"; identity_domain = [] }

abbrev sender : Identity
sender = record {
  id = 5;
  user_id = 1;
  bot_instance_id = 7;
  bot_type = codes "m";
  external_user_id = codes "ann";
  conversation_id = none;
  reminder_target = true;
  linked_at = 100;
}

abbrev note : Note
note = record {
  id = 2;
  user_id = 1;
  category_id = none;
  position = none;
  state = active;
  deleted_at = none;
  created_at = 300;
  received_at = 300;
  updated_at = 300;
  version = 1;
}

abbrev part : Part
part = record {
  id = 20;
  user_id = 1;
  note_id = 2;
  ordinal = 0;
  kind = PartKind.text;
  body = some (codes "milk");
  attachment_id = none;
  failed = none;
  attach_reason = grouped first;
  related_part_id = none;
  created_at = 300;
  text_edited_at = none;
  source = some (record {
    bot_instance_id = 7;
    identity_id = 5;
    conversation_id = codes "c";
    message_id = codes "m1";
    part_index = 0;
  });
}

abbrev store : Intake
store = record {
  db = record {
    users = record { id = 1; active = true; timezone = codes "UTC"; change_seq = 0 } ∷ [];
    categories = [];
    notes = note ∷ [];
    parts = part ∷ [];
    attachments = [];
    blobs = [];
    storage = [];
    links = [];
    reminders = [];
    outbox = [];
    sent = [];
    changes = [];
    notifications = [];
  };
  identities = sender ∷ [];
  versions = [];
  events = [];
  senders = [];
}

abbrev text_part : Str → EventPart
text_part t = record {
  type = PartType.text;
  body = t;
  upload_id = none;
  filename = [];
  media_type = [];
  size = 0;
  reason = [];
  description = [];
}

abbrev event : Kind → Str → Str → ℕ → List EventPart → Event
event kind id message time parts = record {
  event_id = id;
  kind = kind;
  sender = codes "ann";
  conversation = codes "c";
  message_id = message;
  timestamp = time;
  reply_to = [];
  thread = [];
  parts = parts;
  standalone = false;
}

abbrev pub said : Event
said = event message_created (codes "e1") (codes "m2") 900 (text_part (codes "eggs") ∷ [])

abbrev too_old : Event
too_old = event message_created (codes "e2") (codes "m0") 90 (text_part (codes "old") ∷ [])

abbrev corrected : Event
corrected = event message_edited (codes "e3") (codes "m1") 950 (text_part (codes "oat milk") ∷ [])

abbrev taken_back : Event
taken_back = event message_deleted (codes "e4") (codes "m1") 950 []

abbrev left_by : Result (Outcome × Intake) → Intake
left_by (ok (_, t)) = t
left_by (err _) = store

abbrev answered : Event → Result (Outcome × Intake)
answered ev = handle service bot ev store store

abbrev after : Event → Intake
after ev = left_by (answered ev)

-- Two texts do not join: the message gets a note of its own.
answers_said : answered said ≡ ok (about created 50 ok_feedback, after said)
unfolding handle answer_sender answer_active answer_linked answer_row answer_new dispatch find
    validate has_nul sanitize clean_text str_eq parts_by_source sort_by select count change
    update_one update delete touch_note exceeded limited within_limits handle_created store_message
    decision Create.decide Grouping.decide insert_chat_parts join_note start_note sender_recent_note
    note_has_text
answers_said = refl

answers_old : answered too_old ≡ ok (refusal ignored (some before_link), after too_old)
unfolding handle answer_sender answer_active answer_linked answer_row answer_new dispatch find
    validate has_nul sanitize clean_text str_eq parts_by_source sort_by select count change
    update_one update delete touch_note exceeded limited within_limits
answers_old = refl

answers_back : answered taken_back ≡ ok (about removed 2 no_feedback, after taken_back)
unfolding handle answer_sender answer_active answer_linked answer_row answer_new dispatch find
    validate has_nul sanitize clean_text str_eq parts_by_source sort_by select count change
    update_one update delete touch_note exceeded limited within_limits handle_deleted on_dismiss
answers_back = refl

handle_silent_example :
    ((after too_old).db ≡ store.db) × ((after too_old).versions ≡ store.versions)
handle_silent_example =
    handle_silent service bot too_old store store (refusal ignored (some before_link))
      (after too_old) answers_old refl

abbrev later : Service
later = record service { now = 5000; database_now = 5001 }

resolved : resolve_identity bot (codes "ann") store ≡ some sender
unfolding resolve_identity find str_eq
resolved = refl

still-Linked : Linked bot (codes "ann") 1 (after said)
unfolding handle answer_sender answer_active answer_linked answer_row answer_new dispatch find
    validate has_nul sanitize clean_text str_eq parts_by_source sort_by select count change
    update_one update delete touch_note exceeded limited within_limits handle_created store_message
    decision Create.decide Grouping.decide insert_chat_parts join_note start_note sender_recent_note
    note_has_text resolve_identity
still-Linked = (record sender { conversation_id = some (codes "c") }, refl, refl, refl, refl)

handle_replay_example :
    handle later bot said (after said) (after said) ≡ ok (about created 50 ok_feedback, after said)
handle_replay_example =
    handle_replay service later bot said store store (after said) (after said) sender
      (about created 50 ok_feedback) answers_said refl resolved refl refl still-Linked

one_part : (user : ℕ) → OneRow user (part ∷ [])
unfolding count
one_part user id = ground arith

-- The text is edited, and an edit that was made before comes too late.
abbrev edit : Delivery
edit = delivery service bot sender corrected

abbrev edited_by : Delivery → Result (Outcome × Intake)
edited_by d = handle_edited (λ ids. ids) d store

edits_text : edited_by edit ≡ ok (about updated 2 ok_feedback, left_by (edited_by edit))
unfolding handle_edited parts_by_source find str_eq select sort_by update update_one touch_note
    change
edits_text = refl

finds_part : find (part_by_id 1 20) store.db.parts ≡ some part
unfolding find
finds_part = refl

handle_edited_latest_example :
    (q : Part) × (find (part_by_id 1 20) (left_by (edited_by edit)).db.parts ≡ some q)
    × Edited edit (texts edit.event.parts) part q
handle_edited_latest_example =
    handle_edited_latest (λ ids. ids) edit store (about updated 2 ok_feedback)
      (left_by (edited_by edit)) 20 part (one_part 1) edits_text finds_part

-- A message with a text and an uploaded file, which no part has yet.
abbrev photo : EventPart
photo = record (text_part []) { type = PartType.attachment; upload_id = some 30; size = 12 }

abbrev with_photo : Event
with_photo =
    event message_created (codes "e1") (codes "m2") 900 (text_part (codes "eggs") ∷ photo ∷ [])

abbrev uploaded : Intake
uploaded = record store {
  db = record store.db { attachments = record { id = 30; user_id = 1; blob_id = 40 } ∷ [] };
}

abbrev say : Delivery
say = delivery service bot sender with_photo

abbrev stored_by : Result (Outcome × Intake)
stored_by = handle_created say uploaded

stores_text : stored_by ≡ ok (about created 50 ok_feedback, left_by stored_by)
unfolding find str_eq parts_by_source sort_by select count change window handle_created
    store_message decision Create.decide Grouping.decide insert_chat_parts join_note start_note
    sender_recent_note note_has_text
stores_text = refl

chosen : note_for (decision say uploaded.db).target say (decision say uploaded.db) ≡ 50
unfolding find str_eq parts_by_source sort_by select count window handle_created store_message
    decision Create.decide Grouping.decide insert_chat_parts join_note start_note sender_recent_note
    note_has_text
chosen = refl

nothing_there : message_rows say uploaded.db ≡ []
unfolding parts_by_source select sort_by str_eq
nothing_there = refl

none_new : count_note_parts 1 50 uploaded.db.parts ≡ 0
unfolding count
none_new = refl

handle_created_stores_example :
    let note = note_for (decision say uploaded.db).target say (decision say uploaded.db) in
    (◌≡◌ {A = Option ℕ} (some 50) (some note))
    × ((rows : List Part) × (list_parts 1 note (left_by stored_by).db
          ≡ list_parts 1 note uploaded.db ++ rows)
        × Written say note uploaded.db.attachments uploaded.db.parts 0 say.event.parts rows)
    × (list_parts 1 2 (left_by stored_by).db ≡ list_parts 1 2 uploaded.db)
handle_created_stores_example =
    handle_created_stores say uploaded (about created 50 ok_feedback) (left_by stored_by) 2
      nothing_there none_new (rw chosen (omega arith)) stores_text

in_one_note :
    (ident : Identity)
    → resolve_identity bot (codes "ann") store ≡ some ident
    → Together (delivery service bot ident (sanitize ascii taken_back)) store
unfolding parts_by_source select sort_by str_eq find sanitize own_rows
in_one_note ident e =
    let same : sender ≡ ident = ground (arith, resolved, e) in
    subst (λ i. Together (delivery service bot i (sanitize ascii taken_back)) store) same
      (2, (refl, tt))

all-Kept : Kept store.db
unfolding count
all-Kept = omega arith

handle-Kept_example : Kept (after taken_back).db
handle-Kept_example =
    handle-Kept service bot taken_back store store (about removed 2 no_feedback) (after taken_back)
      one_part in_one_note all-Kept answers_back
