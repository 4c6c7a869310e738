-- ===== src/Outbox/Tests.antt =====
-- Runs of the outbox (core/internal/outbox/outbox.go) with one item that waits.
use notekeeper.Common.{ℕ, ◌≡◌, refl, true, none, some, [], ◌∷◌, length}
use notekeeper.Common.Str.{codes}
use notekeeper.Db.Rows.{find, update, select, sort_by}
use notekeeper.Db.{Db, OutboxItem, OutboxKind, queued, not_found}
use notekeeper.Outbox.{claim, Report, failed_permanent, delivered, report, may_send, is_ready}
use notekeeper.Outbox.Expiry.{expire}
use notekeeper.Outbox.Erased.{IsErased, Steps, claims, reports, expires, stop, step, Steps-IsErased}
use notekeeper.Outbox.Leases.{report_once}

abbrev message : OutboxItem
message = record {
  id = 5;
  bot_instance_id = 1;
  kind = OutboxKind.notice;
  user_id = some 8;
  conversation_id = codes "room";
  payload = some 77;
  state = queued;
  attempts = 0;
  next_attempt_at = 10;
  lease_expires_at = none;
  due_at = none;
  reminder_id = none;
  created_at = 10;
  finished_at = none;
  failure_reason = none;
}

abbrev waiting : Db
waiting = record {
  users = record { id = 8; active = true; timezone = codes "UTC"; change_seq = 0 } ∷ [];
  categories = [];
  notes = [];
  parts = [];
  attachments = [];
  blobs = [];
  storage = [];
  links = [];
  reminders = [];
  outbox = message ∷ [];
  sent = [];
  changes = [];
  notifications = [];
}

abbrev fresh_id : Db → ℕ
fresh_id db = length db.notifications

abbrev taken : Db
taken = (claim waiting 1 10 20).1

abbrev gone_wrong : Report
gone_wrong = record { state = failed_permanent; reason = 3; message_ids = [] }

abbrev sent_well : Report
sent_well = record { state = delivered; reason = 0; message_ids = 4 ∷ [] }

abbrev failed_store : Db
failed_store = (report fresh_id taken 1 5 gone_wrong 30).1

hands_out : length (claim waiting 1 10 20).0 ≡ 1
unfolding claim select sort_by update is_ready may_send find
hands_out = refl

accepted : report fresh_id taken 1 5 gone_wrong 30 ≡ (none, failed_store)
unfolding report claim select sort_by update is_ready may_send find
accepted = refl

report_once_example : report fresh_id failed_store 1 5 sent_well 40 ≡ (some not_found, failed_store)
report_once_example =
    report_once fresh_id taken 1 5 gone_wrong sent_well 30 40 failed_store accepted

run : Steps fresh_id waiting (expire fresh_id failed_store 50).1
run = step waiting taken _ (claims waiting 1 10 20) (
    step taken failed_store _ (reports taken 1 5 gone_wrong 30)
      (step failed_store _ _ (expires failed_store 50) (stop _)))

Steps-IsErased_example : IsErased (expire fresh_id failed_store 50).1
Steps-IsErased_example =
    Steps-IsErased fresh_id waiting (expire fresh_id failed_store 50).1 run ((λ e. absurd (cc)), tt)
