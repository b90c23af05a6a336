-- ===== src/Tests/Store.antt =====
-- Concrete runs of internal/postgres/store.go on the tables of the transfers.
use mathlib.Core.Bool.{decide}
use nex_drop.Prelude.{
  arith, All, not, is_empty, ℕ, ◌≡◌, refl, true, false, [], ◌∷◌, List, none, some, String,
  get_elem?,
}
use nex_drop.Prelude.Int.{pos, pos_part, wrap64, ◌+ℤ◌, ◌-ℤ◌, ◌*ℤ◌}
use nex_drop.Prelude.Result.{Result, ok, err}
use nex_drop.Domain.Route.{automatic, node}
use nex_drop.Domain.Status.{
  TransferStatus, TransferStatus-discrete, is_terminal, can_transition_to, cancelled, queued,
  verifying, delivered, available_on_node,
}
use nex_drop.Transfer.Types.{
  File, Prepared, Error, store_failure, Session, Progress, Transfer, single, file,
}
use nex_drop.FileTransfer.Service.{ChunkRecord}
use nex_drop.Database.Rows.{Db, Task, TargetRow, Execution, FileRow}
use nex_drop.Database.View.{shown, get_transfer}
use nex_drop.Transfer.Prepare.{SelectedRoute-discrete}
use nex_drop.Transfer.Timeline.{event_code_for_status}
use nex_drop.Database.Sql.Rules.{Pointwise}
use nex_drop.Database.Progress.{
  Codec, stored_text, report_transfer_progress, reported_target, latest, conflicts, migrate,
  apply_progress, insert_event, deliver, set_task_status, task_status, commit_record,
}
use nex_drop.Database.Changes.{cancel_transfer, apply_cancel, is_closed, insert_cancelled}
use nex_drop.Database.Steps.{Unique}
use nex_drop.Database.Steps.Report.{Steps}
use nex_drop.Database.Calls.{Call, report, retry, cancel, hide, mark_read, after, run}
use nex_drop.Database.Calls.Lasting.{Later, after-Steps, run-Later}
use nex_drop.Database.Replay.{
  is_plain, report_transfer_progress_replay, report_transfer_progress_unreadable,
}
use nex_drop.Database.Files.{may_write, record_chunk, complete_file}
use nex_drop.Database.Quota.{
  Settings, quota_now, usage_now, usage, is_nil, node_files, enforce_transfer_quotas, add_sizes,
  check_quota, exceeds,
}
use nex_drop.Database.Quota.Limits.{
  AreInt64, IsSize, IsWithin, total_size, enforce_transfer_quotas-IsWithin,
}
use nex_drop.Database.Files.WriteOnce.{Implements, write_once, chunk_map, record_chunk-write_once}
use nex_drop.Database.Files.Revive.{complete_file-cancel_transfer}

-- One that stores a letter for every answer.
abbrev codec : Codec
codec = record {
  marshal = λ t. ok (65 ∷ []);
  jsonb = λ text. ok text;
  bytea = λ text. ok text;
  unmarshal = λ text. err "no answer";
}

abbrev hash_of : Progress → List ℕ
hash_of p = pos_part p.bytes_transferred ∷ []

abbrev resource_of : String → String → String
resource_of id device_id = device_id

abbrev new_id : ℕ → String
new_id n = "execution"

abbrev sender : Session
sender = record { id = "ann"; session_id = "s"; device_id = some "laptop" }

abbrev receiver : Session
receiver = record { id = "bob"; session_id = "r"; device_id = some "phone" }

abbrev task : Task
task = record {
  id = "t";
  sender_user_id = "ann";
  sender_device_id = "laptop";
  group_id = "";
  batch_id = "";
  idempotency_key = "k";
  fingerprint = [];
  target_type = single;
  content_type = file;
  content = [];
  status = verifying;
  created_at = 0;
  expires_at = 100;
  group_deleted = false;
}

abbrev row : String → TransferStatus → TargetRow
row device_id status = record {
  transfer_id = "t";
  device_id = device_id;
  route = node;
  status = status;
  bytes = pos 4;
  started_at = none;
  completed_at = none;
  read_at = none;
  error_code = none;
}

abbrev execution : String → TransferStatus → Execution
execution device_id status = record {
  id = device_id;
  transfer_id = "t";
  device_id = device_id;
  attempt = 1;
  status = status;
  started_at = 0;
  completed_at = none;
  error_code = none;
  idempotency_key = none;
}

abbrev upload : FileRow
upload = record {
  record_of = record {
    id = "f";
    transfer_id = "t";
    size = pos 4;
    sha256 = [];
    chunk_size = pos 4;
    chunk_count = pos 1;
    status = "UPLOADING";
    storage_path = "";
  };
  name = "a.txt";
  mime_type = "text/plain";
  completed_at = none;
  expires_at = 100;
}

abbrev tables : Db
tables = record {
  tasks = task ∷ [];
  targets = row "phone" verifying ∷ row "tablet" queued ∷ [];
  executions = execution "phone" verifying ∷ execution "tablet" queued ∷ [];
  routes = [];
  deliveries = [];
  timeline = [];
  files = upload ∷ [];
  file_targets = [];
  chunks = [];
  content_keys = [];
  records = [];
  hidden = [];
  devices = [];
  notifications = [];
  serial = 0;
  request = "";
}

abbrev arrived : Progress
arrived = record {
  idempotency_key = "k";
  device_id = "phone";
  status = delivered;
  route = node;
  bytes_transferred = pos 9;
  error_code = "";
}

tables-Unique : Unique tables.targets
tables-Unique = ((refl, tt), (tt, tt))

after-Steps_example :
    Steps tables (after codec hash_of resource_of new_id (report receiver "t" arrived 5) tables)
after-Steps_example =
    after-Steps codec hash_of resource_of new_id (report receiver "t" arrived 5) tables
      tables-Unique

abbrev calls : List Call
calls =
    report receiver "t" arrived 5
    ∷ cancel sender "t" 6
    ∷ mark_read receiver "t" 7
    ∷ retry sender "t" "tablet" "again" 8
    ∷ hide receiver "t" 9
    ∷ []

run-Later_example :
    Pointwise Later tables.targets (run codec hash_of resource_of new_id calls tables).targets
run-Later_example = run-Later codec hash_of resource_of new_id calls tables tables-Unique

abbrev chunk : ChunkRecord
chunk = record {
  file_id = "f";
  index = pos 0;
  size = pos 4;
  sha256 = 7 ∷ [];
  storage_path = "f/0";
  completed_at = 3;
}

record_chunk-write_once_example :
    Implements
      (record_chunk tables sender chunk)
      (write_once (may_write tables sender "f") (chunk_map tables) "f" (pos 0) (7 ∷ []))
record_chunk-write_once_example = record_chunk-write_once tables sender chunk

abbrev answer : Result Error Transfer → Transfer
answer (ok t) = t
answer (err e) = shown tables receiver task

abbrev reported : Result Error Transfer × Db
reported = report_transfer_progress codec hash_of resource_of receiver "t" arrived 5 tables

abbrev answer_codec : Codec
answer_codec = record codec { unmarshal = λ text. ok (answer reported.0) }

abbrev answered : Result Error Transfer × Db
answered = report_transfer_progress answer_codec hash_of resource_of receiver "t" arrived 5 tables

answered_ok : answered ≡ (ok (answer reported.0), answered.1)
unfolding report_transfer_progress reported_target latest conflicts is_terminal can_transition_to
    migrate apply_progress insert_event deliver set_task_status task_status event_code_for_status
    commit_record get_transfer decide TransferStatus-discrete SelectedRoute-discrete
answered_ok = refl

plain_text :
    (text : List ℕ) → stored_text answer_codec (answer reported.0) ≡ ok text → is_plain text ≡ true
plain_text text h = cc (h)

-- Sent again after the devices are gone.
report_transfer_progress_replay_example :
    report_transfer_progress answer_codec hash_of resource_of receiver "t" arrived 60
      (record answered.1 { devices = [] })
    ≡ (ok (answer reported.0), record answered.1 { devices = [] })
report_transfer_progress_replay_example =
    report_transfer_progress_replay answer_codec hash_of resource_of (λ text h. refl) receiver "t"
      arrived 5 60 tables answered.1 (record answered.1 { devices = [] }) (answer reported.0)
      (λ text h. refl) plain_text refl answered_ok refl

abbrev quoting_codec : Codec
quoting_codec = record codec {
  jsonb = λ text. ok (92 ∷ text);
  bytea = λ text. err "invalid input syntax for type bytea";
}

abbrev quoted : Result Error Transfer × Db
quoted = report_transfer_progress quoting_codec hash_of resource_of receiver "t" arrived 5 tables

quoted_ok : quoted ≡ (ok (answer quoted.0), quoted.1)
unfolding report_transfer_progress reported_target latest conflicts is_terminal can_transition_to
    migrate apply_progress insert_event deliver set_task_status task_status event_code_for_status
    commit_record get_transfer decide TransferStatus-discrete SelectedRoute-discrete
quoted_ok = refl

report_transfer_progress_unreadable_example :
    report_transfer_progress quoting_codec hash_of resource_of receiver "t" arrived 60 quoted.1
    ≡ (err (store_failure "invalid input syntax for type bytea"), quoted.1)
report_transfer_progress_unreadable_example =
    report_transfer_progress_unreadable quoting_codec hash_of resource_of receiver "phone" "t"
      arrived 5 60 tables quoted.1 quoted.1 (answer quoted.0) "invalid input syntax for type bytea"
      refl refl refl (λ text h. refl) quoted_ok refl

abbrev cancelled_row : TargetRow
cancelled_row = record (row "tablet" cancelled) { completed_at = some 6 }

cancelled_target : get_elem? (cancel_transfer tables sender "t" 6).1.targets 1 ≡ some cancelled_row
unfolding cancel_transfer apply_cancel is_closed insert_cancelled insert_event latest
cancelled_target = refl

complete_file-cancel_transfer_example :
    ((complete_file (cancel_transfer tables sender "t" 6).1 sender "f" "files/f" 8).0 ≡ ok tt)
    × (get_elem?
          (complete_file (cancel_transfer tables sender "t" 6).1 sender "f" "files/f" 8).1.targets
          1
        ≡ some (record cancelled_row { status = available_on_node }))
complete_file-cancel_transfer_example =
    complete_file-cancel_transfer tables sender "f" "files/f" 6 8 upload 1 cancelled_row refl
      cancelled_target refl refl

abbrev a_file : File
a_file = record {
  id = "g";
  name = "b.txt";
  mime_type = "text/plain";
  size = pos 30;
  sha256 = [];
  chunk_size = pos 30;
  chunk_count = pos 1;
  expires_at = 0;
}

abbrev prepared : Prepared
prepared = record {
  request = record {
    idempotency_key = "k";
    client_batch_id = "";
    target_type = single;
    target_device_ids = "phone" ∷ [];
    group_id = "";
    lan_available_device_ids = [];
    content_type = file;
    content = [];
    files = a_file ∷ [];
    route_mode = automatic;
    allow_large_file_via_node = false;
    wrapped_content_keys = λ id. [];
  };
  resolved_device_ids = "phone" ∷ [];
  targets = [];
  file_targets =
      record { file_index = 0; device_id = "phone"; selected_route = node; status = queued } ∷ [];
  status = queued;
  created_at = 5;
  expires_at = 100;
  request_fingerprint = [];
}

abbrev settings : Settings
settings = record {
  single_file_limit = pos 1000;
  default_user_quota = pos 1000;
  default_group_quota = pos 1000;
  node_limit = pos 1000;
  default_user_daily = pos 1000;
  default_group_daily = pos 1000;
  warning_percent = pos 80;
  stop_percent = pos 90;
}

abbrev visit : List ℕ → List ℕ
visit is = is

settings-AreInt64 : AreInt64 (quota_now settings [] sender prepared)
unfolding quota_now wrap64 ◌*ℤ◌
settings-AreInt64 = omega arith

one_node_file : is_nil (node_files prepared.file_targets) ≡ false
unfolding SelectedRoute-discrete decide
one_node_file = refl

node_sizes :
    All
      (λ i. IsSize (get_elem? prepared.request.files i))
      (visit (node_files prepared.file_targets))
unfolding SelectedRoute-discrete decide
node_sizes = omega arith

let_through_prepared : enforce_transfer_quotas visit tables settings [] sender prepared ≡ ok false
unfolding enforce_transfer_quotas add_sizes check_quota exceeds usage_now usage quota_now wrap64
    ◌*ℤ◌ ◌+ℤ◌ ◌-ℤ◌ SelectedRoute-discrete decide
let_through_prepared = refl

enforce_transfer_quotas-IsWithin_example :
    IsWithin
      (usage_now tables sender prepared)
      (quota_now settings [] sender prepared)
      (not (is_empty ""))
      (total_size prepared.request.files (visit (node_files prepared.file_targets)))
enforce_transfer_quotas-IsWithin_example =
    enforce_transfer_quotas-IsWithin visit tables settings [] sender prepared false
      settings-AreInt64 node_sizes one_node_file let_through_prepared
