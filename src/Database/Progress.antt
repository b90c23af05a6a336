-- ===== src/Database/Progress.antt =====
-- `ReportTransferProgress`, `completeIdempotencyRecord` and `insertTransferTimelineEvent` of
-- internal/postgres/store.go. The hash of the encoded report is a parameter, and so are the
-- conversions of the answer that a key keeps: Go's JSON and PostgreSQL's casts.
use nex_drop.Prelude.{
  ℕ, suc, Bool, true, false, ◌&&◌, ◌||◌, not, List, [], ◌∷◌, any, length, select, Option, none,
  some, String, str_eq, is_empty, ltb, ◌==◌, if◌then◌else◌,
}
use nex_drop.Prelude.Int.{pos, ltb_ℤ}
use nex_drop.Prelude.Result.{Result, ok, err, ◌>>=◌, ◌>>◌, refuse}
use nex_drop.Domain.Route.{SelectedRoute}
use nex_drop.Domain.Status.{
  TransferStatus, status_eq, is_terminal, can_transition_to, checking_route, delivered, read,
  failed, cancelled, expired, source_file_missing, source_file_changed,
}
use nex_drop.Transfer.Types.{
  Error, forbidden, conflict, idempotency_conflict, store_failure, Session, Transfer, Progress,
}
use nex_drop.Transfer.Prepare.{route_eq}
use nex_drop.Transfer.Service.{or_else}
use nex_drop.Transfer.Timeline.{EventCode, route_migrated, TimelineEvent, event_code_for_status}
use nex_drop.FileTransfer.Manifest.{bytes_eq}
use nex_drop.Database.Sql.{first, update, insert, coalesce, null_if_empty}
use nex_drop.Database.Rows.{Db, TargetRow, Execution, Delivery, IdempotencyRecord}
use nex_drop.Database.View.{get_transfer}

abbrev pub is_target : String → String → TargetRow → Bool
is_target transfer_id device_id r = str_eq r.transfer_id transfer_id && str_eq r.device_id device_id

abbrev pub is_execution : String → String → Execution → Bool
is_execution transfer_id device_id e =
    str_eq e.transfer_id transfer_id && str_eq e.device_id device_id

abbrev pub later_of : Execution → Option Execution → Option Execution
later_of e none = some e
later_of e (some f) = if ltb e.attempt f.attempt then some f else some e

-- `ORDER BY attempt DESC LIMIT 1`.
abbrev pub latest_of : List Execution → Option Execution
latest_of [] = none
latest_of (e ∷ es) = later_of e (latest_of es)

unfoldable pub latest : Db → String → String → Option Execution
latest db transfer_id device_id =
    latest_of (select (is_execution transfer_id device_id) db.executions)

abbrev pub is_delivered : TransferStatus → Bool
is_delivered delivered = true
is_delivered _ = false

abbrev pub is_read : TransferStatus → Bool
is_read read = true
is_read _ = false

abbrev pub is_failed : TransferStatus → Bool
is_failed failed = true
is_failed _ = false

abbrev pub is_given_up : TransferStatus → Bool
is_given_up failed = true
is_given_up cancelled = true
is_given_up expired = true
is_given_up _ = false

abbrev pub is_source_problem : TransferStatus → Bool
is_source_problem source_file_missing = true
is_source_problem source_file_changed = true
is_source_problem _ = false

abbrev pub is_checking_route : TransferStatus → Bool
is_checking_route checking_route = true
is_checking_route _ = false

unfoldable pub insert_event : TimelineEvent → Db → Db
insert_event event db = record db {
  timeline =
      insert (record event { sequence = pos (suc (length db.timeline)); request_id = db.request })
        db.timeline;
}

abbrev pub event_of :
    String
    → String
    → String
    → EventCode
    → SelectedRoute
    → TransferStatus
    → String
    → ℕ
    → TimelineEvent
event_of transfer_id device_id execution_id code route status error_code now = record {
  sequence = pos 0;
  transfer_id = transfer_id;
  code = code;
  request_id = "";
  file_id = "";
  target_device_id = device_id;
  execution_id = execution_id;
  route = route;
  status = some status;
  error_code = error_code;
  duration_millis = pos 0;
  occurred_at = now;
}

-- The event of a status, if it has one.
abbrev pub insert_status_event : Option EventCode → (EventCode → TimelineEvent) → Db → Db
insert_status_event none event db = db
insert_status_event (some code) event db = insert_event (event code) db

-- The row that the transaction locks, with its task and its latest execution.
unfoldable pub reported_target : Db → String → String → String → Option (TargetRow × Execution)
reported_target db transfer_id device_id actor =
    elim (first (λ t. str_eq t.id transfer_id) db.tasks) [
      | none ↦ none
      | some t ↦ elim (first (is_target transfer_id device_id) db.targets) [
        | none ↦ none
        | some r ↦ elim (latest db transfer_id device_id) [
          | none ↦ none
          | some e ↦
              if str_eq actor r.device_id || str_eq actor t.sender_device_id
              then some (r, e)
              else none
        ]
      ]
    ]

abbrev pub is_repeated : TransferStatus → TransferStatus → Bool
is_repeated current next = status_eq current next && (is_terminal current || is_delivered current)

-- The conditions under which a report conflicts with the status of its target.
unfoldable pub conflicts : TransferStatus → TransferStatus → Bool
conflicts current next =
    is_terminal current
    || (is_delivered current && not (is_read next))
    || (is_source_problem current && is_checking_route next)
    || (not (status_eq current next) && not (can_transition_to current next))

-- The statements on `transfer_routes` where the route changes, and the event.
unfoldable pub migrate : String → Progress → SelectedRoute → SelectedRoute → Execution → ℕ → Db → Db
migrate transfer_id p current next e now db =
    if route_eq next current
    then db
    else insert_event (event_of transfer_id p.device_id e.id route_migrated next p.status "" now)
        (record db {
          routes =
              insert
                (record {
                  transfer_id = transfer_id;
                  device_id = p.device_id;
                  route = next;
                  started_at = now;
                  ended_at = none;
                })
                (update
                  (λ r.
                    str_eq r.transfer_id transfer_id
                    && str_eq r.device_id p.device_id
                    && is_open r.ended_at)
                  (λ r. record r { ended_at = some now }) db.routes);
        })
  where
    is_open : Option ℕ → Bool
    is_open none = true
    is_open (some t) = false

abbrev pub completion_of : TransferStatus → ℕ → Option ℕ
completion_of s now = if is_delivered s || is_read s || is_failed s then some now else none

abbrev pub progressed : Progress → SelectedRoute → ℕ → TargetRow → TargetRow
progressed p next now r = record r {
  route = next;
  status = p.status;
  bytes = if ltb_ℤ r.bytes p.bytes_transferred then p.bytes_transferred else r.bytes;
  started_at = coalesce r.started_at (some now);
  completed_at = coalesce (completion_of p.status now) r.completed_at;
  read_at = if is_read p.status then some now else r.read_at;
  error_code = null_if_empty p.error_code;
}

abbrev pub executed : Progress → ℕ → Execution → Execution
executed p now e = record e {
  status = p.status;
  completed_at = if is_read p.status || is_given_up p.status then some now else e.completed_at;
  error_code = null_if_empty p.error_code;
}

abbrev pub is_delivery : String → String → Delivery → Bool
is_delivery transfer_id device_id d =
    str_eq d.transfer_id transfer_id && str_eq d.device_id device_id

-- `INSERT INTO delivery_status … ON CONFLICT … DO UPDATE`.
unfoldable pub deliver : String → Progress → ℕ → Db → Db
deliver transfer_id p now db =
    let read_time = if is_read p.status then some now else none in
    if not (is_delivered p.status || is_read p.status)
    then db
    else if any (is_delivery transfer_id p.device_id) db.deliveries
    then record db {
      deliveries =
          update (is_delivery transfer_id p.device_id)
            (λ d. record d {
              delivered_at = coalesce d.delivered_at (some now);
              read_at = coalesce d.read_at read_time;
            })
            db.deliveries;
    }
    else record db {
      deliveries =
          insert
            (record {
              transfer_id = transfer_id;
              device_id = p.device_id;
              delivered_at = some now;
              read_at = read_time;
            })
            db.deliveries;
    }

-- `NOT EXISTS` a target of the task that fails the test.
abbrev pub all_targets : (TransferStatus → Bool) → String → List TargetRow → Bool
all_targets p transfer_id targets =
    not (any (λ r. str_eq r.transfer_id transfer_id && not (p r.status)) targets)

-- The `CASE` that sets the status of the task.
unfoldable pub task_status :
    String → List TargetRow → TransferStatus → TransferStatus → TransferStatus
task_status transfer_id targets reported old =
    if all_targets is_read transfer_id targets
    then read
    else if all_targets (λ s. is_delivered s || is_read s) transfer_id targets
    then delivered
    else if all_targets is_given_up transfer_id targets
    then failed
    else if is_delivered reported || is_read reported || is_failed reported
    then old
    else reported

unfoldable pub set_task_status : String → TransferStatus → Db → Db
set_task_status transfer_id reported db = record db {
  tasks =
      update (λ t. str_eq t.id transfer_id)
        (λ t. record t { status = task_status transfer_id db.targets reported t.status }) db.tasks;
}

abbrev pub status_event :
    String → Progress → TransferStatus → SelectedRoute → Execution → ℕ → Db → Db
status_event transfer_id p current next e now db =
    if status_eq current p.status
    then db
    else insert_status_event (event_code_for_status p.status)
        (λ code. event_of transfer_id p.device_id e.id code next p.status p.error_code now) db

-- All the statements of an accepted report.
unfoldable pub apply_progress : String → Progress → TargetRow → Execution → ℕ → Db → Db
apply_progress transfer_id p r e now db =
    let next = or_else p.route r.route in
    let moved = migrate transfer_id p r.route next e now db in
    let stored = record moved {
      targets = update (is_target transfer_id p.device_id) (progressed p next now) moved.targets;
    } in
    let noted = status_event transfer_id p r.status next e now stored in
    let run = record noted {
      executions =
          update (λ x. is_execution transfer_id p.device_id x && x.attempt == e.attempt)
            (executed p now) noted.executions;
    } in
    set_task_status transfer_id p.status (deliver transfer_id p now run)

abbrev pub is_record : String → String → String → IdempotencyRecord → Bool
is_record device_id resource key r =
    str_eq r.device_id device_id && str_eq r.resource resource && str_eq r.key key

abbrev pub new_record : Session → String → String → String → List ℕ → IdempotencyRecord
new_record session device_id resource key hash = record {
  user_id = session.id;
  device_id = device_id;
  resource = resource;
  key = key;
  hash = hash;
  response = none;
}

-- `INSERT INTO idempotency_records … 'PROCESSING'`, where the report has a key.
abbrev pub begin_record : Session → String → String → String → List ℕ → Db → Db
begin_record session device_id resource key hash db =
    if is_empty key
    then db
    else record db { records = insert (new_record session device_id resource key hash) db.records }

abbrev pub is_processing : Option (List ℕ) → Bool
is_processing none = true
is_processing (some text) = false

-- `json.Marshal`, the text that a value of type `jsonb` prints, `::text::bytea` and `json.Unmarshal`.
pub record Codec : Type 0 where
  pub marshal : Transfer → Result String (List ℕ)
  pub jsonb : List ℕ → Result String (List ℕ)
  pub bytea : List ℕ → Result String (List ℕ)
  pub unmarshal : List ℕ → Result String Transfer

abbrev pub failing {ℓ} : {A : Type ℓ} → Result String A → Result Error A
failing (ok a) = ok a
failing (err e) = err (store_failure e)

-- The answer as it stands in the record.
abbrev pub stored_text : Codec → Transfer → Result Error (List ℕ)
stored_text codec t = do encoded ← failing (codec.marshal t); failing (codec.jsonb encoded)

abbrev pub is_open_record : String → String → String → List ℕ → IdempotencyRecord → Bool
is_open_record device_id resource key hash r =
    is_record device_id resource key r && bytes_eq r.hash hash && is_processing r.response

-- The update of `completeIdempotencyRecord`, with the encoded answer.
abbrev pub store_answer :
    String
    → String
    → String
    → List ℕ
    → Db
    → Db
    → Transfer
    → Result Error (List ℕ)
    → Result Error Transfer × Db
store_answer device_id resource key hash old db t (err e) = (err e, old)
store_answer device_id resource key hash old db t (ok text) =
    if length (select (is_open_record device_id resource key hash) db.records) == 1
    then (
      ok t,
      record db {
        records =
            update (is_open_record device_id resource key hash)
              (λ r. record r { response = some text }) db.records;
      },
    )
    else (err idempotency_conflict, old)

-- `completeIdempotencyRecord` and the commit.
unfoldable pub commit_record :
    Codec
    → String
    → String
    → String
    → List ℕ
    → Db
    → Db
    → Result Error Transfer
    → Result Error Transfer × Db
commit_record codec device_id resource key hash old db (err e) = (err e, old)
commit_record codec device_id resource key hash old db (ok t) =
    if is_empty key
    then (ok t, db)
    else store_answer device_id resource key hash old db t (stored_text codec t)

-- The answer of a key that was used before. The query casts the answer, so that a text that is no `bytea` fails
-- before anything is compared.
abbrev pub replay : Codec → List ℕ → IdempotencyRecord → Result Error Transfer
replay codec hash r = elim r.response [
  | none ↦ err idempotency_conflict
  | some text ↦ (do
    body ← failing (codec.bytea text)
    refuse (not (bytes_eq r.hash hash)) idempotency_conflict
    failing (codec.unmarshal body))
]

abbrev pub used_record : String → String → String → Db → Option IdempotencyRecord
used_record device_id resource key db =
    if is_empty key then none else first (is_record device_id resource key) db.records

module _ (codec : Codec) (hash_of : Progress → List ℕ)
    (resource_of : String → String → String) where
  -- From the locked row on, on the tables with the begun record.
  abbrev pub report_target :
      String
      → Session
      → String
      → Progress
      → ℕ
      → Db
      → Db
      → Option (TargetRow × Execution)
      → Result Error Transfer × Db
  report_target actor session id p now old db none = (err forbidden, old)
  report_target actor session id p now old db (some (r, e)) =
      let commit =
        commit_record codec actor (resource_of id p.device_id) p.idempotency_key (hash_of p) old in
      if is_repeated r.status p.status
      then commit db (get_transfer db session id)
      else if conflicts r.status p.status
      then (err conflict, old)
      else let done = apply_progress id p r e now db in commit done (get_transfer done session id)

  abbrev pub report_with :
      String
      → Session
      → String
      → Progress
      → ℕ
      → Db
      → Option IdempotencyRecord
      → Result Error Transfer × Db
  report_with actor session id p now db (some r) = (replay codec (hash_of p) r, db)
  report_with actor session id p now db none =
      let begun =
        begin_record session actor (resource_of id p.device_id) p.idempotency_key (hash_of p) db in
      report_target actor session id p now db begun (reported_target begun id p.device_id actor)

  abbrev pub report_as :
      Option String → Session → String → Progress → ℕ → Db → Result Error Transfer × Db
  report_as none session id p now db = (err forbidden, db)
  report_as (some actor) session id p now db =
      report_with actor session id p now db
        (used_record actor (resource_of id p.device_id) p.idempotency_key db)

  unfoldable pub report_transfer_progress :
      Session → String → Progress → ℕ → Db → Result Error Transfer × Db
  report_transfer_progress session id p now db = report_as session.device_id session id p now db
