-- ===== src/Database/Changes.antt =====
-- `RetryTransferTarget`, `CancelTransfer`, `HideTransfer` and `ReadTransfer` of
-- internal/postgres/store.go. The identifier that the database generates for the next row is a
-- parameter.
use nex_drop.Prelude.{
  ℕ, suc, ◌+◌, Bool, true, false, ◌&&◌, ◌||◌, not, List, [], ◌∷◌, any, select, Option, none, some,
  String, str_eq, ltb, ◌==◌, if◌then◌else◌,
}
use nex_drop.Prelude.Result.{Result, ok, err}
use nex_drop.Domain.Route.{unset}
use nex_drop.Domain.Status.{
  TransferStatus, checking_route, delivered, read, failed, cancelled, expired, paused,
  source_file_missing, source_file_changed,
}
use nex_drop.Transfer.Types.{Error, forbidden, conflict, store_failure, Session, Transfer}
use nex_drop.Transfer.Timeline.{retry_started, target_cancelled, target_read}
use nex_drop.Transfer.Service.{is_none}
use nex_drop.Database.Sql.{first, update, insert, equals}
use nex_drop.Database.Rows.{Db, Task, TargetRow, Execution, Hidden}
use nex_drop.Database.View.{get_transfer}
use nex_drop.Database.Progress.{
  is_target, is_execution, latest, insert_event, event_of, is_delivery, is_delivered, is_read,
}

abbrev pub is_sender : Session → String → Task → Bool
is_sender session id t = str_eq t.id id && str_eq t.sender_user_id session.id

-- The statuses that are retried.
unfoldable pub is_retryable : TransferStatus → Bool
is_retryable failed = true
is_retryable paused = true
is_retryable source_file_missing = true
is_retryable source_file_changed = true
is_retryable _ = false

-- `NOT IN ('DELIVERED', 'READ', 'FAILED', 'CANCELLED', 'EXPIRED')` fails.
unfoldable pub is_closed : TransferStatus → Bool
is_closed delivered = true
is_closed read = true
is_closed failed = true
is_closed cancelled = true
is_closed expired = true
is_closed _ = false

-- `COALESCE(MAX(attempt), 0)`.
abbrev pub max_attempt : List Execution → ℕ
max_attempt [] = 0
max_attempt (e ∷ es) = let rest = max_attempt es in if ltb rest e.attempt then e.attempt else rest

abbrev pub retried : ℕ → TargetRow → TargetRow
retried now r = record r {
  status = checking_route;
  started_at = some now;
  completed_at = none;
  read_at = none;
  error_code = none;
}

abbrev pub new_execution : String → Db → String → String → String → ℕ → Execution
new_execution execution_id db id device_id key now = record {
  id = execution_id;
  transfer_id = id;
  device_id = device_id;
  attempt = max_attempt (select (is_execution id device_id) db.executions) + 1;
  status = checking_route;
  started_at = now;
  completed_at = none;
  error_code = none;
  idempotency_key = some key;
}

-- The statements of an accepted retry.
unfoldable pub apply_retry : String → Db → String → String → String → ℕ → Db
apply_retry execution_id db id device_id key now =
    let started = record db {
      executions = insert (new_execution execution_id db id device_id key now) db.executions;
      serial = suc db.serial;
    } in
    let noted =
      insert_event (event_of id device_id execution_id retry_started unset checking_route "" now)
        started in
    record noted {
      targets = update (is_target id device_id) (retried now) noted.targets;
      tasks = update (λ t. str_eq t.id id) (λ t. record t { status = checking_route }) noted.tasks;
    }

-- The target that the user may retry.
unfoldable pub retry_target : Db → Session → String → String → Option TargetRow
retry_target db session id device_id =
    if any (is_sender session id) db.tasks then first (is_target id device_id) db.targets else none

module _ (new_id : ℕ → String) where
  abbrev pub retry_row :
      Db → Session → String → String → String → ℕ → Option TargetRow → Result Error Transfer × Db
  retry_row db session id device_id key now none = (err forbidden, db)
  retry_row db session id device_id key now (some r) =
      let done = apply_retry (new_id db.serial) db id device_id key now in
      if any (λ e. is_execution id device_id e && equals e.idempotency_key key) db.executions
      then (get_transfer db session id, db)
      else if not (is_retryable r.status)
      then (err conflict, db)
      else (get_transfer done session id, done)

  abbrev pub retry_as :
      Option String → Db → Session → String → String → String → ℕ → Result Error Transfer × Db
  retry_as none db session id device_id key now = (err forbidden, db)
  retry_as (some actor) db session id device_id key now =
      retry_row db session id device_id key now (retry_target db session id device_id)

  unfoldable pub retry_transfer_target :
      Db → Session → String → String → String → ℕ → Result Error Transfer × Db
  retry_transfer_target db session id device_id key now =
      retry_as session.device_id db session id device_id key now

abbrev pub is_open_target : String → TargetRow → Bool
is_open_target id r = str_eq r.transfer_id id && not (is_closed r.status)

abbrev pub cancel_target : ℕ → TargetRow → TargetRow
cancel_target now r = record r { status = cancelled; completed_at = some now }

-- The id of the latest execution, or null.
abbrev pub latest_id : Db → String → String → String
latest_id db id device_id = elim (latest db id device_id) [ none ↦ "" | some e ↦ e.id ]

abbrev pub is_cancelled : TransferStatus → Bool
is_cancelled cancelled = true
is_cancelled _ = false

-- `INSERT INTO transfer_timeline_events … SELECT`.
unfoldable pub insert_cancelled : String → ℕ → List TargetRow → Db → Db
insert_cancelled id now [] db = db
insert_cancelled id now (r ∷ rs) db = insert_cancelled id now rs (
    if str_eq r.transfer_id id && is_cancelled r.status
    then insert_event
        (event_of id r.device_id (latest_id db id r.device_id) target_cancelled r.route cancelled ""
          now)
        db
    else db)

abbrev pub is_file_of : Db → String → String → Bool
is_file_of db id file_id =
    any (λ f. str_eq f.record_of.id file_id && str_eq f.record_of.transfer_id id) db.files

abbrev pub is_open_task : Session → String → Task → Bool
is_open_task session id t = is_sender session id t && not (is_closed t.status)

-- The statements of an accepted cancellation.
unfoldable pub apply_cancel : Db → Session → String → ℕ → Db
apply_cancel db session id now =
    let stored = record db {
      tasks = update (is_open_task session id) (λ t. record t { status = cancelled }) db.tasks;
      targets = update (is_open_target id) (cancel_target now) db.targets;
      file_targets =
          update (λ t. is_file_of db id t.file_id && not (is_closed t.status))
            (λ t. record t { status = cancelled }) db.file_targets;
    } in
    insert_cancelled id now stored.targets stored

unfoldable pub cancel_transfer : Db → Session → String → ℕ → Result Error Transfer × Db
cancel_transfer db session id now =
    let done = apply_cancel db session id now in
    if any (is_open_task session id) db.tasks
    then (get_transfer done session id, done)
    else (err forbidden, db)

abbrev pub may_hide : Db → Session → Task → Bool
may_hide db session t =
    not t.group_deleted
    && (str_eq t.sender_user_id session.id
        || (not (is_none session.device_id)
            && any
                (λ r.
                  str_eq r.transfer_id t.id
                  && any (λ d. str_eq d.id r.device_id && str_eq d.user_id session.id) db.devices)
                db.targets))

abbrev pub is_hidden : Session → String → Hidden → Bool
is_hidden session id h = str_eq h.transfer_id id && str_eq h.user_id session.id

unfoldable pub hide_transfer : Db → Session → String → ℕ → Result Error (Unit {0}) × Db
hide_transfer db session id now =
    if any (is_hidden session id) db.hidden
    then (ok tt, db)
    else if any (λ t. str_eq t.id id && may_hide db session t) db.tasks
    then (
      ok tt,
      record db {
        hidden =
            insert (record { transfer_id = id; user_id = session.id; hidden_at = now }) db.hidden;
      },
    )
    else (err forbidden, db)

abbrev pub is_delivered_target : String → String → TargetRow → Bool
is_delivered_target id device_id r = is_target id device_id r && is_delivered r.status

abbrev pub read_target : ℕ → TargetRow → TargetRow
read_target now r = record r { status = read; read_at = some now }

-- `INSERT INTO delivery_status … ON CONFLICT … DO UPDATE SET read_at`.
unfoldable pub deliver_read : String → String → ℕ → Db → Db
deliver_read id device_id now db =
    if any (is_delivery id device_id) db.deliveries
    then record db {
      deliveries =
          update (is_delivery id device_id) (λ d. record d { read_at = some now }) db.deliveries;
    }
    else record db {
      deliveries =
          insert
            (record {
              transfer_id = id;
              device_id = device_id;
              delivered_at = some now;
              read_at = some now;
            })
            db.deliveries;
    }

-- The statements of an accepted reading, with the latest execution.
unfoldable pub apply_read : Db → String → String → ℕ → Execution → Db
apply_read db id device_id now e =
    let stored = deliver_read id device_id now (record db {
      targets = update (is_delivered_target id device_id) (read_target now) db.targets;
    }) in
    insert_event (event_of id device_id e.id target_read unset read "" now) (record stored {
      executions =
          update (λ x. is_execution id device_id x && x.attempt == e.attempt)
            (λ x. record x { status = read; completed_at = some now }) stored.executions;
    })

abbrev pub read_row :
    Option Execution → Db → Session → String → String → ℕ → Result Error Transfer × Db
read_row none db session id device_id now = (err (store_failure "no rows in result set"), db)
read_row (some e) db session id device_id now =
    let done = apply_read db id device_id now e in (get_transfer done session id, done)

abbrev pub read_by : Option String → Db → Session → String → ℕ → Result Error Transfer × Db
read_by none db session id now = (err forbidden, db)
read_by (some device_id) db session id now =
    if any (is_delivered_target id device_id) db.targets
    then read_row (latest db id device_id) db session id device_id now
    else if any (λ r. is_target id device_id r && is_read r.status) db.targets
    then (get_transfer db session id, db)
    else (err forbidden, db)

unfoldable pub read_transfer : Db → Session → String → ℕ → Result Error Transfer × Db
read_transfer db session id now = read_by session.device_id db session id now
