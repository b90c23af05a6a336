-- ===== src/Database/Files.antt =====
-- The store of internal/filetransfer in internal/postgres/store.go, and its `ExpiredFiles` and
-- `MarkFileExpired`.
pub mod WriteOnce
pub mod Revive
use nex_drop.Prelude.{
  ℕ, suc, ◌+◌, Bool, true, false, ◌&&◌, ◌||◌, not, List, [], ◌∷◌, map, any, take, select, Option,
  none, some, String, str_eq, ltb, leb, ◌==◌, if◌then◌else◌, is_empty,
}
use nex_drop.Prelude.Int.{ℤ, pos, eq_ℤ, ltb_ℤ}
use nex_drop.Prelude.Sort.{slice_stable}
use nex_drop.Prelude.Result.{Result, ok, err}
use nex_drop.Domain.Route.{SelectedRoute, node, unset}
use nex_drop.Domain.Status.{TransferStatus, available_on_node, expired}
use nex_drop.Transfer.Types.{Session}
use nex_drop.Transfer.Timeline.{file_hash_verified, TimelineEvent}
use nex_drop.Transfer.Prepare.{route_eq}
use nex_drop.FileTransfer.Manifest.{bytes_eq}
use nex_drop.FileTransfer.Service.{
  Error, not_found, forbidden, conflict, FileRecord, ChunkRecord, Store,
}
use nex_drop.Database.Sql.{first, update, insert, equals}
use nex_drop.Database.Rows.{Db, Task, TargetRow, FileRow, FileTargetRow}
use nex_drop.Database.Progress.{insert_event, is_delivered, is_read}

-- The file of a transfer that the session sends from its device.
abbrev pub sends : Db → Session → FileRow → Bool
sends db session f =
    any
      (λ t.
        str_eq t.id f.record_of.transfer_id
        && str_eq t.sender_user_id session.id
        && equals session.device_id t.sender_device_id)
      db.tasks

abbrev pub has_status : String → FileRow → Bool
has_status status f = str_eq f.record_of.status status

abbrev pub is_node_file : Db → String → Bool
is_node_file db file_id =
    any (λ t. str_eq t.file_id file_id && route_eq t.route node) db.file_targets

abbrev pub is_chunk : String → ℤ → ChunkRecord → Bool
is_chunk file_id index c = str_eq c.file_id file_id && eq_ℤ c.index index

abbrev pub file_id_of : FileRow → String
file_id_of f = f.record_of.id

unfoldable pub prepare_chunk_upload :
    Db → Session → String → ℤ → Result Error (FileRecord × Option ChunkRecord)
prepare_chunk_upload db session file_id index =
    elim (first
      (λ f.
        str_eq (file_id_of f) file_id
        && sends db session f
        && has_status "UPLOADING" f
        && is_node_file db file_id)
      db.files) [
        | none ↦ err forbidden
        | some f ↦ ok (f.record_of, first (is_chunk file_id index) db.chunks)
      ]

-- The file into which the session may write chunks.
unfoldable pub may_write : Db → Session → String → Bool
may_write db session file_id =
    any (λ f. str_eq (file_id_of f) file_id && sends db session f && has_status "UPLOADING" f)
      db.files

-- `SELECT sha256`, where the insertion did nothing.
abbrev pub same_chunk : List ℕ → Option ChunkRecord → Result Error (Unit {0})
same_chunk hash none = err conflict
same_chunk hash (some c) = if bytes_eq c.sha256 hash then ok tt else err conflict

unfoldable pub record_chunk : Db → Session → ChunkRecord → Result Error (Unit {0}) × Db
record_chunk db session chunk =
    if may_write db session chunk.file_id
      && not (any (is_chunk chunk.file_id chunk.index) db.chunks)
    then (ok tt, record db { chunks = insert chunk db.chunks })
    else (same_chunk chunk.sha256 (first (is_chunk chunk.file_id chunk.index) db.chunks), db)

unfoldable pub open_chunk : Db → Session → String → ℤ → Result Error ChunkRecord
open_chunk db session file_id index =
    elim (first
      (λ c.
        is_chunk file_id index c
        && any
            (λ t.
              str_eq t.file_id file_id
              && equals session.device_id t.device_id
              && route_eq t.route node)
            db.file_targets)
      db.chunks) [ none ↦ err not_found | some c ↦ ok c ]

unfoldable pub prepare_file_completion :
    Db → Session → String → Result Error (FileRecord × List ChunkRecord)
prepare_file_completion db session file_id =
    elim (first
      (λ f.
        str_eq (file_id_of f) file_id
        && sends db session f
        && (has_status "UPLOADING" f || has_status "AVAILABLE_ON_NODE" f))
      db.files) [
        | none ↦ err forbidden
        | some f ↦ ok (
          f.record_of,
          slice_stable (λ a b. ltb_ℤ a.index b.index)
              (select (λ c. str_eq c.file_id file_id) db.chunks),
        )
      ]

abbrev pub is_completable : Db → Session → String → FileRow → Bool
is_completable db session file_id f =
    str_eq (file_id_of f) file_id && sends db session f && has_status "UPLOADING" f

abbrev pub completed_file : String → ℕ → FileRow → FileRow
completed_file path now f = record f {
  record_of = record f.record_of { status = "AVAILABLE_ON_NODE"; storage_path = path };
  completed_at = some now;
}

abbrev pub verified_event : String → String → ℕ → TimelineEvent
verified_event transfer_id file_id now = record {
  sequence = pos 0;
  transfer_id = transfer_id;
  code = file_hash_verified;
  request_id = "";
  file_id = file_id;
  target_device_id = "";
  execution_id = "";
  route = node;
  status = some available_on_node;
  error_code = "";
  duration_millis = pos 0;
  occurred_at = now;
}

abbrev pub is_node_target : String → TargetRow → Bool
is_node_target transfer_id r = str_eq r.transfer_id transfer_id && route_eq r.route node

abbrev pub made_available : TargetRow → TargetRow
made_available r = record r { status = available_on_node }

-- The statements after the file was found, of the transfer.
unfoldable pub apply_completion : Db → Session → String → String → String → ℕ → Db
apply_completion db session transfer_id file_id path now =
    insert_event (verified_event transfer_id file_id now) (record db {
      files = update (is_completable db session file_id) (completed_file path now) db.files;
      file_targets =
          update (λ t. str_eq t.file_id file_id && route_eq t.route node)
            (λ t. record t { status = available_on_node }) db.file_targets;
      targets = update (is_node_target transfer_id) made_available db.targets;
    })

unfoldable pub complete_file : Db → Session → String → String → ℕ → Result Error (Unit {0}) × Db
complete_file db session file_id path now =
    elim (first (is_completable db session file_id) db.files) [
      | none ↦ (err conflict, db)
      | some f ↦ (ok tt, apply_completion db session f.record_of.transfer_id file_id path now)
    ]

-- The database as the store of the file service.
abbrev pub database_store : Store Db
database_store = record {
  prepare_chunk_upload = prepare_chunk_upload;
  record_chunk = record_chunk;
  open_chunk = open_chunk;
  prepare_file_completion = prepare_file_completion;
  complete_file = complete_file;
}

-- The targets to which the node delivers the file.
abbrev pub node_targets : Db → FileRow → List TargetRow
node_targets db f =
    select
      (λ r.
        str_eq r.transfer_id f.record_of.transfer_id
        && any
            (λ t.
              str_eq t.file_id (file_id_of f)
              && route_eq t.route node
              && str_eq t.device_id r.device_id)
            db.file_targets)
      db.targets

abbrev pub later : Option ℕ → Option ℕ → Option ℕ
later none b = b
later (some a) none = some a
later (some a) (some b) = if ltb a b then some b else some a

-- `MAX(completed_at)`: null where there is none.
abbrev pub last_completion : List TargetRow → Option ℕ
last_completion [] = none
last_completion (r ∷ rs) = later r.completed_at (last_completion rs)

-- 24 hours, in nanoseconds.
abbrev pub grace : ℕ
grace = 86400000000000

abbrev pub was_before : Option ℕ → ℕ → Bool
was_before none now = false
was_before (some t) now = leb (t + grace) now

-- The condition under which a file is cleaned up.
unfoldable pub is_expired_file : Db → ℕ → FileRow → Bool
is_expired_file db now f =
    not (has_status "EXPIRED" f)
    && (leb f.expires_at now
        || (has_status "AVAILABLE_ON_NODE" f
            && is_node_file db (file_id_of f)
            && not (any (λ r. not (is_delivered r.status || is_read r.status)) (node_targets db f))
            && was_before (last_completion (node_targets db f)) now))

pub record ExpiredFile : Type 0 where
  pub id : String
  pub transfer_id : String
  pub storage_path : String
  pub chunk_paths : List String

unfoldable pub expired_files : Db → ℕ → ℕ → List ExpiredFile
expired_files db now limit =
    map
      (λ f. record {
        id = file_id_of f;
        transfer_id = f.record_of.transfer_id;
        storage_path = f.record_of.storage_path;
        chunk_paths =
            map (λ c. c.storage_path) (select (λ c. str_eq c.file_id (file_id_of f)) db.chunks);
      })
      (take limit (
        slice_stable (λ a b. ltb a.expires_at b.expires_at)
          (select (is_expired_file db now) db.files)))

abbrev pub is_expired : TransferStatus → Bool
is_expired expired = true
is_expired _ = false

abbrev pub is_live_file : String → FileRow → Bool
is_live_file file_id f = str_eq (file_id_of f) file_id && not (has_status "EXPIRED" f)

abbrev pub expired_file : FileRow → FileRow
expired_file f = record f {
  record_of = record f.record_of { status = "EXPIRED"; storage_path = "" };
  completed_at = none;
}

-- A file of the transfer that is still there for the device.
abbrev pub has_live_file : Db → String → String → Bool
has_live_file db transfer_id device_id =
    any
      (λ f.
        str_eq f.record_of.transfer_id transfer_id
        && not (has_status "EXPIRED" f)
        && any (λ t. str_eq t.file_id (file_id_of f) && str_eq t.device_id device_id)
            db.file_targets)
      db.files

-- The statements on the files, and then those on the targets and the task.
unfoldable pub expire_file : Db → String → Db
expire_file db file_id = record db {
  files = update (is_live_file file_id) expired_file db.files;
  chunks = select (λ c. not (str_eq c.file_id file_id)) db.chunks;
  file_targets =
      update (λ t. str_eq t.file_id file_id) (λ t. record t { status = expired }) db.file_targets;
}

unfoldable pub expire_targets : Db → String → ℕ → Db
expire_targets db transfer_id now =
    let targets =
      update
        (λ r. str_eq r.transfer_id transfer_id && not (has_live_file db transfer_id r.device_id))
        (λ r. record r { status = expired; completed_at = some now }) db.targets in
    record db {
      targets = targets;
      tasks =
          update
            (λ t.
              str_eq t.id transfer_id
              && not (
                  any (λ r. str_eq r.transfer_id transfer_id && not (is_expired r.status)) targets))
            (λ t. record t { status = expired }) db.tasks;
    }

unfoldable pub mark_file_expired : Db → String → ℕ → Result Error (Unit {0}) × Db
mark_file_expired db file_id now = elim (first (is_live_file file_id) db.files) [
  | none ↦ (err not_found, db)
  | some f ↦ (ok tt, expire_targets (expire_file db file_id) f.record_of.transfer_id now)
]
