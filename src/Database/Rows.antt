-- ===== src/Database/Rows.antt =====
-- The tables of the transfers (migrations/), as far as internal/postgres/store.go reads or writes them
-- for a transfer. A time is a number of nanoseconds; an identifier is a text.
use nex_drop.Prelude.{ℕ, Bool, String, List, Option}
use nex_drop.Prelude.Int.{ℤ}
use nex_drop.Domain.Route.{SelectedRoute}
use nex_drop.Domain.Status.{TransferStatus}
use nex_drop.Transfer.Types.{ContentType, TargetType}
use nex_drop.Transfer.Timeline.{TimelineEvent}
use nex_drop.FileTransfer.Service.{FileRecord, ChunkRecord}

-- `transfer_tasks`, with the content of its row in `messages`.
pub record Task : Type 0 where
  pub id : String
  pub sender_user_id : String
  pub sender_device_id : String
  pub group_id : String
  pub batch_id : String
  pub idempotency_key : String
  pub fingerprint : List ℕ
  pub target_type : TargetType
  pub content_type : ContentType
  pub content : List ℕ
  pub status : TransferStatus
  pub created_at : ℕ
  pub expires_at : ℕ
  pub group_deleted : Bool

-- `transfer_targets`.
pub record TargetRow : Type 0 where
  pub transfer_id : String
  pub device_id : String
  pub route : SelectedRoute
  pub status : TransferStatus
  pub bytes : ℤ
  pub started_at : Option ℕ
  pub completed_at : Option ℕ
  pub read_at : Option ℕ
  pub error_code : Option String

-- `transfer_executions`.
pub record Execution : Type 0 where
  pub id : String
  pub transfer_id : String
  pub device_id : String
  pub attempt : ℕ
  pub status : TransferStatus
  pub started_at : ℕ
  pub completed_at : Option ℕ
  pub error_code : Option String
  pub idempotency_key : Option String

-- `transfer_routes`; its target is named by the transfer and the device.
pub record RouteRow : Type 0 where
  pub transfer_id : String
  pub device_id : String
  pub route : SelectedRoute
  pub started_at : ℕ
  pub ended_at : Option ℕ

-- `delivery_status`.
pub record Delivery : Type 0 where
  pub transfer_id : String
  pub device_id : String
  pub delivered_at : Option ℕ
  pub read_at : Option ℕ

-- `files`.
pub record FileRow : Type 0 where
  pub record_of : FileRecord
  pub name : String
  pub mime_type : String
  pub completed_at : Option ℕ
  pub expires_at : ℕ

-- `transfer_file_targets`.
pub record FileTargetRow : Type 0 where
  pub file_id : String
  pub device_id : String
  pub route : SelectedRoute
  pub status : TransferStatus

-- `transfer_content_keys`.
pub record ContentKey : Type 0 where
  pub transfer_id : String
  pub device_id : String
  pub key : List ℕ

-- `idempotency_records`: the response, null while the record is `PROCESSING`, is the text that
-- its `jsonb` prints.
pub record IdempotencyRecord : Type 0 where
  pub user_id : String
  pub device_id : String
  pub resource : String
  pub key : String
  pub hash : List ℕ
  pub response : Option (List ℕ)

-- `devices`, as far as a transfer depends on it.
pub record DeviceRow : Type 0 where
  pub id : String
  pub user_id : String
  pub trusted : Bool
  pub revoked : Bool

-- `transfer_hidden_users`.
pub record Hidden : Type 0 where
  pub transfer_id : String
  pub user_id : String
  pub hidden_at : ℕ

-- The chunks are all `COMPLETE`. `serial` counts the identifiers that were generated, and `request` is
-- the request id that the context of the running call carries.
pub record Db : Type 0 where
  pub tasks : List Task
  pub targets : List TargetRow
  pub executions : List Execution
  pub routes : List RouteRow
  pub deliveries : List Delivery
  pub timeline : List TimelineEvent
  pub files : List FileRow
  pub file_targets : List FileTargetRow
  pub chunks : List ChunkRecord
  pub content_keys : List ContentKey
  pub records : List IdempotencyRecord
  pub hidden : List Hidden
  pub devices : List DeviceRow
  pub notifications : List (String × String)
  pub serial : ℕ
  pub request : String
