-- ===== src/Transfer/Types.antt =====
-- The data of internal/transfer/service.go. A time is the number of nanoseconds since year 1, which
-- is Go's zero time; a map of byte slices is a function that is empty at a missing key.
use nex_drop.Prelude.{String, ℕ, Bool, List, Option}
use nex_drop.Prelude.Int.{ℤ}
use nex_drop.Domain.Route.{RouteMode, SelectedRoute}
use nex_drop.Domain.Status.{TransferStatus}

pub data Error : Type 0 where
  invalid not_found forbidden file_too_large quota_exceeded storage_full : Error
  conflict idempotency_conflict : Error
  store_failure : String → Error

pub data ContentType : Type 0 where
  text url image file notification : ContentType
  other_content : String → ContentType

pub data TargetType : Type 0 where
  single multiple all_devices group_all group_selected : TargetType
  other_target : String → TargetType

-- `ID`, `MIMEType` and `ExpiresAt` are carried along only.
pub record File : Type 0 where
  pub id : String
  pub name : String
  pub mime_type : String
  pub size : ℤ
  pub sha256 : List ℕ
  pub chunk_size : ℤ
  pub chunk_count : ℤ
  pub expires_at : ℕ

pub record Request : Type 0 where
  pub idempotency_key : String
  pub client_batch_id : String
  pub target_type : TargetType
  pub target_device_ids : List String
  pub group_id : String
  pub lan_available_device_ids : List String
  pub content_type : ContentType
  pub content : List ℕ
  pub files : List File
  pub route_mode : RouteMode
  pub allow_large_file_via_node : Bool
  pub wrapped_content_keys : String → List ℕ

pub record Target : Type 0 where
  pub device_id : String
  pub selected_route : SelectedRoute
  pub status : TransferStatus
  pub bytes_transferred : ℤ

pub record FileTarget : Type 0 where
  pub file_index : ℕ
  pub device_id : String
  pub selected_route : SelectedRoute
  pub status : TransferStatus

pub record Prepared : Type 0 where
  pub request : Request
  pub open request use *
  pub resolved_device_ids : List String
  pub targets : List Target
  pub file_targets : List FileTarget
  pub status : TransferStatus
  pub created_at : ℕ
  pub expires_at : ℕ
  pub request_fingerprint : List ℕ

pub record Transfer : Type 0 where
  pub id : String
  pub batch_id : String
  pub sender_user_id : String
  pub sender_device_id : String
  pub target_type : TargetType
  pub group_id : String
  pub content_type : ContentType
  pub content : List ℕ
  pub files : List File
  pub targets : List Target
  pub file_targets : List FileTarget
  pub wrapped_content_keys : String → List ℕ
  pub status : TransferStatus
  pub created_at : ℕ
  pub expires_at : ℕ

pub record PageKey : Type 0 where
  pub id : String
  pub created_at : ℕ

pub record PageOptions : Type 0 where
  pub limit : ℤ
  pub cursor : PageKey
  pub from_time : ℕ
  pub to_time : ℕ
  pub status : TransferStatus

pub record Page : Type 0 where
  pub items : List Transfer
  pub next_cursor : String
  pub next_page_key : PageKey

pub record Progress : Type 0 where
  pub idempotency_key : String
  pub device_id : String
  pub status : TransferStatus
  pub route : SelectedRoute
  pub bytes_transferred : ℤ
  pub error_code : String

-- The part of internal/auth's `Session` that this package reads; a session of the web client has no
-- device.
pub record Session : Type 0 where
  pub id : String
  pub session_id : String
  pub device_id : Option String
