-- ===== src/Delivery.antt =====
-- internal/delivery/policy.go: the decision to download an item now, and the order of the items.
pub mod Permitted
pub mod Order
use nex_drop.Prelude.{
  String, Bool, true, false, not, ◌&&◌, ◌||◌, if◌then◌else◌, List, Option, none, some, ℕ, arith,
  str_lt, str_eq,
}
use nex_drop.Prelude.Int.{ℤ, pos, ltb_ℤ, leb_ℤ, eq_ℤ}
use nex_drop.Prelude.Sort.{slice_stable}

pub data State : Type 0 where
  queued metadata_available waiting_device waiting_network waiting_power downloading : State
  paused_system delivered read expired cancelled : State

-- `expires_at` is none for the zero time; a time is an integer of nanoseconds.
pub record Policy : Type 0 where
  pub expires_at : Option ℤ
  pub wifi_only : Bool
  pub charging_only : Bool
  pub max_mobile_data_size : ℤ
  pub automatic_download : Bool
  pub foreground_only : Bool

pub record Environment : Type 0 where
  pub now : ℤ
  pub online : Bool
  pub wifi : Bool
  pub metered : Bool
  pub charging : Bool
  pub foreground : Bool
  pub storage_bytes : ℤ
  pub low_battery : Bool
  pub thermal_high : Bool

-- A priority is its number: 0 deferred, 1 normal, 2 urgent.
pub record Item : Type 0 where
  pub id : String
  pub priority : ℤ
  pub size : ℤ
  pub created_at : ℤ
  pub policy : Policy
  pub metadata_synchronized : Bool

pub record Decision : Type 0 where
  pub state : State
  pub metadata_only : Bool
  pub reason_code : String

abbrev pub decide : State → Bool → String → Decision
decide s only code = record { state = s; metadata_only = only; reason_code = code }

abbrev pub is_expired : Option ℤ → ℤ → Bool
is_expired none now = false
is_expired (some t) now = not (ltb_ℤ now t)

unfoldable pub evaluate : Item → Environment → Decision
evaluate item environment =
    if is_expired item.policy.expires_at environment.now
    then decide expired false "CONTENT_EXPIRED"
    else if not environment.online
    then decide waiting_device true "DEVICE_OFFLINE"
    else if not item.metadata_synchronized
    then decide metadata_available true "METADATA_FIRST"
    else if not item.policy.automatic_download
    then decide metadata_available true "AUTOMATIC_DOWNLOAD_DISABLED"
    else if item.policy.foreground_only && not environment.foreground
    then decide paused_system true "FOREGROUND_REQUIRED"
    else if item.policy.wifi_only && not environment.wifi
    then decide waiting_network true "WIFI_REQUIRED"
    else if environment.metered
        && leb_ℤ (pos 0) item.policy.max_mobile_data_size
        && ltb_ℤ item.policy.max_mobile_data_size item.size
    then decide waiting_network true "MOBILE_DATA_LIMIT"
    else if item.policy.charging_only && not environment.charging
    then decide waiting_power true "CHARGING_REQUIRED"
    else if environment.low_battery || environment.thermal_high
    then decide paused_system true "SYSTEM_RESOURCE_LIMIT"
    else if leb_ℤ (pos 0) environment.storage_bytes && ltb_ℤ environment.storage_bytes item.size
    then decide paused_system true "INSUFFICIENT_STORAGE"
    else decide downloading false ""

abbrev pub bool_eq : Bool → Bool → Bool
bool_eq true b = b
bool_eq false b = not b

-- The comparison of `Order`.
unfoldable pub before : Item → Item → Bool
before i j =
    if not (bool_eq i.metadata_synchronized j.metadata_synchronized)
    then not i.metadata_synchronized
    else if not (eq_ℤ i.priority j.priority)
    then ltb_ℤ j.priority i.priority
    else if not (eq_ℤ i.size j.size)
    then ltb_ℤ i.size j.size
    else if not (eq_ℤ i.created_at j.created_at)
    then ltb_ℤ i.created_at j.created_at
    else str_lt i.id j.id

unfoldable pub order : List Item → List Item
order items = slice_stable before items
