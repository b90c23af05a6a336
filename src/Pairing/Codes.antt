-- ===== src/Pairing/Codes.antt =====
-- `CreatePairingCode` and `RedeemPairingCode` of internal/postgres/store.go, over the tables that they read
-- and write. A transaction that returns early changes nothing, but a wrong code is counted.
use nex_drop.Prelude.{
  ℕ, suc, ◌+◌, Bool, true, false, ◌&&◌, not, List, any, Option, none, some, String, str_eq, leb,
  if◌then◌else◌,
}
use nex_drop.Prelude.Result.{Result, ok, err}
use nex_drop.Transfer.Types.{Session}
use nex_drop.FileTransfer.Manifest.{bytes_eq}
use nex_drop.Database.Sql.{first, update, insert, equals, is_null}
use nex_drop.Pairing.{
  Error, invalid_code, expired, used, locked, device_not_found, device_forbidden, TrustStatus,
  pending, trusted, Device, Store,
}

-- `devices`, with the user, and the row of `device_keys`, if there is one.
pub record DeviceRow : Type 0 where
  pub id : String
  pub user_id : String
  pub display_name : String
  pub device_type : String
  pub key : Option (List ℕ × String)
  pub trust : TrustStatus
  pub revoked_at : Option ℕ
  pub created_at : ℕ

-- `user_sessions`.
pub record SessionRow : Type 0 where
  pub id : String
  pub device_id : Option String
  pub revoked_at : Option ℕ

-- `device_pairing_codes`.
pub record CodeRow : Type 0 where
  pub id : String
  pub target_device_id : String
  pub session_id : String
  pub code_hash : List ℕ
  pub attempt_count : ℕ
  pub expires_at : ℕ
  pub used_at : Option ℕ
  pub created_at : ℕ

pub record Tables : Type 0 where
  pub devices : List DeviceRow
  pub sessions : List SessionRow
  pub codes : List CodeRow
  pub serial : ℕ

abbrev pub is_pending : TrustStatus → Bool
is_pending pending = true
is_pending _ = false

abbrev pub is_trusted : TrustStatus → Bool
is_trusted trusted = true
is_trusted _ = false

-- A device that waits, not revoked.
abbrev pub is_waiting : String → DeviceRow → Bool
is_waiting device_id d = str_eq d.id device_id && is_pending d.trust && is_null d.revoked_at

abbrev pub is_session_of : Session → String → SessionRow → Bool
is_session_of session device_id s =
    str_eq s.id session.session_id && equals s.device_id device_id && is_null s.revoked_at

module _ (new_id : ℕ → String) where
  unfoldable pub create_pairing_code :
      Tables → Session → String → List ℕ → ℕ → ℕ → Result Error String × Tables
  create_pairing_code t session device_id hash expires_at now =
      if any (is_waiting device_id) t.devices && any (is_session_of session device_id) t.sessions
      then (
        ok (new_id t.serial),
        record t {
          codes =
              insert
                (record {
                  id = new_id t.serial;
                  target_device_id = device_id;
                  session_id = session.session_id;
                  code_hash = hash;
                  attempt_count = 0;
                  expires_at = expires_at;
                  used_at = none;
                  created_at = now;
                })
                t.codes;
          serial = suc t.serial;
        },
      )
      else (err device_forbidden, t)

-- The trusted device of the session, and its user.
unfoldable pub actor_of : Tables → Session → String → Option DeviceRow
actor_of t session device_id =
    if any (is_session_of session device_id) t.sessions
    then first (λ d. str_eq d.id device_id && is_trusted d.trust && is_null d.revoked_at) t.devices
    else none

abbrev pub is_target_of : String → String → DeviceRow → Bool
is_target_of user_id id d = str_eq d.id id && str_eq d.user_id user_id && is_null d.revoked_at

-- The code, whose device belongs to the user.
abbrev pub is_challenge : Tables → String → String → CodeRow → Bool
is_challenge t challenge_id user_id c =
    str_eq c.id challenge_id && any (is_target_of user_id c.target_device_id) t.devices

unfoldable pub code_of : Tables → String → String → Option (CodeRow × DeviceRow)
code_of t challenge_id user_id = elim (first (is_challenge t challenge_id user_id) t.codes) [
  | none ↦ none
  | some c ↦ elim (first (is_target_of user_id c.target_device_id) t.devices) [
    | none ↦ none
    | some d ↦ some (c, d)
  ]
]

abbrev pub has_id : String → CodeRow → Bool
has_id id c = str_eq c.id id

-- `scanDevice`.
abbrev pub scan_device : DeviceRow → List ℕ × String → Device
scan_device d k = record {
  id = d.id;
  display_name = d.display_name;
  device_type = d.device_type;
  public_key = k.0;
  algorithm = k.1;
  trust_status = d.trust;
  revoked_at = d.revoked_at;
  created_at = d.created_at;
}

abbrev pub trust : DeviceRow → DeviceRow
trust d = record d { trust = trusted }

abbrev pub counted : Tables → String → ℕ → Tables
counted t challenge_id n = record t {
  codes = update (has_id challenge_id) (λ c. record c { attempt_count = n }) t.codes;
}

-- The two updates after the right code.
abbrev pub accepted : Tables → String → String → ℕ → Tables
accepted t challenge_id target_id now = record t {
  codes = update (has_id challenge_id) (λ c. record c { used_at = some now }) t.codes;
  devices = update (is_waiting target_id) trust t.devices;
}

-- `UPDATE devices … RETURNING`.
abbrev pub trusted_device :
    Tables → String → String → ℕ → Option DeviceRow → Result Error Device × Tables
trusted_device t challenge_id target_id now none = (err device_not_found, t)
trusted_device t challenge_id target_id now (some d) = elim d.key [
  | none ↦ (err device_not_found, t)
  | some k ↦ (ok (scan_device (trust d) k), accepted t challenge_id target_id now)
]

-- From the locked row on.
abbrev pub redeem_row :
    Tables → String → List ℕ → ℕ → ℕ → Option (CodeRow × DeviceRow) → Result Error Device × Tables
redeem_row t challenge_id hash now maximum none = (err invalid_code, t)
redeem_row t challenge_id hash now maximum (some (c, d)) =
    if not (is_null c.used_at)
    then (err used, t)
    else if not (is_pending d.trust)
    then (err invalid_code, t)
    else if leb c.expires_at now
    then (err expired, t)
    else if leb maximum c.attempt_count
    then (err locked, t)
    else if not (bytes_eq c.code_hash hash)
    then (
      err (if leb maximum (c.attempt_count + 1) then locked else invalid_code),
      counted t challenge_id (c.attempt_count + 1),
    )
    else trusted_device t challenge_id c.target_device_id now
        (first (is_waiting c.target_device_id) t.devices)

abbrev pub redeem_as :
    Option DeviceRow → Tables → String → List ℕ → ℕ → ℕ → Result Error Device × Tables
redeem_as none t challenge_id hash now maximum = (err device_forbidden, t)
redeem_as (some actor) t challenge_id hash now maximum =
    redeem_row t challenge_id hash now maximum (code_of t challenge_id actor.user_id)

unfoldable pub redeem_pairing_code :
    Tables → Session → String → String → List ℕ → ℕ → ℕ → Result Error Device × Tables
redeem_pairing_code t session device_id challenge_id hash now maximum =
    redeem_as (actor_of t session device_id) t challenge_id hash now maximum

-- The database as the store of the pairing service.
abbrev pub pairing_store : (ℕ → String) → Store Tables
pairing_store new_id = record {
  create_pairing_code = create_pairing_code new_id;
  redeem_pairing_code = redeem_pairing_code;
}
