-- ===== src/Pairing.antt =====
-- internal/pairing/service.go: codes of six digits that pair a new device. A code is its bytes. The hash, the
-- random number, the composition of the QR payload and the time are parameters; so is the store.
pub mod Codes
pub mod Attempts
pub mod Once
use nex_drop.Prelude.{
  ℕ, ◌+◌, ◌-◌, ◌/◌, ◌%◌, Bool, true, false, ◌&&◌, ◌||◌, not, List, [], ◌∷◌, all, length, Option,
  none, some, String, is_empty, leb, ◌==◌, if◌then◌else◌,
}
use nex_drop.Prelude.Result.{Result, ok, err}
use nex_drop.Transfer.Types.{Session}

pub data Error : Type 0 where
  invalid_code expired used locked : Error
  device_invalid device_not_found device_forbidden : Error
  other_error : String → Error

pub data TrustStatus : Type 0 where
  pending trusted revoked : TrustStatus
  other_trust : String → TrustStatus

-- The columns of a device that `scanDevice` reads.
pub record Device : Type 0 where
  pub id : String
  pub display_name : String
  pub device_type : String
  pub public_key : List ℕ
  pub algorithm : String
  pub trust_status : TrustStatus
  pub revoked_at : Option ℕ
  pub created_at : ℕ

pub record Challenge : Type 0 where
  pub id : String
  pub device_id : String
  pub code : List ℕ
  pub expires_at : ℕ
  pub qr_payload : String

pub record Store (W : Type 0) : Type 0 where
  pub create_pairing_code : W → Session → String → List ℕ → ℕ → ℕ → Result Error String × W
  pub redeem_pairing_code : W → Session → String → String → List ℕ → ℕ → ℕ → Result Error Device × W

-- 10 minutes, in nanoseconds.
abbrev pub code_lifetime : ℕ
code_lifetime = 600000000000

abbrev pub maximum_code_attempts : ℕ
maximum_code_attempts = 5

abbrev pub digit : ℕ → ℕ
digit n = b'0' + n % 10

-- `%06d` of a number below a million, as `rand.Int` gives it, or its error.
unfoldable pub new_code : Result String ℕ → Result Error (List ℕ)
new_code (err e) = err (other_error e)
new_code (ok n) = ok (
    digit (n / 100000)
    ∷ digit (n / 10000)
    ∷ digit (n / 1000)
    ∷ digit (n / 100)
    ∷ digit (n / 10)
    ∷ digit n
    ∷ [])

abbrev pub is_digit : ℕ → Bool
is_digit c = leb b'0' c && leb c b'9'

-- The tests of `Redeem` on a code.
unfoldable pub is_code : List ℕ → Bool
is_code code = length code == 6 && all is_digit code

module _ {W : Type 0} (store : Store W) (hash_code : List ℕ → List ℕ)
    (qr_of : String → String → List ℕ → String) where
  abbrev pub challenged : String → List ℕ → ℕ → Result Error String × W → Result Error Challenge × W
  challenged device_id code expires_at (err e, w) = (err e, w)
  challenged device_id code expires_at (ok id, w) = (
    ok (record {
      id = id;
      device_id = device_id;
      code = code;
      expires_at = expires_at;
      qr_payload = qr_of id device_id code;
    }),
    w,
  )

  abbrev pub create_with :
      W → Session → String → ℕ → Result Error (List ℕ) → Result Error Challenge × W
  create_with w session device_id now (err e) = (err e, w)
  create_with w session device_id now (ok code) =
      challenged device_id code (now + code_lifetime)
        (store.create_pairing_code w session device_id (hash_code code) (now + code_lifetime) now)

  unfoldable pub create : W → Session → String → Result String ℕ → ℕ → Result Error Challenge × W
  create w session device_id random now =
      if is_empty device_id
      then (err device_invalid, w)
      else create_with w session device_id now (new_code random)

  unfoldable pub redeem : W → Session → String → String → List ℕ → ℕ → Result Error Device × W
  redeem w session device_id challenge_id code now =
      if is_empty device_id || is_empty challenge_id || not (is_code code)
      then (err invalid_code, w)
      else store.redeem_pairing_code w session device_id challenge_id (hash_code code) now
          maximum_code_attempts
