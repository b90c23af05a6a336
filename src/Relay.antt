-- ===== src/Relay.antt =====
-- internal/relay/pool.go: the choice of a relay and the grants that a relay accepts. The comparison of the
-- floating-point scores is the parameter `scores_higher`, signatures and JSON are parameters, and a time is a
-- number of nanoseconds since 1970.
pub mod Grants
use nex_drop.Prelude.{
  ℕ, ◌+◌, ◌*◌, ◌/◌, Bool, true, false, ◌&&◌, ◌||◌, not, List, [], ◌∷◌, ◌++◌, select, length, Option,
  none, some, String, str_eq, str_lt, is_empty, ltb, ◌==◌, if◌then◌else◌,
}
use nex_drop.Prelude.Int.{ℤ, pos, ◌-ℤ◌, ltb_ℤ, leb_ℤ, eq_ℤ, wrap64}
use nex_drop.Prelude.Sort.{slice_stable}
use nex_drop.Prelude.Result.{Result, ok, err}
use nex_drop.FileTransfer.Manifest.{bytes_eq}
use nex_drop.Token.{Signing, dot, split_dots, signature, is_signed, signed}

pub data Error : Type 0 where
  no_relay invalid_grant expired_grant : Error
  other_error : String → Error

pub record Relay : Type 0 where
  pub id : String
  pub endpoint : String
  pub region : String
  pub healthy : Bool
  pub draining : Bool
  pub capacity_bytes : ℤ
  pub used_bytes : ℤ
  pub latency : ℤ

unfoldable pub is_eligible : ℤ → Relay → Bool
is_eligible required r = not (
    is_empty r.id
    || is_empty r.endpoint
    || not r.healthy
    || r.draining
    || ltb_ℤ required (pos 0)
    || ltb_ℤ (wrap64 (r.capacity_bytes -ℤ r.used_bytes)) required)

abbrev pub head_or_none : List Relay → Result Error Relay
head_or_none [] = err no_relay
head_or_none (r ∷ rs) = ok r

-- The first in the order by scores, and by identifiers where the scores are equal.
unfoldable pub select_relay : (Relay → Relay → Bool) → List Relay → ℤ → Result Error Relay
select_relay scores_higher relays required = head_or_none (
    slice_stable
      (λ a b.
        if scores_higher a b then true else if scores_higher b a then false else str_lt a.id b.id)
      (select (is_eligible required) relays))

pub data Operation : Type 0 where
  upload download delete : Operation
  other_operation : String → Operation

abbrev pub valid_operation : Operation → Bool
valid_operation (other_operation s) = false
valid_operation _ = true

abbrev pub operation_eq : Operation → Operation → Bool
operation_eq upload upload = true
operation_eq download download = true
operation_eq delete delete = true
operation_eq (other_operation a) (other_operation b) = str_eq a b
operation_eq _ _ = false

pub record GrantClaims : Type 0 where
  pub version : ℤ
  pub relay_id : String
  pub transfer_id : String
  pub file_id : String
  pub operation : Operation
  pub max_bytes : ℤ
  pub expires_at : ℕ
  pub nonce : String

-- 1 second and 1 hour, in nanoseconds.
abbrev pub second : ℕ
second = 1000000000

abbrev pub hour : ℕ
hour = 3600000000000

-- `v1`.
abbrev pub version_part : List ℕ
version_part = b'v' ∷ b'1' ∷ []

-- What the signer has and calls: the secret, the signatures, JSON, `strings.TrimSpace(…) == ""`.
pub record Signer : Type 0 where
  pub secret : List ℕ
  pub label : List ℕ
  pub signing : Signing
  pub marshal : GrantClaims → List ℕ
  pub unmarshal : List ℕ → Option GrantClaims
  pub is_blank : String → Bool

-- What a grant is asked for.
pub record Asked : Type 0 where
  pub relay_id : String
  pub transfer_id : String
  pub file_id : String
  pub operation : Operation

unfoldable pub may_issue : Signer → Asked → ℤ → ℤ → Bool
may_issue signer a max_bytes ttl = not (
    signer.is_blank a.relay_id
    || signer.is_blank a.transfer_id
    || signer.is_blank a.file_id
    || not (valid_operation a.operation)
    || ltb_ℤ max_bytes (pos 0)
    || leb_ℤ ttl (pos 0)
    || ltb_ℤ (pos hour) ttl)

abbrev pub span : ℤ → ℕ
span (pos n) = n
span _ = 0

abbrev pub claims_of : Asked → ℤ → ℤ → ℕ → String → GrantClaims
claims_of a max_bytes ttl now nonce = record {
  version = pos 1;
  relay_id = a.relay_id;
  transfer_id = a.transfer_id;
  file_id = a.file_id;
  operation = a.operation;
  max_bytes = max_bytes;
  expires_at = (now + span ttl) / second;
  nonce = nonce;
}

-- `Issue`, with the random nonce, or the error of the random source.
abbrev pub issue_with : Signer → Asked → ℤ → ℤ → ℕ → Result String String → Result Error (List ℕ)
issue_with signer a max_bytes ttl now (err e) = err (other_error e)
issue_with signer a max_bytes ttl now (ok nonce) = ok (
    version_part
    ++ dot
      ∷ signed signer.signing signer.secret signer.label
          (signer.marshal (claims_of a max_bytes ttl now nonce)))

unfoldable pub issue : Signer → Asked → ℤ → ℤ → ℕ → Result String String → Result Error (List ℕ)
issue signer a max_bytes ttl now random =
    if may_issue signer a max_bytes ttl
    then issue_with signer a max_bytes ttl now random
    else err invalid_grant

-- The tests on the claims.
unfoldable pub check_claims : Asked → ℤ → ℕ → GrantClaims → Result Error GrantClaims
check_claims a requested now c =
    if not (eq_ℤ c.version (pos 1)) || is_empty c.nonce || not (valid_operation c.operation)
    then err invalid_grant
    else if ltb (c.expires_at * second) now
    then err expired_grant
    else if not (str_eq c.relay_id a.relay_id)
        || not (str_eq c.transfer_id a.transfer_id)
        || not (str_eq c.file_id a.file_id)
        || not (operation_eq c.operation a.operation)
        || ltb_ℤ requested (pos 0)
        || ltb_ℤ c.max_bytes requested
    then err invalid_grant
    else ok c

abbrev pub check_payload : Signer → Asked → ℤ → ℕ → Option (List ℕ) → Result Error GrantClaims
check_payload signer a requested now none = err invalid_grant
check_payload signer a requested now (some payload) = elim (signer.unmarshal payload) [
  | none ↦ err invalid_grant
  | some c ↦ check_claims a requested now c
]

abbrev pub verify_parts : Signer → Asked → ℤ → ℕ → List (List ℕ) → Result Error GrantClaims
verify_parts signer a requested now (v ∷ value ∷ given ∷ []) =
    if not (bytes_eq v version_part)
      || not (is_signed signer.signing signer.secret signer.label value given)
    then err invalid_grant
    else check_payload signer a requested now (signer.signing.decode64 value)
verify_parts signer a requested now _ = err invalid_grant

unfoldable pub verify : Signer → List ℕ → Asked → ℤ → ℕ → Result Error GrantClaims
verify signer token a requested now = verify_parts signer a requested now (split_dots token)
