-- ===== src/Lifecycle/Tokens.antt =====
-- The signed cursors and tombstones of internal/messagelifecycle/lifecycle.go. Signatures and JSON are
-- parameters; the time of a tombstone is a number of nanoseconds since 1970.
pub mod RoundTrip
use nex_drop.Prelude.{
  ℕ, ◌+◌, ◌*◌, ◌/◌, Bool, true, false, ◌&&◌, ◌||◌, not, List, [], ◌∷◌, Option, none, some, String,
  is_empty, ltb, if◌then◌else◌,
}
use nex_drop.Prelude.Int.{ℤ, pos, leb_ℤ, eq_ℤ}
use nex_drop.Prelude.Result.{Result, ok, err}
use nex_drop.Token.{Signing, split_dots, payload_in, signed}
use nex_drop.Lifecycle.{Cursor, is_zero}

pub data Error : Type 0 where
  invalid_cursor invalid_tombstone expired_tombstone : Error

-- `CursorCodec`.
pub record CursorCodec : Type 0 where
  pub secret : List ℕ
  pub label : List ℕ
  pub signing : Signing
  pub marshal : Cursor → List ℕ
  pub unmarshal : List ℕ → Option Cursor

abbrev pub is_void : Cursor → Bool
is_void c = is_empty c.id || is_zero c.time

unfoldable pub encode : CursorCodec → Cursor → Result Error (List ℕ)
encode codec c =
    if is_void c
    then err invalid_cursor
    else ok (signed codec.signing codec.secret codec.label (codec.marshal c))

abbrev pub checked_cursor : Option Cursor → Result Error Cursor
checked_cursor none = err invalid_cursor
checked_cursor (some c) = if is_void c then err invalid_cursor else ok c

abbrev pub decode_payload : CursorCodec → Option (List ℕ) → Result Error Cursor
decode_payload codec none = err invalid_cursor
decode_payload codec (some payload) = checked_cursor (codec.unmarshal payload)

unfoldable pub decode : CursorCodec → List ℕ → Result Error Cursor
decode codec value =
    decode_payload codec (payload_in codec.signing codec.secret codec.label (split_dots value))

pub data DeleteScope : Type 0 where
  local_only attachment_body_only all_devices : DeleteScope
  other_scope : String → DeleteScope

abbrev pub valid_delete_scope : DeleteScope → Bool
valid_delete_scope (other_scope s) = false
valid_delete_scope _ = true

pub record Tombstone : Type 0 where
  pub version : ℤ
  pub message_id : String
  pub scope : DeleteScope
  pub issued_at : ℕ
  pub expires_at : ℕ
  pub actor_id : String

pub record TombstoneSigner : Type 0 where
  pub secret : List ℕ
  pub label : List ℕ
  pub signing : Signing
  pub marshal : Tombstone → List ℕ
  pub unmarshal : List ℕ → Option Tombstone

-- 1 second, in nanoseconds.
abbrev pub second : ℕ
second = 1000000000

abbrev pub span : ℤ → ℕ
span (pos n) = n
span _ = 0

abbrev pub tombstone_of : String → String → DeleteScope → ℤ → ℕ → Tombstone
tombstone_of message_id actor_id scope ttl now = record {
  version = pos 1;
  message_id = message_id;
  scope = scope;
  issued_at = now / second;
  expires_at = (now + span ttl) / second;
  actor_id = actor_id;
}

unfoldable pub issue :
    TombstoneSigner → String → String → DeleteScope → ℤ → ℕ → Result Error (List ℕ)
issue signer message_id actor_id scope ttl now =
    if is_empty message_id
      || is_empty actor_id
      || not (valid_delete_scope scope)
      || leb_ℤ ttl (pos 0)
    then err invalid_tombstone
    else ok (
        signed signer.signing signer.secret signer.label
          (signer.marshal (tombstone_of message_id actor_id scope ttl now)))

abbrev pub checked_tombstone : ℕ → Option Tombstone → Result Error Tombstone
checked_tombstone now none = err invalid_tombstone
checked_tombstone now (some t) =
    if not (eq_ℤ t.version (pos 1))
      || is_empty t.message_id
      || is_empty t.actor_id
      || not (valid_delete_scope t.scope)
    then err invalid_tombstone
    else if ltb (t.expires_at * second) now
    then err expired_tombstone
    else ok t

abbrev pub verify_payload : TombstoneSigner → ℕ → Option (List ℕ) → Result Error Tombstone
verify_payload signer now none = err invalid_tombstone
verify_payload signer now (some payload) = checked_tombstone now (signer.unmarshal payload)

unfoldable pub verify : TombstoneSigner → List ℕ → ℕ → Result Error Tombstone
verify signer value now =
    verify_payload signer now
      (payload_in signer.signing signer.secret signer.label (split_dots value))
