-- ===== src/Recovery/Classify.antt =====
-- `Classify` and `stableError` of internal/recovery/coordinator.go.
pub mod Meaning
use nex_drop.Prelude.{
  String, ◌≡◌, ◌↔◌, ◌⊎◌, Bool, true, false, not, ◌&&◌, ◌||◌, Option, none, some, is_empty, str_eq,
  if◌then◌else◌, arith, refl,
}

-- `unclassified` is the empty string.
pub data Classification : Type 0 where
  retry_immediately retry_with_backoff wait_for_receiver reconcile_state : Classification
  terminal_failure unclassified : Classification

pub record Outcome : Type 0 where
  pub completed : Bool
  pub receiver_offline : Bool
  pub inconsistent : Bool
  pub repaired : Bool
  pub error_code : String

abbrev pub is_nil_error : Option String → Bool
is_nil_error none = true
is_nil_error (some e) = false

unfoldable pub stable_error : Outcome → Option String → String
stable_error outcome e =
    if not (is_empty outcome.error_code)
    then outcome.error_code
    else if is_nil_error e
    then "NONE"
    else "RECOVERY_FAILED"

unfoldable pub is_transient : String → Bool
is_transient code =
    str_eq code "DATABASE_UNAVAILABLE"
    || str_eq code "NETWORK_UNAVAILABLE"
    || str_eq code "TIMEOUT"
    || str_eq code "NODE_RESTARTED"

unfoldable pub is_fatal : String → Bool
is_fatal code =
    str_eq code "INVALID_MANIFEST"
    || str_eq code "HASH_MISMATCH"
    || str_eq code "PERMISSION_DENIED"
    || str_eq code "DEVICE_REVOKED"
    || str_eq code "STORAGE_QUOTA_EXHAUSTED"

-- The `switch` on the code.
unfoldable pub classify_code : String → Option String → Classification
classify_code code e =
    if is_transient code
    then retry_with_backoff
    else if str_eq code "STALE_LOCK"
    then retry_immediately
    else if is_fatal code
    then terminal_failure
    else if not (is_nil_error e)
    then retry_with_backoff
    else terminal_failure

unfoldable pub is_offline : String → Outcome → Bool
is_offline previous outcome =
    outcome.receiver_offline
    || str_eq previous "RECEIVER_OFFLINE"
    || str_eq outcome.error_code "RECEIVER_OFFLINE"

unfoldable pub is_ambiguous : String → Outcome → Bool
is_ambiguous previous outcome =
    outcome.inconsistent || str_eq previous "MISSING_CHUNK" || str_eq previous "LOST_ACK"

unfoldable pub classify : String → Outcome → Option String → Classification
classify previous outcome e =
    if outcome.completed && is_nil_error e
    then unclassified
    else if is_offline previous outcome
    then wait_for_receiver
    else if is_ambiguous previous outcome
    then reconcile_state
    else classify_code (stable_error outcome e) e

-- The meaning of each classification.
abbrev pub Means : String → Outcome → Option String → Classification → Type 0
Means previous o e unclassified = (o.completed ≡ true) × (e ≡ none)
Means previous o e wait_for_receiver =
    ((o.completed ≡ false) ⊎ (is_nil_error e ≡ false)) × (is_offline previous o ≡ true)
Means previous o e reconcile_state =
    (is_offline previous o ≡ false) × (is_ambiguous previous o ≡ true)
Means previous o e retry_immediately =
    (is_offline previous o ≡ false)
    × (is_ambiguous previous o ≡ false)
    × (o.error_code ≡ "STALE_LOCK")
Means previous o e retry_with_backoff =
    (is_offline previous o ≡ false)
    × (is_ambiguous previous o ≡ false)
    × ((is_transient o.error_code ≡ true)
        ⊎ ((is_nil_error e ≡ false) × (is_fatal o.error_code ≡ false)))
Means previous o e terminal_failure =
    (is_offline previous o ≡ false)
    × (is_ambiguous previous o ≡ false)
    × ((is_fatal o.error_code ≡ true) ⊎ (is_nil_error e ≡ true))
