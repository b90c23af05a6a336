-- ===== src/Recovery/Classify/Meaning.antt =====
-- Each classification of internal/recovery/coordinator.go means what it says.
use nex_drop.Prelude.{
  String, ◌≡◌, inl, inr, false, Option, none, some, is_empty, eq_iff, arith, refl, Bool-cases,
}
use nex_drop.Transfer.Validate.Chunks.{is_empty_iff}
use nex_drop.Recovery.Classify.{
  Outcome, stable_error, classify_code, is_transient, is_fatal, is_offline, is_ambiguous, classify,
  Means,
}

empty_code : (is_transient "" ≡ false) × (is_fatal "" ≡ false)
unfolding is_transient is_fatal
empty_code = (refl, refl)

none_code : (is_transient "NONE" ≡ false) × (is_fatal "NONE" ≡ false)
unfolding is_transient is_fatal
none_code = (refl, refl)

failed_code : (is_transient "RECOVERY_FAILED" ≡ false) × (is_fatal "RECOVERY_FAILED" ≡ false)
unfolding is_transient is_fatal
failed_code = (refl, refl)

code-Means :
    (previous : String) (o : Outcome) (e : Option String)
    → is_offline previous o ≡ false
    → is_ambiguous previous o ≡ false
    → Means previous o e (classify_code (stable_error o e) e)
unfolding classify_code stable_error
code-Means previous o none a b = elim (Bool-cases (is_empty o.error_code)) [
  | inl i ↦ rw i (ground (arith, is_empty_iff o.error_code, empty_code, none_code))
  | inr i ↦ rw i (ground (arith, eq_iff o.error_code "STALE_LOCK"))
]
code-Means previous o (some e) a b = elim (Bool-cases (is_empty o.error_code)) [
  | inl i ↦ rw i (ground (arith, is_empty_iff o.error_code, empty_code, failed_code))
  | inr i ↦ rw i (ground (arith, eq_iff o.error_code "STALE_LOCK"))
]

pub classify-Means :
    (previous : String) (o : Outcome) (e : Option String)
    → Means previous o e (classify previous o e)
unfolding classify
classify-Means previous o e = elim (Bool-cases (o.completed)) [
  | inl c ↦ ground (arith, code-Means previous o e)
  | inr c ↦ ground (arith, code-Means previous o e)
]
