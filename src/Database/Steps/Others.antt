-- ===== src/Database/Steps/Others.antt =====
-- `RetryTransferTarget`, `CancelTransfer` and `ReadTransfer` of internal/postgres/store.go as steps of the
-- targets.
use nex_drop.Prelude.{
  ℕ, Bool, true, ◌&&◌, List, ◌∷◌, [], any, Option, none, some, String, All, ◌≡◌, refl, sym, ◌∙◌,
  inl, inr, subst, Bool-cases, arith,
}
use nex_drop.Domain.Status.{TransferStatus, read, delivered, can_transition_to}
use nex_drop.Transfer.Types.{Session}
use nex_drop.Database.Sql.{first, equals}
use nex_drop.Database.Sql.Rules.{Pointwise-update, All-every}
use nex_drop.Database.Rows.{Db, TargetRow, Execution}
use nex_drop.Database.Progress.{
  is_target, is_execution, insert_event, latest, is_delivered, is_read,
}
use nex_drop.Database.Changes.{
  is_retryable, retried, apply_retry, retry_target, retry_row, retry_as, retry_transfer_target,
  is_open_target, is_open_task, cancel_target, insert_cancelled, apply_cancel, cancel_transfer,
  is_delivered_target, read_target, deliver_read, apply_read, read_row, read_by, read_transfer,
}
use nex_drop.Database.Steps.{
  moves, retries, cancels, RowStep, RowStep-refl, Unique, Only, first-Only,
}
use nex_drop.Database.Steps.Report.{Steps, Steps-refl}

retried-All :
    (now : ℕ) (test : TargetRow → Bool) (r : TargetRow) (xs : List TargetRow)
    → is_retryable r.status ≡ true
    → Only test r xs
    → All (λ x. test x ≡ true → RowStep x (retried now x)) xs
retried-All now test r [] h only = tt
retried-All now test r (x ∷ xs) h only = (
  λ e. record {
    transfer_id_eq = refl;
    device_id_eq = refl;
    status_step = retries (subst (λ y. is_retryable y.status ≡ true) (sym (only.0 e)) h) refl;
    bytes_le = ground arith;
  },
  retried-All now test r xs h only.1,
)

retry_target-first :
    (db : Db) (session : Session) (id device_id : String) (r : TargetRow)
    → retry_target db session id device_id ≡ some r
    → first (is_target id device_id) db.targets ≡ some r
unfolding retry_target
retry_target-first db session id device_id r h = ground (arith, h)

apply_retry-Steps :
    (execution_id : String) (db : Db) (id device_id key : String) (now : ℕ) (r : TargetRow)
    → is_retryable r.status ≡ true
    → Only (is_target id device_id) r db.targets
    → Steps db (apply_retry execution_id db id device_id key now)
unfolding apply_retry insert_event
apply_retry-Steps execution_id db id device_id key now r h only =
    Pointwise-update RowStep (is_target id device_id) (retried now) RowStep-refl db.targets
      (retried-All now (is_target id device_id) r db.targets h only)

module _ (new_id : ℕ → String) where
  retry_row-Steps :
      (db : Db) (session : Session) (id device_id key : String) (now : ℕ) (o : Option TargetRow)
      → Unique db.targets
      → retry_target db session id device_id ≡ o
      → Steps db (retry_row new_id db session id device_id key now o).1
  retry_row-Steps db session id device_id key now none u h = Steps-refl db
  retry_row-Steps db session id device_id key now (some r) u h =
      elim (Bool-cases
        (any (λ e. is_execution id device_id e && equals e.idempotency_key key) db.executions)) [
          | inl y ↦ rw y (Steps-refl db)
          | inr n ↦ rw n (elim (Bool-cases (is_retryable r.status)) [
            | inl y ↦ rw y (
                apply_retry-Steps (new_id db.serial) db id device_id key now r y (
                  first-Only id device_id r db.targets u
                    (retry_target-first db session id device_id r h)))
            | inr m ↦ rw m (Steps-refl db)
          ])
        ]

  retry_as-Steps :
      (o : Option String) (db : Db) (session : Session) (id device_id key : String) (now : ℕ)
      → Unique db.targets
      → Steps db (retry_as new_id o db session id device_id key now).1
  retry_as-Steps none db session id device_id key now u = Steps-refl db
  retry_as-Steps (some actor) db session id device_id key now u =
      retry_row-Steps db session id device_id key now (retry_target db session id device_id) u refl

  pub retry_transfer_target-Steps :
      (db : Db) (session : Session) (id device_id key : String) (now : ℕ)
      → Unique db.targets
      → Steps db (retry_transfer_target new_id db session id device_id key now).1
  unfolding retry_transfer_target
  retry_transfer_target-Steps db session id device_id key now u =
      retry_as-Steps session.device_id db session id device_id key now u

insert_cancelled_lem :
    (id : String) (now : ℕ) (rs : List TargetRow) (db : Db)
    → (insert_cancelled id now rs db).targets ≡ db.targets
unfolding insert_cancelled insert_event
insert_cancelled_lem id now [] db = refl
insert_cancelled_lem id now (r ∷ rs) db = insert_cancelled_lem id now rs _ ∙ ground arith

cancel_target-RowStep :
    (id : String) (now : ℕ) (x : TargetRow)
    → is_open_target id x ≡ true
    → RowStep x (cancel_target now x)
cancel_target-RowStep id now x h = record {
  transfer_id_eq = refl;
  device_id_eq = refl;
  status_step = cancels (ground (arith, h)) refl;
  bytes_le = ground arith;
}

pub cancel_transfer-Steps :
    (db : Db) (session : Session) (id : String) (now : ℕ)
    → Steps db (cancel_transfer db session id now).1
unfolding cancel_transfer apply_cancel
cancel_transfer-Steps db session id now =
    elim (Bool-cases (any (is_open_task session id) db.tasks)) [
      | inl y ↦
          rw (y, insert_cancelled_lem)
            (Pointwise-update RowStep (is_open_target id) (cancel_target now) RowStep-refl
              db.targets (All-every (cancel_target-RowStep id now) db.targets))
      | inr n ↦ rw n (Steps-refl db)
    ]

delivered_path : (s : TransferStatus) → is_delivered s ≡ true → can_transition_to s read ≡ true
unfolding can_transition_to
delivered_path delivered h = refl
delivered_path _ h = absurd (cc (h))

read_target-RowStep :
    (id device_id : String) (now : ℕ) (x : TargetRow)
    → is_delivered_target id device_id x ≡ true
    → RowStep x (read_target now x)
read_target-RowStep id device_id now x h = record {
  transfer_id_eq = refl;
  device_id_eq = refl;
  status_step = moves (delivered_path x.status (ground (arith, h)));
  bytes_le = ground arith;
}

deliver_read_lem :
    (id device_id : String) (now : ℕ) (db : Db)
    → (deliver_read id device_id now db).targets ≡ db.targets
unfolding deliver_read
deliver_read_lem id device_id now db = ground arith

apply_read-Steps :
    (db : Db) (id device_id : String) (now : ℕ) (e : Execution)
    → Steps db (apply_read db id device_id now e)
unfolding apply_read insert_event
apply_read-Steps db id device_id now e = rw deliver_read_lem (
    Pointwise-update RowStep (is_delivered_target id device_id) (read_target now) RowStep-refl
      db.targets (All-every (read_target-RowStep id device_id now) db.targets))

read_row-Steps :
    (o : Option Execution) (db : Db) (session : Session) (id device_id : String) (now : ℕ)
    → Steps db (read_row o db session id device_id now).1
read_row-Steps none db session id device_id now = Steps-refl db
read_row-Steps (some e) db session id device_id now = apply_read-Steps db id device_id now e

read_by-Steps :
    (o : Option String) (db : Db) (session : Session) (id : String) (now : ℕ)
    → Steps db (read_by o db session id now).1
read_by-Steps none db session id now = Steps-refl db
read_by-Steps (some device_id) db session id now =
    elim (Bool-cases (any (is_delivered_target id device_id) db.targets)) [
      | inl y ↦ rw y (read_row-Steps (latest db id device_id) db session id device_id now)
      | inr n ↦
          rw n
            (elim (Bool-cases
              (any (λ r. is_target id device_id r && is_read r.status) db.targets)) [
                | inl y ↦ rw y (Steps-refl db)
                | inr m ↦ rw m (Steps-refl db)
              ])
    ]

pub read_transfer-Steps :
    (db : Db) (session : Session) (id : String) (now : ℕ)
    → Steps db (read_transfer db session id now).1
unfolding read_transfer
read_transfer-Steps db session id now = read_by-Steps session.device_id db session id now
