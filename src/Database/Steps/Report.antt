-- ===== src/Database/Steps/Report.antt =====
-- `ReportTransferProgress` of internal/postgres/store.go as steps of the targets.
use nex_drop.Prelude.{
  ℕ, Bool, true, false, List, ◌∷◌, [], Option, none, some, String, All, ◌≡◌, refl, sym, ap, ◌∙◌,
  inl, inr, Bool-cases, arith, is_empty, length, select, ◌==◌, subst,
}
use mathlib.Core.Bool.{decide}
use nex_drop.Prelude.Result.{Result, ok, err}
use nex_drop.Domain.Route.{SelectedRoute}
use nex_drop.Domain.Status.{TransferStatus, TransferStatus-discrete, can_transition_to, status_eq}
use nex_drop.Transfer.Types.{Error, Session, Transfer, Progress}
use nex_drop.Transfer.Service.{or_else}
use nex_drop.Transfer.Timeline.{EventCode, TimelineEvent, event_code_for_status}
use nex_drop.Database.Sql.{first, update}
use nex_drop.Database.Sql.Rules.{Pointwise, Pointwise-refl, Pointwise-update}
use nex_drop.Database.Rows.{Db, TargetRow, Execution, IdempotencyRecord}
use nex_drop.Database.View.{get_transfer}
use nex_drop.Database.Progress.{
  is_target, insert_event, insert_status_event, reported_target, is_repeated, conflicts, migrate,
  progressed, deliver, Codec, is_open_record, set_task_status, status_event, apply_progress,
  begin_record, stored_text, store_answer, commit_record, used_record, report_target, report_with,
  report_as, report_transfer_progress,
}
use nex_drop.Database.Steps.{
  StatusStep, stays, moves, RowStep, RowStep-refl, Unique, Only, first-Only,
}

-- The parts of the tables that the other statements of a report leave alone.
abbrev pub Kept : Db → Db → Type 0
Kept a b = (b.targets ≡ a.targets) × (b.records ≡ a.records)

migrate-Kept :
    (id : String) (p : Progress) (route next : SelectedRoute) (e : Execution) (now : ℕ) (db : Db)
    → Kept db (migrate id p route next e now db)
unfolding migrate insert_event
migrate-Kept id p route next e now db = ground arith

insert_status_event-Kept :
    (code : Option EventCode) (event : EventCode → TimelineEvent) (db : Db)
    → Kept db (insert_status_event code event db)
unfolding insert_event
insert_status_event-Kept none event db = (refl, refl)
insert_status_event-Kept (some code) event db = (refl, refl)

status_event-Kept :
    (id : String) (p : Progress) (current : TransferStatus) (next : SelectedRoute) (e : Execution)
    (now : ℕ) (db : Db)
    → Kept db (status_event id p current next e now db)
status_event-Kept id p current next e now db = elim (Bool-cases (status_eq current p.status)) [
  | inl y ↦ rw y (refl, refl)
  | inr n ↦ rw n (insert_status_event-Kept (event_code_for_status p.status) _ db)
]

deliver-Kept : (id : String) (p : Progress) (now : ℕ) (db : Db) → Kept db (deliver id p now db)
unfolding deliver
deliver-Kept id p now db = ground arith

pub apply_progress_lem :
    (id : String) (p : Progress) (r : TargetRow) (e : Execution) (now : ℕ) (db : Db)
    → ((apply_progress id p r e now db).targets
        ≡ update (is_target id p.device_id) (progressed p (or_else p.route r.route) now) db.targets)
      × ((apply_progress id p r e now db).records ≡ db.records)
unfolding apply_progress set_task_status
apply_progress_lem id p r e now db =
    let next = or_else p.route r.route in
    let moved = migrate id p r.route next e now db in
    let m = migrate-Kept id p r.route next e now db in
    let stored = record moved {
      targets = update (is_target id p.device_id) (progressed p next now) moved.targets;
    } in
    let noted = status_event id p r.status next e now stored in
    let n = status_event-Kept id p r.status next e now stored in
    let d = deliver-Kept id p now in
    (
      (d _).0 ∙ n.0 ∙ ap (update (is_target id p.device_id) (progressed p next now)) m.0,
      (d _).1 ∙ n.1 ∙ m.1,
    )

-- The targets of the tables go by steps.
abbrev pub Steps : Db → Db → Type 0
Steps a b = Pointwise RowStep a.targets b.targets

pub Steps-refl : (db : Db) → Steps db db
Steps-refl db = Pointwise-refl RowStep RowStep-refl db.targets

stored_record-Steps :
    (actor resource key : String) (hash : List ℕ) (old db : Db) (t : Transfer)
    (text : Result Error (List ℕ))
    → Steps old db
    → Steps old (store_answer actor resource key hash old db t text).1
stored_record-Steps actor resource key hash old db t (err e) h = Steps-refl old
stored_record-Steps actor resource key hash old db t (ok text) h =
    elim (Bool-cases (length (select (is_open_record actor resource key hash) db.records) == 1)) [
      | inl y ↦ rw y h
      | inr n ↦ rw n (Steps-refl old)
    ]

commit_record-Steps :
    (codec : Codec) (actor resource key : String) (hash : List ℕ) (old db : Db)
    (result : Result Error Transfer)
    → Steps old db
    → Steps old (commit_record codec actor resource key hash old db result).1
unfolding commit_record
commit_record-Steps codec actor resource key hash old db (err e) h = Steps-refl old
commit_record-Steps codec actor resource key hash old db (ok t) h =
    elim (Bool-cases (is_empty key)) [
      | inl y ↦ rw y h
      | inr n ↦ rw n (stored_record-Steps actor resource key hash old db t (stored_text codec t) h)
    ]

decide_true {ℓ} : {A : Type ℓ} (d : Dec A) → decide d ≡ true → A
unfolding decide
decide_true (yes a) h = a
decide_true (no f) h = absurd (cc (h))

pub status_eq-true : (a b : TransferStatus) → status_eq a b ≡ true → a ≡ b
status_eq-true a b h = decide_true (TransferStatus-discrete a b) h

-- A report that neither repeats the status nor conflicts is a step.
accepted_step : (s t : TransferStatus) → conflicts s t ≡ false → StatusStep s t
unfolding conflicts
accepted_step s t h = elim (Bool-cases (status_eq s t)) [
  | inl y ↦ subst (StatusStep s) (status_eq-true s t y) stays
  | inr n ↦ elim (Bool-cases (can_transition_to s t)) [
    | inl y ↦ moves y
    | inr m ↦ absurd (ground (arith, h, n, m))
  ]
]

progressed-RowStep :
    (p : Progress) (next : SelectedRoute) (now : ℕ) (r : TargetRow)
    → StatusStep r.status p.status
    → RowStep r (progressed p next now r)
progressed-RowStep p next now r st = record {
  transfer_id_eq = refl;
  device_id_eq = refl;
  status_step = st;
  bytes_le = ground arith;
}

progressed-All :
    (p : Progress) (next : SelectedRoute) (now : ℕ) (test : TargetRow → Bool) (r : TargetRow)
    (xs : List TargetRow)
    → StatusStep r.status p.status
    → Only test r xs
    → All (λ x. test x ≡ true → RowStep x (progressed p next now x)) xs
progressed-All p next now test r [] st h = tt
progressed-All p next now test r (x ∷ xs) st h = (
  λ e. progressed-RowStep p next now x (subst (λ y. StatusStep y.status p.status) (sym (h.0 e)) st),
  progressed-All p next now test r xs st h.1,
)

apply_progress-Steps :
    (id : String) (p : Progress) (r : TargetRow) (e : Execution) (now : ℕ) (old db : Db)
    → old.targets ≡ db.targets
    → StatusStep r.status p.status
    → Only (is_target id p.device_id) r db.targets
    → Steps old (apply_progress id p r e now db)
apply_progress-Steps id p r e now old db same st only =
    rw ((apply_progress_lem id p r e now db).0, same)
      (Pointwise-update RowStep (is_target id p.device_id)
        (progressed p (or_else p.route r.route) now) RowStep-refl db.targets
        (progressed-All p (or_else p.route r.route) now (is_target id p.device_id) r db.targets st
          only))

begin_record_lem :
    (session : Session) (actor resource key : String) (hash : List ℕ) (db : Db)
    → (begin_record session actor resource key hash db).targets ≡ db.targets
begin_record_lem session actor resource key hash db = ground arith

-- The row that is reported is found by its key.
reported_target-first :
    (db : Db) (id device_id actor : String) (r : TargetRow) (e : Execution)
    → reported_target db id device_id actor ≡ some (r, e)
    → first (is_target id device_id) db.targets ≡ some r
unfolding reported_target
reported_target-first db id device_id actor r e h = ground (arith, h)

module _ (codec : Codec) (hash_of : Progress → List ℕ)
    (resource_of : String → String → String) where
  report_target-Steps :
      (actor : String) (session : Session) (id : String) (p : Progress) (now : ℕ) (old db : Db)
      (o : Option (TargetRow × Execution))
      → old.targets ≡ db.targets
      → Unique db.targets
      → reported_target db id p.device_id actor ≡ o
      → Steps old (report_target codec hash_of resource_of actor session id p now old db o).1
  report_target-Steps actor session id p now old db none same u h = Steps-refl old
  report_target-Steps actor session id p now old db (some (r, e)) same u h =
      elim (Bool-cases (is_repeated r.status p.status)) [
        | inl y ↦ rw y (
            commit_record-Steps codec actor _ _ _ old db (get_transfer db session id)
              (rw (← same) (Steps-refl old)))
        | inr n ↦ rw n (elim (Bool-cases (conflicts r.status p.status)) [
          | inl y ↦ rw y (Steps-refl old)
          | inr m ↦ rw m (
              commit_record-Steps codec actor _ _ _ old (apply_progress id p r e now db)
                (get_transfer (apply_progress id p r e now db) session id)
                (apply_progress-Steps id p r e now old db same (accepted_step r.status p.status m) (
                  first-Only id p.device_id r db.targets u
                    (reported_target-first db id p.device_id actor r e h))))
        ])
      ]

  report_with-Steps :
      (actor : String) (session : Session) (id : String) (p : Progress) (now : ℕ) (db : Db)
      (o : Option IdempotencyRecord)
      → Unique db.targets
      → Steps db (report_with codec hash_of resource_of actor session id p now db o).1
  report_with-Steps actor session id p now db (some r) u = Steps-refl db
  report_with-Steps actor session id p now db none u =
      let begun =
        begin_record session actor (resource_of id p.device_id) p.idempotency_key (hash_of p) db in
      let same =
        begin_record_lem session actor (resource_of id p.device_id) p.idempotency_key (hash_of p)
          db in
      report_target-Steps actor session id p now db begun
        (reported_target begun id p.device_id actor) (sym same) (subst Unique (sym same) u) refl

  report_as-Steps :
      (o : Option String) (session : Session) (id : String) (p : Progress) (now : ℕ) (db : Db)
      → Unique db.targets
      → Steps db (report_as codec hash_of resource_of o session id p now db).1
  report_as-Steps none session id p now db u = Steps-refl db
  report_as-Steps (some actor) session id p now db u =
      report_with-Steps actor session id p now db
        (used_record actor (resource_of id p.device_id) p.idempotency_key db) u

  pub report_transfer_progress-Steps :
      (session : Session) (id : String) (p : Progress) (now : ℕ) (db : Db)
      → Unique db.targets
      → Steps db (report_transfer_progress codec hash_of resource_of session id p now db).1
  unfolding report_transfer_progress
  report_transfer_progress-Steps session id p now db u =
      report_as-Steps session.device_id session id p now db u
