-- ===== src/Database/Files/Revive.antt =====
-- A file of internal/postgres/store.go that is completed after its transfer was cancelled.
use nex_drop.Prelude.{
  ℕ, true, List, [], ◌∷◌, any, get_elem?, some, String, eq_iff, ◌≡◌, refl, ap, ◌∙◌, inl, inr,
  Bool-cases, arith,
}
use mathlib.Core.Bool.{decide}
use nex_drop.Prelude.Result.{ok}
use nex_drop.Domain.Route.{node}
use nex_drop.Domain.Status.{available_on_node}
use nex_drop.Transfer.Types.{Session}
use nex_drop.Transfer.Prepare.{route_eq, SelectedRoute-discrete}
use nex_drop.Database.Sql.{first}
use nex_drop.Database.Sql.Rules.{first_ext, any-update, get_elem?-update}
use nex_drop.Database.Rows.{Db, TargetRow, FileRow}
use nex_drop.Database.Progress.{insert_event}
use nex_drop.Database.Changes.{is_open_task, insert_cancelled, apply_cancel, cancel_transfer}
use nex_drop.Database.Files.{
  sends, is_completable, apply_completion, complete_file, is_node_target, made_available,
}

insert_cancelled-files :
    (id : String) (now : ℕ) (rs : List TargetRow) (db : Db)
    → ((insert_cancelled id now rs db).files ≡ db.files)
      × ((insert_cancelled id now rs db).tasks ≡ db.tasks)
unfolding insert_cancelled insert_event
insert_cancelled-files id now [] db = (refl, refl)
insert_cancelled-files id now (r ∷ rs) db =
    let rest = insert_cancelled-files id now rs _ in (rest.0 ∙ ground arith, rest.1 ∙ ground arith)

cancel_transfer-files :
    (db : Db) (session : Session) (id : String) (now : ℕ)
    → (cancel_transfer db session id now).1.files ≡ db.files
unfolding cancel_transfer apply_cancel
cancel_transfer-files db session id now =
    elim (Bool-cases (any (is_open_task session id) db.tasks)) [
      | inl y ↦ rw y ((insert_cancelled-files id now _ _).0)
      | inr n ↦ rw n refl
    ]

cancel_transfer-sends :
    (db : Db) (session : Session) (id : String) (now : ℕ) (f : FileRow)
    → sends (cancel_transfer db session id now).1 session f ≡ sends db session f
unfolding cancel_transfer apply_cancel
cancel_transfer-sends db session id now f =
    elim (Bool-cases (any (is_open_task session id) db.tasks)) [
      | inl y ↦
          rw (y, (insert_cancelled-files id now _ _).1)
            (any-update (is_open_task session id) _ _ (λ t. refl) db.tasks)
      | inr n ↦ rw n refl
    ]

complete_file_some :
    (db : Db) (session : Session) (file_id path : String) (now : ℕ) (f : FileRow)
    → first (is_completable db session file_id) db.files ≡ some f
    → complete_file db session file_id path now
      ≡ (ok tt, apply_completion db session f.record_of.transfer_id file_id path now)
unfolding complete_file
complete_file_some db session file_id path now f h = rw (h, complete_file) refl

node_eq : route_eq node node ≡ true
unfolding SelectedRoute-discrete decide
node_eq = refl

-- A file that its sender can complete can still be completed after the transfer was cancelled, and each
-- target of the transfer that goes by the node is then AVAILABLE_ON_NODE, although it was CANCELLED.
pub complete_file-cancel_transfer :
    (db : Db) (session : Session) (file_id path : String) (at now : ℕ) (f : FileRow) (i : ℕ)
    (x : TargetRow)
    → first (is_completable db session file_id) db.files ≡ some f
    → get_elem? (cancel_transfer db session f.record_of.transfer_id at).1.targets i ≡ some x
    → x.transfer_id ≡ f.record_of.transfer_id
    → x.route ≡ node
    → let cancelled = (cancel_transfer db session f.record_of.transfer_id at).1 in
      ((complete_file cancelled session file_id path now).0 ≡ ok tt)
      × (get_elem? (complete_file cancelled session file_id path now).1.targets i
          ≡ some (record x { status = available_on_node }))
unfolding apply_completion insert_event
complete_file-cancel_transfer db session file_id path at now f i x h g e r =
    let id = f.record_of.transfer_id in
    let cancelled = (cancel_transfer db session id at).1 in
    let found : first (is_completable cancelled session file_id) cancelled.files ≡ some f =
      ap (first (is_completable cancelled session file_id)) (cancel_transfer-files db session id at)
      ∙ first_ext (is_completable cancelled session file_id) (is_completable db session file_id)
          (λ y. ground (arith, cancel_transfer-sends db session id at y)) db.files
      ∙ h in
    rw (complete_file_some cancelled session file_id path now f found) (
      refl,
      get_elem?-update (is_node_target id) made_available cancelled.targets i x g
          (rw ((eq_iff x.transfer_id id).1 e, r) (node_eq)),
    )
