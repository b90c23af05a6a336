-- ===== src/Database/Calls/Lasting.antt =====
-- What no sequence of calls of internal/postgres/store.go undoes in a target.
use nex_drop.Prelude.{
  ℕ, Bool, true, false, List, [], ◌∷◌, String, ◌≡◌, refl, sym, ap, ◌∙◌, ◌⊎◌, inl, inr, arith,
}
use nex_drop.Prelude.Int.{◌≤ℤ◌}
use nex_drop.Domain.Status.{TransferStatus, can_transition_to, read, cancelled, expired}
use nex_drop.Database.Progress.{Codec, is_delivered}
use nex_drop.Transfer.Types.{Session, Progress}
use nex_drop.Database.Rows.{Db, TargetRow}
use nex_drop.Database.Sql.Rules.{Pointwise, Pointwise-refl}
use nex_drop.Database.Changes.{is_retryable, is_closed, hide_transfer}
use nex_drop.Database.Steps.{
  StatusStep, stays, moves, retries, cancels, RowStep, RowStep-refl, Unique, Pointwise-Unique,
}
use nex_drop.Database.Steps.Report.{Steps, Steps-refl, report_transfer_progress-Steps}
use nex_drop.Database.Steps.Others.{
  retry_transfer_target-Steps, cancel_transfer-Steps, read_transfer-Steps,
}
use nex_drop.Database.Calls.{Call, report, retry, cancel, hide, mark_read, after, run}

-- The statuses that a target never leaves.
abbrev pub is_final : TransferStatus → Bool
is_final read = true
is_final cancelled = true
is_final expired = true
is_final _ = false

-- What a later row of a target keeps of an earlier one.
pub record Later (a b : TargetRow) : Type 0 where
  pub transfer_id_eq : b.transfer_id ≡ a.transfer_id
  pub device_id_eq : b.device_id ≡ a.device_id
  pub bytes_le : a.bytes ≤ℤ b.bytes
  pub final : (is_final a.status ≡ false) ⊎ (b.status ≡ a.status)
  pub delivery :
      (is_delivered a.status ≡ false) ⊎ (is_delivered b.status ≡ true) ⊎ (b.status ≡ read)

StatusStep-final : (s t : TransferStatus) → StatusStep s t → (is_final s ≡ false) ⊎ (t ≡ s)
unfolding can_transition_to is_retryable is_closed
StatusStep-final s t stays = inr refl
StatusStep-final s t (moves h) = ground (arith, h)
StatusStep-final s t (retries h e) = ground (arith, h)
StatusStep-final s t (cancels h e) = ground (arith, h)

StatusStep-delivered :
    (s t : TransferStatus)
    → StatusStep s t
    → (is_delivered s ≡ false) ⊎ (is_delivered t ≡ true) ⊎ (t ≡ read)
unfolding can_transition_to is_retryable is_closed
StatusStep-delivered s t stays = ground arith
StatusStep-delivered s t (moves h) = ground (arith, h)
StatusStep-delivered s t (retries h e) = ground (arith, h)
StatusStep-delivered s t (cancels h e) = ground (arith, h)

final_trans :
    (a b c : TransferStatus)
    → (is_final a ≡ false) ⊎ (b ≡ a)
    → (is_final b ≡ false) ⊎ (c ≡ b)
    → (is_final a ≡ false) ⊎ (c ≡ a)
final_trans a b c (inl f) k = inl f
final_trans a b c (inr e) (inl f) = inl (ap is_final (sym e) ∙ f)
final_trans a b c (inr e) (inr f) = inr (f ∙ e)

delivered_trans :
    (a b c : TransferStatus)
    → (is_delivered a ≡ false) ⊎ (is_delivered b ≡ true) ⊎ (b ≡ read)
    → (is_delivered b ≡ false) ⊎ (is_delivered c ≡ true) ⊎ (c ≡ read)
    → (is_final b ≡ false) ⊎ (c ≡ b)
    → (is_delivered a ≡ false) ⊎ (is_delivered c ≡ true) ⊎ (c ≡ read)
delivered_trans a b c (inl f) k l = inl f
delivered_trans a b c (inr (inl y)) (inl f) l = absurd (cc (y, f))
delivered_trans a b c (inr (inl y)) (inr r) l = inr r
delivered_trans a b c (inr (inr e)) k (inl f) = absurd (cc (ap is_final e, f))
delivered_trans a b c (inr (inr e)) k (inr f) = inr (inr (f ∙ e))

RowStep-Later : (a b : TargetRow) → RowStep a b → Later a b
RowStep-Later a b h = record {
  transfer_id_eq = h.transfer_id_eq;
  device_id_eq = h.device_id_eq;
  bytes_le = h.bytes_le;
  final = StatusStep-final a.status b.status h.status_step;
  delivery = StatusStep-delivered a.status b.status h.status_step;
}

Later-trans : (a b c : TargetRow) → Later a b → RowStep b c → Later a c
Later-trans a b c h k =
    let l = RowStep-Later b c k in
    record {
      transfer_id_eq = l.transfer_id_eq ∙ h.transfer_id_eq;
      device_id_eq = l.device_id_eq ∙ h.device_id_eq;
      bytes_le = omega (arith, h.bytes_le, l.bytes_le);
      final = final_trans a.status b.status c.status h.final l.final;
      delivery = delivered_trans a.status b.status c.status h.delivery l.delivery l.final;
    }

Later-Pointwise :
    (xs ys zs : List TargetRow)
    → Pointwise Later xs ys
    → Pointwise RowStep ys zs
    → Pointwise Later xs zs
Later-Pointwise [] [] [] h k = tt
Later-Pointwise [] [] (z ∷ zs) h k = k
Later-Pointwise [] (y ∷ ys) zs h k = elim h [ ]
Later-Pointwise (x ∷ xs) [] zs h k = elim h [ ]
Later-Pointwise (x ∷ xs) (y ∷ ys) [] h k = k
Later-Pointwise (x ∷ xs) (y ∷ ys) (z ∷ zs) h k =
    (Later-trans x y z h.0 k.0, Later-Pointwise xs ys zs h.1 k.1)

hide_lem :
    (db : Db) (session : Session) (id : String) (now : ℕ)
    → (hide_transfer db session id now).1.targets ≡ db.targets
unfolding hide_transfer
hide_lem db session id now = ground arith

module _ (codec : Codec) (hash_of : Progress → List ℕ) (resource_of : String → String → String)
    (new_id : ℕ → String) where
  -- Each call takes every target a step that the transition table, a retry or a cancellation allows, or
  -- leaves it, and no count of bytes falls.
  pub after-Steps :
      (c : Call) (db : Db)
      → Unique db.targets
      → Steps db (after codec hash_of resource_of new_id c db)
  unfolding after
  after-Steps (report session id p now) db u =
      report_transfer_progress-Steps codec hash_of resource_of session id p now db u
  after-Steps (retry session id device_id key now) db u =
      retry_transfer_target-Steps new_id db session id device_id key now u
  after-Steps (cancel session id now) db u = cancel_transfer-Steps db session id now
  after-Steps (hide session id now) db u = rw (hide_lem db session id now) (Steps-refl db)
  after-Steps (mark_read session id now) db u = read_transfer-Steps db session id now

  run_from :
      (cs : List Call) (start db : Db)
      → Unique db.targets
      → Pointwise Later start.targets db.targets
      → Pointwise Later start.targets (run codec hash_of resource_of new_id cs db).targets
  unfolding run
  run_from [] start db u h = h
  run_from (c ∷ cs) start db u h =
      let next = after codec hash_of resource_of new_id c db in
      let steps = after-Steps c db u in
      run_from cs start next (Pointwise-Unique db.targets next.targets steps u)
        (Later-Pointwise start.targets db.targets next.targets h steps)

  -- Whatever reports, retries, cancellations, readings and hidings come, of whichever users and in
  -- whichever order, each target keeps its transfer and its device, its count of bytes never falls, a
  -- status READ, CANCELLED or EXPIRED stays, and a delivered target is afterwards DELIVERED or READ.
  pub run-Later :
      (cs : List Call) (db : Db)
      → Unique db.targets
      → Pointwise Later db.targets (run codec hash_of resource_of new_id cs db).targets
  run-Later cs db u =
      run_from cs db db u
        (Pointwise-refl Later (λ a. RowStep-Later a a (RowStep-refl a)) db.targets)
