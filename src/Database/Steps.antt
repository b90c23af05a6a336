-- ===== src/Database/Steps.antt =====
-- How the row of a target may change in internal/postgres/store.go, and the lemmas on tables of them.
pub mod Report
pub mod Others
use nex_drop.Prelude.{
  Bool, true, false, ◌&&◌, List, [], ◌∷◌, Option, none, some, String, str_eq, eq_iff, All, ◌≡◌,
  refl, sym, ap, ◌∙◌, ◌⊎◌, inl, inr, Bool-cases, arith,
}
use nex_drop.Prelude.Int.{◌≤ℤ◌}
use nex_drop.Domain.Status.{
  TransferStatus, can_transition_to, checking_route, delivered, read, failed, cancelled, expired,
  is_terminal,
}
use nex_drop.Database.Rows.{TargetRow}
use nex_drop.Database.Sql.{first}
use nex_drop.Database.Sql.Rules.{Pointwise}
use nex_drop.Database.Progress.{is_target}
use nex_drop.Database.Changes.{is_retryable, is_closed}

pub data StatusStep : TransferStatus → TransferStatus → Type 0 where
  stays : {s : TransferStatus} → StatusStep s s
  moves : {s t : TransferStatus} → can_transition_to s t ≡ true → StatusStep s t
  retries : {s t : TransferStatus} → is_retryable s ≡ true → t ≡ checking_route → StatusStep s t
  cancels : {s t : TransferStatus} → is_closed s ≡ false → t ≡ cancelled → StatusStep s t

pub record RowStep (a b : TargetRow) : Type 0 where
  pub transfer_id_eq : b.transfer_id ≡ a.transfer_id
  pub device_id_eq : b.device_id ≡ a.device_id
  pub status_step : StatusStep a.status b.status
  pub bytes_le : a.bytes ≤ℤ b.bytes

pub RowStep-refl : (a : TargetRow) → RowStep a a
RowStep-refl a = record {
  transfer_id_eq = refl;
  device_id_eq = refl;
  status_step = stays;
  bytes_le = ground arith;
}

abbrev pub same_key : TargetRow → TargetRow → Bool
same_key a b = str_eq a.transfer_id b.transfer_id && str_eq a.device_id b.device_id

-- The primary key of `transfer_targets`.
abbrev pub Unique : List TargetRow → Type 0
Unique [] = Unit
Unique (r ∷ rs) = All (λ x. same_key r x ≡ false) rs × Unique rs

other_key :
    (r s : TargetRow) (xs ys : List TargetRow)
    → RowStep r s
    → Pointwise RowStep xs ys
    → All (λ x. same_key r x ≡ false) xs
    → All (λ y. same_key s y ≡ false) ys
other_key r s [] [] st h u = tt
other_key r s [] (y ∷ ys) st h u = elim h [ ]
other_key r s (x ∷ xs) [] st h u = elim h [ ]
other_key r s (x ∷ xs) (y ∷ ys) st h u = (
  rw (st.transfer_id_eq, st.device_id_eq, h.0.transfer_id_eq, h.0.device_id_eq) u.0,
  other_key r s xs ys st h.1 u.1,
)

pub Pointwise-Unique : (xs ys : List TargetRow) → Pointwise RowStep xs ys → Unique xs → Unique ys
Pointwise-Unique [] [] h u = tt
Pointwise-Unique [] (y ∷ ys) h u = elim h [ ]
Pointwise-Unique (x ∷ xs) [] h u = elim h [ ]
Pointwise-Unique (x ∷ xs) (y ∷ ys) h u =
    (other_key x y xs ys h.0 h.1 u.0, Pointwise-Unique xs ys h.1 u.1)

not_target :
    (id device_id : String) (x : TargetRow) (ys : List TargetRow)
    → is_target id device_id x ≡ true
    → All (λ y. same_key x y ≡ false) ys
    → All (λ y. is_target id device_id y ≡ false) ys
not_target id device_id x [] h u = tt
not_target id device_id x (y ∷ ys) h u = (
  ground (
    arith,
    eq_iff x.transfer_id id,
    eq_iff x.device_id device_id,
    eq_iff y.transfer_id id,
    eq_iff y.device_id device_id,
    eq_iff x.transfer_id y.transfer_id,
    eq_iff x.device_id y.device_id,
    u.0,
  ),
  not_target id device_id x ys h u.1,
)

-- A test of which no row but the given one passes.
abbrev pub Only : (TargetRow → Bool) → TargetRow → List TargetRow → Type 0
Only p r = All (λ x. p x ≡ true → x ≡ r)

none-Only :
    (p : TargetRow → Bool) (r : TargetRow) (xs : List TargetRow)
    → All (λ x. p x ≡ false) xs
    → Only p r xs
none-Only p r [] h = tt
none-Only p r (x ∷ xs) h = (λ e. cc (h.0), none-Only p r xs h.1)

pub first-Only :
    (id device_id : String) (r : TargetRow) (xs : List TargetRow)
    → Unique xs
    → first (is_target id device_id) xs ≡ some r
    → Only (is_target id device_id) r xs
first-Only id device_id r [] u h = tt
first-Only id device_id r (x ∷ xs) u h = elim (Bool-cases (is_target id device_id x)) [
  | inl e ↦ (
    λ _. ground (arith, e),
    none-Only (is_target id device_id) r xs (not_target id device_id x xs e u.0),
  )
  | inr e ↦ (λ y. cc (e), first-Only id device_id r xs u.1 (ground (arith, e)))
]
