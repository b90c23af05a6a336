-- ===== src/Database/Quota.antt =====
-- `enforceTransferQuotas` of internal/postgres/store.go. Go visits the keys of a map in an order of its own,
-- which is the parameter `visit`.
pub mod Limits
use nex_drop.Prelude.{
  ℕ, ◌+◌, ◌-◌, ◌/◌, ◌%◌, suc, Bool, true, false, ◌&&◌, ◌||◌, not, List, [], ◌∷◌, any, select,
  get_elem?, Option, none, some, String, str_eq, is_empty, leb, ltb, ◌==◌, if◌then◌else◌,
}
use nex_drop.Prelude.Int.{ℤ, pos, negsuc, ◌+ℤ◌, ◌-ℤ◌, ◌*ℤ◌, wrap64, ltb_ℤ, leb_ℤ}
use nex_drop.Prelude.Result.{Result, ok, err, ◌>>=◌, ◌>>◌, refuse}
use nex_drop.Domain.Route.{node}
use nex_drop.Transfer.Types.{
  Error, file_too_large, quota_exceeded, storage_full, store_failure, Session, File, FileTarget,
  Prepared,
}
use nex_drop.Transfer.Prepare.{route_eq}
use nex_drop.Database.Sql.{first, sum}
use nex_drop.Database.Rows.{Db, Task, FileRow}
use nex_drop.Database.Files.{has_status, is_node_file, file_id_of}

-- `node_settings`.
pub record Settings : Type 0 where
  pub single_file_limit : ℤ
  pub default_user_quota : ℤ
  pub default_group_quota : ℤ
  pub node_limit : ℤ
  pub default_user_daily : ℤ
  pub default_group_daily : ℤ
  pub warning_percent : ℤ
  pub stop_percent : ℤ

-- `storage_quotas`, of a user or else of a group.
pub record QuotaRow : Type 0 where
  pub is_user : Bool
  pub owner_id : String
  pub byte_limit : Option ℤ
  pub daily_transfer_limit : Option ℤ

abbrev pub or_default : ℤ → Option ℤ → ℤ
or_default d none = d
or_default d (some n) = n

abbrev pub is_owner : Bool → String → QuotaRow → Bool
is_owner is_user id q = str_eq q.owner_id id && (if is_user then q.is_user else not q.is_user)

-- `COALESCE((SELECT …), default)`.
abbrev pub limit_of : (QuotaRow → Option ℤ) → Bool → String → ℤ → List QuotaRow → ℤ
limit_of column is_user id d quotas = elim (first (is_owner is_user id) quotas) [
  | none ↦ d
  | some q ↦ or_default d (column q)
]

-- The keys of `nodeFiles`.
abbrev pub node_files : List FileTarget → List ℕ
node_files [] = []
node_files (t ∷ ts) =
    let rest = node_files ts in
    if route_eq t.selected_route node && not (any (λ i. i == t.file_index) rest)
    then t.file_index ∷ rest
    else rest

abbrev pub max_int64 : ℤ
max_int64 = pos 9223372036854775807

-- The loop over the files: their sizes together. An index out of range panics.
abbrev pub add_size : ℤ → ℤ → Option File → Result Error ℤ
add_size limit requested none = err (store_failure "index out of range")
add_size limit requested (some f) =
    if ltb_ℤ limit f.size
    then err file_too_large
    else if ltb_ℤ (wrap64 (max_int64 -ℤ f.size)) requested
    then err quota_exceeded
    else ok (wrap64 (requested +ℤ f.size))

unfoldable pub add_sizes : ℤ → List File → ℤ → List ℕ → Result Error ℤ
add_sizes limit files requested [] = ok requested
add_sizes limit files requested (i ∷ is) =
    add_size limit requested (get_elem? files i) >>= λ r. add_sizes limit files r is

unfoldable pub exceeds : ℤ → ℤ → ℤ → Bool
exceeds current requested limit =
    ltb_ℤ limit (pos 0) || ltb_ℤ limit requested || ltb_ℤ (wrap64 (limit -ℤ requested)) current

-- 24 hours, in nanoseconds; the zero time is the start of a day.
abbrev pub day : ℕ
day = 86400000000000

abbrev pub start_of_day : ℕ → ℕ
start_of_day t = t - t % day

-- The sizes of the files that the node keeps, of the tasks that pass the test.
unfoldable pub usage : Db → ℕ → (Task → Bool) → ℤ
usage db now test =
    sum (λ f. f.record_of.size)
      (select
        (λ f.
          not (has_status "EXPIRED" f)
          && ltb now f.expires_at
          && is_node_file db (file_id_of f)
          && any (λ t. str_eq t.id f.record_of.transfer_id && test t) db.tasks)
        db.files)

-- Go's division by 100, towards zero.
abbrev pub hundredth : ℤ → ℤ
hundredth (pos n) = pos (n / 100)
hundredth (negsuc n) = if ltb n 99 then pos 0 else negsuc ((n - 99) / 100)

abbrev pub percent : ℤ → ℤ → ℤ
percent limit p = hundredth (wrap64 (limit *ℤ p))

-- What is used, and may be used, by the user, by the group and on the node.
pub record Usage : Type 0 where
  pub user : ℤ
  pub user_daily : ℤ
  pub node_wide : ℤ
  pub group : ℤ
  pub group_daily : ℤ

pub record Quota : Type 0 where
  pub user : ℤ
  pub user_daily : ℤ
  pub node_stop : ℤ
  pub group : ℤ
  pub group_daily : ℤ

unfoldable pub usage_now : Db → Session → Prepared → Usage
usage_now db session p =
    let today = λ (t : Task). leb (start_of_day p.created_at) t.created_at in
    record {
      user = usage db p.created_at (λ t. str_eq t.sender_user_id session.id);
      user_daily = usage db p.created_at (λ t. str_eq t.sender_user_id session.id && today t);
      node_wide = usage db p.created_at (λ t. true);
      group = usage db p.created_at (λ t. str_eq t.group_id p.request.group_id);
      group_daily = usage db p.created_at (λ t. str_eq t.group_id p.request.group_id && today t);
    }

unfoldable pub quota_now : Settings → List QuotaRow → Session → Prepared → Quota
quota_now s quotas session p = record {
  user = limit_of (λ q. q.byte_limit) true session.id s.default_user_quota quotas;
  user_daily = limit_of (λ q. q.daily_transfer_limit) true session.id s.default_user_daily quotas;
  node_stop = percent s.node_limit s.stop_percent;
  group = limit_of (λ q. q.byte_limit) false p.request.group_id s.default_group_quota quotas;
  group_daily =
      limit_of (λ q. q.daily_transfer_limit) false p.request.group_id s.default_group_daily quotas;
}

-- The tests on the requested bytes; then whether the storage warning is logged.
unfoldable pub check_quota : Settings → Usage → Quota → Bool → ℤ → Result Error Bool
check_quota s u q in_group requested =
    if exceeds u.user requested q.user || exceeds u.user_daily requested q.user_daily
    then err quota_exceeded
    else if exceeds u.node_wide requested q.node_stop
    then err storage_full
    else if in_group
        && (exceeds u.group requested q.group || exceeds u.group_daily requested q.group_daily)
    then err quota_exceeded
    else ok (leb_ℤ (percent s.node_limit s.warning_percent) (wrap64 (u.node_wide +ℤ requested)))

abbrev pub is_nil : List ℕ → Bool
is_nil [] = true
is_nil (i ∷ is) = false

unfoldable pub enforce_transfer_quotas :
    (List ℕ → List ℕ) → Db → Settings → List QuotaRow → Session → Prepared → Result Error Bool
enforce_transfer_quotas visit db s quotas session p =
    if is_nil (node_files p.file_targets)
    then ok false
    else (add_sizes s.single_file_limit p.request.files (pos 0) (visit (node_files p.file_targets))
        >>= check_quota s (usage_now db session p) (quota_now s quotas session p)
            (not (is_empty p.request.group_id)))
