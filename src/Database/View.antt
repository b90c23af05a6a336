-- ===== src/Database/View.antt =====
-- `getTransfer` of internal/postgres/store.go: what a session is shown of a transfer.
use nex_drop.Prelude.{
  ℕ, suc, Bool, ◌&&◌, ◌||◌, not, List, [], ◌∷◌, map, any, none, some, String, str_eq, str_lt,
  if◌then◌else◌, select,
}
use nex_drop.Prelude.Sort.{slice_stable}
use nex_drop.Prelude.Result.{Result, ok, err}
use nex_drop.Transfer.Types.{Error, not_found, Session, Transfer, Target, File, FileTarget}
use nex_drop.Database.Sql.{first, equals}
use nex_drop.Database.Rows.{Db, Task, TargetRow, FileRow}

abbrev pub may_see : Db → Session → Task → Bool
may_see db session t =
    not t.group_deleted
    && not (any (λ h. str_eq h.transfer_id t.id && str_eq h.user_id session.id) db.hidden)
    && (str_eq t.sender_user_id session.id
        || any (λ r. str_eq r.transfer_id t.id && equals session.device_id r.device_id) db.targets)

-- The key of a device, if the session is shown it.
abbrev pub shown_key : Db → Session → Task → String → List ℕ
shown_key db session t device_id =
    elim (first
      (λ k.
        str_eq k.transfer_id t.id
        && str_eq k.device_id device_id
        && (str_eq t.sender_user_id session.id || equals session.device_id k.device_id))
      db.content_keys) [ none ↦ [] | some k ↦ k.key ]

abbrev pub files_of : Db → String → List FileRow
files_of db id =
    slice_stable (λ a b. str_lt a.record_of.id b.record_of.id)
      (select (λ f. str_eq f.record_of.transfer_id id) db.files)

abbrev pub shown_file : FileRow → File
shown_file f = record {
  id = f.record_of.id;
  name = f.name;
  mime_type = f.mime_type;
  size = f.record_of.size;
  sha256 = f.record_of.sha256;
  chunk_size = f.record_of.chunk_size;
  chunk_count = f.record_of.chunk_count;
  expires_at = f.expires_at;
}

abbrev pub targets_of : Db → String → List TargetRow
targets_of db id =
    slice_stable (λ a b. str_lt a.device_id b.device_id)
      (select (λ r. str_eq r.transfer_id id) db.targets)

abbrev pub shown_target : TargetRow → Target
shown_target r = record {
  device_id = r.device_id;
  selected_route = r.route;
  status = r.status;
  bytes_transferred = r.bytes;
}

-- `fileIndex`; a file that is not there reads as 0.
abbrev pub index_of : String → List FileRow → ℕ
index_of id [] = 0
index_of id (f ∷ fs) =
    let rest = index_of id fs in
    if str_eq f.record_of.id id
    then 0
    else if any (λ g. str_eq g.record_of.id id) fs
    then suc rest
    else 0

abbrev pub shown_file_targets : Db → String → List FileTarget
shown_file_targets db id =
    let files = files_of db id in
    map
      (λ r. record {
        file_index = index_of r.file_id files;
        device_id = r.device_id;
        selected_route = r.route;
        status = r.status;
      })
      (slice_stable
        (λ a b.
          if str_eq a.file_id b.file_id
          then str_lt a.device_id b.device_id
          else str_lt a.file_id b.file_id)
        (select (λ r. any (λ f. str_eq f.record_of.id r.file_id) files) db.file_targets))

abbrev pub shown : Db → Session → Task → Transfer
shown db session t = record {
  id = t.id;
  batch_id = t.batch_id;
  sender_user_id = t.sender_user_id;
  sender_device_id = t.sender_device_id;
  target_type = t.target_type;
  group_id = t.group_id;
  content_type = t.content_type;
  content = t.content;
  files = map shown_file (files_of db t.id);
  targets = map shown_target (targets_of db t.id);
  file_targets = shown_file_targets db t.id;
  wrapped_content_keys = shown_key db session t;
  status = t.status;
  created_at = t.created_at;
  expires_at = t.expires_at;
}

unfoldable pub get_transfer : Db → Session → String → Result Error Transfer
get_transfer db session id = elim (first (λ t. str_eq t.id id && may_see db session t) db.tasks) [
  | none ↦ err not_found
  | some t ↦ ok (shown db session t)
]
