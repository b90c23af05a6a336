-- ===== src/Folder.antt =====
-- internal/folder/manifest.go: manifests of shared folders. A text is its bytes; the library's functions that
-- look at letters beyond ASCII are the parameter `letters`.
pub mod Paths
pub mod Inside
pub mod Drives
pub mod Totals
use nex_drop.Prelude.{
  ℕ, ◌+◌, Bool, true, false, ◌&&◌, ◌||◌, not, List, [], ◌∷◌, ◌++◌, map, any, all, length, select,
  Option, none, some, ltb, leb, ◌==◌, if◌then◌else◌,
}
use nex_drop.Prelude.Int.{ℤ, pos, negsuc, ◌+ℤ◌, ◌-ℤ◌, wrap64, ltb_ℤ, leb_ℤ, eq_ℤ}
use nex_drop.Prelude.Sort.{slice_stable}
use nex_drop.Prelude.Result.{Result, ok, err, ◌>>=◌, ◌>>◌, refuse}
use nex_drop.FileTransfer.Manifest.{bytes_eq}
use nex_drop.Folder.Paths.{
  Error, invalid_manifest, path_collision, limit_exceeded, Letters, normalize_path, contains_byte,
  parents_of,
}

pub data EntryType : Type 0 where
  directory file : EntryType
  other_entry : List ℕ → EntryType

pub record Entry : Type 0 where
  pub path : List ℕ
  pub entry_type : EntryType
  pub size : ℤ
  pub modified_at : ℕ
  pub sha256 : List ℕ
  pub mime_type : List ℕ
  pub file_id : List ℕ

pub record Manifest : Type 0 where
  pub version : ℤ
  pub root_name : List ℕ
  pub entries : List Entry

pub record Limits : Type 0 where
  pub max_entries : ℤ
  pub max_path_bytes : ℤ
  pub max_manifest_bytes : ℤ
  pub max_total_bytes : ℤ
  pub max_depth : ℤ

abbrev pub or_default : ℤ → ℕ → ℤ
or_default n d = if leb_ℤ n (pos 0) then pos d else n

unfoldable pub normalized : Limits → Limits
normalized l = record {
  max_entries = or_default l.max_entries 100000;
  max_path_bytes = or_default l.max_path_bytes 1024;
  max_manifest_bytes = or_default l.max_manifest_bytes 33554432;
  max_total_bytes = or_default l.max_total_bytes 17592186044416;
  max_depth = or_default l.max_depth 64;
}

abbrev is_hex : ℕ → Bool
is_hex c = leb b'0' c && leb c b'9' || leb b'a' c && leb c b'f' || leb b'A' c && leb c b'F'

-- What the loop of `Validate` keeps: the folded paths, the total, the estimate and the entries.
pub record Progress : Type 0 where
  pub seen : List (List ℕ)
  pub total : ℤ
  pub estimated : ℤ
  pub accepted : List Entry

module _ (letters : Letters) where
  open letters use {to_lower, trim_space, equal_fold}

  unfoldable pub valid_sha256 : List ℕ → Bool
  valid_sha256 value = all is_hex value && length value == 64 && bytes_eq (to_lower value) value

  -- The `switch` on the type of an entry: the new total.
  unfoldable pub check_entry : Limits → ℤ → Entry → EntryType → Result Error ℤ
  check_entry limits total e directory =
      if not (eq_ℤ e.size (pos 0)) || not (bytes_eq e.sha256 []) || not (bytes_eq e.file_id [])
      then err invalid_manifest
      else ok total
  check_entry limits total e file =
      if ltb_ℤ e.size (pos 0) || bytes_eq e.file_id [] || not (valid_sha256 e.sha256)
      then err invalid_manifest
      else if ltb_ℤ (wrap64 (limits.max_total_bytes -ℤ e.size)) total
      then err limit_exceeded
      else ok (wrap64 (total +ℤ e.size))
  check_entry limits total e (other_entry t) = err invalid_manifest

  abbrev pub weight : List ℕ → Entry → ℤ
  weight path e = pos (length path + length e.sha256 + length e.mime_type + length e.file_id + 96)

  abbrev pub added : Progress → Entry → List ℕ → ℤ → Progress
  added p e path total = record {
    seen = p.seen ++ to_lower path ∷ [];
    total = total;
    estimated = wrap64 (p.estimated +ℤ weight path e);
    accepted = p.accepted ++ (record e { path = path }) ∷ [];
  }

  -- The end of a round, from the checked total on.
  abbrev pub add_checked :
      Limits → Progress → Entry → List ℕ → Result Error ℤ → Result Error Progress
  add_checked limits p e path (err x) = err x
  add_checked limits p e path (ok total) =
      refuse (ltb_ℤ limits.max_manifest_bytes (wrap64 (p.estimated +ℤ weight path e)))
        limit_exceeded
      >> ok (added p e path total)

  -- One round of the loop, from the normalized path on.
  abbrev pub add_at : Limits → Progress → Entry → Result Error (List ℕ × ℕ) → Result Error Progress
  add_at limits p e (err x) = err x
  add_at limits p e (ok (path, depth)) =
      refuse (ltb_ℤ limits.max_path_bytes (pos (length path)) || ltb_ℤ limits.max_depth (pos depth))
        limit_exceeded
      >> (refuse (any (bytes_eq (to_lower path)) p.seen) path_collision
          >> add_checked limits p e path (check_entry limits p.total e e.entry_type))

  unfoldable pub add_entry : Limits → Progress → Entry → Result Error Progress
  add_entry limits p e = add_at limits p e (normalize_path letters e.path)

  unfoldable pub add_entries : Limits → Progress → List Entry → Result Error Progress
  add_entries limits p [] = ok p
  add_entries limits p (e ∷ es) = add_entry limits p e >>= λ q. add_entries limits q es

  abbrev pub start : Progress
  start = record { seen = []; total = pos 0; estimated = pos 0; accepted = [] }

  abbrev pub bad_head : Manifest → Limits → List ℕ → Bool
  bad_head m l root =
      not (eq_ℤ m.version (pos 1))
      || bytes_eq root []
      || any (λ c. c == b'/' || c == 92 || c == 0) root
      || ltb 255 (length root)
      || ltb_ℤ (normalized l).max_entries (pos (length m.entries))

  abbrev pub finish : List ℕ → Progress → Result Error Manifest
  finish root p = ok (record { version = pos 1; root_name = root; entries = p.accepted })

  unfoldable pub validate : Manifest → Limits → Result Error Manifest
  validate m l =
      let root = trim_space m.root_name in
      refuse (bad_head m l root) invalid_manifest
      >> (add_entries (normalized l) start m.entries >>= finish root)

  -- The paths of the loop of `Select` that are accepted, and the directories above them.
  abbrev pub accepted_paths : List (List ℕ) → List (List ℕ)
  accepted_paths [] = []
  accepted_paths (v ∷ vs) =
      let rest = accepted_paths vs in
      elim (normalize_path letters v) [ err e ↦ rest | ok (p, n) ↦ p ∷ rest ]

  abbrev pub all_parents : List (List ℕ) → List (List ℕ)
  all_parents [] = []
  all_parents (p ∷ ps) = parents_of p ++ all_parents ps

  abbrev pub is_directory : EntryType → Bool
  is_directory directory = true
  is_directory _ = false

  -- Go's `<` on texts.
  abbrev pub bytes_lt : List ℕ → List ℕ → Bool
  bytes_lt [] [] = false
  bytes_lt [] (y ∷ ys) = true
  bytes_lt (x ∷ xs) [] = false
  bytes_lt (x ∷ xs) (y ∷ ys) =
      let rest = bytes_lt xs ys in if ltb x y then true else if ltb y x then false else rest

  unfoldable pub select_entries : Manifest → List (List ℕ) → Manifest
  select_entries m values =
      let accepted = accepted_paths values in
      let parents = all_parents accepted in
      record m {
        entries =
            slice_stable (λ a b. bytes_lt a.path b.path)
              (select
                (λ e.
                  any (bytes_eq e.path) accepted
                  || is_directory e.entry_type && any (bytes_eq e.path) parents)
                m.entries);
      }

pub data ConflictAction : Type 0 where
  overwrite rename skip ask : ConflictAction
  other_action : List ℕ → ConflictAction

abbrev pub is_file : EntryType → Bool
is_file file = true
is_file _ = false

abbrev pub known_action : ConflictAction → ConflictAction
known_action (other_action a) = ask
known_action a = a

unfoldable pub resolve_conflict : Letters → ℤ → List ℕ → Entry → ConflictAction → ConflictAction
resolve_conflict letters size sha256 e action =
    if is_file e.entry_type && eq_ℤ size e.size && letters.equal_fold sha256 e.sha256
    then skip
    else known_action action
