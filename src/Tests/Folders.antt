-- ===== src/Tests/Folders.antt =====
-- Concrete runs of internal/pairing and internal/folder.
use nex_drop.Prelude.{
  ℕ, zero, suc, ◌+◌, ◌-◌, ◌≡◌, refl, true, false, All, [], ◌∷◌, List, none, some, String, map,
  length, ltb, leb, ◌&&◌, if◌then◌else◌, arith,
}
use nex_drop.Prelude.Int.{pos, ◌≤ℤ◌, ◌+ℤ◌, ◌-ℤ◌, wrap64}
use nex_drop.Prelude.Result.{ok, err}
use nex_drop.Transfer.Types.{Session}
use nex_drop.FileTransfer.Manifest.{bytes_eq}
use nex_drop.Pairing.{locked, TrustStatus, pending, trusted, redeem, is_code, maximum_code_attempts}
use nex_drop.Pairing.Codes.{
  DeviceRow, CodeRow, Tables, actor_of, code_of, scan_device, trust, accepted, redeem_pairing_code,
  pairing_store,
}
use nex_drop.Pairing.Attempts.{Waits, guess_all, redeem-guess_all}
use nex_drop.Pairing.Once.{IsRefused, redeem_once}
use nex_drop.Folder.Paths.{
  Letters, slash, backslash, dot, colon, path_traversal, split, join, contains, clean,
  clean_segments, backwards, bad_segment, windows_reserved, check_cleaned, normalize_path,
  drive_qualified,
}
use nex_drop.Folder.Inside.{walk, Name, Free, normalize_path-walk}
use nex_drop.Folder.Drives.{normalize_path-drive_qualified}
use nex_drop.Folder.{
  directory, file, Manifest, Limits, normalized, valid_sha256, check_entry, add_entry, add_entries,
  validate,
}
use nex_drop.Folder.Totals.{Distinct, sum_sizes, validate_bounds}

abbrev hash_code : List ℕ → List ℕ
hash_code code = 1 ∷ code

abbrev qr_of : String → String → List ℕ → String
qr_of id device_id code = id

abbrev new_id : ℕ → String
new_id n = "code"

abbrev session : Session
session = record { id = "ann"; session_id = "s"; device_id = some "laptop" }

abbrev device : String → TrustStatus → DeviceRow
device id status = record {
  id = id;
  user_id = "ann";
  display_name = id;
  device_type = "ANDROID";
  key = some (5 ∷ [], "X25519");
  trust = status;
  revoked_at = none;
  created_at = 0;
}

abbrev laptop : DeviceRow
laptop = device "laptop" trusted

abbrev phone : DeviceRow
phone = device "phone" pending

abbrev right_code : List ℕ
right_code = 49 ∷ 50 ∷ 51 ∷ 52 ∷ 53 ∷ 54 ∷ []

abbrev wrong_code : List ℕ
wrong_code = 49 ∷ 50 ∷ 51 ∷ 52 ∷ 53 ∷ 55 ∷ []

abbrev code_row : CodeRow
code_row = record {
  id = "c";
  target_device_id = "phone";
  session_id = "p";
  code_hash = hash_code right_code;
  attempt_count = 0;
  expires_at = 100;
  used_at = none;
  created_at = 0;
}

abbrev tables : Tables
tables = record {
  devices = laptop ∷ phone ∷ [];
  sessions = record { id = "s"; device_id = some "laptop"; revoked_at = none } ∷ [];
  codes = code_row ∷ [];
  serial = 1;
}

tables-Waits : Waits session "laptop" "c" laptop phone phone (5 ∷ [], "X25519") tables code_row
unfolding actor_of code_of
tables-Waits = record {
  acts = refl;
  found = refl;
  unused = refl;
  waiting = refl;
  device = refl;
  key = refl;
}

abbrev guesses : List (List ℕ × ℕ)
guesses = (wrong_code, 1) ∷ (wrong_code, 2) ∷ []

six_digits : (is_code right_code ≡ true) × (is_code wrong_code ≡ true)
unfolding is_code
six_digits = (refl, refl)

redeem-guess_all_example :
    redeem
      (pairing_store new_id)
      hash_code
      qr_of
      (guess_all new_id hash_code qr_of tables session "laptop" "c" guesses)
      session
      "laptop"
      "c"
      right_code
      3
    ≡ (if ltb 2 maximum_code_attempts
        then (
          ok (scan_device (trust phone) (5 ∷ [], "X25519")),
          accepted
              (guess_all new_id hash_code qr_of tables session "laptop" "c" guesses)
              "c"
              "phone"
              3,
        )
        else (err locked, guess_all new_id hash_code qr_of tables session "laptop" "c" guesses))
redeem-guess_all_example =
    redeem-guess_all new_id hash_code qr_of session "laptop" "c" laptop phone phone
      (5 ∷ [], "X25519") guesses tables code_row right_code 3 refl refl tables-Waits
      ((six_digits.1, refl, refl), ((six_digits.1, refl, refl), tt)) six_digits.0 refl refl

abbrev paired : Tables
paired = accepted tables "c" "phone" 3

paired_ok :
    redeem (pairing_store new_id) hash_code qr_of tables session "laptop" "c" right_code 3
    ≡ (ok (scan_device (trust phone) (5 ∷ [], "X25519")), paired)
unfolding redeem is_code redeem_pairing_code actor_of code_of
paired_ok = refl

redeem_once_example :
    IsRefused paired
      (redeem (pairing_store new_id) hash_code qr_of paired session "laptop" "c" right_code 4)
redeem_once_example =
    redeem_once new_id hash_code qr_of tables paired session session "laptop" "laptop" "c"
      right_code right_code 3 4 (scan_device (trust phone) (5 ∷ [], "X25519")) paired_ok

-- ASCII letters.
abbrev lower : ℕ → ℕ
lower c = if leb b'A' c && leb c b'Z' then c + 32 else c

abbrev upper : ℕ → ℕ
upper c = if leb b'a' c && leb c b'z' then c - 32 else c

abbrev ascii : Letters
ascii = record {
  to_lower = map lower;
  to_upper = map upper;
  trim_space = λ s. s;
  equal_fold = λ a b. bytes_eq (map lower a) (map lower b);
}

-- `a//./b\\c`, and what is left of it.
abbrev untidy : List ℕ
untidy = b'a' ∷ slash ∷ slash ∷ dot ∷ slash ∷ b'b' ∷ backslash ∷ b'c' ∷ []

abbrev tidy : List ℕ
tidy = b'a' ∷ slash ∷ b'b' ∷ slash ∷ b'c' ∷ []

untidy_ok : normalize_path ascii untidy ≡ ok (tidy, 3)
unfolding normalize_path drive_qualified check_cleaned contains clean clean_segments split join
    bad_segment windows_reserved
untidy_ok = refl

normalize_path-walk_example :
    (walk ((b'r' ∷ []) ∷ []) (split tidy) ≡ backwards ((b'r' ∷ []) ∷ []) (split tidy))
    × All Name (split tidy)
    × Free tidy
    × (3 ≡ length (split tidy))
normalize_path-walk_example = normalize_path-walk ascii untidy tidy 3 ((b'r' ∷ []) ∷ []) untidy_ok

good_segments :
    (bad_segment ascii (b'C' ∷ colon ∷ []) ≡ false) × (bad_segment ascii (b'x' ∷ []) ≡ false)
unfolding bad_segment windows_reserved
good_segments = (refl, refl)

normalize_path-drive_qualified_example :
    (normalize_path ascii (dot ∷ slash ∷ b'C' ∷ colon ∷ slash ∷ b'x' ∷ [])
      ≡ ok (b'C' ∷ colon ∷ slash ∷ b'x' ∷ [], 2))
    × (normalize_path ascii (b'C' ∷ colon ∷ slash ∷ b'x' ∷ []) ≡ err path_traversal)
normalize_path-drive_qualified_example =
    normalize_path-drive_qualified ascii b'C' (b'x' ∷ []) refl refl good_segments.0 good_segments.1

abbrev zeros : ℕ → List ℕ
zeros zero = []
zeros (suc n) = b'0' ∷ zeros n

abbrev shared : Manifest
shared = record {
  version = pos 1;
  root_name = b'R' ∷ [];
  entries =
      record {
        path = b'a' ∷ [];
        entry_type = directory;
        size = pos 0;
        modified_at = 0;
        sha256 = [];
        mime_type = [];
        file_id = [];
      }
      ∷ record {
        path = b'a' ∷ slash ∷ b'b' ∷ [];
        entry_type = file;
        size = pos 10;
        modified_at = 0;
        sha256 = zeros 64;
        mime_type = [];
        file_id = b'f' ∷ [];
      }
      ∷ [];
}

abbrev no_limits : Limits
no_limits = record {
  max_entries = pos 0;
  max_path_bytes = pos 0;
  max_manifest_bytes = pos 0;
  max_total_bytes = pos 0;
  max_depth = pos 0;
}

shared_ok : validate ascii shared no_limits ≡ ok shared
unfolding validate normalized add_entries add_entry check_entry valid_sha256 normalize_path
    drive_qualified check_cleaned contains clean clean_segments split join bad_segment
    windows_reserved wrap64 ◌+ℤ◌ ◌-ℤ◌
shared_ok = refl

validate_bounds_example :
    (pos (sum_sizes shared.entries) ≤ℤ (normalized no_limits).max_total_bytes)
    × Distinct (map (λ e. ascii.to_lower e.path) shared.entries)
validate_bounds_example =
    validate_bounds ascii shared shared no_limits (omega arith) ((omega arith), ((omega arith), tt))
      shared_ok
