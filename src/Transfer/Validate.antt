-- ===== src/Transfer/Validate.antt =====
-- `validateRequest` of internal/transfer/service.go and its tests.
pub mod Chunks
pub mod Spec
use nex_drop.Prelude.{
  ℕ, ◌+◌, ◌/◌, ◌%◌, String, Bool, true, false, not, ◌&&◌, ◌||◌, List, [], ◌∷◌, any, length, str_eq,
  is_empty, every_char, trim_space, ◌==◌, if◌then◌else◌,
}
use nex_drop.Prelude.Int.{ℤ, pos, pos_part, ltb_ℤ, leb_ℤ, eq_ℤ}
use nex_drop.Prelude.Result.{Result, ◌>>◌, refuse}
use nex_drop.Transfer.Types.{
  Error, invalid, ContentType, text, url, image, file, notification, TargetType, single, multiple,
  group_all, group_selected, other_target, File, Request,
}

unfoldable pub is_text_content : ContentType → Bool
is_text_content text = true
is_text_content url = true
is_text_content notification = true
is_text_content _ = false

unfoldable pub valid_content_type : ContentType → Bool
unfolding is_text_content
valid_content_type image = true
valid_content_type file = true
valid_content_type value = is_text_content value

unfoldable pub valid_target_type : TargetType → Bool
valid_target_type (other_target s) = false
valid_target_type _ = true

abbrev is_group : TargetType → Bool
is_group group_all = true
is_group group_selected = true
is_group _ = false

abbrev is_single : TargetType → Bool
is_single single = true
is_single _ = false

abbrev is_selection : TargetType → Bool
is_selection multiple = true
is_selection group_selected = true
is_selection _ = false

-- The loop of `hasDuplicates`, with the keys of `seen`.
unfoldable pub has_duplicates_from : List String → List String → Bool
has_duplicates_from seen [] = false
has_duplicates_from seen (v ∷ vs) =
    let rest = has_duplicates_from (v ∷ seen) vs in is_empty v || any (str_eq v) seen || rest

unfoldable pub has_duplicates : List String → Bool
unfolding has_duplicates_from
has_duplicates values = has_duplicates_from [] values

-- `strings.ContainsAny(name, "/\\\x00")` does not hold.
abbrev is_plain_char : ℕ → Bool
is_plain_char c = not (c == b'/' || c == 92 || c == 0)

unfoldable pub valid_name : String → Bool
valid_name name =
    let trimmed = trim_space name in
    not (is_empty trimmed)
    && str_eq trimmed name
    && every_char is_plain_char trimmed
    && not (str_eq trimmed ".")
    && not (str_eq trimmed "..")

-- `int(file.Size / int64(file.ChunkSize))`, one more if there is a remainder; read where the size is
-- not negative and the chunk size is positive.
unfoldable pub expected_chunk_count : ℤ → ℤ → ℕ
expected_chunk_count size chunk_size =
    let whole = pos_part size / pos_part chunk_size in
    if pos_part size % pos_part chunk_size == 0 then whole else whole + 1

unfoldable pub valid_file : File → Bool
valid_file f =
    valid_name f.name
    && leb_ℤ (pos 0) f.size
    && length f.sha256 == 32
    && ltb_ℤ (pos 0) f.chunk_size
    && eq_ℤ f.chunk_count (pos (expected_chunk_count f.size f.chunk_size))

abbrev is_nil {ℓ} : {A : Type ℓ} → List A → Bool
is_nil [] = true
is_nil _ = false

abbrev same : Bool → Bool → Bool
same true b = b
same false b = not b

-- The tests on the target identifiers and the group.
unfoldable pub validate_targets : TargetType → List String → String → Result Error (Unit {0})
validate_targets t ids group_id = do
  refuse (not (same (is_group t) (not (is_empty group_id)))) invalid
  refuse (is_single t && not (length ids == 1)) invalid
  refuse (is_selection t && is_nil ids) invalid

-- The tests on the content and the files.
unfoldable pub validate_content : ContentType → List ℕ → List File → Result Error (Unit {0})
unfolding is_text_content
validate_content t content files =
    if is_text_content t
    then refuse (is_nil content || not (is_nil files)) invalid
    else (do refuse (is_nil files) invalid; refuse (any (λ f. not (valid_file f)) files) invalid)

unfoldable pub validate_request : Request → Result Error (Unit {0})
validate_request r = do
  refuse (not (valid_target_type r.target_type) || not (valid_content_type r.content_type)) invalid
  refuse (has_duplicates r.target_device_ids) invalid
  validate_targets r.target_type r.target_device_ids r.group_id
  validate_content r.content_type r.content r.files
