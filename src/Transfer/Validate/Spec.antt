-- ===== src/Transfer/Validate/Spec.antt =====
-- What `validateRequest` accepts (internal/transfer/service.go), said without its tests.
use nex_drop.Prelude.{
  ℕ, ◌≡◌, ◌≢◌, ◌↔◌, refl, String, true, false, not, List, [], ◌∷◌, All, any, length, every_char,
  trim_space, arith, eq_iff,
}
use nex_drop.Prelude.Int.{pos, pos_part, ◌≤ℤ◌, ◌<ℤ◌}
use nex_drop.Prelude.Result.{ok}
use nex_drop.Transfer.Types.{
  ContentType, text, url, image, file, notification, other_content, TargetType, single, multiple,
  all_devices, group_all, group_selected, other_target, File, Request,
}
use nex_drop.Transfer.Validate.{
  is_plain_char, valid_name, expected_chunk_count, valid_file, valid_content_type,
  valid_target_type, validate_targets, validate_content, validate_request,
}
use nex_drop.Transfer.Validate.Chunks.{
  Distinct, Covers, is_empty_iff, has_duplicates_iff, expected_chunk_count-Covers, Covers-unique,
}

-- A file name with no space around it, no separator and no NUL, that is no directory.
pub record NameFits (name : String) : Type 0 where
  pub trimmed : trim_space name ≡ name
  pub given : name ≢ ""
  pub plain : every_char is_plain_char name ≡ true
  pub not_here : name ≢ "."
  pub not_parent : name ≢ ".."

-- A file with as many chunks as cover its size.
pub record FileFits (f : File) : Type 0 where
  pub name : NameFits f.name
  pub size : pos 0 ≤ℤ f.size
  pub hash : length f.sha256 ≡ 32
  pub chunk : pos 0 <ℤ f.chunk_size
  pub count : pos 0 ≤ℤ f.chunk_count
  pub covers : Covers (pos_part f.size) (pos_part f.chunk_size) (pos_part f.chunk_count)

-- The devices and the group that go with each kind of target.
abbrev pub TargetsFit : TargetType → List String → String → Type 0
TargetsFit single ids g = (length ids ≡ 1) × (g ≡ "")
TargetsFit multiple ids g = (ids ≢ []) × (g ≡ "")
TargetsFit all_devices ids g = g ≡ ""
TargetsFit group_all ids g = g ≢ ""
TargetsFit group_selected ids g = (ids ≢ []) × (g ≢ "")
TargetsFit (other_target s) ids g = ⊥

-- Text travels in the request, everything else in files.
abbrev pub ContentFits : ContentType → List ℕ → List File → Type 0
ContentFits text content files = (content ≢ []) × (files ≡ [])
ContentFits url content files = (content ≢ []) × (files ≡ [])
ContentFits notification content files = (content ≢ []) × (files ≡ [])
ContentFits image content files = (files ≢ []) × All FileFits files
ContentFits file content files = (files ≢ []) × All FileFits files
ContentFits (other_content s) content files = ⊥

pub record WellFormed (r : Request) : Type 0 where
  pub distinct : Distinct r.target_device_ids
  pub targets : TargetsFit r.target_type r.target_device_ids r.group_id
  pub content : ContentFits r.content_type r.content r.files

valid_name_iff : (name : String) → (valid_name name ≡ true) ↔ NameFits name
unfolding valid_name
valid_name_iff name =
    let l = eq_iff (trim_space name) name in
    let d = eq_iff (trim_space name) "." in
    let dd = eq_iff (trim_space name) ".." in
    let e = is_empty_iff (trim_space name) in
    (λ h. ground (arith, l, d, dd, e), λ h. ground (arith, l, d, dd, e, h.trimmed))

valid_file_fits : (f : File) → valid_file f ≡ true → FileFits f
unfolding valid_file
valid_file_fits f h =
    let c : pos 0 <ℤ f.chunk_size = ground arith in
    let covers = expected_chunk_count-Covers f.size f.chunk_size (ground arith) in
    let n : f.chunk_count ≡ pos (expected_chunk_count f.size f.chunk_size) = ground arith in
    record {
      name = (valid_name_iff f.name).0 (ground arith);
      size = ground arith;
      hash = ground arith;
      chunk = c;
      count = rw n (omega arith);
      covers = rw n covers;
    }

fits_valid_file : (f : File) → FileFits f → valid_file f ≡ true
unfolding valid_file
fits_valid_file f h = ground (
  arith,
  (valid_name_iff f.name).1 h.name,
  Covers-unique _ _ (pos_part f.chunk_count) (expected_chunk_count f.size f.chunk_size) h.covers
      (expected_chunk_count-Covers f.size f.chunk_size (ground arith)),
)

valid_files_iff : (fs : List File) → (any (λ f. not (valid_file f)) fs ≡ false) ↔ All FileFits fs
valid_files_iff [] = (λ _. tt, λ _. refl)
valid_files_iff (f ∷ fs) =
    let (to, back) = valid_files_iff fs in
    (
      λ h. (valid_file_fits f (ground arith), to (ground arith)),
      λ h. ground (arith, fits_valid_file f h.0, back h.1),
    )

content_fits :
    (t : ContentType) (content : List ℕ) (files : List File)
    → valid_content_type t ≡ true
    → validate_content t content files ≡ ok tt
    → ContentFits t content files
unfolding valid_content_type validate_content
content_fits image content files v h = ground (arith, valid_files_iff files)
content_fits file content files v h = ground (arith, valid_files_iff files)
content_fits _ content files v h = ground arith

fits_content :
    (t : ContentType) (content : List ℕ) (files : List File)
    → ContentFits t content files
    → (valid_content_type t ≡ true) × (validate_content t content files ≡ ok tt)
unfolding valid_content_type validate_content
fits_content image content files h = ground (arith, valid_files_iff files)
fits_content file content files h = ground (arith, valid_files_iff files)
fits_content _ content files h = ground arith

targets_fit :
    (t : TargetType) (ids : List String) (g : String)
    → valid_target_type t ≡ true
    → validate_targets t ids g ≡ ok tt
    → TargetsFit t ids g
unfolding valid_target_type validate_targets
targets_fit single ids g v h = ground (arith, is_empty_iff g)
targets_fit _ ids g v h = ground (arith, is_empty_iff g)

fits_targets :
    (t : TargetType) (ids : List String) (g : String)
    → TargetsFit t ids g
    → (valid_target_type t ≡ true) × (validate_targets t ids g ≡ ok tt)
unfolding valid_target_type validate_targets
fits_targets single ids g h = ground (arith, is_empty_iff g)
fits_targets _ ids g h = ground (arith, is_empty_iff g)

validated : (r : Request) → validate_request r ≡ ok tt → WellFormed r
unfolding validate_request
validated r h = ground (
  arith,
  has_duplicates_iff r.target_device_ids,
  targets_fit r.target_type r.target_device_ids r.group_id,
  content_fits r.content_type r.content r.files,
)

accepted : (r : Request) → WellFormed r → validate_request r ≡ ok tt
unfolding validate_request
accepted r h = ground (
  arith,
  has_duplicates_iff r.target_device_ids,
  fits_targets r.target_type r.target_device_ids r.group_id h.targets,
  fits_content r.content_type r.content r.files h.content,
)

-- A request passes validation exactly when it is well formed: its device identifiers are given and
-- distinct, they and the group fit the kind of target, and its content or its files fit the kind of
-- content, each file with a clean name, a 32-byte hash and exactly the chunks that cover its size.
pub validate_request_iff : (r : Request) → (validate_request r ≡ ok tt) ↔ WellFormed r
validate_request_iff r = (validated r, accepted r)
