-- ===== src/FileTransfer/Service/Upload.antt =====
-- `UploadChunk` of internal/filetransfer/service.go.
pub mod Safety
use nex_drop.Prelude.{
  ℕ, zero, ◌+◌, ◌≤◌, ◌<◌, ◌≡◌, ◌≢◌, ◌⊎◌, inl, inr, refl, String, Bool, true, false, not, ◌&&◌, ◌||◌,
  List, [], ◌∷◌, Option, none, some, length, take, is_empty, str_eq, eq_iff, ltb, ◌==◌, Bool-cases,
  if◌then◌else◌, arith,
}
use nex_drop.Prelude.Int.{ℤ, pos, pos_part, ◌+ℤ◌, wrap64, ltb_ℤ, eq_ℤ}
use nex_drop.Prelude.Result.{Result, ok, err, ◌>>=◌, ◌>>◌, refuse}
use nex_drop.Transfer.Types.{Session}
use nex_drop.FileTransfer.Manifest.{Reader, bytes_eq}
use nex_drop.FileTransfer.Manifest.Splits.{bytes_eq_path}
use nex_drop.FileTransfer.Service.{
  Error, invalid, not_found, conflict, hash_mismatch, other_error, FileRecord, ChunkRecord, Store,
  Disk, put, remove, OsCall, mkdir, create_temp, write_chunk, try_remove, discard, sync, close,
  rename, open_file, Os, Env, Operation, upload, download, Metric, storage_operation,
  checksum_failure, call, expected_chunk_size,
}

-- What `UploadChunk` has found out before it writes: the chunk is there, or its size is known.
pub data Ready : Type 0 where
  stored_before : ChunkRecord → Ready
  expects : FileRecord → ℤ → Ready

-- `io.Copy` from a reader that is limited to the expected size and one byte more: what is written.
abbrev pub copied : Reader → ℤ → List ℕ
copied reader expected = take (pos_part (wrap64 (expected +ℤ pos 1))) reader.bytes

-- No byte, no write.
abbrev write : Os → List ℕ → Result Error (Unit {0})
write os [] = ok tt
write os (b ∷ bs) = call os write_chunk

-- The reader's own error is met only if it ends before the limit.
abbrev read_all : Reader → ℤ → Result Error (Unit {0})
read_all reader expected =
    if ltb (length reader.bytes) (pos_part (wrap64 (expected +ℤ pos 1)))
    then elim reader.failure [ none ↦ ok tt | some e ↦ err (other_error e) ]
    else ok tt

module _ {W : Type 0} (env : Env) (os : Os) (store : Store W) where
  open env use {sha256, chunk_path}

  -- From the arguments' tests to the creation of the temporary file.
  unfoldable pub get_ready :
      W → Session → String → ℤ → List ℕ → Option Reader → Result Error (Ready × Reader)
  get_ready w session file_id index expected reader = elim reader [
    | none ↦ err invalid
    | some r ↦ (do
      refuse (is_empty file_id || ltb_ℤ index (pos 0) || not (length expected == 32)) invalid
      found ← store.prepare_chunk_upload w session file_id index
      elim found.1 [
        | some existing ↦
            if bytes_eq existing.sha256 expected
            then ok (stored_before existing, r)
            else err conflict
        | none ↦ (do
          size ← expected_chunk_size found.0 index
          call os mkdir
          call os create_temp
          ok (expects found.0 size, r))
      ])
  ]

  -- The checks of what was written, up to the renaming.
  unfoldable pub publish : Reader → ℤ → List ℕ → Result Error (Unit {0})
  publish reader size expected = do
    write os (copied reader size)
    read_all reader size
    refuse (not (eq_ℤ (pos (length (copied reader size))) size)) invalid
    refuse (not (bytes_eq (sha256 (copied reader size)) expected)) hash_mismatch
    call os sync
    call os close
    call os rename

  abbrev is_hash_mismatch : Result Error (Unit {0}) → Bool
  is_hash_mismatch (err hash_mismatch) = true
  is_hash_mismatch _ = false

  abbrev new_record : String → ℤ → List ℕ → ℕ → ChunkRecord
  new_record file_id index bytes now = record {
    file_id = file_id;
    index = index;
    size = pos (length bytes);
    sha256 = sha256 bytes;
    storage_path = chunk_path file_id index (sha256 bytes);
    completed_at = now;
  }

  -- After the temporary file was created: write it, publish it under its path, and record it.
  unfoldable pub receive :
      W
      → Disk
      → Session
      → String
      → ℤ
      → List ℕ
      → Reader
      → ℤ
      → ℕ
      → Result Error ChunkRecord × W × Disk × List Metric
  receive w disk session file_id index expected reader size now =
      let bytes = copied reader size in
      let written = put disk os.temporary bytes in
      let path = chunk_path file_id index (sha256 bytes) in
      let published = put (remove written os.temporary) path bytes in
      let chunk = new_record file_id index bytes now in
      let recorded = store.record_chunk w session chunk in
      elim (publish reader size expected) [
        | err hash_mismatch ↦ (
          err hash_mismatch,
          w,
          discard os written,
          checksum_failure upload ∷ storage_operation upload false ∷ [],
        )
        | err e ↦ (err e, w, discard os written, storage_operation upload false ∷ [])
        | ok _ ↦ elim recorded.0 [
          | err e ↦
              (err e, recorded.1, try_remove os published path, storage_operation upload false ∷ [])
          | ok _ ↦ (ok chunk, recorded.1, published, storage_operation upload true ∷ [])
        ]
      ]

  unfoldable pub upload_chunk :
      W
      → Disk
      → Session
      → String
      → ℤ
      → List ℕ
      → Option Reader
      → ℕ
      → Result Error ChunkRecord × W × Disk × List Metric
  upload_chunk w disk session file_id index expected reader now =
      elim (get_ready w session file_id index expected reader) [
        | err e ↦ (err e, w, disk, storage_operation upload false ∷ [])
        | ok (stored_before chunk, r) ↦ (ok chunk, w, disk, storage_operation upload true ∷ [])
        | ok (expects file size, r) ↦ receive w disk session file_id index expected r size now
      ]
