-- ===== src/FileTransfer/Service/Complete.antt =====
-- `Complete` and `OpenChunk` of internal/filetransfer/service.go.
pub mod Assembly
use nex_drop.Prelude.{
  ℕ, ◌+◌, ◌≡◌, String, Bool, true, false, not, ◌&&◌, ◌||◌, List, [], ◌∷◌, ◌++◌, Option, none, some,
  length, is_empty, str_eq, ◌==◌, if◌then◌else◌,
}
use nex_drop.Prelude.Int.{ℤ, pos, ltb_ℤ, eq_ℤ}
use nex_drop.Prelude.Result.{Result, ok, err, ◌>>=◌, ◌>>◌, refuse}
use nex_drop.Transfer.Types.{Session}
use nex_drop.FileTransfer.Manifest.{bytes_eq}
use nex_drop.FileTransfer.Service.{
  Error, invalid, not_found, hash_mismatch, incomplete, other_error, FileRecord, ChunkRecord, Store,
  Disk, put, remove, try_remove, discard, mkdir, create_temp, sync, close, rename, open_file,
  copy_file, Os, Env, complete, download, Metric, storage_operation, checksum_failure, call,
}

abbrev pub available_on_node : String
available_on_node = "AVAILABLE_ON_NODE"

-- `os.Open`: the content of the file, unless it is missing or the call fails.
abbrev pub open_at : Os → Disk → String → Result Error (List ℕ)
open_at os disk path = elim (os.fails (open_file path)) [
  | some e ↦ err (other_error e)
  | none ↦ elim (disk path) [ none ↦ err not_found | some bytes ↦ ok bytes ]
]

abbrev is_some {ℓ} : {A : Type ℓ} → Option A → Bool
is_some none = false
is_some (some a) = true

module _ {W : Type 0} (env : Env) (os : Os) (store : Store W) where
  open env use {sha256, file_path}

  unfoldable pub open_chunk :
      W → Disk → Session → String → ℤ → Result Error (ChunkRecord × List ℕ) × List Metric
  open_chunk w disk session file_id index =
      let opened : Result Error (ChunkRecord × List ℕ) = do
        refuse (is_empty file_id || ltb_ℤ index (pos 0)) invalid
        chunk ← store.open_chunk w session file_id index
        bytes ← open_at os disk chunk.storage_path
        ok (chunk, bytes)
      in elim opened [
        | ok r ↦ (ok r, storage_operation download true ∷ [])
        | err e ↦ (err e, storage_operation download false ∷ [])
      ]

-- One chunk of the loop: its place, its file, and the check of what was copied.
module _ (env : Env) (os : Os) where
  open env use {sha256, file_path}

  unfoldable pub read_chunk : Disk → ℕ → ChunkRecord → Result Error (List ℕ)
  read_chunk disk index chunk = do
    refuse (not (eq_ℤ chunk.index (pos index))) incomplete
    bytes ← elim (open_at os disk chunk.storage_path) [ ok b ↦ ok b | err e ↦ err incomplete ]
    refuse
        (is_some (os.fails (copy_file chunk.storage_path))
          || not (eq_ℤ (pos (length bytes)) chunk.size)
          || not (bytes_eq (sha256 bytes) chunk.sha256))
        hash_mismatch
    ok bytes

  -- The loop over the chunks, from an index on, with what the assembled file has so far.
  unfoldable pub assemble : Disk → ℕ → List ℕ → List ChunkRecord → Result Error (List ℕ)
  assemble disk index assembled [] = ok assembled
  assemble disk index assembled (chunk ∷ chunks) = elim (read_chunk disk index chunk) [
    | err e ↦ err e
    | ok bytes ↦ assemble disk (index + 1) (assembled ++ bytes) chunks
  ]

module _ {W : Type 0} (env : Env) (os : Os) (store : Store W) where
  open env use {sha256, file_path}

  -- After the temporary file was created, whose growing content no chunk's path reads: assemble, check, publish and record.
  unfoldable pub publish_file :
      W
      → Disk
      → Session
      → String
      → FileRecord
      → List ChunkRecord
      → ℕ
      → Result Error FileRecord × W × Disk × List Metric
  publish_file w disk session file_id file chunks now =
      let path = file_path file_id in
      let completed = store.complete_file w session file_id path now in
      let working = put disk os.temporary [] in
      let cleared = discard os working in
      elim (assemble env os working 0 [] chunks) [
        | err e ↦ (err e, w, cleared, storage_operation complete false ∷ [])
        | ok bytes ↦
            if not (bytes_eq (sha256 bytes) file.sha256)
            then (
              err hash_mismatch,
              w,
              cleared,
              checksum_failure complete ∷ storage_operation complete false ∷ [],
            )
            else elim (do call os sync; call os close; call os rename) [
              | err e ↦ (err e, w, cleared, storage_operation complete false ∷ [])
              | ok _ ↦ elim completed.0 [
                | err e ↦ (
                  err e,
                  completed.1,
                  try_remove os (put (remove working os.temporary) path bytes) path,
                  storage_operation complete false ∷ [],
                )
                | ok _ ↦ (
                  ok (record file { status = available_on_node; storage_path = path }),
                  completed.1,
                  put (remove working os.temporary) path bytes,
                  storage_operation complete true ∷ [],
                )
              ]
            ]
      ]

  abbrev created : Result Error (Unit {0})
  created = do call os mkdir; call os create_temp

  unfoldable pub complete_file :
      W → Disk → Session → String → ℕ → Result Error FileRecord × W × Disk × List Metric
  complete_file w disk session file_id now =
      if is_empty file_id
      then (err invalid, w, disk, storage_operation complete false ∷ [])
      else elim (store.prepare_file_completion w session file_id) [
        | err e ↦ (err e, w, disk, storage_operation complete false ∷ [])
        | ok (file, chunks) ↦
            if str_eq file.status available_on_node
            then (ok file, w, disk, storage_operation complete true ∷ [])
            else if not (eq_ℤ (pos (length chunks)) file.chunk_count)
            then (err incomplete, w, disk, storage_operation complete false ∷ [])
            else elim created [
              | err e ↦ (err e, w, disk, storage_operation complete false ∷ [])
              | ok _ ↦ publish_file w disk session file_id file chunks now
            ]
      ]
