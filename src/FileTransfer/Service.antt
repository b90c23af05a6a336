-- ===== src/FileTransfer/Service.antt =====
-- internal/filetransfer/service.go: chunks and assembled files on the node's disk. The database is
-- the parameter `store` over its state `W`; the operating system decides by `os` which of its calls
-- fail; the paths that it composes and the hash are parameters too. A handler returns its result, the
-- store's state, the disk and the metrics.
pub mod Sizes
pub mod Upload
pub mod Complete
use nex_drop.Prelude.{
  ℕ, suc, ◌+◌, String, Bool, true, false, not, ◌&&◌, ◌||◌, List, [], ◌∷◌, ◌++◌, Option, none, some,
  length, take, is_empty, str_eq, ltb, leb, ◌==◌, if◌then◌else◌,
}
use nex_drop.Prelude.Int.{ℤ, pos, negsuc, pos_part, ◌-ℤ◌, ◌+ℤ◌, ◌*ℤ◌, wrap64, ltb_ℤ, leb_ℤ, eq_ℤ}
use nex_drop.Prelude.Result.{Result, ok, err, ◌>>=◌, ◌>>◌, refuse}
use nex_drop.Transfer.Types.{Session}
use nex_drop.FileTransfer.Manifest.{Reader, bytes_eq}

pub data Error : Type 0 where
  invalid not_found forbidden conflict hash_mismatch incomplete : Error
  other_error : String → Error

pub record FileRecord : Type 0 where
  pub id : String
  pub transfer_id : String
  pub size : ℤ
  pub sha256 : List ℕ
  pub chunk_size : ℤ
  pub chunk_count : ℤ
  pub status : String
  pub storage_path : String

pub record ChunkRecord : Type 0 where
  pub file_id : String
  pub index : ℤ
  pub size : ℤ
  pub sha256 : List ℕ
  pub storage_path : String
  pub completed_at : ℕ

pub record Store (W : Type 0) : Type 0 where
  pub prepare_chunk_upload :
      W → Session → String → ℤ → Result Error (FileRecord × Option ChunkRecord)
  pub record_chunk : W → Session → ChunkRecord → Result Error (Unit {0}) × W
  pub open_chunk : W → Session → String → ℤ → Result Error ChunkRecord
  pub prepare_file_completion : W → Session → String → Result Error (FileRecord × List ChunkRecord)
  pub complete_file : W → Session → String → String → ℕ → Result Error (Unit {0}) × W

-- The files by path.
abbrev pub Disk : Type 0
Disk = String → Option (List ℕ)

abbrev pub put : Disk → String → List ℕ → Disk
put d path bytes p = if str_eq p path then some bytes else d p

abbrev pub remove : Disk → String → Disk
remove d path p = if str_eq p path then none else d p

-- The system calls that may fail. `write_chunk` is the writing of an upload's bytes, `copy_file` the
-- copying of a chunk's file into the assembled one, with the closing of the chunk's file.
pub data OsCall : Type 0 where
  mkdir create_temp write_chunk sync close rename : OsCall
  open_file : String → OsCall
  copy_file : String → OsCall
  remove_file : String → OsCall

-- `leftover` is what stays in a temporary file that cannot be removed.
pub record Os : Type 0 where
  pub fails : OsCall → Option String
  pub temporary : String
  pub leftover : List ℕ

pub record Env : Type 0 where
  pub sha256 : List ℕ → List ℕ
  pub chunk_path : String → ℤ → List ℕ → String
  pub file_path : String → String

pub data Operation : Type 0 where
  upload download complete : Operation

pub data Metric : Type 0 where
  storage_operation : Operation → Bool → Metric
  checksum_failure : Operation → Metric

-- A system call that the code checks.
abbrev pub call : Os → OsCall → Result Error (Unit {0})
call os c = elim (os.fails c) [ none ↦ ok tt | some e ↦ err (other_error e) ]

-- `os.Remove`, whose error the code ignores, on a file and on the temporary file.
abbrev pub try_remove : Os → Disk → String → Disk
try_remove os d path = elim (os.fails (remove_file path)) [ none ↦ remove d path | some e ↦ d ]

abbrev pub discard : Os → Disk → Disk
discard os d = elim (os.fails (remove_file os.temporary)) [
  | none ↦ remove d os.temporary
  | some e ↦ put d os.temporary os.leftover
]

-- `int64` products and differences wrap.
unfoldable pub expected_chunk_size : FileRecord → ℤ → Result Error ℤ
expected_chunk_size file index =
    if leb_ℤ file.chunk_count index || leb_ℤ file.chunk_size (pos 0) || ltb_ℤ file.size (pos 0)
    then err invalid
    else if ltb_ℤ index (wrap64 (file.chunk_count -ℤ pos 1))
    then ok file.chunk_size
    else ok (wrap64 (file.size -ℤ wrap64 (index *ℤ file.chunk_size)))
