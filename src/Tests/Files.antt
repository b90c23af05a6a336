-- ===== src/Tests/Files.antt =====
-- Concrete files, uploads and completions of internal/filetransfer.
use nex_drop.Prelude.{
  ℕ, zero, suc, ◌≡◌, ◌⊎◌, refl, true, [], ◌∷◌, List, String, none, some, arith, length,
}
use nex_drop.Prelude.Int.{ℤ, pos, wrap64, ◌-ℤ◌, ◌+ℤ◌, ◌*ℤ◌}
use nex_drop.Prelude.Result.{Result, ok, err}
use nex_drop.Transfer.Types.{Session}
use nex_drop.Transfer.Validate.{expected_chunk_count}
use nex_drop.FileTransfer.Manifest.{
  Manifest, Reader, build_manifest, build_loop, verify_chunk, verify_file,
}
use nex_drop.FileTransfer.Manifest.Splits.{Describes, build_manifest-Describes}
use nex_drop.FileTransfer.Manifest.Verify.{
  piece_at, build_manifest-verify_chunk, build_manifest-verify_file,
}
use nex_drop.FileTransfer.Service.{
  Error, conflict, FileRecord, ChunkRecord, Store, Disk, put, Os, Env, expected_chunk_size,
}
use nex_drop.FileTransfer.Service.Sizes.{Stored}
use nex_drop.FileTransfer.Service.Upload.{upload_chunk, get_ready, publish, receive}
use nex_drop.FileTransfer.Service.Upload.Safety.{Accepted, upload_chunk_ok, upload_chunk_err}
use nex_drop.FileTransfer.Service.Complete.{
  available_on_node, complete_file, publish_file, assemble, read_chunk,
}
use nex_drop.FileTransfer.Service.Complete.Assembly.{Known, Published, complete_file_ok}

abbrev zeros : ℕ → List ℕ
zeros zero = []
zeros (suc n) = 0 ∷ zeros n

-- A hash that tells lengths apart.
abbrev digest : List ℕ → List ℕ
digest bytes = length bytes ∷ zeros 31

abbrev three_bytes : Reader
three_bytes = record { bytes = 7 ∷ 8 ∷ 9 ∷ []; failure = none }

abbrev manifest : Manifest
manifest = record {
  size = 3;
  sha256 = digest (7 ∷ 8 ∷ 9 ∷ []);
  chunk_size = pos 2;
  chunks =
      record { index = 0; size = 2; sha256 = digest (7 ∷ 8 ∷ []) }
      ∷ record { index = 1; size = 1; sha256 = digest (9 ∷ []) }
      ∷ [];
}

built : build_manifest digest 1000 three_bytes (pos 2) ≡ some (ok manifest)
unfolding build_manifest build_loop
built = refl

build_manifest-Describes_example :
    (m : Manifest) × (build_manifest digest 1000 three_bytes (pos 2) ≡ some (ok m))
    × Describes digest (pos 2) (7 ∷ 8 ∷ 9 ∷ []) m
build_manifest-Describes_example =
    build_manifest-Describes digest 1000 (7 ∷ 8 ∷ 9 ∷ []) (pos 2) (omega arith) (omega arith)

build_manifest-verify_chunk_example :
    verify_chunk digest manifest (pos 1) (piece_at 2 1 (7 ∷ 8 ∷ 9 ∷ [])) ≡ true
build_manifest-verify_chunk_example =
    build_manifest-verify_chunk digest 1000 (7 ∷ 8 ∷ 9 ∷ []) (pos 2) manifest 1 (omega arith)
      (omega arith) built (omega arith)

build_manifest-verify_file_example :
    (verify_file digest manifest three_bytes ≡ ok true)
    × (length manifest.chunks ≡ expected_chunk_count (pos 3) (pos 2))
build_manifest-verify_file_example =
    build_manifest-verify_file digest 1000 (7 ∷ 8 ∷ 9 ∷ []) (pos 2) manifest (omega arith)
      (omega arith) built

abbrev file : FileRecord
file = record {
  id = "f";
  transfer_id = "t";
  size = pos 3;
  sha256 = digest (7 ∷ 8 ∷ 9 ∷ []);
  chunk_size = pos 2;
  chunk_count = pos 2;
  status = "UPLOADING";
  storage_path = "";
}

file-Stored : Stored file 3 2 2
file-Stored = record {
  is_size = refl;
  is_chunk_size = refl;
  is_chunk_count = refl;
  positive = omega arith;
  size_range = omega arith;
  chunk_range = omega arith;
  covers = (omega arith, omega arith);
}

abbrev chunk : ℤ → String → List ℕ → ChunkRecord
chunk index path bytes = record {
  file_id = "f";
  index = index;
  size = pos (length bytes);
  sha256 = digest bytes;
  storage_path = path;
  completed_at = 5;
}

abbrev env : Env
env = record { sha256 = digest; chunk_path = λ id i hash. "chunk"; file_path = λ id. "file" }

abbrev os : Os
os = record { fails = λ c. none; temporary = "tmp"; leftover = [] }

abbrev done : Result Error (Unit {0})
done = ok tt

-- A store that records what it is told, or refuses to.
abbrev store : Result Error (Unit {0}) → Store ℕ
store answer = record {
  prepare_chunk_upload = λ w s id i. ok (file, none);
  record_chunk = λ w s c. (answer, suc w);
  open_chunk = λ w s id i. err conflict;
  prepare_file_completion =
      λ w s id. ok (file, chunk (pos 0) "c0" (7 ∷ 8 ∷ []) ∷ chunk (pos 1) "c1" (9 ∷ []) ∷ []);
  complete_file = λ w s id path now. (answer, suc w);
}

abbrev empty_disk : Disk
empty_disk path = none

abbrev chunks_disk : Disk
chunks_disk = put (put empty_disk "c0" (7 ∷ 8 ∷ [])) "c1" (9 ∷ [])

abbrev session : Session
session = record { id = "u"; session_id = "s"; device_id = none }

abbrev two_bytes : Reader
two_bytes = record { bytes = 7 ∷ 8 ∷ []; failure = none }

uploaded :
    (upload_chunk env os
      (store done)
      0
      empty_disk
      session
      "f"
      (pos 0)
      (digest (7 ∷ 8 ∷ []))
      (some two_bytes)
      5).0
    ≡ ok (chunk (pos 0) "chunk" (7 ∷ 8 ∷ []))
unfolding upload_chunk get_ready receive publish expected_chunk_size wrap64 ◌+ℤ◌ ◌-ℤ◌ ◌*ℤ◌
uploaded = refl

upload_chunk_ok_example :
    Accepted env os
      (store done)
      0
      empty_disk
      session
      "f"
      (pos 0)
      (digest (7 ∷ 8 ∷ []))
      5
      (chunk (pos 0) "chunk" (7 ∷ 8 ∷ []))
      (upload_chunk env os
        (store done)
        0
        empty_disk
        session
        "f"
        (pos 0)
        (digest (7 ∷ 8 ∷ []))
        (some two_bytes)
        5).1
      (upload_chunk env os
        (store done)
        0
        empty_disk
        session
        "f"
        (pos 0)
        (digest (7 ∷ 8 ∷ []))
        (some two_bytes)
        5).2
upload_chunk_ok_example =
    upload_chunk_ok env os (store done) 0 empty_disk session "f" (pos 0) (digest (7 ∷ 8 ∷ [])) 5
      (some two_bytes) (chunk (pos 0) "chunk" (7 ∷ 8 ∷ [])) uploaded

-- A store that refuses the record of a chunk that is on the disk already.
refused :
    (upload_chunk env os
      (store (err conflict))
      0
      empty_disk
      session
      "f"
      (pos 0)
      (digest (7 ∷ 8 ∷ []))
      (some two_bytes)
      5).0
    ≡ err conflict
unfolding upload_chunk get_ready receive publish expected_chunk_size wrap64 ◌+ℤ◌ ◌-ℤ◌ ◌*ℤ◌
refused = refl

upload_chunk_err_example :
    (upload_chunk env os
        (store (err conflict))
        0
        empty_disk
        session
        "f"
        (pos 0)
        (digest (7 ∷ 8 ∷ []))
        (some two_bytes)
        5).2
      "chunk"
    ≡ empty_disk "chunk"
upload_chunk_err_example =
    upload_chunk_err env os (store (err conflict)) 0 empty_disk session "f" (pos 0)
      (digest (7 ∷ 8 ∷ [])) 5 (some two_bytes) conflict "chunk" refused refl refl (λ hash. refl)

abbrev completed_file : FileRecord
completed_file = record file { status = available_on_node; storage_path = "file" }

abbrev chunks : List ChunkRecord
chunks = chunk (pos 0) "c0" (7 ∷ 8 ∷ []) ∷ chunk (pos 1) "c1" (9 ∷ []) ∷ []

completed : (complete_file env os (store done) 0 chunks_disk session "f" 5).0 ≡ ok completed_file
unfolding complete_file publish_file assemble read_chunk
completed = refl

complete_file_ok_example :
    (found : FileRecord) × (cs : List ChunkRecord) × ((store done).prepare_file_completion 0 session
        "f"
      ≡ ok (found, cs))
    × (Known env os
          (store done)
          0
          chunks_disk
          session
          "f"
          5
          found
          completed_file
          (complete_file env os (store done) 0 chunks_disk session "f" 5).1
          (complete_file env os (store done) 0 chunks_disk session "f" 5).2
        ⊎ ((pos (length cs) ≡ found.chunk_count)
            × Published env os
                (store done)
                0
                chunks_disk
                session
                "f"
                5
                found
                completed_file
                cs
                (complete_file env os (store done) 0 chunks_disk session "f" 5).1
                (complete_file env os (store done) 0 chunks_disk session "f" 5).2))
complete_file_ok_example =
    complete_file_ok env os (store done) 0 chunks_disk session "f" 5 completed_file completed
