-- ===== src/FileTransfer/Service/Complete/Assembly.antt =====
-- What `Complete` publishes (internal/filetransfer/service.go).
use mathlib.Core.List.{append-nil, append_assoc}
use nex_drop.Prelude.{
  ℕ, ◌+◌, ◌≡◌, ◌⊎◌, inl, inr, refl, String, List, [], ◌∷◌, ◌++◌, some, length, eq_iff, arith, ◌∙◌,
}
use nex_drop.Prelude.Int.{pos}
use nex_drop.Prelude.Result.{Result, ok, err}
use nex_drop.Transfer.Types.{Session}
use nex_drop.FileTransfer.Manifest.Splits.{bytes_eq_path}
use nex_drop.FileTransfer.Service.{Error, FileRecord, ChunkRecord, Store, Disk, put, Os, Env}
use nex_drop.FileTransfer.Service.Complete.{
  available_on_node, read_chunk, assemble, publish_file, complete_file,
}

module _ (env : Env) (os : Os) (disk : Disk) where
  open env use {sha256, file_path}

  -- The bytes are the contents of the chunks' files in turn, numbered from `i`, each with the
  -- recorded size and hash.
  abbrev pub Assembled : ℕ → List ChunkRecord → List ℕ → Type 0
  Assembled i [] bytes = bytes ≡ []
  Assembled i (c ∷ cs) bytes =
      (b : List ℕ) × (rest : List ℕ) × (c.index ≡ pos i)
      × (disk c.storage_path ≡ some b)
      × (c.size ≡ pos (length b))
      × (c.sha256 ≡ sha256 b)
      × (bytes ≡ b ++ rest)
      × Assembled (i + 1) cs rest

  read_chunk_ok :
      (i : ℕ) (c : ChunkRecord) (b : List ℕ)
      → read_chunk env os disk i c ≡ ok b
      → (c.index ≡ pos i)
        × (disk c.storage_path ≡ some b)
        × (c.size ≡ pos (length b))
        × (c.sha256 ≡ sha256 b)
  unfolding read_chunk
  read_chunk_ok i c b h = ground (arith, bytes_eq_path (sha256 b) c.sha256)

  assemble_step :
      (i : ℕ) (done : List ℕ) (c : ChunkRecord) (cs : List ChunkRecord) (bytes : List ℕ)
      → assemble env os disk i done (c ∷ cs) ≡ ok bytes
      → (b : List ℕ) × (read_chunk env os disk i c ≡ ok b)
        × (assemble env os disk (i + 1) (done ++ b) cs ≡ ok bytes)
  unfolding assemble
  assemble_step i done c cs bytes h = ground arith

  assemble-Assembled :
      (i : ℕ) (done : List ℕ) (cs : List ChunkRecord) (bytes : List ℕ)
      → assemble env os disk i done cs ≡ ok bytes
      → (rest : List ℕ) × (bytes ≡ done ++ rest) × Assembled i cs rest
  unfolding assemble
  assemble-Assembled i done [] bytes h = ([], ground (arith, append-nil done), refl)
  assemble-Assembled i done (c ∷ cs) bytes h =
      let (b, r, h') = assemble_step i done c cs bytes h in
      let (rest, e, a) = assemble-Assembled (i + 1) (done ++ b) cs bytes h' in
      let (place, stands, size, hash) = read_chunk_ok i c b r in
      (b ++ rest, e ∙ append_assoc done b rest, (b, rest, place, stands, size, hash, refl, a))

module _ {W : Type 0} (env : Env) (os : Os) (store : Store W) where
  open env use {sha256, file_path}

  module _ (w : W) (disk : Disk) (session : Session) (file_id : String) (now : ℕ) where
    abbrev working : Disk
    working = put disk os.temporary []

    -- What a published file promises.
    pub record Published (found file : FileRecord) (chunks : List ChunkRecord) (w' : W)
        (disk' : Disk) : Type 0 where
      pub bytes : List ℕ
      pub assembled : Assembled env os working 0 chunks bytes
      pub hash : sha256 bytes ≡ found.sha256
      pub stands : disk' file.storage_path ≡ some bytes
      pub same :
          file ≡ record found { status = available_on_node; storage_path = file_path file_id }
      pub recorded : store.complete_file w session file_id (file_path file_id) now ≡ (ok tt, w')

    -- The file was complete before: nothing is done.
    abbrev pub Known : FileRecord → FileRecord → W → Disk → Type 0
    Known found file w' disk' =
        (found.status ≡ available_on_node) × (file ≡ found) × (w' ≡ w) × (disk' ≡ disk)

    Published-of :
        (found file : FileRecord) (chunks : List ChunkRecord) (a : Result Error (List ℕ))
        → assemble env os working 0 [] chunks ≡ a
        → (publish_file env os store w disk session file_id found chunks now).0 ≡ ok file
        → Published found file chunks
            (publish_file env os store w disk session file_id found chunks now).1
            (publish_file env os store w disk session file_id found chunks now).2
    unfolding publish_file
    Published-of found file chunks (err e) q h = cc (rw (q, publish_file) at h)
    Published-of found file chunks (ok bytes) q h =
        let (rest, e, a) = assemble-Assembled env os working 0 [] chunks bytes q in
        let e' : bytes ≡ rest = e in
        record {
          bytes = bytes;
          assembled = rw e' a;
          hash = ground (arith, bytes_eq_path (sha256 bytes) found.sha256);
          stands = ground (arith, eq_iff (file_path file_id) (file_path file_id));
          same = ground arith;
          recorded = ground arith;
        }

    found_of :
        (file : FileRecord) (r : Result Error (FileRecord × List ChunkRecord))
        → store.prepare_file_completion w session file_id ≡ r
        → (complete_file env os store w disk session file_id now).0 ≡ ok file
        → (found : FileRecord) × (chunks : List ChunkRecord) × (store.prepare_file_completion w
              session file_id
            ≡ ok (found, chunks))
    unfolding complete_file
    found_of file (ok (found, chunks)) q h = (found, chunks, q)
    found_of file (err e) q h = absurd (ground arith)

    completion_found :
        (file : FileRecord)
        → (complete_file env os store w disk session file_id now).0 ≡ ok file
        → (found : FileRecord) × (chunks : List ChunkRecord) × (store.prepare_file_completion w
              session file_id
            ≡ ok (found, chunks))
    completion_found file h = found_of file _ refl h

    completion_cases :
        (file found : FileRecord) (chunks : List ChunkRecord)
        → store.prepare_file_completion w session file_id ≡ ok (found, chunks)
        → (complete_file env os store w disk session file_id now).0 ≡ ok file
        → Known found file
            (complete_file env os store w disk session file_id now).1
            (complete_file env os store w disk session file_id now).2
          ⊎ ((pos (length chunks) ≡ found.chunk_count)
              × (complete_file env os store w disk session file_id now
                  ≡ publish_file env os store w disk session file_id found chunks now))
    unfolding complete_file
    completion_cases file found chunks q h = ground (arith, eq_iff found.status available_on_node)

    -- `Complete` returns a file only for the one that the store prepares, with its chunks. Either the store had
    -- it as available, and it is returned as it is, with store and disk as they were; or the chunks are
    -- as many as the file has, the store accepts the completion under the file's path, the file is
    -- returned as available under it, and what now stands there is the contents of the recorded chunks
    -- in order, each with its recorded size and hash, and together with the hash of the whole file.
    pub complete_file_ok :
        (file : FileRecord)
        → (complete_file env os store w disk session file_id now).0 ≡ ok file
        → (found : FileRecord) × (chunks : List ChunkRecord) × (store.prepare_file_completion w
              session file_id
            ≡ ok (found, chunks))
          × (Known found file
                (complete_file env os store w disk session file_id now).1
                (complete_file env os store w disk session file_id now).2
              ⊎ ((pos (length chunks) ≡ found.chunk_count)
                  × Published found file chunks
                      (complete_file env os store w disk session file_id now).1
                      (complete_file env os store w disk session file_id now).2))
    complete_file_ok file h =
        let (found, chunks, q) = completion_found file h in
        (
          found,
          chunks,
          q,
          elim (completion_cases file found chunks q h) [
            | inl old ↦ inl old
            | inr (count, e) ↦ inr (count, rw e (Published-of found file chunks _ refl (rw e at h)))
          ],
        )
