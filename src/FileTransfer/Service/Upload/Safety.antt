-- ===== src/FileTransfer/Service/Upload/Safety.antt =====
-- What an upload leaves on the disk, accepted or refused (internal/filetransfer/service.go).
use nex_drop.Prelude.{
  ℕ, ◌≡◌, ◌⊎◌, inl, inr, refl, String, List, Option, none, some, length, str_eq, eq_iff, Bool-cases,
  arith, sym, ap, ◌∙◌,
}
use nex_drop.Prelude.Int.{ℤ, pos}
use nex_drop.Prelude.Result.{Result, ok, err}
use nex_drop.Transfer.Types.{Session}
use nex_drop.FileTransfer.Manifest.{Reader}
use nex_drop.FileTransfer.Manifest.Splits.{bytes_eq_path}
use nex_drop.FileTransfer.Service.{
  Error, FileRecord, ChunkRecord, Store, Disk, put, remove, remove_file, Os, Env,
  expected_chunk_size,
}
use nex_drop.FileTransfer.Service.Upload.{
  Ready, stored_before, expects, copied, get_ready, publish, receive, upload_chunk,
}

pub put_self : (d : Disk) (path : String) (bytes : List ℕ) → put d path bytes path ≡ some bytes
put_self d path bytes = ground (arith, eq_iff path path)

-- A file that was not there before is gone again.
pub remove-put :
    (d : Disk) (path p : String) (bytes : List ℕ)
    → d path ≡ none
    → remove (put d path bytes) path p ≡ d p
remove-put d path p bytes h = elim (Bool-cases (str_eq p path)) [
  | inl e ↦ rw e (sym h ∙ ap d (sym ((eq_iff p path).0 e)))
  | inr e ↦ rw e
]

module _ {W : Type 0} (env : Env) (os : Os) (store : Store W) where
  open env use {sha256, chunk_path}

  publish_ok :
      (reader : Reader) (size : ℤ) (expected : List ℕ)
      → publish env os store reader size expected ≡ ok tt
      → (sha256 (copied reader size) ≡ expected) × (pos (length (copied reader size)) ≡ size)
  unfolding publish
  publish_ok reader size expected h =
      ground (arith, bytes_eq_path (sha256 (copied reader size)) expected)

  -- What a recorded chunk promises: its bytes stand under its path, with the announced hash and the
  -- expected size.
  pub record Kept (expected : List ℕ) (size : ℤ) (chunk : ChunkRecord) (disk : Disk) : Type 0 where
    pub bytes : List ℕ
    pub stands : disk chunk.storage_path ≡ some bytes
    pub hash : sha256 bytes ≡ expected
    pub announced : chunk.sha256 ≡ expected
    pub long : pos (length bytes) ≡ size
    pub sized : chunk.size ≡ size

  module _ (w : W) (disk : Disk) (session : Session) (file_id : String) (index : ℤ)
      (expected : List ℕ) (now : ℕ) where
    receive_ok :
        (reader : Reader) (size : ℤ) (chunk : ChunkRecord)
        → (receive env os store w disk session file_id index expected reader size now).0 ≡ ok chunk
        → Kept expected size chunk
            (receive env os store w disk session file_id index expected reader size now).2
    unfolding receive
    receive_ok reader size chunk h =
        let facts = publish_ok reader size expected in
        record {
          bytes = copied reader size;
          stands = ground (arith, eq_iff chunk.storage_path chunk.storage_path);
          hash = ground (arith, facts);
          announced = ground (arith, facts);
          long = ground (arith, facts);
          sized = ground (arith, facts);
        }

    receive_err :
        (reader : Reader) (size : ℤ) (e : Error) (p : String)
        → (receive env os store w disk session file_id index expected reader size now).0 ≡ err e
        → os.fails (remove_file p) ≡ none
        → disk os.temporary ≡ none
        → disk (chunk_path file_id index (sha256 (copied reader size))) ≡ none
        → (receive env os store w disk session file_id index expected reader size now).2 p ≡ disk p
    unfolding receive
    receive_err reader size e p h g t f = ground (
      arith,
      remove-put disk os.temporary p (copied reader size) t,
      eq_iff p os.temporary,
      eq_iff p (chunk_path file_id index (sha256 (copied reader size))),
    )

    reuses_of :
        (reader : Reader) (chunk : ChunkRecord) (r : Reader)
        (a : Result Error (FileRecord × Option ChunkRecord))
        → store.prepare_chunk_upload w session file_id index ≡ a
        → get_ready env os store w session file_id index expected (some reader)
          ≡ ok (stored_before chunk, r)
        → (file : FileRecord) × (a ≡ ok (file, some chunk)) × (chunk.sha256 ≡ expected)
    unfolding get_ready
    reuses_of reader chunk r (err e) q h = absurd (ground (arith, q, h))
    reuses_of reader chunk r (ok (file, none)) q h = absurd (ground (arith, q, h))
    reuses_of reader chunk r (ok (file, some c)) q h = (
      file,
      ground (arith, q, h, bytes_eq_path c.sha256 expected),
      ground (arith, q, h, bytes_eq_path c.sha256 expected),
    )

    receive_records :
        (reader : Reader) (size : ℤ) (chunk : ChunkRecord)
        → (receive env os store w disk session file_id index expected reader size now).0 ≡ ok chunk
        → store.record_chunk w session chunk
          ≡ (ok tt, (receive env os store w disk session file_id index expected reader size now).1)
    unfolding receive
    receive_records reader size chunk h = ground arith

    get_ready_reuses :
        (reader : Option Reader) (chunk : ChunkRecord) (r : Reader)
        → get_ready env os store w session file_id index expected reader
          ≡ ok (stored_before chunk, r)
        → (file : FileRecord) × (store.prepare_chunk_upload w session file_id index
            ≡ ok (file, some chunk))
          × (chunk.sha256 ≡ expected)
    unfolding get_ready
    get_ready_reuses (some s) chunk r h =
        reuses_of s chunk r (store.prepare_chunk_upload w session file_id index) refl h
    get_ready_reuses none chunk r h = absurd (ground arith)

    get_ready_expects :
        (reader : Option Reader) (file : FileRecord) (size : ℤ) (r : Reader)
        → get_ready env os store w session file_id index expected reader ≡ ok (expects file size, r)
        → (store.prepare_chunk_upload w session file_id index ≡ ok (file, none))
          × (expected_chunk_size file index ≡ ok size)
    unfolding get_ready
    get_ready_expects reader file size r h = ground arith

    -- The two ways in which a chunk is accepted.
    abbrev pub Accepted : ChunkRecord → W → Disk → Type 0
    Accepted chunk w' disk' =
        ((file : FileRecord) × (store.prepare_chunk_upload w session file_id index
            ≡ ok (file, some chunk))
          × (chunk.sha256 ≡ expected)
          × (w' ≡ w)
          × (disk' ≡ disk))
        ⊎ ((file : FileRecord) × (size : ℤ) × (store.prepare_chunk_upload w session file_id index
              ≡ ok (file, none))
            × (expected_chunk_size file index ≡ ok size)
            × (store.record_chunk w session chunk ≡ (ok tt, w'))
            × Kept expected size chunk disk')

    Accepted-of :
        (reader : Option Reader) (chunk : ChunkRecord) (a : Result Error (Ready × Reader))
        → get_ready env os store w session file_id index expected reader ≡ a
        → (upload_chunk env os store w disk session file_id index expected reader now).0 ≡ ok chunk
        → Accepted chunk
            (upload_chunk env os store w disk session file_id index expected reader now).1
            (upload_chunk env os store w disk session file_id index expected reader now).2
    unfolding upload_chunk
    Accepted-of reader chunk (err e) q h = cc (rw (q, upload_chunk) at h)
    Accepted-of reader chunk (ok (stored_before c, r)) q h =
        let (file, found, hash) = get_ready_reuses reader c r q in
        let same : c ≡ chunk = ground (arith, rw (q, upload_chunk) at h) in
        rw (q, upload_chunk) (inl (file, rw same at found, rw same at hash, refl, refl))
    Accepted-of reader chunk (ok (expects file size, r)) q h =
        let (found, sized) = get_ready_expects reader file size r q in
        rw (q, upload_chunk)
          (inr (
            file,
            size,
            found,
            sized,
            receive_records r size chunk (rw (q, upload_chunk) at h),
            receive_ok r size chunk (rw (q, upload_chunk) at h),
          ))

    -- `UploadChunk` returns a chunk only if it has the announced hash: either it is the very record that the
    -- store had at that index, and store and disk are as they were; or the store had none there and
    -- accepts this record now, and the bytes that now stand under its path have that hash and exactly
    -- the size that is expected at its index.
    pub upload_chunk_ok :
        (reader : Option Reader) (chunk : ChunkRecord)
        → (upload_chunk env os store w disk session file_id index expected reader now).0 ≡ ok chunk
        → Accepted chunk
            (upload_chunk env os store w disk session file_id index expected reader now).1
            (upload_chunk env os store w disk session file_id index expected reader now).2
    upload_chunk_ok reader chunk h = Accepted-of reader chunk _ refl h

    unchanged_of :
        (reader : Option Reader) (e : Error) (p : String) (a : Result Error (Ready × Reader))
        → get_ready env os store w session file_id index expected reader ≡ a
        → (upload_chunk env os store w disk session file_id index expected reader now).0 ≡ err e
        → os.fails (remove_file p) ≡ none
        → disk os.temporary ≡ none
        → ((hash : List ℕ) → disk (chunk_path file_id index hash) ≡ none)
        → (upload_chunk env os store w disk session file_id index expected reader now).2 p ≡ disk p
    unfolding upload_chunk
    unchanged_of reader e p (err e') q h g t f = rw (q, upload_chunk) refl
    unchanged_of reader e p (ok (stored_before c, r)) q h g t f = rw (q, upload_chunk) refl
    unchanged_of reader e p (ok (expects file size, r)) q h g t f =
        rw (q, upload_chunk)
          (receive_err r size e p (rw (q, upload_chunk) at h) g t (f (sha256 (copied r size))))

    -- An upload that is refused, by its tests, the store or a failing system call, leaves every path as it was
    -- at which a removal succeeds, if no file stood at the temporary path and none under a path of
    -- that chunk.
    pub upload_chunk_err :
        (reader : Option Reader) (e : Error) (p : String)
        → (upload_chunk env os store w disk session file_id index expected reader now).0 ≡ err e
        → os.fails (remove_file p) ≡ none
        → disk os.temporary ≡ none
        → ((hash : List ℕ) → disk (chunk_path file_id index hash) ≡ none)
        → (upload_chunk env os store w disk session file_id index expected reader now).2 p ≡ disk p
    upload_chunk_err reader e p h g t f = unchanged_of reader e p _ refl h g t f
