-- ===== src/FileTransfer/Manifest.antt =====
-- internal/filetransfer/manifest.go. A byte is a number; `sha256` is a parameter, and a running hash
-- is the bytes written to it; `max_int` is the largest `int` of the platform.
pub mod Splits
pub mod Verify
use nex_drop.Prelude.{
  ℕ, zero, suc, ◌+◌, String, Bool, true, false, ◌&&◌, List, [], ◌∷◌, ◌++◌, Option, none, some,
  length, take, drop, get_elem?, all, ltb, leb, ◌==◌, if◌then◌else◌,
}
use nex_drop.Prelude.Int.{ℤ, pos, negsuc, pos_part, ltb_ℤ, leb_ℤ}
use nex_drop.Prelude.Result.{Result, ok, err, ◌>>=◌, ◌>>◌, refuse}

pub data ManifestError : Type 0 where
  invalid_chunk_size : ManifestError
  read_failed : ℕ → String → ManifestError
  hash_failed : String → ManifestError

pub record Chunk : Type 0 where
  pub index : ℕ
  pub size : ℕ
  pub sha256 : List ℕ

pub record Manifest : Type 0 where
  pub size : ℕ
  pub sha256 : List ℕ
  pub chunk_size : ℤ
  pub chunks : List Chunk

-- What a reader still delivers, and the error that it then fails with, if not at the end of input.
pub record Reader : Type 0 where
  pub bytes : List ℕ
  pub failure : Option String

-- `bytes.Equal` and `==` on hashes.
abbrev pub bytes_eq : List ℕ → List ℕ → Bool
bytes_eq [] [] = true
bytes_eq (x ∷ xs) (y ∷ ys) = x == y && bytes_eq xs ys
bytes_eq _ _ = false

-- The variables of the loop of `BuildManifest`.
pub record Building : Type 0 where
  pub chunks : List Chunk
  pub size : ℕ
  pub hashed : List ℕ

abbrev pub start : Building
start = record { chunks = []; size = 0; hashed = [] }

module _ (sha256 : List ℕ → List ℕ) where
  -- The body of `if read > 0`.
  abbrev pub add_chunk : ℕ → List ℕ → Building → Building
  add_chunk index [] b = b
  add_chunk index (x ∷ xs) b = record {
    chunks =
        b.chunks ++ record { index = index; size = length (x ∷ xs); sha256 = sha256 (x ∷ xs) } ∷ [];
    size = b.size + length (x ∷ xs);
    hashed = b.hashed ++ (x ∷ xs);
  }

  -- The loop, from a chunk index on: `io.ReadFull` reads a whole chunk, or what is left together
  -- with an error, which ends the loop. `none` is out of fuel.
  unfoldable pub build_loop :
      ℕ → ℕ → ℕ → List ℕ → Option String → Building → Option (Result ManifestError Building)
  build_loop zero c index bytes failure b = none
  build_loop (suc fuel) c index bytes failure b =
      let rest =
        build_loop fuel c (index + 1) (drop c bytes) failure (add_chunk index (take c bytes) b) in
      if ltb (length bytes) c
      then elim failure [
        | some e ↦ some (err (read_failed index e))
        | none ↦ some (ok (add_chunk index (take c bytes) b))
      ]
      else rest

  abbrev pub finish : ℤ → Building → Manifest
  finish chunk_size b = record {
    size = b.size;
    sha256 = sha256 b.hashed;
    chunk_size = chunk_size;
    chunks = b.chunks;
  }

  abbrev pub finish_loop :
      ℤ → Option (Result ManifestError Building) → Option (Result ManifestError Manifest)
  finish_loop chunk_size none = none
  finish_loop chunk_size (some (err e)) = some (err e)
  finish_loop chunk_size (some (ok b)) = some (ok (finish chunk_size b))

  -- The loop has fuel for one round more than there are bytes.
  unfoldable pub build_manifest : ℕ → Reader → ℤ → Option (Result ManifestError Manifest)
  build_manifest max_int reader chunk_size =
      if leb_ℤ chunk_size (pos 0)
      then some (err invalid_chunk_size)
      else if ltb_ℤ (pos max_int) chunk_size
      then some (err invalid_chunk_size)
      else finish_loop chunk_size (
          build_loop (suc (length reader.bytes)) (pos_part chunk_size) 0 reader.bytes reader.failure
            start)

  abbrev pub verify_found : ℕ → List ℕ → Option Chunk → Bool
  verify_found index bytes none = false
  verify_found index bytes (some chunk) =
      chunk.index == index && chunk.size == length bytes && bytes_eq chunk.sha256 (sha256 bytes)

  -- A negative index and one past the end have no chunk.
  unfoldable pub verify_chunk : Manifest → ℤ → List ℕ → Bool
  verify_chunk m (pos index) bytes = verify_found index bytes (get_elem? m.chunks index)
  verify_chunk m (negsuc index) bytes = false

  unfoldable pub verify_file : Manifest → Reader → Result ManifestError Bool
  verify_file m reader = elim reader.failure [
    | some e ↦ err (hash_failed e)
    | none ↦ ok (length reader.bytes == m.size && bytes_eq (sha256 reader.bytes) m.sha256)
  ]
