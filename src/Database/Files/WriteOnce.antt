-- ===== src/Database/Files/WriteOnce.antt =====
-- The chunks of internal/postgres/store.go as a map that is written once.
use nex_drop.Prelude.{
  ℕ, Bool, true, false, ◌&&◌, List, [], ◌∷◌, any, Option, none, some, String, str_eq, eq_iff,
  if◌then◌else◌, ◌≡◌, refl, ap, ◌∙◌, inl, inr, ◌⊎◌, Bool-cases, arith, subst,
}
use nex_drop.Prelude.Int.{ℤ, eq_ℤ}
use nex_drop.Prelude.Result.{Result, ok, err}
use nex_drop.Transfer.Types.{Session}
use nex_drop.FileTransfer.Manifest.{bytes_eq}
use nex_drop.FileTransfer.Service.{Error, conflict, ChunkRecord}
use nex_drop.Database.Sql.{first, insert}
use nex_drop.Database.Rows.{Db}
use nex_drop.Database.Files.{is_chunk, may_write, record_chunk}

-- The contract: the hash of each chunk that is there, by file and index.
abbrev pub ChunkMap : Type 0
ChunkMap = String → ℤ → Option (List ℕ)

abbrev pub put_hash : ChunkMap → String → ℤ → List ℕ → ChunkMap
put_hash m file_id index hash f i = if str_eq file_id f && eq_ℤ index i then some hash else m f i

abbrev pub write_over :
    Bool → ChunkMap → String → ℤ → List ℕ → Option (List ℕ) → Result Error (Unit {0}) × ChunkMap
write_over may m file_id index hash (some old) =
    (if bytes_eq old hash then ok tt else err conflict, m)
write_over true m file_id index hash none = (ok tt, put_hash m file_id index hash)
write_over false m file_id index hash none = (err conflict, m)

-- Writing once: a second write of the same content is accepted and changes nothing, another content is
-- a conflict, and so is a write that is not allowed.
unfoldable pub write_once :
    Bool → ChunkMap → String → ℤ → List ℕ → Result Error (Unit {0}) × ChunkMap
write_once may m file_id index hash = write_over may m file_id index hash (m file_id index)

abbrev hash_in : Option ChunkRecord → Option (List ℕ)
hash_in none = none
hash_in (some c) = some c.sha256

-- What the tables hold of the contract.
unfoldable pub chunk_map : Db → ChunkMap
chunk_map db file_id index = hash_in (first (is_chunk file_id index) db.chunks)

any-first :
    (p : ChunkRecord → Bool) (xs : List ChunkRecord)
    → ((any p xs ≡ false) × (first p xs ≡ none))
      ⊎ ((c : ChunkRecord) × (any p xs ≡ true) × (first p xs ≡ some c))
any-first p [] = inl (refl, refl)
any-first p (x ∷ xs) = elim (Bool-cases (p x)) [
  | inl y ↦ inr (x, ground (arith, y), ground (arith, y))
  | inr n ↦ elim (any-first p xs) [
    | inl (a, b) ↦ inl (ground (arith, n, a), ground (arith, n, b))
    | inr (c, a, b) ↦ inr (c, ground (arith, n, a), ground (arith, n, b))
  ]
]

first-insert :
    (p : ChunkRecord → Bool) (c : ChunkRecord) (xs : List ChunkRecord)
    → hash_in (first p (insert c xs)) ≡ (elim (first p xs) [
      | none ↦ hash_in (if p c then some c else none)
      | some d ↦ some d.sha256
    ])
first-insert p c [] = ground arith
first-insert p c (x ∷ xs) = ground (arith, first-insert p c xs)

eq_ℤ_path : (a b : ℤ) → eq_ℤ a b ≡ true → a ≡ b
eq_ℤ_path a b h = ground (arith, h)

eq_ℤ_refl : (a : ℤ) → eq_ℤ a a ≡ true
eq_ℤ_refl a = ground arith

-- A new chunk among the others.
inserted :
    (chunk : ChunkRecord) (db : Db) (f : String) (i : ℤ)
    → first (is_chunk chunk.file_id chunk.index) db.chunks ≡ none
    → chunk_map (record db { chunks = insert chunk db.chunks }) f i
      ≡ put_hash (chunk_map db) chunk.file_id chunk.index chunk.sha256 f i
unfolding chunk_map
inserted chunk db f i h = elim (Bool-cases (is_chunk f i chunk)) [
  | inl y ↦
      let file : chunk.file_id ≡ f = (eq_iff chunk.file_id f).0 (ground (arith, y)) in
      let index : chunk.index ≡ i = eq_ℤ_path chunk.index i (ground (arith, y)) in
      let found : first (is_chunk f i) db.chunks ≡ none =
        subst (λ g. first (is_chunk g i) db.chunks ≡ none) file
          (subst (λ j. first (is_chunk chunk.file_id j) db.chunks ≡ none) index h) in
      first-insert (is_chunk f i) chunk db.chunks ∙ ground (arith, y, found)
  | inr n ↦ first-insert (is_chunk f i) chunk db.chunks ∙ ground (arith, n)
]

-- The answer of the first, and what its tables hold, are the second.
abbrev pub Implements : Result Error (Unit {0}) × Db → Result Error (Unit {0}) × ChunkMap → Type 0
Implements code spec =
    (code.0 ≡ spec.0) × ((f : String) (i : ℤ) → chunk_map code.1 f i ≡ spec.1 f i)

at :
    (db : Db) (f : String) (i : ℤ) (o : Option ChunkRecord)
    → first (is_chunk f i) db.chunks ≡ o
    → chunk_map db f i ≡ hash_in o
unfolding chunk_map
at db f i o h = ap hash_in h

-- `RecordChunk` implements the map that is written once, on every branch: it answers as the map does,
-- and the tables afterwards hold what the map holds.
pub record_chunk-write_once :
    (db : Db) (session : Session) (chunk : ChunkRecord)
    → Implements (record_chunk db session chunk) (
        write_once
          (may_write db session chunk.file_id)
          (chunk_map db)
          chunk.file_id
          chunk.index
          chunk.sha256)
unfolding record_chunk write_once
record_chunk-write_once db session chunk =
    elim (any-first (is_chunk chunk.file_id chunk.index) db.chunks) [
      | inl (a, b) ↦ elim (Bool-cases (may_write db session chunk.file_id)) [
        | inl y ↦
            rw (y, a, at db chunk.file_id chunk.index none b) (refl, λ f i. inserted chunk db f i b)
        | inr n ↦ rw (n, b, at db chunk.file_id chunk.index none b) (refl, λ f i. refl)
      ]
      | inr (c, a, b) ↦ elim (Bool-cases (may_write db session chunk.file_id)) [
        | inl y ↦ rw (y, a, b, at db chunk.file_id chunk.index (some c) b) (refl, λ f i. refl)
        | inr n ↦ rw (n, b, at db chunk.file_id chunk.index (some c) b) (refl, λ f i. refl)
      ]
    ]
