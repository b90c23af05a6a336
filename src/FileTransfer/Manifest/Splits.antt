-- ===== src/FileTransfer/Manifest/Splits.antt =====
-- A built manifest describes the bytes that were read (internal/filetransfer/manifest.go).
use mathlib.Core.List.{append-nil, append_assoc}
use nex_drop.Prelude.{
  ℕ, zero, suc, ◌+◌, ◌-◌, ◌≤◌, ◌<◌, ◌≡◌, inl, inr, refl, sym, ap, ◌∙◌, subst, true, List, [], ◌∷◌,
  ◌++◌, none, some, length, length-append, take, drop, take-append-drop, ltb, Bool-cases, arith,
  ltb→lt,
}
use nex_drop.Prelude.Int.{ℤ, pos, pos_part, ◌≤ℤ◌, ◌<ℤ◌}
use nex_drop.Prelude.Result.{ok}
use nex_drop.FileTransfer.Manifest.{
  Chunk, Manifest, bytes_eq, Building, add_chunk, build_loop, finish, start, build_manifest,
}

pub bytes_eq_refl : (xs : List ℕ) → bytes_eq xs xs ≡ true
bytes_eq_refl [] = refl
bytes_eq_refl (x ∷ xs) = ground (arith, bytes_eq_refl xs)

pub bytes_eq_path : (xs ys : List ℕ) → bytes_eq xs ys ≡ true → xs ≡ ys
bytes_eq_path [] [] h = refl
bytes_eq_path [] (y ∷ ys) h = cc
bytes_eq_path (x ∷ xs) [] h = cc
bytes_eq_path (x ∷ xs) (y ∷ ys) h = ground (arith, bytes_eq_path xs ys)

pub length-drop : (c : ℕ) (xs : List ℕ) → length (drop c xs) ≡ length xs - c
length-drop zero xs = omega arith
length-drop (suc c) [] = omega arith
length-drop (suc c) (x ∷ xs) = omega (arith, length-drop c xs)

length-take : (c : ℕ) (xs : List ℕ) → c ≤ length xs → length (take c xs) ≡ c
length-take zero xs h = refl
length-take (suc c) [] h = omega arith
length-take (suc c) (x ∷ xs) h = omega (arith, length-take c xs)

take_all : (c : ℕ) (xs : List ℕ) → length xs < c → take c xs ≡ xs
take_all zero xs h = absurd (omega arith)
take_all (suc c) [] h = refl
take_all (suc c) (x ∷ xs) h = ap (◌∷◌ x) (take_all c xs (omega arith))

drop_all : (c : ℕ) (xs : List ℕ) → length xs < c → drop c xs ≡ []
drop_all zero xs h = absurd (omega arith)
drop_all (suc c) [] h = refl
drop_all (suc c) (x ∷ xs) h = drop_all c xs (omega arith)

module _ (sha256 : List ℕ → List ℕ) where
  -- The chunks, from an index on, are the successive pieces of at most `c` bytes of the data, all
  -- but the last of them whole, with their sizes and hashes.
  abbrev pub Splits : ℕ → ℕ → List Chunk → List ℕ → Type 0
  Splits c i [] bytes = bytes ≡ []
  Splits c i (k ∷ ks) bytes =
      (k.index ≡ i)
      × (k.size ≡ length (take c bytes))
      × (k.sha256 ≡ sha256 (take c bytes))
      × (0 < k.size)
      × Splits c (i + 1) ks (drop c bytes)

  -- What the loop adds to what it had.
  pub record Adds (c i : ℕ) (bytes : List ℕ) (b b' : Building) : Type 0 where
    pub added : List Chunk
    pub chunks : b'.chunks ≡ b.chunks ++ added
    pub splits : Splits c i added bytes
    pub size : b'.size ≡ b.size + length bytes
    pub hashed : b'.hashed ≡ b.hashed ++ bytes

  abbrev piece : ℕ → List ℕ → Chunk
  piece i bytes = record { index = i; size = length bytes; sha256 = sha256 bytes }

  -- The last round, in which less than a whole chunk is left.
  last_round :
      (c i : ℕ) (bytes : List ℕ) (b : Building)
      → length bytes < c
      → Adds c i bytes b (add_chunk sha256 i bytes b)
  last_round c i [] b h = record {
    added = [];
    chunks = sym (append-nil b.chunks);
    splits = refl;
    size = omega arith;
    hashed = sym (append-nil b.hashed);
  }
  last_round c i (x ∷ xs) b h =
      let whole = take_all c (x ∷ xs) h in
      record {
        added = piece i (x ∷ xs) ∷ [];
        chunks = refl;
        splits = (
          refl,
          ap length (sym whole),
          ap sha256 (sym whole),
          omega arith,
          drop_all c (x ∷ xs) h,
        );
        size = refl;
        hashed = refl;
      }

  -- A round that reads a whole chunk, before the rest.
  whole_round :
      (c i : ℕ) (bytes xs : List ℕ) (b b' : Building)
      → 0 < length xs
      → take c bytes ≡ xs
      → Adds c (i + 1) (drop c bytes) (add_chunk sha256 i xs b) b'
      → Adds c i bytes b b'
  whole_round c i bytes [] b b' p e a = absurd (omega arith)
  whole_round c i bytes (x ∷ xs) b b' p e a = record {
    added = piece i (x ∷ xs) ∷ a.added;
    chunks = a.chunks ∙ append_assoc b.chunks (piece i (x ∷ xs) ∷ []) a.added;
    splits = (refl, ap length (sym e), ap sha256 (sym e), omega arith, a.splits);
    size = omega (
      arith,
      a.size,
      ap length e,
      ap length (take-append-drop c bytes),
      length-append (take c bytes) (drop c bytes),
    );
    hashed =
        a.hashed
        ∙ append_assoc b.hashed (x ∷ xs) (drop c bytes)
        ∙ ap (◌++◌ b.hashed) (ap (λ ys. ys ++ drop c bytes) (sym e) ∙ take-append-drop c bytes);
  }

  build_loop-Adds :
      (fuel c i : ℕ) (bytes : List ℕ) (b : Building)
      → 0 < c
      → length bytes < fuel
      → (b' : Building) × (build_loop sha256 fuel c i bytes none b ≡ some (ok b'))
        × Adds c i bytes b b'
  unfolding build_loop
  build_loop-Adds zero c i bytes b p h = absurd (omega arith)
  build_loop-Adds (suc fuel) c i bytes b p h = elim (Bool-cases (ltb (length bytes) c)) [
    | inl e ↦
        let short = ltb→lt (length bytes) c e in
        (
          add_chunk sha256 i (take c bytes) b,
          rw e,
          rw (take_all c bytes short) (last_round c i bytes b short),
        )
    | inr e ↦
        let long : c ≤ length bytes = ground arith in
        let (b', run, adds) =
          build_loop-Adds fuel c (i + 1) (drop c bytes) (add_chunk sha256 i (take c bytes) b) p
            (omega (arith, length-drop c bytes)) in
        (
          b',
          rw e run,
          whole_round c i bytes (take c bytes) b b' (omega (arith, length-take c bytes long)) refl
              adds,
        )
  ]

  -- A manifest that describes the bytes.
  pub record Describes (c : ℤ) (bytes : List ℕ) (m : Manifest) : Type 0 where
    pub splits : Splits (pos_part c) 0 m.chunks bytes
    pub size : m.size ≡ length bytes
    pub hash : m.sha256 ≡ sha256 bytes
    pub chunk_size : m.chunk_size ≡ c

  -- `BuildManifest` over a reader that does not fail, with a positive chunk size that fits the
  -- platform, ends within its fuel and returns a manifest whose chunks are the successive pieces of
  -- the bytes, numbered from 0, and whose size and hash are those of all the bytes.
  pub build_manifest-Describes :
      (max_int : ℕ) (bytes : List ℕ) (chunk_size : ℤ)
      → pos 0 <ℤ chunk_size
      → chunk_size ≤ℤ pos max_int
      → (m : Manifest) × (build_manifest sha256 max_int
            (record { bytes = bytes; failure = none })
            chunk_size
          ≡ some (ok m))
        × Describes chunk_size bytes m
  unfolding build_manifest
  build_manifest-Describes max_int bytes chunk_size p h =
      let (b, run, adds) =
        build_loop-Adds (suc (length bytes)) (pos_part chunk_size) 0 bytes start (ground arith)
          (omega arith) in
      (
        finish sha256 chunk_size b,
        ground (arith, run),
        record {
          splits =
              subst (λ ks. Splits (pos_part chunk_size) 0 ks bytes) (sym adds.chunks) adds.splits;
          size = omega (arith, adds.size);
          hash = ap sha256 adds.hashed;
          chunk_size = refl;
        },
      )
