-- ===== src/FileTransfer/Manifest/Verify.antt =====
-- A manifest accepts the bytes that it was built from (internal/filetransfer/manifest.go).
use native.Mathlib.Nat.{zero-add}
use nex_drop.Prelude.{
  ℕ, zero, suc, ◌+◌, ◌≤◌, ◌<◌, ◌≡◌, refl, ap, subst, true, List, [], ◌∷◌, none, some, length, take,
  drop, get_elem?, arith, ==_iff,
}
use nex_drop.Prelude.Int.{ℤ, pos, pos_part, ◌≤ℤ◌, ◌<ℤ◌}
use nex_drop.Prelude.Result.{ok}
use nex_drop.Transfer.Validate.{expected_chunk_count}
use nex_drop.Transfer.Validate.Chunks.{Covers, Covers-unique, expected_chunk_count-Covers}
use nex_drop.FileTransfer.Manifest.{
  Chunk, Manifest, build_manifest, verify_found, verify_chunk, verify_file,
}
use nex_drop.FileTransfer.Manifest.Splits.{
  bytes_eq_refl, length-drop, Splits, Describes, build_manifest-Describes,
}

-- The piece of at most `c` bytes at an index.
abbrev pub piece_at : ℕ → ℕ → List ℕ → List ℕ
piece_at c zero bytes = take c bytes
piece_at c (suc j) bytes = piece_at c j (drop c bytes)

length-take-le : (c : ℕ) (xs : List ℕ) → length (take c xs) ≤ length xs
length-take-le zero xs = omega arith
length-take-le (suc c) [] = omega arith
length-take-le (suc c) (x ∷ xs) = omega (arith, length-take-le c xs)

module _ (sha256 : List ℕ → List ℕ) where
  verify_piece :
      (c i j : ℕ) (ks : List Chunk) (bytes : List ℕ)
      → Splits sha256 c i ks bytes
      → j < length ks
      → verify_found sha256 (i + j) (piece_at c j bytes) (get_elem? ks j) ≡ true
  verify_piece c i j [] bytes s h = absurd (omega arith)
  verify_piece c i zero (k ∷ ks) bytes s h =
      ground (arith, s.0, s.1, s.2, bytes_eq_refl (sha256 (take c bytes)))
  verify_piece c i (suc j) (k ∷ ks) bytes s h =
      let e : i + 1 + j ≡ i + suc j = omega arith in
      rw e at (verify_piece c (i + 1) j ks (drop c bytes) s.4 (omega arith))

  Covers-more :
      (c i n : ℕ) (k : Chunk) (ks : List Chunk) (bytes : List ℕ)
      → 0 < c
      → Splits sha256 c i (k ∷ ks) bytes
      → length ks ≡ n
      → Covers (length (drop c bytes)) c n
      → Covers (length bytes) c (suc n)
  Covers-more c i (suc n) k [] bytes p s e r = absurd (omega arith)
  Covers-more c i zero k [] bytes p s e r =
      omega (arith, s.1, s.3, ap length s.4, length-drop c bytes, length-take-le c bytes, e)
  Covers-more c i n k (k' ∷ ks) bytes p s e r =
      omega (arith, s.4.1, s.4.3, length-drop c bytes, length-take-le c (drop c bytes), r)

  Splits-Covers :
      (c i : ℕ) (ks : List Chunk) (bytes : List ℕ)
      → 0 < c
      → Splits sha256 c i ks bytes
      → Covers (length bytes) c (length ks)
  Splits-Covers c i [] bytes p s = rw s (omega arith)
  Splits-Covers c i (k ∷ ks) bytes p s =
      let rest = Splits-Covers c (i + 1) ks (drop c bytes) p s.4 in
      Covers-more c i (length ks) k ks bytes p s refl rest

  -- A manifest has exactly the number of chunks that the node expects of a file of its size.
  pub length-chunks :
      (c : ℤ) (bytes : List ℕ) (m : Manifest)
      → pos 0 <ℤ c
      → Describes sha256 c bytes m
      → length m.chunks ≡ expected_chunk_count (pos (length bytes)) c
  length-chunks c bytes m p d =
      Covers-unique (length bytes) (pos_part c) _ _
        (Splits-Covers (pos_part c) 0 m.chunks bytes (ground arith) d.splits)
        (expected_chunk_count-Covers (pos (length bytes)) c (ground arith))

  module _ (max_int : ℕ) (bytes : List ℕ) (c : ℤ) (m : Manifest) where
    built-Describes :
        pos 0 <ℤ c
        → c ≤ℤ pos max_int
        → build_manifest sha256 max_int (record { bytes = bytes; failure = none }) c ≡ some (ok m)
        → Describes sha256 c bytes m
    built-Describes p h run =
        let (m', run', d) = build_manifest-Describes sha256 max_int bytes c p h in
        let e : m' ≡ m = cc in subst (Describes sha256 c bytes) e d

    -- The manifest that `BuildManifest` returns accepts, at the index of each of its chunks, the
    -- piece of the bytes at that index.
    pub build_manifest-verify_chunk :
        (j : ℕ)
        → pos 0 <ℤ c
        → c ≤ℤ pos max_int
        → build_manifest sha256 max_int (record { bytes = bytes; failure = none }) c ≡ some (ok m)
        → j < length m.chunks
        → verify_chunk sha256 m (pos j) (piece_at (pos_part c) j bytes) ≡ true
    unfolding verify_chunk
    build_manifest-verify_chunk j p h run l =
        let d = built-Describes p h run in
        rw zero-add at (verify_piece (pos_part c) 0 j m.chunks bytes d.splits l)

    -- That manifest accepts the bytes as a whole, and it has exactly the number of chunks that the
    -- node's validation of a transfer expects of a file of that size.
    pub build_manifest-verify_file :
        pos 0 <ℤ c
        → c ≤ℤ pos max_int
        → build_manifest sha256 max_int (record { bytes = bytes; failure = none }) c ≡ some (ok m)
        → (verify_file sha256 m (record { bytes = bytes; failure = none }) ≡ ok true)
          × (length m.chunks ≡ expected_chunk_count (pos (length bytes)) c)
    unfolding verify_file
    build_manifest-verify_file p h run =
        let d = built-Describes p h run in
        (
          rw (d.size, d.hash)
              (ground (arith, bytes_eq_refl (sha256 bytes), ==_iff (length bytes) (length bytes))),
          length-chunks c bytes m p d,
        )
