-- ===== src/FileTransfer/Service/Sizes.antt =====
-- The sizes that the node expects of the chunks of a validated file
-- (`expectedChunkSize` of internal/filetransfer/service.go).
use native.Mathlib.Nat.{mul-le-mul_left, mul-le-mul_right}
use nex_drop.Prelude.{
  ℕ, zero, suc, ◌+◌, ◌-◌, ◌*◌, ◌^◌, ◌≤◌, ◌<◌, ◌≡◌, refl, ◌∙◌, arith, Bool-cases, inl, inr, ltb,
  lt→ltb, ap, if◌then◌else◌,
}
use nex_drop.Prelude.Int.{pos, pos_part, mul_pos, sub_pos, wrap64_pos}
use nex_drop.Prelude.Result.{ok, err}
use nex_drop.Transfer.Validate.Chunks.{Covers}
use nex_drop.FileTransfer.Service.{FileRecord, expected_chunk_size}

-- The size of the chunk at an index among `n`.
abbrev pub chunk_length : ℕ → ℕ → ℕ → ℕ → ℕ
chunk_length size c n i = if ltb (i + 1) n then c else size - i * c

-- The sizes of the chunks below an index.
abbrev pub total_below : (ℕ → ℕ) → ℕ → ℕ
total_below f zero = 0
total_below f (suc n) = total_below f n + f n

-- A file's numbers as they are stored: not negative, in the range of an `int64`, and with as many
-- chunks as cover the size.
pub record Stored (file : FileRecord) (size c n : ℕ) : Type 0 where
  pub is_size : file.size ≡ pos size
  pub is_chunk_size : file.chunk_size ≡ pos c
  pub is_chunk_count : file.chunk_count ≡ pos n
  pub positive : 0 < c
  pub size_range : size < 2 ^ 63
  pub chunk_range : c < 2 ^ 62
  pub covers : Covers size c n

-- Before the last chunk's end there is still something of the file.
offset-lt-size : (size c n i : ℕ) → 0 < c → Covers size c n → i < n → (i * c < size) × (i < size)
offset-lt-size size c n i p v h =
    let le : (i + 1) * c ≤ n * c = mul-le-mul_right c h' in
    let ge : i * 1 ≤ i * c = mul-le-mul_left i p in (omega (arith, le), omega (arith, le, ge))
  where
    h' : i + 1 ≤ n
    h' = omega arith

expected_of_Stored :
    (file : FileRecord) (size c n i : ℕ)
    → Stored file size c n
    → i < n
    → expected_chunk_size file (pos i) ≡ ok (pos (chunk_length size c n i))
unfolding expected_chunk_size
expected_of_Stored file size c n i s h =
    let before = offset-lt-size size c n i s.positive s.covers h in
    let last = offset-lt-size size c n (n - 1) s.positive s.covers (omega arith) in
    ground (
      arith,
      sub_pos n 1 (omega arith),
      wrap64_pos (n - 1) (omega arith),
      mul_pos i c,
      wrap64_pos (i * c) (omega arith),
      sub_pos size (i * c) (omega arith),
      wrap64_pos (size - i * c) (omega arith),
    )

chunk_length_bounds :
    (size c n i : ℕ)
    → 0 < c
    → Covers size c n
    → i < n
    → (0 < chunk_length size c n i) × (chunk_length size c n i ≤ c)
chunk_length_bounds size c n i p v h =
    let before = offset-lt-size size c n i p v h in
    elim (Bool-cases (ltb (i + 1) n)) [
      | inl e ↦ rw e (p, omega arith)
      | inr e ↦
          let last : n ≡ i + 1 = ground arith in
          rw e (omega arith, omega (arith, ap (λ (k : ℕ). k * c) last))
    ]

total_before : (size c n k : ℕ) → k < n → total_below (chunk_length size c n) k ≡ k * c
total_before size c n zero h = omega arith
total_before size c n (suc k) h =
    ground (arith, total_before size c n k (omega arith), lt→ltb (k + 1) n (omega arith))

total_all : (size c n : ℕ) → 0 < c → Covers size c n → total_below (chunk_length size c n) n ≡ size
total_all size c zero p v = omega arith
total_all size c (suc n) p v =
    let before = offset-lt-size size c (suc n) n p v (omega arith) in
    ground (arith, total_before size c (suc n) n (omega arith))

-- For a stored file whose number of chunks covers its size, the expected size of every chunk is
-- computed with no wrap-around, and is positive and at most the chunk size.
pub expected_chunk_size_bounds :
    (file : FileRecord) (size c n i : ℕ)
    → Stored file size c n
    → i < n
    → (expected_chunk_size file (pos i) ≡ ok (pos (chunk_length size c n i)))
      × (0 < chunk_length size c n i)
      × (chunk_length size c n i ≤ c)
expected_chunk_size_bounds file size c n i s h =
    let (low, high) = chunk_length_bounds size c n i s.positive s.covers h in
    (expected_of_Stored file size c n i s h, low, high)

abbrev pub expected_length : FileRecord → ℕ → ℕ
expected_length file i = elim (expected_chunk_size file (pos i)) [ ok z ↦ pos_part z | err e ↦ 0 ]

total_same :
    (file : FileRecord) (size c n k : ℕ)
    → Stored file size c n
    → k ≤ n
    → total_below (expected_length file) k ≡ total_below (chunk_length size c n) k
total_same file size c n zero s h = refl
total_same file size c n (suc k) s h =
    ground
      (arith, total_same file size c n k s (omega arith), expected_of_Stored file size c n k s h)

-- The expected sizes of all the chunks of such a file add up to its size.
pub expected_chunk_size_total :
    (file : FileRecord) (size c n : ℕ)
    → Stored file size c n
    → total_below (expected_length file) n ≡ size
expected_chunk_size_total file size c n s =
    total_same file size c n n s (omega arith) ∙ total_all size c n s.positive s.covers
