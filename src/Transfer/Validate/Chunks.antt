-- ===== src/Transfer/Validate/Chunks.antt =====
-- The parts of a well-formed request: distinct identifiers, names, and the number of chunks
-- (internal/transfer/service.go).
use native.Mathlib.Decide.{dec_le}
use native.Mathlib.Nat.{mul-le-mul_right, div-add-mod, mod-lt}
use nex_drop.Prelude.{
  ==_iff, ℕ, ◌+◌, ◌*◌, ◌/◌, ◌%◌, ◌≤◌, ◌<◌, ◌≡◌, ◌≢◌, ◌↔◌, refl, inl, inr, String, true, false, List,
  [], ◌∷◌, All, any, is_empty, str_eq, eq_iff, Bool-cases, arith, ◌==◌,
}
use nex_drop.Prelude.Int.{ℤ, pos_part}
use nex_drop.Transfer.Validate.{has_duplicates_from, has_duplicates, expected_chunk_count}

-- No identifier is empty, and none stands twice.
abbrev pub Distinct : List String → Type 0
Distinct [] = Unit
Distinct (x ∷ xs) = (x ≢ "") × All (λ y. x ≢ y) xs × Distinct xs

abbrev Unseen : List String → List String → Type 0
Unseen seen = All (λ v. any (str_eq v) seen ≡ false)

pub is_empty_iff : (s : String) → (is_empty s ≡ true) ↔ (s ≡ "")
is_empty_iff String.[] = (λ _. refl, λ _. refl)
is_empty_iff (String.◌∷◌ c s) = (λ h. cc, λ h. cc)

Unseen-split :
    (v : String) (seen vs : List String)
    → Unseen (v ∷ seen) vs
    → All (λ w. v ≢ w) vs × Unseen seen vs
Unseen-split v seen [] u = (tt, tt)
Unseen-split v seen (w ∷ vs) u =
    let (apart, rest) = Unseen-split v seen vs u.1 in
    ((ground (arith, eq_iff w v, u.0), apart), (ground (arith, u.0), rest))

Unseen-join :
    (v : String) (seen vs : List String)
    → All (λ w. v ≢ w) vs
    → Unseen seen vs
    → Unseen (v ∷ seen) vs
Unseen-join v seen [] a u = tt
Unseen-join v seen (w ∷ vs) a u =
    (ground (arith, eq_iff w v, a.0, u.0), Unseen-join v seen vs a.1 u.1)

Distinct-of_test :
    (seen vs : List String) → has_duplicates_from seen vs ≡ false → Distinct vs × Unseen seen vs
unfolding has_duplicates_from
Distinct-of_test seen [] h = (tt, tt)
Distinct-of_test seen (v ∷ vs) h =
    let (ds, us) = Distinct-of_test (v ∷ seen) vs (ground arith) in
    let (apart, rest) = Unseen-split v seen vs us in
    ((ground (arith, is_empty_iff v), apart, ds), (ground arith, rest))

test_of_Distinct :
    (seen vs : List String) → Distinct vs → Unseen seen vs → has_duplicates_from seen vs ≡ false
unfolding has_duplicates_from
test_of_Distinct seen [] d u = refl
test_of_Distinct seen (v ∷ vs) d u = ground (
  arith,
  is_empty_iff v,
  d.0,
  u.0,
  test_of_Distinct (v ∷ seen) vs d.2 (Unseen-join v seen vs d.1 u.1),
)

Unseen-nil : (vs : List String) → Unseen [] vs
Unseen-nil [] = tt
Unseen-nil (v ∷ vs) = (refl, Unseen-nil vs)

-- The test for duplicates passes exactly the lists of distinct identifiers that are not empty.
pub has_duplicates_iff : (vs : List String) → (has_duplicates vs ≡ false) ↔ Distinct vs
unfolding has_duplicates
has_duplicates_iff vs =
    (λ h. (Distinct-of_test [] vs h).0, λ d. test_of_Distinct [] vs d (Unseen-nil vs))

-- As few chunks as cover the size.
abbrev pub Covers : ℕ → ℕ → ℕ → Type 0
Covers size chunk_size n = (size ≤ n * chunk_size) × (n * chunk_size < size + chunk_size)

Covers-of_parts : (s c q r : ℕ) → s ≡ q * c + r → r < c → 0 < r → Covers s c (q + 1)
Covers-of_parts s c q r e h p = (omega arith, omega arith)

Covers-exact : (s c q : ℕ) → s ≡ q * c → 0 < c → Covers s c q
Covers-exact s c q e p = (omega arith, omega arith)

-- For a positive chunk size, the expected number of chunks covers the size, and one chunk less does
-- not.
pub expected_chunk_count-Covers :
    (size chunk_size : ℤ)
    → 0 < pos_part chunk_size
    → Covers (pos_part size) (pos_part chunk_size) (expected_chunk_count size chunk_size)
unfolding expected_chunk_count
expected_chunk_count-Covers size chunk_size h = elim (Bool-cases (s % c == 0)) [
  | inl e ↦
      rw e (Covers-exact s c (s / c) (grind (arith, div-add-mod s c, (==_iff (s % c) 0).0 e)) h)
  | inr e ↦ rw e (
      Covers-of_parts s c (s / c) (s % c) (grind (arith, div-add-mod s c)) (mod-lt s h)
        (ground arith))
]
  where
    s : ℕ
    s = pos_part size

    c : ℕ
    c = pos_part chunk_size

at_most : (s c m n : ℕ) → Covers s c m → Covers s c n → m ≤ n
at_most s c m n a b = elim (dec_le m n) [
  | yes l ↦ l
  | no g ↦ let l : n + 1 ≤ m = omega arith in absurd (omega (arith, mul-le-mul_right c l))
]

-- Two numbers of chunks that cover the same size are one.
pub Covers-unique :
    (size chunk_size m n : ℕ) → Covers size chunk_size m → Covers size chunk_size n → m ≡ n
Covers-unique size c m n a b = omega (arith, at_most size c m n a b, at_most size c n m b a)
