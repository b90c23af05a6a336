-- ===== src/Folder/Drives.antt =====
-- Paths with a drive letter in internal/folder/manifest.go.
use nex_drop.Prelude.{
  ℕ, Bool, true, false, ◌||◌, not, List, [], ◌∷◌, map, any, ◌==◌, ◌≡◌, refl, inl, inr, Bool-cases,
  arith,
}
use nex_drop.Prelude.Result.{ok, err}
use nex_drop.Folder.Paths.{
  path_traversal, Letters, slash, backslash, dot, colon, contains_byte, split, join, clean_segments,
  clean, has_prefix, contains, is_letter, drive_qualified, check_cleaned, bad_segment,
  normalize_path, to_slash,
}

-- Neither a slash nor a backslash nor a zero byte.
abbrev pub is_plain : List ℕ → Bool
is_plain s = not (any (λ b. b == slash || b == backslash || b == 0) s)

plain-split : (s : List ℕ) → is_plain s ≡ true → split s ≡ s ∷ []
unfolding split
plain-split [] h = refl
plain-split (c ∷ cs) h = elim (Bool-cases (c == slash)) [
  | inl y ↦ absurd (ground (arith, h, y))
  | inr n ↦ rw (n, plain-split cs (ground (arith, h))) refl
]

plain-map : (letters : Letters) (s : List ℕ) → is_plain s ≡ true → map (to_slash letters) s ≡ s
plain-map letters [] h = refl
plain-map letters (c ∷ cs) h = ground (arith, h, plain-map letters cs)

plain-contains_byte : (s : List ℕ) → is_plain s ≡ true → contains_byte 0 s ≡ false
plain-contains_byte [] h = refl
plain-contains_byte (c ∷ cs) h = ground (arith, h, plain-contains_byte cs)

plain-contains :
    (s : List ℕ) → is_plain s ≡ true → contains (slash ∷ dot ∷ dot ∷ slash ∷ []) s ≡ false
unfolding contains
plain-contains [] h = refl
plain-contains (c ∷ cs) h = ground (arith, h, plain-contains cs)

plain-has_prefix : (s : List ℕ) → is_plain s ≡ true → has_prefix (dot ∷ dot ∷ slash ∷ []) s ≡ false
plain-has_prefix [] h = refl
plain-has_prefix (a ∷ []) h = ground (arith, h)
plain-has_prefix (a ∷ b ∷ []) h = ground (arith, h)
plain-has_prefix (a ∷ b ∷ c ∷ s) h = ground (arith, h)

letter_bytes :
    (c : ℕ)
    → is_letter c ≡ true
    → ((c == slash) ≡ false)
      × ((c == backslash) ≡ false)
      × ((c == 0) ≡ false)
      × ((c == dot) ≡ false)
letter_bytes c h = ground (arith, h)

module _ (letters : Letters) (c : ℕ) (s : List ℕ) (letter : is_letter c ≡ true)
    (plain : is_plain s ≡ true) where
  drive-split : split (c ∷ colon ∷ slash ∷ s) ≡ (c ∷ colon ∷ []) ∷ s ∷ []
  unfolding split
  drive-split = rw ((letter_bytes c letter).0, plain-split s plain) refl

  drive-clean :
      bad_segment letters s ≡ false
      → clean (dot ∷ slash ∷ c ∷ colon ∷ slash ∷ s) ≡ c ∷ colon ∷ slash ∷ s
  unfolding clean split clean_segments bad_segment join
  drive-clean good =
      rw ((letter_bytes c letter).0, plain-split s plain)
        (ground (arith, letter_bytes c letter, good))

  drive-check_cleaned :
      bad_segment letters (c ∷ colon ∷ []) ≡ false
      → bad_segment letters s ≡ false
      → check_cleaned letters (c ∷ colon ∷ slash ∷ s) ≡ ok (c ∷ colon ∷ slash ∷ s, 2)
  unfolding check_cleaned contains join
  drive-check_cleaned drive good =
      rw (drive-split, drive, good, plain-contains s plain)
        (ground (arith, letter_bytes c letter, plain-has_prefix s plain))

-- A path of `./`, a letter, a colon, a slash and one more segment, where the drive and the segment pass the
-- tests on segments and the segment has no slash, backslash or zero byte, is accepted without the `./`;
-- what is accepted is qualified by a drive, and `NormalizePath` refuses it itself.
pub normalize_path-drive_qualified :
    (letters : Letters) (c : ℕ) (s : List ℕ)
    → is_letter c ≡ true
    → is_plain s ≡ true
    → bad_segment letters (c ∷ colon ∷ []) ≡ false
    → bad_segment letters s ≡ false
    → (normalize_path letters (dot ∷ slash ∷ c ∷ colon ∷ slash ∷ s) ≡ ok (c ∷ colon ∷ slash ∷ s, 2))
      × (normalize_path letters (c ∷ colon ∷ slash ∷ s) ≡ err path_traversal)
unfolding normalize_path drive_qualified
normalize_path-drive_qualified letters c s letter plain drive good =
    let bytes = letter_bytes c letter in
    (
      rw
          (
            bytes.1,
            plain-map letters s plain,
            bytes.2,
            plain-contains_byte s plain,
            drive-clean letters c s letter plain good,
          )
          (drive-check_cleaned letters c s letter plain drive good),
      rw (bytes.1, plain-map letters s plain, bytes.2, plain-contains_byte s plain)
          (ground (arith, bytes, letter)),
    )
