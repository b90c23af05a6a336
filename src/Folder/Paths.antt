-- ===== src/Folder/Paths.antt =====
-- `NormalizePath` of internal/folder/manifest.go on the bytes of a path, with `path.Clean`, `strings.Split` and
-- `strings.Join` of Go's library.
use nex_drop.Prelude.{
  ℕ, Bool, true, false, ◌&&◌, ◌||◌, List, [], ◌∷◌, ◌++◌, map, any, length, leb, ◌==◌, if◌then◌else◌,
}
use nex_drop.Prelude.Result.{Result, ok, err}
use nex_drop.FileTransfer.Manifest.{bytes_eq}

pub data Error : Type 0 where
  invalid_manifest path_traversal path_collision limit_exceeded : Error

-- `strings.ToLower`, `strings.ToUpper`, `strings.TrimSpace` and `strings.EqualFold`.
pub record Letters : Type 0 where
  pub to_lower : List ℕ → List ℕ
  pub to_upper : List ℕ → List ℕ
  pub trim_space : List ℕ → List ℕ
  pub equal_fold : List ℕ → List ℕ → Bool

abbrev pub slash : ℕ
slash = 47

abbrev pub backslash : ℕ
backslash = 92

abbrev pub dot : ℕ
dot = 46

abbrev pub space : ℕ
space = 32

abbrev pub colon : ℕ
colon = 58

abbrev pub contains_byte : ℕ → List ℕ → Bool
contains_byte b bytes = any (λ c. c == b) bytes

abbrev pub grow : ℕ → List (List ℕ) → List (List ℕ)
grow c [] = (c ∷ []) ∷ []
grow c (s ∷ ss) = (c ∷ s) ∷ ss

-- `strings.Split(…, "/")`.
unfoldable pub split : List ℕ → List (List ℕ)
split [] = [] ∷ []
split (c ∷ cs) = let rest = split cs in if c == slash then [] ∷ rest else grow c rest

-- `strings.Join(…, "/")`.
unfoldable pub join : List (List ℕ) → List ℕ
join [] = []
join (s ∷ []) = s
join (s ∷ t ∷ ss) = s ++ slash ∷ join (t ∷ ss)

abbrev pub is_dot : List ℕ → Bool
is_dot s = bytes_eq s (dot ∷ [])

abbrev pub is_dot_dot : List ℕ → Bool
is_dot_dot s = bytes_eq s (dot ∷ dot ∷ [])

-- `..` removes the segment before it, if there is one that is not `..` itself.
abbrev pub go_up : List (List ℕ) → List (List ℕ)
go_up [] = (dot ∷ dot ∷ []) ∷ []
go_up (s ∷ ss) = if is_dot_dot s then (dot ∷ dot ∷ []) ∷ s ∷ ss else ss

-- The segments that `path.Clean` leaves of a path that does not begin with a slash, the last one first.
unfoldable pub clean_segments : List (List ℕ) → List (List ℕ) → List (List ℕ)
clean_segments out [] = out
clean_segments out (s ∷ ss) =
    clean_segments
      (if bytes_eq s [] || is_dot s then out else if is_dot_dot s then go_up out else s ∷ out) ss

abbrev pub backwards : List (List ℕ) → List (List ℕ) → List (List ℕ)
backwards out [] = out
backwards out (s ∷ ss) = backwards (s ∷ out) ss

abbrev pub dot_if_empty : List (List ℕ) → List ℕ
dot_if_empty [] = dot ∷ []
dot_if_empty (s ∷ ss) = join (s ∷ ss)

-- `path.Clean` on such a path.
unfoldable pub clean : List ℕ → List ℕ
clean value = dot_if_empty (backwards [] (clean_segments [] (split value)))

abbrev pub has_prefix : List ℕ → List ℕ → Bool
has_prefix [] bytes = true
has_prefix (p ∷ ps) [] = false
has_prefix (p ∷ ps) (b ∷ bs) = p == b && has_prefix ps bs

unfoldable pub contains : List ℕ → List ℕ → Bool
contains pattern [] = has_prefix pattern []
contains pattern (b ∷ bs) = has_prefix pattern (b ∷ bs) || contains pattern bs

abbrev pub ends_with : ℕ → List ℕ → Bool
ends_with b [] = false
ends_with b (c ∷ []) = c == b
ends_with b (c ∷ d ∷ cs) = ends_with b (d ∷ cs)

abbrev pub is_letter : ℕ → Bool
is_letter c = leb b'a' c && leb c b'z' || leb b'A' c && leb c b'Z'

unfoldable pub drive_qualified : List ℕ → Bool
drive_qualified (c ∷ d ∷ cs) = is_letter c && d == colon
drive_qualified _ = false

-- `strings.TrimRight(…, " .")`.
abbrev pub trim_right : List ℕ → List ℕ
trim_right [] = []
trim_right (c ∷ cs) =
    let rest = trim_right cs in
    if bytes_eq rest [] && (c == space || c == dot) then [] else c ∷ rest

-- The first part of `strings.SplitN(…, ".", 2)`.
abbrev pub before_dot : List ℕ → List ℕ
before_dot [] = []
before_dot (c ∷ cs) = let rest = before_dot cs in if c == dot then [] else c ∷ rest

abbrev pub is_port : List ℕ → Bool
is_port (a ∷ b ∷ c ∷ d ∷ []) =
    (bytes_eq (a ∷ b ∷ c ∷ []) (67 ∷ 79 ∷ 77 ∷ []) || bytes_eq (a ∷ b ∷ c ∷ []) (76 ∷ 80 ∷ 84 ∷ []))
    && leb b'1' d
    && leb d b'9'
is_port _ = false

-- The names CON, PRN, AUX and NUL, and COM or LPT with a digit.
abbrev pub is_reserved : List ℕ → Bool
is_reserved base =
    bytes_eq base (67 ∷ 79 ∷ 78 ∷ [])
    || bytes_eq base (80 ∷ 82 ∷ 78 ∷ [])
    || bytes_eq base (65 ∷ 85 ∷ 88 ∷ [])
    || bytes_eq base (78 ∷ 85 ∷ 76 ∷ [])
    || is_port base

module _ (letters : Letters) where
  unfoldable pub windows_reserved : List ℕ → Bool
  windows_reserved segment = is_reserved (letters.to_upper (before_dot (trim_right segment)))

  unfoldable pub bad_segment : List ℕ → Bool
  bad_segment s =
      bytes_eq s []
      || is_dot s
      || is_dot_dot s
      || ends_with space s
      || ends_with dot s
      || windows_reserved s

  abbrev pub to_slash : ℕ → ℕ
  to_slash c = if c == backslash then slash else c

  -- The tests on the cleaned path, and on its segments.
  unfoldable pub check_cleaned : List ℕ → Result Error (List ℕ × ℕ)
  check_cleaned cleaned =
      if is_dot cleaned
        || is_dot_dot cleaned
        || has_prefix (dot ∷ dot ∷ slash ∷ []) cleaned
        || contains (slash ∷ dot ∷ dot ∷ slash ∷ []) cleaned
      then err path_traversal
      else if any bad_segment (split cleaned)
      then err invalid_manifest
      else ok (join (split cleaned), length (split cleaned))

  unfoldable pub normalize_path : List ℕ → Result Error (List ℕ × ℕ)
  normalize_path value =
      let slashed = map to_slash value in
      if bytes_eq value [] || contains_byte 0 value
      then err invalid_manifest
      else if has_prefix (slash ∷ []) slashed
          || has_prefix (slash ∷ slash ∷ []) slashed
          || drive_qualified slashed
      then err path_traversal
      else check_cleaned (clean slashed)

-- The loop over `path.Dir` from a normalized path up: its proper prefixes.
unfoldable pub prefixes : List (List ℕ) → List (List ℕ) → List (List ℕ)
prefixes above [] = []
prefixes above (s ∷ []) = []
prefixes above (s ∷ t ∷ ss) = join (above ++ s ∷ []) ∷ prefixes (above ++ s ∷ []) (t ∷ ss)

abbrev pub parents_of : List ℕ → List (List ℕ)
parents_of path = prefixes [] (split path)
