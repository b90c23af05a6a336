-- ===== src/Prelude/Text.antt =====
-- Texts: equality as a test and as a decision, order, length in bytes, and trimming.
pub mod Order
use Prim.Native.Nat.{ℕ}
use Prim.Native.Char.{code}
use Prim.Native.String.{String, compare}
use mathlib.Core.Path.{◌≡◌, refl}
use mathlib.Core.Logic.{inl, inr}
use mathlib.Core.Bool.{Bool, true, false, ◌&&◌, ◌||◌}
use text.Mathlib.Text.{is_lt, ◌==◌ as str_eq}
use text.Mathlib.TextEquality.{eq_iff}
use native.Mathlib.Omega.{arith}
use nex_drop.Prelude.Tests.{Bool-cases, leb, ◌==◌, if◌then◌else◌}
pub use Prim.Native.String.{len}
pub use text.Mathlib.Text.{◌==◌ as str_eq}
pub use text.Mathlib.TextEquality.{eq_iff}

-- Go's `<` on strings.
abbrev pub str_lt : String → String → Bool
str_lt a b = is_lt (compare a b)

pub not_equal : (a b : String) → str_eq a b ≡ false → ¬ (a ≡ b)
not_equal a b n p = ground (arith, eq_iff a b)

unfoldable pub String-discrete : Discrete String
String-discrete a b = elim (Bool-cases (str_eq a b)) [
  | inl e ↦ yes ((eq_iff a b).0 e)
  | inr n ↦ no (not_equal a b n)
]

-- `s == ""`.
abbrev pub is_empty : String → Bool
is_empty String.[] = true
is_empty _ = false

-- Every character passes the test: a `range` loop that returns at the first one that does not.
abbrev pub every_char : (ℕ → Bool) → String → Bool
every_char p String.[] = true
every_char p (String.◌∷◌ c s) = p (code c) && every_char p s

-- `unicode.IsSpace`.
abbrev pub is_space : ℕ → Bool
is_space c =
    (leb 9 c && leb c 13)
    || c == 32
    || c == 0x85
    || c == 0xa0
    || c == 0x1680
    || (leb 0x2000 c && leb c 0x200a)
    || c == 0x2028
    || c == 0x2029
    || c == 0x202f
    || c == 0x205f
    || c == 0x3000

abbrev pub trim_left : String → String
trim_left String.[] = String.[]
trim_left (String.◌∷◌ c s) =
    let rest = trim_left s in if is_space (code c) then rest else String.◌∷◌ c s

abbrev pub trim_right : String → String
trim_right String.[] = String.[]
trim_right (String.◌∷◌ c s) =
    let rest = trim_right s in
    if is_space (code c) && is_empty rest then String.[] else String.◌∷◌ c rest

-- `strings.TrimSpace`.
unfoldable pub trim_space : String → String
trim_space s = trim_right (trim_left s)

trim_runs : trim_space "  a b\n" ≡ "a b"
unfolding trim_space
trim_runs = refl
