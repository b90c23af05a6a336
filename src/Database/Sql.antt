-- ===== src/Database/Sql.antt =====
-- The SQL that internal/postgres uses, on tables as lists of rows.
pub mod Rules
use nex_drop.Prelude.{
  ℕ, ◌+◌, Bool, true, false, ◌&&◌, not, List, [], ◌∷◌, ◌++◌, Option, none, some, String, str_eq,
  if◌then◌else◌, select, length,
}
use nex_drop.Prelude.Int.{ℤ, pos, ◌+ℤ◌}

module _ {ℓ} {A : Type ℓ} where
  -- `QueryRow` of a `SELECT`: the first row, or no rows.
  abbrev pub first : (A → Bool) → List A → Option A
  first p [] = none
  first p (x ∷ xs) = let rest = first p xs in elim (p x) [ true ↦ some x | false ↦ rest ]

  -- `UPDATE … SET … WHERE`.
  abbrev pub update : (A → Bool) → (A → A) → List A → List A
  update p f [] = []
  update p f (x ∷ xs) = let rest = update p f xs in (if p x then f x else x) ∷ rest

  -- `INSERT`.
  abbrev pub insert : A → List A → List A
  insert x xs = xs ++ x ∷ []

  -- `SUM`.
  abbrev pub sum : (A → ℤ) → List A → ℤ
  sum f [] = pos 0
  sum f (x ∷ xs) = f x +ℤ sum f xs

-- `=` on a column that may be null: null equals nothing.
abbrev pub equals : Option String → String → Bool
equals none b = false
equals (some a) b = str_eq a b

-- `COALESCE`.
abbrev pub coalesce {ℓ} : {A : Type ℓ} → Option A → Option A → Option A
coalesce none b = b
coalesce (some a) b = some a

abbrev pub is_null {ℓ} : {A : Type ℓ} → Option A → Bool
is_null none = true
is_null (some a) = false

-- `NULLIF(text, '')`.
abbrev pub null_if_empty : String → Option String
null_if_empty s = if str_eq s "" then none else some s
