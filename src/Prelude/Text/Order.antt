-- ===== src/Prelude/Text/Order.antt =====
-- Go's `<` on strings is a strict weak order.
use Prim.Native.String.{String}
use Prim.Native.String.compare as C
use mathlib.Core.Path.{◌≡◌, refl}
use mathlib.Core.Bool.{true, false}
use native.Mathlib.Omega.{arith}
use nex_drop.Prelude.Text.{str_lt, str_eq, eq_iff}

pub str_lt_asym : (a b : String) → str_lt a b ≡ true → str_lt b a ≡ false
str_lt_asym String.[] String.[] h = refl
str_lt_asym String.[] (String.◌∷◌ d t) h = rw (C.cons-nil d t) refl
str_lt_asym (String.◌∷◌ c s) String.[] h = rw (C.nil-cons c s) (ground (arith, C.cons-nil c s))
str_lt_asym (String.◌∷◌ c s) (String.◌∷◌ d t) h =
    ground (arith, C.cons-cons c d s t, C.cons-cons d c t s, str_lt_asym s t)

pub str_lt_not_trans :
    (a b c : String) → str_lt b a ≡ false → str_lt c b ≡ false → str_lt c a ≡ false
str_lt_not_trans a String.[] String.[] h k = h
str_lt_not_trans a (String.◌∷◌ d t) String.[] h k = ground (arith, C.nil-cons d t)
str_lt_not_trans String.[] b (String.◌∷◌ e u) h k = ground (arith, C.cons-nil e u)
str_lt_not_trans (String.◌∷◌ c s) String.[] (String.◌∷◌ e u) h k = ground (arith, C.nil-cons c s)
str_lt_not_trans (String.◌∷◌ c s) (String.◌∷◌ d t) (String.◌∷◌ e u) h k =
    ground
      (arith, C.cons-cons d c t s, C.cons-cons e d u t, C.cons-cons e c u s, str_lt_not_trans s t u)

neither_lt : (a b : String) → str_lt a b ≡ false → str_lt b a ≡ false → str_eq a b ≡ true
neither_lt String.[] String.[] h k = refl
neither_lt String.[] (String.◌∷◌ d t) h k = ground (arith, C.nil-cons d t)
neither_lt (String.◌∷◌ c s) String.[] h k = ground (arith, C.nil-cons c s)
neither_lt (String.◌∷◌ c s) (String.◌∷◌ d t) h k =
    ground (arith, C.cons-cons c d s t, C.cons-cons d c t s, neither_lt s t)

pub str_lt_total : (a b : String) → str_lt a b ≡ false → str_lt b a ≡ false → a ≡ b
str_lt_total a b h k = (eq_iff a b).0 (neither_lt a b h k)
