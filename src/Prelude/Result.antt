-- ===== src/Prelude/Result.antt =====
-- A call that returns a value or an error: Go's `(value, error)`.
use mathlib.Core.Path.{◌≡◌, refl}
use mathlib.Core.Bool.{Bool, true, false}

pub data Result {ℓ κ} (E : Type ℓ) (A : Type κ) : Type (ℓ ⊔ κ) where
  ok : A → Result E A
  err : E → Result E A

infixl 5 ◌>>=◌ ◌>>◌
abbrev pub ◌>>=◌ {ℓ κ μ} :
    {E : Type ℓ} {A : Type κ} {B : Type μ} → Result E A → (A → Result E B) → Result E B
ok a >>= f = f a
err e >>= f = err e

abbrev pub ◌>>◌ {ℓ κ μ} :
    {E : Type ℓ} {A : Type κ} {B : Type μ} → Result E A → Result E B → Result E B
m >> k = m >>= λ _. k

-- `if bad { return err }`.
abbrev pub refuse {ℓ} : {E : Type ℓ} → Bool → E → Result E (Unit {0})
refuse true e = err e
refuse false e = ok tt

-- What a chain that succeeds says of its first link: its value, and how the rest went on.
pub first_link {ℓ κ μ} :
    {E : Type ℓ} {B : Type μ} {A : Type κ} {end : B} (rest : A → Result E B) (link : Result E A)
    → (link >>= rest) ≡ ok end
    → (x : A) × (rest x ≡ ok end) × (link ≡ ok x)
first_link rest (err e) went = cc
first_link rest (ok x) went = (x, went, refl)

pub let_through {ℓ μ} :
    {E : Type ℓ} {B : Type μ} {end : B} (rest : Result E B) (bad : Bool) (e : E)
    → (refuse bad e >> rest) ≡ ok end
    → (rest ≡ ok end) × (bad ≡ false)
let_through rest false e went = (went, refl)
let_through rest true e went = cc
