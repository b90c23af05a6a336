-- ===== src/Database/Sql/Rules.antt =====
-- Laws of the SQL of internal/postgres on lists of rows.
use nex_drop.Prelude.{
  Bool, true, List, [], ◌∷◌, some, All, ◌≡◌, refl, Bool-cases, inl, inr, arith, any, ℕ, zero, suc,
  get_elem?, if◌then◌else◌, subst,
}
use nex_drop.Database.Sql.{first, update}

-- Two tables with the same rows, each in the relation.
abbrev pub Pointwise {ℓ} : {A : Type ℓ} → (A → A → Type 0) → List A → List A → Type 0
Pointwise R [] [] = Unit
Pointwise R [] (y ∷ ys) = ⊥
Pointwise R (x ∷ xs) [] = ⊥
Pointwise R (x ∷ xs) (y ∷ ys) = R x y × Pointwise R xs ys

module _ {ℓ} {A : Type ℓ} (R : A → A → Type 0) where
  pub Pointwise-refl : ((x : A) → R x x) → (xs : List A) → Pointwise R xs xs
  Pointwise-refl r [] = tt
  Pointwise-refl r (x ∷ xs) = (r x, Pointwise-refl r xs)

  pub Pointwise-trans :
      ((x y z : A) → R x y → R y z → R x z)
      → (xs ys zs : List A) → Pointwise R xs ys
      → Pointwise R ys zs
      → Pointwise R xs zs
  Pointwise-trans t [] [] [] h k = tt
  Pointwise-trans t [] [] (z ∷ zs) h k = k
  Pointwise-trans t [] (y ∷ ys) zs h k = elim h [ ]
  Pointwise-trans t (x ∷ xs) [] zs h k = elim h [ ]
  Pointwise-trans t (x ∷ xs) (y ∷ ys) [] h k = k
  Pointwise-trans t (x ∷ xs) (y ∷ ys) (z ∷ zs) h k =
      (t x y z h.0 k.0, Pointwise-trans t xs ys zs h.1 k.1)

  -- An update of the rows that it finds.
  pub Pointwise-update :
      (p : A → Bool) (f : A → A)
      → ((x : A) → R x x)
      → (xs : List A) → All (λ x. p x ≡ true → R x (f x)) xs
      → Pointwise R xs (update p f xs)
  Pointwise-update p f r [] h = tt
  Pointwise-update p f r (x ∷ xs) h = elim (Bool-cases (p x)) [
    | inl e ↦ rw e (h.0 e, Pointwise-update p f r xs h.1)
    | inr e ↦ rw e (r x, Pointwise-update p f r xs h.1)
  ]

module _ {ℓ} {A : Type ℓ} where
  -- A law of every row.
  pub All-every {κ} : {P : A → Type κ} → ((x : A) → P x) → (xs : List A) → All P xs
  All-every h [] = tt
  All-every h (x ∷ xs) = (h x, All-every h xs)

  -- What is found passes the test.
  pub first-some : (p : A → Bool) (xs : List A) (x : A) → first p xs ≡ some x → p x ≡ true
  first-some p [] x h = absurd (ground arith)
  first-some p (y ∷ ys) x h = ground (arith, first-some p ys x)

  -- Tests that agree find the same row.
  pub first_ext : (p q : A → Bool) → ((x : A) → p x ≡ q x) → (xs : List A) → first p xs ≡ first q xs
  first_ext p q e [] = refl
  first_ext p q e (x ∷ xs) = ground (arith, e x, first_ext p q e xs)

  -- An update that a test does not see.
  pub any-update :
      (p t : A → Bool) (f : A → A)
      → ((x : A) → t (f x) ≡ t x)
      → (xs : List A) → any t (update p f xs) ≡ any t xs
  any-update p t f e [] = refl
  any-update p t f e (x ∷ xs) = ground (arith, e x, any-update p t f e xs)

  pub get_elem?-update :
      (p : A → Bool) (f : A → A) (xs : List A) (i : ℕ) (x : A)
      → get_elem? xs i ≡ some x
      → p x ≡ true
      → get_elem? (update p f xs) i ≡ some (f x)
  get_elem?-update p f [] i x h e = absurd (ground (arith, h))
  get_elem?-update p f (y ∷ ys) zero x h e = ground (arith, h, e)
  get_elem?-update p f (y ∷ ys) (suc i) x h e = get_elem?-update p f ys i x h e

  -- The first row is still the first after an update that the test does not see.
  pub first-update :
      (p q : A → Bool) (f : A → A)
      → ((x : A) → p (f x) ≡ p x)
      → (xs : List A) (x : A) → first p xs ≡ some x
      → first p (update q f xs) ≡ some (if q x then f x else x)
  first-update p q f e [] x h = absurd (ground (arith, h))
  first-update p q f e (y ∷ ys) x h = elim (Bool-cases (p y)) [
    | inl z ↦
        let same : y ≡ x = ground (arith, h, z) in
        rw (← same) (elim (Bool-cases (q y)) [
          | inl a ↦ ground (arith, a, e y, z)
          | inr a ↦ ground (arith, a, z)
        ])
    | inr z ↦
        let rest = first-update p q f e ys x (ground (arith, h, z)) in
        elim (Bool-cases (q y)) [
          | inl a ↦ ground (arith, a, e y, z, rest)
          | inr a ↦ ground (arith, a, z, rest)
        ]
  ]

  -- A law of every row holds of the row that is found.
  pub All-first {κ} :
      (P : A → Type κ) (p : A → Bool) (xs : List A) (x : A) → All P xs → first p xs ≡ some x → P x
  All-first P p [] x a h = absurd (ground (arith, h))
  All-first P p (y ∷ ys) x a h = elim (Bool-cases (p y)) [
    | inl e ↦ let same : y ≡ x = ground (arith, h, e) in subst P same a.0
    | inr e ↦ All-first P p ys x a.1 (ground (arith, h, e))
  ]
