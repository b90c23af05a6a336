-- ===== src/Prelude/Sort.antt =====
-- Go's `sort.SliceStable` by its contract, as a stable insertion sort under a test `less`.
use mathlib.Core.Path.{◌≡◌}
use mathlib.Core.Logic.{inl, inr}
use mathlib.Core.Bool.{Bool, true, false}
use mathlib.Core.List.{List, [], ◌∷◌, Perm}
use mathlib.Core.List.Perm
use nex_drop.Prelude.Tests.{Bool-cases}
use nex_drop.Prelude.Lists.{All}

-- What a comparison needs for the sort to sort: `less` is a strict weak order.
pub record StrictWeak {ℓ} {A : Type ℓ} (less : A → A → Bool) : Type ℓ where
  pub asym : (x y : A) → less x y ≡ true → less y x ≡ false
  pub not_trans : (x y z : A) → less y x ≡ false → less z y ≡ false → less z x ≡ false

module _ {ℓ} {A : Type ℓ} (less : A → A → Bool) where
  unfoldable pub insert_stable : A → List A → List A
  insert_stable x [] = x ∷ []
  insert_stable x (y ∷ ys) =
      let rest = insert_stable x ys in elim (less y x) [ true ↦ y ∷ rest | false ↦ x ∷ y ∷ ys ]

  unfoldable pub slice_stable : List A → List A
  unfolding insert_stable
  slice_stable [] = []
  slice_stable (x ∷ xs) = insert_stable x (slice_stable xs)

  insert_stable-perm : (x : A) (ys : List A) → Perm (insert_stable x ys) (x ∷ ys)
  unfolding insert_stable
  insert_stable-perm x [] = Perm.refl (x ∷ [])
  insert_stable-perm x (y ∷ ys) = elim (Bool-cases (less y x)) [
    | inl e ↦
        rw (e, insert_stable)
          (Perm.trans (Perm.cons y (insert_stable-perm x ys)) (Perm.swap x y ys))
    | inr e ↦ rw (e, insert_stable) (Perm.refl (x ∷ y ∷ ys))
  ]

  pub slice_stable-perm : (xs : List A) → Perm (slice_stable xs) xs
  unfolding slice_stable
  slice_stable-perm [] = Perm.refl []
  slice_stable-perm (x ∷ xs) =
      Perm.trans (insert_stable-perm x (slice_stable xs)) (Perm.cons x (slice_stable-perm xs))

  -- No later element is less than an earlier one.
  abbrev pub IsSorted : List A → Type ℓ
  IsSorted [] = Unit
  IsSorted (x ∷ xs) = All (λ y. less y x ≡ false) xs × IsSorted xs

  All-insert_stable {κ} :
      (P : A → Type κ) (x : A) (ys : List A) → P x → All P ys → All P (insert_stable x ys)
  unfolding insert_stable
  All-insert_stable P x [] px ps = (px, tt)
  All-insert_stable P x (y ∷ ys) px ps = elim (Bool-cases (less y x)) [
    | inl e ↦ rw (e, insert_stable) (ps.0, All-insert_stable P x ys px ps.1)
    | inr e ↦ rw (e, insert_stable) (px, ps)
  ]

  module _ (order : StrictWeak less) where
    All-not_less :
        (x y : A) (ys : List A)
        → less y x ≡ false
        → All (λ z. less z y ≡ false) ys
        → All (λ z. less z x ≡ false) ys
    All-not_less x y [] h a = tt
    All-not_less x y (z ∷ ys) h a = (order.not_trans x y z h a.0, All-not_less x y ys h a.1)

    insert_stable-IsSorted : (x : A) (ys : List A) → IsSorted ys → IsSorted (insert_stable x ys)
    unfolding insert_stable
    insert_stable-IsSorted x [] s = (tt, tt)
    insert_stable-IsSorted x (y ∷ ys) s = elim (Bool-cases (less y x)) [
      | inl e ↦
          rw (e, insert_stable)
            (
              All-insert_stable (λ z. less z y ≡ false) x ys (order.asym y x e) s.0,
              insert_stable-IsSorted x ys s.1,
            )
      | inr e ↦ rw (e, insert_stable) ((e, All-not_less x y ys e s.0), s)
    ]

    pub slice_stable-IsSorted : (xs : List A) → IsSorted (slice_stable xs)
    unfolding slice_stable
    slice_stable-IsSorted [] = tt
    slice_stable-IsSorted (x ∷ xs) =
        insert_stable-IsSorted x (slice_stable xs) (slice_stable-IsSorted xs)

module _ {ℓ} {A : Type ℓ} (less : A → A → Bool) where
  pub All-slice_stable {μ} :
      (P : A → Type μ) (xs : List A) → All P xs → All P (slice_stable less xs)
  unfolding slice_stable
  All-slice_stable P [] a = tt
  All-slice_stable P (x ∷ xs) a =
      All-insert_stable less P x (slice_stable less xs) a.0 (All-slice_stable P xs a.1)

-- Every two elements are related, the earlier one first.
abbrev pub Pairs {ℓ κ} : {A : Type ℓ} → (A → A → Type κ) → List A → Type (ℓ ⊔ κ)
Pairs R [] = Unit
Pairs R (x ∷ xs) = All (R x) xs × Pairs R xs

module _ {ℓ κ} {A : Type ℓ} (less : A → A → Bool) (R : A → A → Type κ)
    (symmetric : (x y : A) → R x y → R y x) where
  insert_stable-Pairs :
      (x : A) (ys : List A) → All (R x) ys → Pairs R ys → Pairs R (insert_stable less x ys)
  unfolding insert_stable
  insert_stable-Pairs x [] a p = (tt, tt)
  insert_stable-Pairs x (y ∷ ys) a p = elim (Bool-cases (less y x)) [
    | inl e ↦
        rw (e, insert_stable)
          (
            All-insert_stable less (R y) x ys (symmetric x y a.0) p.0,
            insert_stable-Pairs x ys a.1 p.1,
          )
    | inr e ↦ rw (e, insert_stable) (a, p)
  ]

  -- A symmetric relation between all elements survives the sort.
  pub slice_stable-Pairs : (xs : List A) → Pairs R xs → Pairs R (slice_stable less xs)
  unfolding slice_stable
  slice_stable-Pairs [] p = tt
  slice_stable-Pairs (x ∷ xs) p =
      insert_stable-Pairs x (slice_stable less xs) (All-slice_stable less (R x) xs p.0)
        (slice_stable-Pairs xs p.1)

-- What the comparison promises of two elements holds for every two of a sorted list.
module _ {ℓ κ} {A : Type ℓ} (less : A → A → Bool) (R : A → A → Type κ)
    (promised : (x y : A) → less y x ≡ false → R x y) where
  All-promised : (x : A) (ys : List A) → All (λ y. less y x ≡ false) ys → All (R x) ys
  All-promised x [] a = tt
  All-promised x (y ∷ ys) a = (promised x y a.0, All-promised x ys a.1)

  pub Pairs-of_IsSorted : (xs : List A) → IsSorted less xs → Pairs R xs
  Pairs-of_IsSorted [] s = tt
  Pairs-of_IsSorted (x ∷ xs) s = (All-promised x xs s.0, Pairs-of_IsSorted xs s.1)
