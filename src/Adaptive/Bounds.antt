-- ===== src/Adaptive/Bounds.antt =====
-- The bounds of a recommended profile (internal/adaptive/profile.go).
use native.Mathlib.Nat.{mul-le-mul, le_trans}
use nex_drop.Prelude.{
  ℕ, zero, suc, ◌*◌, ◌/◌, ◌^◌, ◌≤◌, ◌<◌, ◌≡◌, ◌⊎◌, Bool, true, if◌then◌else◌, arith, Bool-cases,
  inl, inr, ltb, refl, sym, ◌∙◌,
}
use nex_drop.Prelude.Int.{ℤ, pos, negsuc, ltb_ℤ, mul_pos, wrap64_pos}
use nex_drop.Adaptive.{
  Limits, Profile, Observation, normalized, smaller, larger, is_over, fewer, halved, settle,
  bounded, recommend,
}

-- Normalized limits, in a range in which no product overflows.
pub record InRange (l : Limits) (low high count budget : ℕ) : Type 0 where
  pub min_is : l.min_chunk_size ≡ pos low
  pub max_is : l.max_chunk_size ≡ pos high
  pub count_is : l.max_parallel_chunks ≡ pos count
  pub budget_is : l.memory_budget ≡ pos budget
  pub positive : 0 < low
  pub low_small : low ≤ 2 ^ 40
  pub high_small : high ≤ 2 ^ 40
  pub some_chunks : 1 ≤ count
  pub few_chunks : count ≤ 2 ^ 20
  pub room : low ≤ budget

is_over_pos :
    (m c n : ℕ) → c ≤ 2 ^ 40 → n ≤ 2 ^ 20 → is_over (pos m) (pos c) (pos n) ≡ ltb m (c * n)
unfolding is_over
is_over_pos m c n a b =
    let small : c * n ≤ 2 ^ 60 = le_trans (mul-le-mul a b) (omega arith) in
    rw (mul_pos c n, wrap64_pos (c * n) (omega arith)) (ground arith)

-- The first loop ends with at least one chunk, within the budget or with one.
fewer_ends :
    (m c n : ℕ)
    → c ≤ 2 ^ 40
    → suc n ≤ 2 ^ 20
    → (1 ≤ fewer (pos m) (pos c) (suc n))
      × (fewer (pos m) (pos c) (suc n) ≤ suc n)
      × ((fewer (pos m) (pos c) (suc n) ≡ 1) ⊎ (c * fewer (pos m) (pos c) (suc n) ≤ m))
unfolding fewer
fewer_ends m c zero a b = (omega arith, omega arith, inl refl)
fewer_ends m c (suc n) a b =
    let rest = fewer_ends m c n a (omega arith) in
    elim (Bool-cases (is_over (pos m) (pos c) (pos (suc (suc n))))) [
      | inl y ↦ rw y (rest.0, omega (arith, rest.1), rest.2)
      | inr y ↦
          rw y (omega arith, omega arith, inr (ground (arith, is_over_pos m c (suc (suc n)) a b)))
    ]

abbrev pub most : ℕ → ℕ → ℕ
most a b = if ltb b a then a else b

larger_pos : (a b : ℕ) → larger (pos a) (pos b) ≡ pos (most a b)
unfolding larger
larger_pos a b = ground arith

smaller_pos : (a b : ℕ) → smaller (pos a) (pos b) ≡ pos (if ltb a b then a else b)
unfolding smaller
smaller_pos a b = ground arith

next_bounds : (low c : ℕ) → 0 < low → low < c → (low ≤ most low (c / 2)) × (most low (c / 2) < c)
next_bounds low c p h = ground arith

one_left : (m n c : ℕ) → (n ≡ 1) ⊎ (c * n ≤ m) → ltb m (c * n) ≡ true → n ≡ 1
one_left m n c f o = ground arith

-- The second loop ends within the budget.
abbrev Fits : ℕ → ℕ → ℕ → ℕ → ℤ → Type 0
Fits low high m n (pos r) = (low ≤ r) × (r ≤ high) × (r * n ≤ m)
Fits low high m n (negsuc r) = ⊥

halved-Fits :
    (fuel low high m n c : ℕ)
    → 0 < low
    → low ≤ c
    → c ≤ high
    → high ≤ 2 ^ 40
    → low ≤ m
    → n ≤ 2 ^ 20
    → (n ≡ 1) ⊎ (c * n ≤ m)
    → c ≤ fuel
    → Fits low high m n (halved fuel (pos low) (pos m) (pos n) (pos c))
unfolding halved
halved-Fits zero low high m n c p l h s r k f g = absurd (omega arith)
halved-Fits (suc fuel) low high m n c p l h s r k f g =
    let over = is_over_pos m c n (omega arith) k in
    elim (Bool-cases (is_over (pos m) (pos c) (pos n))) [
      | inr y ↦ rw y (l, h, ground (arith, over))
      | inl y ↦
          let one = one_left m n c f (sym over ∙ y) in
          elim (Bool-cases (ltb_ℤ (pos low) (pos c))) [
            | inr z ↦ rw (y, z) (l, h, rw one (ground arith))
            | inl z ↦
                let next = next_bounds low c p (ground arith) in
                rw (y, z, larger_pos low (c / 2))
                  (halved-Fits fuel low high m n (most low (c / 2)) p next.0 (omega (arith, next.1))
                    s r k (inl one) (omega (arith, next.1)))
          ]
    ]

-- What a profile promises under its limits.
abbrev pub Within : ℕ → ℕ → ℕ → ℕ → Profile → Type 0
Within low high count budget p =
    (c : ℕ) × (n : ℕ) × (p.chunk_size ≡ pos c)
    × (p.parallel_chunks ≡ pos n)
    × (low ≤ c)
    × (c ≤ most low high)
    × (1 ≤ n)
    × (n ≤ count)
    × (c * n ≤ budget)

Within-of_Fits :
    (low high count m n : ℕ) (z : ℤ)
    → 1 ≤ n
    → n ≤ count
    → Fits low (most low high) m n z
    → Within low high count m (record { chunk_size = z; parallel_chunks = pos n })
Within-of_Fits low high count m n (pos r) a b f = (r, n, refl, refl, f.0, f.1, a, b, f.2)
Within-of_Fits low high count m n (negsuc r) a b f = absurd f

clamp :
    (low high : ℕ) (z : ℤ)
    → (c : ℕ) × (larger (pos low) (smaller (pos high) z) ≡ pos c) × (low ≤ c) × (c ≤ most low high)
unfolding larger smaller
clamp low high (pos n) =
    (most low (if ltb high n then high else n), ground arith, ground arith, ground arith)
clamp low high (negsuc n) = (low, ground arith, omega arith, ground arith)

most_small :
    (low high : ℕ) (l : Limits) (count m : ℕ) → InRange l low high count m → most low high ≤ 2 ^ 40
most_small low high l count m v = ground (arith, v.low_small, v.high_small)

bounded_count :
    (low high count m c n : ℕ) (p : Profile) (l : Limits)
    → InRange l low high count m
    → low ≤ c
    → c ≤ most low high
    → 1 ≤ n
    → n ≤ count
    → Within low high count m (settle l (pos c) (fewer l.memory_budget (pos c) n))
bounded_count low high count m c zero p l v a b d e = absurd (omega arith)
bounded_count low high count m c (suc n) p l v a b d e =
    let small = most_small low high l count m v in
    let few = fewer_ends m c n (omega (arith, small)) (omega (arith, v.few_chunks)) in
    let k = fewer (pos m) (pos c) (suc n) in
    rw (v.min_is, v.budget_is)
      (Within-of_Fits low high count m k (halved c (pos low) (pos m) (pos k) (pos c)) few.0
        (omega (arith, few.1))
        (halved-Fits c low (most low high) m k c v.positive a b small v.room
          (omega (arith, few.1, v.few_chunks)) few.2 (omega arith)))

most_one : (count : ℕ) → 1 ≤ count → most 1 count ≡ count
most_one count h = ground arith

bounded-Within :
    (p : Profile) (l : Limits) (low high count m : ℕ)
    → InRange l low high count m
    → Within low high count m (bounded p l)
unfolding bounded
bounded-Within p l low high count m v =
    let size = clamp low high p.chunk_size in
    let number = clamp 1 count p.parallel_chunks in
    let few = most_one count v.some_chunks in
    rw (v.min_is, v.max_is, v.count_is, size.1, number.1)
      (rw v.min_is at (
        bounded_count low high count m size.0 number.0 p l v size.2 size.3 number.2
          (rw few at number.3)))

-- Where the normalized limits are positive and in a range in which no product overflows, a recommendation
-- from any profile under any observation has a chunk size from the smallest to the larger of both
-- limits, at least one parallel chunk and at most the permitted number, and all of them together fit
-- the memory budget. Normalized limits may contradict each other; then the chunk size is the
-- smallest one and exceeds the largest.
pub recommend-Within :
    {Float : Type 0} (at_least below above : Float → ℕ → ℕ → Bool) (file_size : ℤ)
    (current : Profile) (l : Limits) (o : Observation Float) (low high count m : ℕ)
    → InRange (normalized l) low high count m
    → Within low high count m (recommend at_least below above file_size current l o)
unfolding recommend
recommend-Within at_least below above file_size current l o low high count m v =
    bounded-Within _ (normalized l) low high count m v
