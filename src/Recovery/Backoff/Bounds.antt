-- ===== src/Recovery/Backoff/Bounds.antt =====
-- The delay before the next attempt in closed form, and its order in the retries
-- (internal/recovery/coordinator.go).
use native.Mathlib.Nat.{pow-le-pow_right, one-le-pow, mul-le-mul, le_trans, le_refl}
use nex_drop.Prelude.{ℕ, ◌+◌, ◌*◌, ◌^◌, ◌≤◌, ◌<◌, ◌≡◌, String, ltb, if◌then◌else◌, arith, refl}
use nex_drop.Prelude.Int.{pos, ◌+ℤ◌, ◌≤ℤ◌, mul_pos, wrap64_pos}
use nex_drop.Recovery.Backoff.{Config, second, normalized, capped, backoff_of, jitter_of, backoff}

abbrev pub least : ℕ → ℕ → ℕ
least a b = if ltb a b then a else b

-- The bounds in which the arithmetic cannot overflow.
pub record InRange (config : Config) (base bound : ℕ) : Type 0 where
  pub base_is : config.base_backoff ≡ pos base
  pub bound_is : config.max_backoff ≡ pos bound
  pub base_small : base ≤ 2 ^ 42
  pub bound_small : bound < 2 ^ 62
  pub ordered : base ≤ bound
  pub positive : 0 < base

pow_small : (k : ℕ) → k ≤ 20 → (1 ≤ 2 ^ k) × (2 ^ k ≤ 1048576)
pow_small k h = (one-le-pow k 2 (omega arith), pow-le-pow_right (omega arith) h)

least_small : (r : ℕ) → least 20 r ≤ 20
least_small r = ground arith

product_small : (base p : ℕ) → base ≤ 2 ^ 42 → p ≤ 1048576 → base * p ≤ 2 ^ 62
product_small base p l h = le_trans (mul-le-mul l h) (omega arith)

least_twice : (bound x j : ℕ) → least bound (least bound x + j) ≡ least bound (x + j)
least_twice bound x j = ground arith

+ℤ_pos : (a b : ℕ) → pos a +ℤ pos b ≡ pos (a + b)
unfolding ◌+ℤ◌
+ℤ_pos a b = ground arith

capped_lem : (bound x : ℕ) → capped (pos bound) (pos x) ≡ pos (least bound x)
unfolding capped
capped_lem bound x = ground arith

backoff_of_lem :
    (config : Config) (base bound r j : ℕ)
    → InRange config base bound
    → j < second
    → backoff_of config r j ≡ pos (least bound (base * 2 ^ least 20 r + j))
unfolding backoff_of
backoff_of_lem config base bound r j v s =
    let small =
      product_small base (2 ^ least 20 r) v.base_small (pow_small (least 20 r) (least_small r)).1 in
    let x = base * 2 ^ least 20 r in
    rw
      (
        v.base_is,
        v.bound_is,
        mul_pos base (2 ^ least 20 r),
        wrap64_pos x (omega arith),
        capped_lem bound x,
        +ℤ_pos (least bound x) j,
        wrap64_pos (least bound x + j) (ground arith),
        capped_lem bound (least bound x + j),
        least_twice bound x j,
      )
      refl

least_mono : (b x y : ℕ) → x ≤ y → least b x ≤ least b y
least_mono b x y h = ground arith

power_mono : (q r : ℕ) → q ≤ r → 2 ^ least 20 q ≤ 2 ^ least 20 r
power_mono q r h = pow-le-pow_right (omega arith) (ground arith)

jitter_small : (digest32 : String → ℕ) (key : String) → jitter_of digest32 key < second
jitter_small digest32 key = ground arith

-- The delay is the base doubled at each retry, at most twenty times, plus the jitter, and never
-- more than the maximum, where the normalized configuration lets nothing overflow.
pub backoff_lem :
    (digest32 : String → ℕ) (key : String) (r : ℕ) (config : Config) (base bound : ℕ)
    → InRange (normalized config) base bound
    → backoff digest32 key r config
      ≡ pos (least bound (base * 2 ^ least 20 r + jitter_of digest32 key))
unfolding backoff
backoff_lem digest32 key r config base bound v =
    backoff_of_lem (normalized config) base bound r (jitter_of digest32 key) v
      (jitter_small digest32 key)

-- Under the same condition an item that was retried more often never waits less, and no item waits
-- longer than the maximum.
pub backoff_mono :
    (digest32 : String → ℕ) (key : String) (q r : ℕ) (config : Config) (base bound : ℕ)
    → InRange (normalized config) base bound
    → q ≤ r
    → (backoff digest32 key q config ≤ℤ backoff digest32 key r config)
      × (backoff digest32 key r config ≤ℤ pos bound)
backoff_mono digest32 key q r config base bound v h =
    let j = jitter_of digest32 key in
    let grows = mul-le-mul (le_refl base) (power_mono q r h) in
    rw
      (
        backoff_lem digest32 key q config base bound v,
        backoff_lem digest32 key r config base bound v,
      )
      (
        ground (arith, least_mono bound (base * 2 ^ least 20 q + j) (base * 2 ^ least 20 r + j)),
        ground arith,
      )
