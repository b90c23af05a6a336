-- ===== src/Recovery/Backoff.antt =====
-- `Config.normalized` and `Backoff` of internal/recovery/coordinator.go.
pub mod Bounds
use nex_drop.Prelude.{
  ℕ, ◌+◌, ◌*◌, ◌%◌, ◌^◌, ◌≤◌, ◌<◌, ◌≡◌, String, Bool, true, false, ltb, leb, if◌then◌else◌, arith,
  refl, Bool-cases, inl, inr,
}
use nex_drop.Prelude.Int.{
  ℤ, pos, negsuc, pos_part, neg_part, ◌+ℤ◌, ◌*ℤ◌, wrap64, wrap64_id, InInt64, ltb_ℤ, leb_ℤ, ◌≤ℤ◌,
  ◌<ℤ◌,
}

pub record Config : Type 0 where
  pub base_backoff : ℤ
  pub max_backoff : ℤ
  pub max_retries : ℤ
  pub lease_ttl : ℤ

abbrev pub second : ℕ
second = 1000000000

unfoldable pub normalized : Config → Config
normalized c =
    let base = if leb_ℤ c.base_backoff (pos 0) then pos (5 * second) else c.base_backoff in
    record {
      base_backoff = base;
      max_backoff = if ltb_ℤ c.max_backoff base then pos (1800 * second) else c.max_backoff;
      max_retries = if leb_ℤ c.max_retries (pos 0) then pos 8 else c.max_retries;
      lease_ttl = if leb_ℤ c.lease_ttl (pos 0) then pos (120 * second) else c.lease_ttl;
    }

-- `if value > limit { value = limit }`.
unfoldable pub capped : ℤ → ℤ → ℤ
capped limit value = if ltb_ℤ limit value then limit else value

-- `Backoff` from the normalized configuration on, with the jitter in nanoseconds. A retry count is
-- not negative.
unfoldable pub backoff_of : Config → ℕ → ℕ → ℤ
backoff_of config retry_count jitter =
    let shift = if ltb 20 retry_count then 20 else retry_count in
    let delay = capped config.max_backoff (wrap64 (config.base_backoff *ℤ pos (2 ^ shift))) in
    capped config.max_backoff (wrap64 (delay +ℤ pos jitter))

-- The jitter of an item: below a second, in whole milliseconds.
abbrev pub jitter_of : (String → ℕ) → String → ℕ
jitter_of digest32 key = digest32 key % 1000 * 1000000

unfoldable pub backoff : (String → ℕ) → String → ℕ → Config → ℤ
backoff digest32 key retry_count config =
    backoff_of (normalized config) retry_count (jitter_of digest32 key)
