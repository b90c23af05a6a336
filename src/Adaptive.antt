-- ===== src/Adaptive.antt =====
-- internal/adaptive/profile.go. A float is compared with constants only: the type `Float` and its
-- tests against a fraction are parameters, as in `at_least x 5 100` for `x >= 0.05`.
pub mod Bounds
use nex_drop.Prelude.{
  ℕ, zero, suc, ◌+◌, ◌*◌, ◌/◌, Bool, true, false, not, ◌&&◌, ◌||◌, if◌then◌else◌,
}
use nex_drop.Prelude.Int.{ℤ, pos, negsuc, pos_part, sub_ℕ, ◌+ℤ◌, ◌-ℤ◌, ◌*ℤ◌, wrap64, ltb_ℤ, leb_ℤ}

abbrev pub default_min_chunk_size : ℤ
default_min_chunk_size = pos 1048576

abbrev pub default_max_chunk_size : ℤ
default_max_chunk_size = pos 33554432

pub record Limits : Type 0 where
  pub min_chunk_size : ℤ
  pub max_chunk_size : ℤ
  pub max_parallel_chunks : ℤ
  pub memory_budget : ℤ

abbrev pub normalized : Limits → Limits
normalized l =
    let smallest =
      if leb_ℤ l.min_chunk_size (pos 0) then default_min_chunk_size else l.min_chunk_size in
    let least_budget = wrap64 (smallest *ℤ pos 2) in
    record {
      min_chunk_size = smallest;
      max_chunk_size =
          if ltb_ℤ l.max_chunk_size smallest then default_max_chunk_size else l.max_chunk_size;
      max_parallel_chunks =
          if ltb_ℤ l.max_parallel_chunks (pos 1) then pos 1 else l.max_parallel_chunks;
      memory_budget = if ltb_ℤ l.memory_budget least_budget then least_budget else l.memory_budget;
    }

pub record Profile : Type 0 where
  pub chunk_size : ℤ
  pub parallel_chunks : ℤ

pub record Observation (Float : Type 0) : Type 0 where
  pub rtt : ℤ
  pub throughput : Float
  pub retry_rate : Float
  pub checksum_failure_rate : Float
  pub backpressure : Bool
  pub storage_pressure : Bool
  pub thermal_pressure : Bool
  pub low_battery : Bool
  pub background : Bool

unfoldable pub smaller : ℤ → ℤ → ℤ
smaller a b = if ltb_ℤ a b then a else b

unfoldable pub larger : ℤ → ℤ → ℤ
larger a b = if ltb_ℤ b a then a else b

-- Division by 2, towards zero.
abbrev pub half : ℤ → ℤ
half (pos n) = pos (n / 2)
half (negsuc n) = sub_ℕ 0 (suc n / 2)

-- Whether the chunks in flight exceed the memory budget.
unfoldable pub is_over : ℤ → ℤ → ℤ → Bool
is_over budget chunk_size parallel = ltb_ℤ budget (wrap64 (chunk_size *ℤ parallel))

-- The first loop of `bounded`, on a positive number of parallel chunks.
unfoldable pub fewer : ℤ → ℤ → ℕ → ℕ
fewer budget chunk_size zero = zero
fewer budget chunk_size (suc zero) = suc zero
fewer budget chunk_size (suc (suc n)) =
    let rest = fewer budget chunk_size (suc n) in
    if is_over budget chunk_size (pos (suc (suc n))) then rest else suc (suc n)

-- The second loop, with the chunk size for fuel.
unfoldable pub halved : ℕ → ℤ → ℤ → ℤ → ℤ → ℤ
halved zero smallest budget parallel chunk_size = chunk_size
halved (suc fuel) smallest budget parallel chunk_size =
    let rest = halved fuel smallest budget parallel (larger smallest (half chunk_size)) in
    if is_over budget chunk_size parallel && ltb_ℤ smallest chunk_size then rest else chunk_size

abbrev pub clamped_size : Limits → ℤ → ℤ
clamped_size l size = larger l.min_chunk_size (smaller l.max_chunk_size size)

abbrev pub clamped_count : Limits → ℤ → ℕ
clamped_count l count = pos_part (larger (pos 1) (smaller l.max_parallel_chunks count))

abbrev pub settle : Limits → ℤ → ℕ → Profile
settle l size count = record {
  chunk_size = halved (pos_part size) l.min_chunk_size l.memory_budget (pos count) size;
  parallel_chunks = pos count;
}

unfoldable pub bounded : Profile → Limits → Profile
bounded p l =
    let size = clamped_size l p.chunk_size in
    settle l size (fewer l.memory_budget size (clamped_count l p.parallel_chunks))

unfoldable pub initial : Limits → Profile
initial limits =
    let l = normalized limits in
    bounded
      (record {
        chunk_size = larger l.min_chunk_size (pos 4194304);
        parallel_chunks = smaller (pos 2) l.max_parallel_chunks;
      })
      l

module _ {Float : Type 0} (at_least below above : Float → ℕ → ℕ → Bool) where
  abbrev pub is_unstable : Observation Float → Bool
  is_unstable o =
      leb_ℤ (pos 250000000) o.rtt
      || at_least o.retry_rate 5 100
      || above o.checksum_failure_rate 0 1

  abbrev pub is_constrained : Observation Float → Bool
  is_constrained o =
      o.backpressure || o.storage_pressure || o.thermal_pressure || o.low_battery || o.background

  -- The `switch` of `Recommend`.
  unfoldable pub adjusted : Profile → Limits → Observation Float → Profile
  adjusted p l o =
      if is_unstable o
      then record {
        chunk_size = larger l.min_chunk_size (half p.chunk_size);
        parallel_chunks = larger (pos 1) (p.parallel_chunks -ℤ pos 1);
      }
      else if is_constrained o
      then record {
        chunk_size = larger l.min_chunk_size (smaller p.chunk_size (pos 4194304));
        parallel_chunks = pos 1;
      }
      else if leb_ℤ o.rtt (pos 30000000)
          && at_least o.throughput 52428800 1
          && below o.retry_rate 1 100
      then record {
        chunk_size = smaller l.max_chunk_size (wrap64 (p.chunk_size *ℤ pos 2));
        parallel_chunks = smaller l.max_parallel_chunks (wrap64 (p.parallel_chunks +ℤ pos 1));
      }
      else if leb_ℤ o.rtt (pos 120000000)
          && at_least o.throughput 8388608 1
          && below o.retry_rate 2 100
      then record p { chunk_size = smaller l.max_chunk_size (larger p.chunk_size (pos 8388608)) }
      else p

  abbrev pub for_small_file : ℤ → Limits → Profile → Profile
  for_small_file file_size l p =
      if ltb_ℤ (pos 0) file_size && leb_ℤ file_size (wrap64 (pos 4 *ℤ l.min_chunk_size))
      then record {
        chunk_size = smaller p.chunk_size (larger l.min_chunk_size file_size);
        parallel_chunks = pos 1;
      }
      else p

  unfoldable pub recommend : ℤ → Profile → Limits → Observation Float → Profile
  recommend file_size current limits o =
      let l = normalized limits in
      let start =
        if leb_ℤ current.chunk_size (pos 0) || leb_ℤ current.parallel_chunks (pos 0)
        then initial l
        else current in
      bounded (for_small_file file_size l (adjusted start l o)) l
