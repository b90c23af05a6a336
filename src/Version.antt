-- ===== src/Version.antt =====
-- internal/version/compatibility.go: the limits that the node enforces.
use nex_drop.Prelude.{ℕ}

pub record Limits : Type 0 where
  pub max_chunk_size : ℕ
  pub max_parallel_chunks : ℕ
  pub max_recipients : ℕ

abbrev pub current_limits : Limits
current_limits = record { max_chunk_size = 8388608; max_parallel_chunks = 6; max_recipients = 100 }
