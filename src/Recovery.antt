-- ===== src/Recovery.antt =====
-- internal/recovery/coordinator.go: the pass over the transfers that can be resumed. The queue and
-- the runner are parameters over a state `W`; a duration is an `int64` of nanoseconds, and the first
-- four bytes of a SHA-256 digest are the parameter `digest32`.
pub mod Classify
pub mod Backoff
pub mod Coordinator
