-- ===== src/Domain.antt =====
-- internal/domain: the vocabulary of channels, routes and transfer statuses.
pub mod Connectivity
pub mod Route
pub mod Status
