-- ===== src/Transfer.antt =====
-- internal/transfer: what a client asks for, how it is prepared, and the service's handlers.
pub mod Types
pub mod Validate
pub mod Prepare
pub mod Service
pub mod Timeline
