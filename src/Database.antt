-- ===== src/Database.antt =====
-- internal/postgres/store.go: the tables of the transfers and the transactions on them. A transaction
-- is a function of the tables: an early return of the code rolls it back, and so does a statement that
-- fails. Transactions on one target run one after the other, as the row locks make them.
pub mod Sql
pub mod Rows
pub mod View
pub mod Progress
pub mod Changes
pub mod Steps
pub mod Calls
pub mod Replay
pub mod Files
pub mod Quota
