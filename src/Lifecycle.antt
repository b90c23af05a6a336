-- ===== src/Lifecycle.antt =====
-- internal/messagelifecycle/lifecycle.go: pages of messages under a cursor, read cursors and
-- retention. A time is an integer of nanoseconds since the zero time.
pub mod Page
pub mod Read
pub mod Retention
pub mod Tokens
use nex_drop.Prelude.{String, Bool, Option, ℕ}
use nex_drop.Prelude.Int.{ℤ, pos, eq_ℤ}

pub record Message : Type 0 where
  pub id : String
  pub created_at : ℤ
  pub attachment_bytes : ℤ
  pub every_target_fetched : Bool
  pub expires_at : ℤ
  pub pinned : Bool
  pub tombstoned_at : Option ℤ

pub record Cursor : Type 0 where
  pub time : ℤ
  pub id : String

abbrev pub zero_cursor : Cursor
zero_cursor = record { time = pos 0; id = "" }

abbrev pub is_zero : ℤ → Bool
is_zero t = eq_ℤ t (pos 0)
