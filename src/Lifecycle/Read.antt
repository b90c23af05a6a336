-- ===== src/Lifecycle/Read.antt =====
-- `AdvanceRead` of internal/messagelifecycle/lifecycle.go.
use nex_drop.Prelude.{
  ◌≡◌, String, Bool, true, false, ◌&&◌, ◌||◌, ◌⊎◌, if◌then◌else◌, str_lt, arith, Bool-cases, inl,
  inr,
}
use nex_drop.Prelude.Text.Order.{str_lt_asym}
use nex_drop.Prelude.Int.{ℤ, ltb_ℤ, eq_ℤ}

pub record ReadCursor : Type 0 where
  pub created_at : ℤ
  pub message_id : String

unfoldable pub is_later : ReadCursor → ReadCursor → Bool
is_later candidate current =
    ltb_ℤ current.created_at candidate.created_at
    || (eq_ℤ candidate.created_at current.created_at
        && str_lt current.message_id candidate.message_id)

unfoldable pub advance_read : ReadCursor → ReadCursor → ReadCursor
advance_read current candidate = if is_later candidate current then candidate else current

is_later_asym : (a b : ReadCursor) → is_later a b ≡ true → is_later b a ≡ false
unfolding is_later
is_later_asym a b h = ground (arith, str_lt_asym b.message_id a.message_id)

is_later_irrefl : (a : ReadCursor) → is_later a a ≡ false
is_later_irrefl a = elim (Bool-cases (is_later a a)) [ inl h ↦ is_later_asym a a h | inr h ↦ h ]

-- A read cursor never goes back: after an advance neither the cursor before nor the candidate is
-- later than it, it is one of the two, and a second advance with the same candidate changes nothing.
pub advance_read_lem :
    (current candidate : ReadCursor)
    → (is_later current (advance_read current candidate) ≡ false)
      × (is_later candidate (advance_read current candidate) ≡ false)
      × ((advance_read current candidate ≡ current) ⊎ (advance_read current candidate ≡ candidate))
      × (advance_read (advance_read current candidate) candidate ≡ advance_read current candidate)
unfolding advance_read
advance_read_lem a b = ground (arith, is_later_irrefl a, is_later_irrefl b, is_later_asym b a)
