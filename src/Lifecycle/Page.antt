-- ===== src/Lifecycle/Page.antt =====
-- `Page` of internal/messagelifecycle/lifecycle.go.
pub mod Unread
pub mod Walk
use nex_drop.Prelude.{
  ℕ, zero, suc, ◌+◌, ◌≡◌, String, Bool, true, false, not, ◌&&◌, ◌||◌, ltb, if◌then◌else◌, List, [],
  ◌∷◌, Option, length, str_lt, arith, ◌==◌,
}
use nex_drop.Prelude.Int.{ℤ, pos, pos_part, ltb_ℤ, eq_ℤ}
use nex_drop.Prelude.Sort.{slice_stable}
use nex_drop.Lifecycle.{Message, Cursor, zero_cursor, is_zero}

-- The comparison of the sort: the newest message first, then the greatest identifier.
unfoldable pub newer : Message → Message → Bool
newer i j =
    if not (eq_ℤ i.created_at j.created_at)
    then ltb_ℤ j.created_at i.created_at
    else str_lt j.id i.id

-- Skipped since an earlier page has it.
unfoldable pub is_seen : Cursor → Message → Bool
is_seen after m =
    not (is_zero after.time)
    && (ltb_ℤ after.time m.created_at
        || (eq_ℤ m.created_at after.time && not (str_lt m.id after.id)))

-- The loop, with the number of messages still wanted.
unfoldable pub collect : Cursor → ℕ → List Message → List Message
collect after zero ms = []
collect after (suc k) [] = []
collect after (suc k) (m ∷ ms) =
    let skipped = collect after (suc k) ms in
    let rest = collect after k ms in if is_seen after m then skipped else m ∷ rest

abbrev pub last_cursor : List Message → Cursor
last_cursor [] = zero_cursor
last_cursor (m ∷ []) = record { time = m.created_at; id = m.id }
last_cursor (m ∷ n ∷ ms) = last_cursor (n ∷ ms)

unfoldable pub page_size : ℤ → ℕ
page_size limit = if ltb_ℤ limit (pos 1) || ltb_ℤ (pos 1000) limit then 100 else pos_part limit

abbrev pub with_cursor : ℕ → List Message → List Message × Cursor
with_cursor limit result =
    if length result == 0 || ltb (length result) limit
    then (result, zero_cursor)
    else (result, last_cursor result)

unfoldable pub page : List Message → Cursor → ℤ → List Message × Cursor
page messages after limit =
    with_cursor (page_size limit) (collect after (page_size limit) (slice_stable newer messages))
