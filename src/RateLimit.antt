-- ===== src/RateLimit.antt =====
-- The fixed window limiter of internal/api/rate_limit.go. A time is an integer of nanoseconds since
-- the zero time. The count is a natural number: no window sees 2 ^ 63 requests.
pub mod Window
use nex_drop.Prelude.{ℕ, suc, ◌+◌, String, Bool, true, false, not, ◌||◌, if◌then◌else◌, str_eq}
use nex_drop.Prelude.Int.{ℤ, pos, ◌+ℤ◌, ◌-ℤ◌, ltb_ℤ, leb_ℤ, eq_ℤ}

pub record RateWindow : Type 0 where
  pub count : ℕ
  pub reset : ℤ

-- A missing key reads as the zero window.
abbrev pub Windows : Type 0
Windows = String → RateWindow

abbrev pub no_windows : Windows
no_windows key = record { count = 0; reset = pos 0 }

abbrev pub minute : ℤ
minute = pos 60000000000

unfoldable pub current : RateWindow → ℤ → RateWindow
current window now =
    if eq_ℤ window.reset (pos 0) || not (ltb_ℤ now window.reset)
    then record { count = 0; reset = now +ℤ minute }
    else window

abbrev pub counted : RateWindow → RateWindow
counted window = record window { count = suc window.count }

abbrev pub set : Windows → String → RateWindow → Windows
set windows key window k = if str_eq k key then window else windows k

unfoldable pub allow : ℤ → Windows → String → ℤ → (Bool × ℤ) × Windows
allow limit windows key now =
    let window = counted (current (windows key) now) in
    ((leb_ℤ (pos window.count) limit, window.reset -ℤ now), set windows key window)
