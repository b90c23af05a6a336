-- ===== src/RateLimit/Window.antt =====
-- How many requests of one window internal/api/rate_limit.go lets through.
use nex_drop.Prelude.{
  ℕ, suc, ◌+◌, ◌≡◌, String, Bool, true, false, ◌&&◌, if◌then◌else◌, str_eq, eq_iff, List, [], ◌∷◌,
  All, arith, ltb, refl, ap, subst, ◌⊎◌, sym, ◌∙◌, Bool-cases, inl, inr,
}
use nex_drop.Prelude.Int.{ℤ, pos, pos_part, ◌+ℤ◌, ◌<ℤ◌, ◌≤ℤ◌, leb_ℤ, eq_ℤ}
use nex_drop.RateLimit.{RateWindow, Windows, minute, current, counted, allow}

-- A request by its key and its time.
abbrev pub Request : Type 0
Request = String × ℤ

abbrev pub least : ℕ → ℕ → ℕ
least a b = if ltb a b then a else b

abbrev pub one_if : Bool → ℕ
one_if b = if b then 1 else 0

-- The requests of a key that are let through, one after the other.
unfoldable pub allowed : ℤ → String → Windows → List Request → ℕ
allowed limit k windows [] = 0
allowed limit k windows ((key, now) ∷ rs) =
    one_if (str_eq k key && (allow limit windows key now).0.0)
    + allowed limit k (allow limit windows key now).1 rs

unfoldable pub requests : String → List Request → ℕ
requests k [] = 0
requests k ((key, now) ∷ rs) = one_if (str_eq k key) + requests k rs

-- The requests of the key come before the time.
abbrev pub Before : String → ℤ → List Request → Type 0
Before k t = All (λ r. str_eq k r.0 ≡ true → r.1 <ℤ t)

current_open :
    (w : RateWindow) (now : ℤ) → eq_ℤ w.reset (pos 0) ≡ false → now <ℤ w.reset → current w now ≡ w
unfolding current
current_open w now n h = ground arith

allow_same :
    (limit : ℤ) (ws : Windows) (k key : String) (now : ℤ)
    → str_eq k key ≡ true
    → eq_ℤ (ws k).reset (pos 0) ≡ false
    → now <ℤ (ws k).reset
    → ((allow limit ws key now).0.0 ≡ leb_ℤ (pos (suc (ws k).count)) limit)
      × ((allow limit ws key now).1 k ≡ counted (ws k))
unfolding allow
allow_same limit ws k key now e n h =
    let p : k ≡ key = (eq_iff k key).0 e in
    rw e (rw⁻¹ p (rw (current_open (ws k) now n h) (refl, refl)))

allow_other :
    (limit : ℤ) (ws : Windows) (k key : String) (now : ℤ)
    → str_eq k key ≡ false
    → (allow limit ws key now).1 k ≡ ws k
unfolding allow
allow_other limit ws k key now e = rw e refl

-- An open window lets through what is left of the limit.
allowed_open :
    (limit : ℤ) (k : String) (ws : Windows) (rs : List Request) (w : RateWindow)
    → ws k ≡ w
    → eq_ℤ w.reset (pos 0) ≡ false
    → Before k w.reset rs
    → allowed limit k ws rs + least (pos_part limit) w.count
      ≡ least (pos_part limit) (w.count + requests k rs)
unfolding allowed requests
allowed_open limit k ws [] w e n b = ground arith
allowed_open limit k ws ((key, now) ∷ rs) w e n b = elim (Bool-cases (str_eq k key)) [
  | inl y ↦
      let same =
        allow_same limit ws k key now y (ap (λ v. eq_ℤ v.reset (pos 0)) e ∙ n)
          (subst (λ v. now <ℤ v.reset) (sym e) (b.0 y)) in
      let rest =
        allowed_open limit k (allow limit ws key now).1 rs (counted w) (same.1 ∙ ap counted e) n
          b.1 in
      rw (y, same.0, e) (ground (arith, rest))
  | inr y ↦
      let rest =
        allowed_open limit k (allow limit ws key now).1 rs w (allow_other limit ws k key now y ∙ e)
          n b.1 in
      rw y (ground (arith, rest))
]

self : (k : String) → str_eq k k ≡ true
self k = (eq_iff k k).1 refl

current_closed :
    (w : RateWindow) (now : ℤ)
    → (eq_ℤ w.reset (pos 0) ≡ true) ⊎ (w.reset ≤ℤ now)
    → current w now ≡ record { count = 0; reset = now +ℤ minute }
unfolding current
current_closed w now h = ground arith

-- A request that opens a window.
allow_opens :
    (limit : ℤ) (ws : Windows) (k : String) (now : ℤ)
    → (eq_ℤ (ws k).reset (pos 0) ≡ true) ⊎ ((ws k).reset ≤ℤ now)
    → ((allow limit ws k now).0.0 ≡ leb_ℤ (pos 1) limit)
      × ((allow limit ws k now).1 k ≡ record { count = 1; reset = now +ℤ minute })
unfolding allow
allow_opens limit ws k now h = rw (self k, current_closed (ws k) now h) (refl, refl)

-- Of the requests of a key from one that opens a window to the end of the window, a minute later,
-- exactly the first `limit` are let through, however requests of other keys lie between them.
pub allowed_in_window :
    (limit : ℤ) (k : String) (ws : Windows) (now : ℤ) (rs : List Request)
    → (eq_ℤ (ws k).reset (pos 0) ≡ true) ⊎ ((ws k).reset ≤ℤ now)
    → eq_ℤ (now +ℤ minute) (pos 0) ≡ false
    → Before k (now +ℤ minute) rs
    → allowed limit k ws ((k, now) ∷ rs) ≡ least (pos_part limit) (suc (requests k rs))
unfolding allowed
allowed_in_window limit k ws now rs h n b =
    let opens = allow_opens limit ws k now h in
    let rest =
      allowed_open limit k (allow limit ws k now).1 rs (record { count = 1; reset = now +ℤ minute })
        opens.1 n b in
    rw (self k, opens.0) (ground (arith, rest))
