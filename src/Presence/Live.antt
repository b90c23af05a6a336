-- ===== src/Presence/Live.antt =====
-- Which connection the hub of internal/presence/hub.go holds for a device.
use nex_drop.Prelude.{
  ℕ, ◌≡◌, ◌↔◌, ◌⊎◌, String, true, List, [], ◌∷◌, Option, none, some, str_eq, eq_iff, ==_iff, arith,
  Bool-cases, inl, inr, ap, sym, ◌∙◌,
}
use nex_drop.Presence.{
  Clients, put, holds, register, unregister, Event, registered, unregistered, hub_after,
}

-- The connection was registered for the device, nothing was registered for the device after it, and
-- it was not unregistered since.
abbrev pub Live : String → ℕ → List Event → Type 0
Live d c [] = ⊥
Live d c (registered e b ∷ events) = ((d ≡ e) × (b ≡ c)) ⊎ (¬ (d ≡ e) × Live d c events)
Live d c (unregistered e b ∷ events) = ¬ ((d ≡ e) × (b ≡ c)) × Live d c events

holds_iff : (o : Option ℕ) (b : ℕ) → (holds o b ≡ true) ↔ (o ≡ some b)
holds_iff none b = ground arith
holds_iff (some a) b = ground (arith, ==_iff a b)

unregister_held :
    (e : String) (b : ℕ) (d : String) (c : ℕ) (clients : Clients)
    → clients e ≡ some b
    → (put clients e none d ≡ some c) ↔ (¬ ((d ≡ e) × (b ≡ c)) × (clients d ≡ some c))
unregister_held e b d c clients h = elim (Bool-cases (str_eq d e)) [
  | inl y ↦ let p : d ≡ e = (eq_iff d e).0 y in rw (y, p, h) (ground arith)
  | inr n ↦ rw n (ground (arith, eq_iff d e))
]

unregister_entry :
    (e : String) (b : ℕ) (d : String) (c : ℕ) (clients : Clients)
    → ((unregister e b clients).1 d ≡ some c) ↔ (¬ ((d ≡ e) × (b ≡ c)) × (clients d ≡ some c))
unfolding unregister
unregister_entry e b d c clients = elim (Bool-cases (holds (clients e) b)) [
  | inl y ↦ rw y (unregister_held e b d c clients ((holds_iff (clients e) b).0 y))
  | inr n ↦ rw n (
    λ q. (
      λ p.
          ground
            (arith, (holds_iff (clients e) b).1 (ap clients (sym p.0) ∙ q ∙ ap some (sym p.1))),
      q,
    ),
    λ r. r.1,
  )
]

-- Whatever the order in which connections come and go, the hub holds a connection for a device just
-- where it is the latest of the device and still open, so an older connection that ends late never
-- removes a newer one.
pub hub_after-Live :
    (d : String) (c : ℕ) (events : List Event) → (hub_after events d ≡ some c) ↔ Live d c events
unfolding hub_after register unregister
hub_after-Live d c [] = ground arith
hub_after-Live d c (registered e b ∷ events) = ground (arith, eq_iff d e, hub_after-Live d c events)
hub_after-Live d c (unregistered e b ∷ events) =
    ground (arith, unregister_entry e b d c (hub_after events), hub_after-Live d c events)
