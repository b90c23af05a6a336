-- ===== src/Delivery/Permitted.antt =====
-- When `Evaluate` of internal/delivery/policy.go lets an item be downloaded.
use nex_drop.Prelude.{true, false, ◌≡◌, ◌↔◌, ◌⊎◌, Option, none, some, arith, refl}
use nex_drop.Prelude.Int.{ℤ, pos, ◌≤ℤ◌, ◌<ℤ◌}
use nex_drop.Delivery.{Environment, Item, is_expired, evaluate, downloading}

-- The content has not run out.
abbrev pub Fresh : Option ℤ → ℤ → Type 0
Fresh none now = Unit {0}
Fresh (some t) now = now <ℤ t

-- The wishes of the item's owner and the state of the device, one condition each.
pub record Permitted (item : Item) (e : Environment) : Type 0 where
  pub fresh : Fresh item.policy.expires_at e.now
  pub online : e.online ≡ true
  pub known : item.metadata_synchronized ≡ true
  pub automatic : item.policy.automatic_download ≡ true
  pub shown : (item.policy.foreground_only ≡ false) ⊎ (e.foreground ≡ true)
  pub on_wifi : (item.policy.wifi_only ≡ false) ⊎ (e.wifi ≡ true)
  pub affordable :
      (e.metered ≡ false)
      ⊎ ((item.policy.max_mobile_data_size <ℤ pos 0)
          ⊎ (item.size ≤ℤ item.policy.max_mobile_data_size))
  pub powered : (item.policy.charging_only ≡ false) ⊎ (e.charging ≡ true)
  pub strong : e.low_battery ≡ false
  pub cool : e.thermal_high ≡ false
  pub fits : (e.storage_bytes <ℤ pos 0) ⊎ (item.size ≤ℤ e.storage_bytes)

not_expired : (t : Option ℤ) (now : ℤ) → (is_expired t now ≡ false) ↔ Fresh t now
not_expired none now = (λ _. tt, λ _. refl)
not_expired (some t) now = ground arith

Permitted-downloads :
    (item : Item) (e : Environment) → Permitted item e → (evaluate item e).state ≡ downloading
unfolding evaluate
Permitted-downloads item e p = ground (arith, not_expired item.policy.expires_at e.now)

downloads-Permitted :
    (item : Item) (e : Environment) → (evaluate item e).state ≡ downloading → Permitted item e
unfolding evaluate
downloads-Permitted item e d = ground (arith, not_expired item.policy.expires_at e.now)

shown_or_expired :
    (item : Item) (e : Environment)
    → (evaluate item e).metadata_only ≡ false
    → ((evaluate item e).state ≡ downloading) ⊎ (is_expired item.policy.expires_at e.now ≡ true)
unfolding evaluate
shown_or_expired item e h = ground arith

-- An item is downloaded exactly where every condition of its policy and of the device holds, and
-- whatever is not to be downloaded and has not expired is still shown by its metadata.
pub evaluate_iff :
    (item : Item) (e : Environment)
    → (((evaluate item e).state ≡ downloading) ↔ Permitted item e)
      × ((evaluate item e).metadata_only ≡ false
          → ((evaluate item e).state ≡ downloading)
            ⊎ (is_expired item.policy.expires_at e.now ≡ true))
evaluate_iff item e =
    ((downloads-Permitted item e, Permitted-downloads item e), shown_or_expired item e)
