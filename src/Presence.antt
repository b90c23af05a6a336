-- ===== src/Presence.antt =====
-- The connections of internal/presence/hub.go: `register` and `unregister` under the hub's lock, as
-- steps in the order in which the lock is taken. A connection is a number for its `*client`.
pub mod Live
use nex_drop.Prelude.{
  ℕ, ◌≡◌, String, Bool, true, false, List, [], ◌∷◌, Option, none, some, str_eq, ◌==◌, if◌then◌else◌,
}

abbrev pub Clients : Type 0
Clients = String → Option ℕ

abbrev pub no_clients : Clients
no_clients device = none

abbrev pub put : Clients → String → Option ℕ → Clients
put clients device entry d = if str_eq d device then entry else clients d

abbrev pub holds : Option ℕ → ℕ → Bool
holds none c = false
holds (some b) c = b == c

-- `register`, with the connection that it replaces and closes.
unfoldable pub register : String → ℕ → Clients → Option ℕ × Clients
register device current clients = (clients device, put clients device (some current))

-- `unregister`: whether the connection was the device's, and so the device is to be disconnected.
unfoldable pub unregister : String → ℕ → Clients → Bool × Clients
unregister device current clients =
    if holds (clients device) current then (true, put clients device none) else (false, clients)

pub data Event : Type 0 where
  registered unregistered : String → ℕ → Event

-- The hub after some events, the latest first.
unfoldable pub hub_after : List Event → Clients
hub_after [] = no_clients
hub_after (registered device c ∷ events) = (register device c (hub_after events)).1
hub_after (unregistered device c ∷ events) = (unregister device c (hub_after events)).1
