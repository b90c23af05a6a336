-- ===== src/Domain/Route/Safety.antt =====
-- What every outcome of `SelectRoute` promises (internal/domain/route.go).
use nex_drop.Prelude.{◌≡◌, ◌≢◌, ◌⊎◌, inl, inr, Bool, true, false, Bool-cases, arith, refl, subst}
use nex_drop.Prelude.Int.{◌≤ℤ◌, ℤ}
use nex_drop.Domain.Route.{
  RouteMode, automatic, lan_only, node_only, wait_lan, other_mode, SelectedRoute, none_route, lan,
  node, waiting_lan, draft, RouteRequest, is_large, select_automatic, select_by_mode, select_route,
}

-- The promise behind each route; `MIXED`, the empty route and unknown texts have none.
abbrev pub Justified : RouteRequest → Bool → SelectedRoute → Type 0
Justified r large lan = (r.lan_available ≡ true) × (r.mode ≢ node_only)
Justified r large node =
    (r.node_available ≡ true)
    × (r.mode ≢ lan_only)
    × (r.mode ≢ wait_lan)
    × ((large ≡ false) ⊎ (r.allow_large_file_via_node ≡ true))
Justified r large waiting_lan = (r.lan_available ≡ false) × (r.mode ≢ node_only)
Justified r large draft = (r.lan_available ≡ false) × (r.node_available ≡ false) × (large ≡ false)
Justified r large none_route =
    (r.mode ≡ node_only)
    × ((r.node_available ≡ false) ⊎ ((large ≡ true) × (r.allow_large_file_via_node ≡ false)))
Justified r large _ = ⊥

by_mode-Justified :
    (m : RouteMode) (r : RouteRequest) (large : Bool)
    → r.mode ≡ m
    → Justified r large (select_by_mode m r large)
unfolding select_automatic
by_mode-Justified lan_only r large e = ground arith
by_mode-Justified wait_lan r large e = ground arith
by_mode-Justified node_only r large e = ground arith
by_mode-Justified automatic r large e = ground arith
by_mode-Justified (other_mode x) r large e = ground arith

-- Every route that `SelectRoute` returns is justified by the request: LAN and node only where they
-- are available and the mode permits them, a large file to the node only with consent, a wait for
-- the LAN only while it is down, a local draft only for what is not large with both channels down,
-- and no route only in node mode when the node is down or a large file lacks consent. It returns no
-- other value.
pub select_route-Justified : (r : RouteRequest) → Justified r (is_large r) (select_route r)
unfolding select_route
select_route-Justified r = by_mode-Justified r.mode r (is_large r) refl

prefers_lan_by_mode :
    (m : RouteMode) (r : RouteRequest) (large : Bool)
    → r.mode ≡ m
    → r.mode ≢ node_only
    → r.lan_available ≡ true
    → select_by_mode m r large ≡ lan
unfolding select_automatic
prefers_lan_by_mode node_only r large e n h = absurd (n e)
prefers_lan_by_mode _ r large e n h = ground arith

-- An available LAN is always taken, except in node mode.
pub select_route_prefers_lan :
    (r : RouteRequest) → r.mode ≢ node_only → r.lan_available ≡ true → select_route r ≡ lan
unfolding select_route
select_route_prefers_lan r = prefers_lan_by_mode r.mode r (is_large r) refl

is_large_mono :
    (r : RouteRequest) (size : ℤ)
    → size ≤ℤ r.file_size
    → is_large r ≡ false
    → is_large (record r { file_size = size }) ≡ false
unfolding is_large
is_large_mono r size h e = ground arith

node_by_mode :
    (m : RouteMode) (r s : RouteRequest) (large : Bool)
    → s.lan_available ≡ r.lan_available
    → s.node_available ≡ r.node_available
    → s.allow_large_file_via_node ≡ r.allow_large_file_via_node
    → select_by_mode m r large ≡ node
    → (large ≡ false → select_by_mode m s false ≡ node)
      × (r.allow_large_file_via_node ≡ true → (b : Bool) → select_by_mode m s b ≡ node)
unfolding select_automatic
node_by_mode lan_only r s large a b c h = ground arith
node_by_mode wait_lan r s large a b c h = ground arith
node_by_mode node_only r s large a b c h = ground arith
node_by_mode automatic r s large a b c h = ground arith
node_by_mode (other_mode x) r s large a b c h = ground arith

-- What the node carries for a file, it carries for a smaller one under the same conditions.
pub select_route_smaller :
    (r : RouteRequest) (size : ℤ)
    → size ≤ℤ r.file_size
    → select_route r ≡ node
    → select_route (record r { file_size = size }) ≡ node
unfolding select_route
select_route_smaller r size le h = elim (Bool-cases (is_large r)) [
  | inl e ↦
      (node_by_mode r.mode r s (is_large r) refl refl refl h).1
        (ground (arith, subst (Justified r (is_large r)) h (select_route-Justified r))) (is_large s)
  | inr e ↦
      rw (is_large_mono r size le e) ((node_by_mode r.mode r s (is_large r) refl refl refl h).0 e)
]
  where
    s : RouteRequest
    s = record r { file_size = size }

-- A text is never large.
pub text_not_large : (r : RouteRequest) → r.text_content ≡ true → is_large r ≡ false
unfolding is_large
text_not_large r h = ground arith
