-- ===== src/Domain/Route.antt =====
-- internal/domain/route.go: which route a transfer takes to one target.
pub mod Safety
use nex_drop.Prelude.{String, Bool, not, ◌&&◌, ◌||◌, if◌then◌else◌}
use nex_drop.Prelude.Int.{ℤ, pos, ltb_ℤ, leb_ℤ}

abbrev pub default_large_file_threshold : ℤ
default_large_file_threshold = pos 104857600

-- A Go string type: the named constants, and any other text.
pub data RouteMode : Type 0 where
  automatic lan_only node_only wait_lan : RouteMode
  other_mode : String → RouteMode

-- `unset` is the empty string that a client leaves out.
pub data SelectedRoute : Type 0 where
  none_route lan node waiting_lan draft mixed unset : SelectedRoute
  other_route : String → SelectedRoute

pub record RouteRequest : Type 0 where
  pub mode : RouteMode
  pub lan_available : Bool
  pub node_available : Bool
  pub text_content : Bool
  pub file_size : ℤ
  pub large_file_threshold : ℤ
  pub allow_large_file_via_node : Bool

unfoldable pub is_large : RouteRequest → Bool
is_large r =
    let threshold =
      if leb_ℤ r.large_file_threshold (pos 0)
      then default_large_file_threshold
      else r.large_file_threshold in
    not r.text_content && ltb_ℤ threshold r.file_size

-- The rest of `SelectRoute` after its `switch`.
unfoldable pub select_automatic : RouteRequest → Bool → SelectedRoute
select_automatic r large =
    if r.lan_available
    then lan
    else if r.node_available
    then if not large || r.allow_large_file_via_node then node else waiting_lan
    else if large
    then waiting_lan
    else draft

abbrev lan_or_wait : RouteRequest → SelectedRoute
lan_or_wait r = if r.lan_available then lan else waiting_lan

abbrev select_by_mode : RouteMode → RouteRequest → Bool → SelectedRoute
select_by_mode lan_only r large = lan_or_wait r
select_by_mode node_only r large =
    if not r.node_available || (large && not r.allow_large_file_via_node) then none_route else node
select_by_mode wait_lan r large = lan_or_wait r
select_by_mode _ r large = select_automatic r large

unfoldable pub select_route : RouteRequest → SelectedRoute
unfolding is_large select_automatic
select_route r = select_by_mode r.mode r (is_large r)
