-- ===== src/Transfer/Prepare.antt =====
-- The routes and statuses that `Service.Create` of internal/transfer/service.go prepares for each
-- target device and each file.
pub mod Routes
use mathlib.Core.Bool.{decide}
use nex_drop.Prelude.{
  ℕ, ◌+◌, ◌*◌, String, Bool, true, false, List, [], ◌∷◌, ◌++◌, map, any, all, str_eq, if◌then◌else◌,
  String-discrete,
}
use nex_drop.Prelude.Int.{pos}
use nex_drop.Domain.Route.{
  SelectedRoute, RouteRequest, none_route, lan, node, waiting_lan, draft, mixed, select_route,
}
use nex_drop.Domain.Status.{
  TransferStatus, checking_route, waiting_for_node, waiting_for_lan, queued, transferring_lan,
  failed,
}
use nex_drop.Transfer.Types.{File, Request, Target, FileTarget, Prepared}
use nex_drop.Transfer.Validate.{is_text_content}

-- A day in nanoseconds.
abbrev pub day : ℕ
day = 86400000000000

unfoldable pub initial_status : SelectedRoute → TransferStatus
initial_status lan = transferring_lan
initial_status node = queued
initial_status waiting_lan = waiting_for_lan
initial_status draft = waiting_for_node
initial_status none_route = failed
initial_status _ = checking_route

unfoldable pub SelectedRoute-discrete : Discrete SelectedRoute
SelectedRoute-discrete = hlevel String-discrete

abbrev pub route_eq : SelectedRoute → SelectedRoute → Bool
route_eq a b = decide (SelectedRoute-discrete a b)

-- `routes[route] = true` for each route in turn: the keys of the map, newest first.
unfoldable pub route_keys : List SelectedRoute → List SelectedRoute → List SelectedRoute
route_keys keys [] = keys
route_keys keys (r ∷ rs) = route_keys (if any (route_eq r) keys then keys else r ∷ keys) rs

unfoldable pub only_route : List SelectedRoute → SelectedRoute
only_route (route ∷ []) = route
only_route _ = mixed

-- `lanAvailable[deviceID]`, whose keys are the devices that the client listed.
abbrev pub lan_available_to : Request → String → Bool
lan_available_to r device_id = any (str_eq device_id) r.lan_available_device_ids

abbrev pub text_request : Request → String → RouteRequest
text_request r device_id = record {
  mode = r.route_mode;
  lan_available = lan_available_to r device_id;
  node_available = true;
  text_content = true;
  file_size = pos 0;
  large_file_threshold = pos 0;
  allow_large_file_via_node = false;
}

unfoldable pub text_route : Request → String → SelectedRoute
text_route r device_id = select_route (text_request r device_id)

abbrev pub file_request : Request → String → File → RouteRequest
file_request r device_id f = record {
  mode = r.route_mode;
  lan_available = lan_available_to r device_id;
  node_available = true;
  text_content = false;
  file_size = f.size;
  large_file_threshold = pos 0;
  allow_large_file_via_node = r.allow_large_file_via_node;
}

unfoldable pub file_route : Request → String → File → SelectedRoute
file_route r device_id f = select_route (file_request r device_id f)

abbrev pub new_target : String → SelectedRoute → Target
new_target device_id route = record {
  device_id = device_id;
  selected_route = route;
  status = initial_status route;
  bytes_transferred = pos 0;
}

-- The inner loop, from the file at an index on.
unfoldable pub file_targets_from : Request → String → ℕ → List File → List FileTarget
file_targets_from r device_id index [] = []
file_targets_from r device_id index (f ∷ fs) =
    let route = file_route r device_id f in
    record {
      file_index = index;
      device_id = device_id;
      selected_route = route;
      status = initial_status route;
    }
    ∷ file_targets_from r device_id (index + 1) fs

unfoldable pub text_targets : Request → List String → List Target
text_targets r [] = []
text_targets r (id ∷ ids) = new_target id (text_route r id) ∷ text_targets r ids

abbrev pub routes_of : List FileTarget → List SelectedRoute
routes_of = map λ t. t.selected_route

-- The targets of a transfer of files, and the targets of each file.
unfoldable pub files_targets : Request → List String → List Target
files_targets r [] = []
files_targets r (id ∷ ids) =
    new_target id (only_route (route_keys [] (routes_of (file_targets_from r id 0 r.files))))
    ∷ files_targets r ids

unfoldable pub files_file_targets : Request → List String → List FileTarget
files_file_targets r [] = []
files_file_targets r (id ∷ ids) = file_targets_from r id 0 r.files ++ files_file_targets r ids

abbrev pub is_waiting_for_lan : TransferStatus → Bool
is_waiting_for_lan waiting_for_lan = true
is_waiting_for_lan _ = false

unfoldable pub aggregate_status : List Target → TransferStatus
aggregate_status targets =
    if all (λ t. is_waiting_for_lan t.status) targets then waiting_for_lan else queued

unfoldable pub prepare : Request → List String → ℕ → List ℕ → Prepared
prepare r resolved now fingerprint =
    let text = is_text_content r.content_type in
    let targets = if text then text_targets r resolved else files_targets r resolved in
    record {
      request = r;
      resolved_device_ids = resolved;
      targets = targets;
      file_targets = if text then [] else files_file_targets r resolved;
      status = aggregate_status targets;
      created_at = now;
      expires_at = if text then now + 90 * day else now + 7 * day;
      request_fingerprint = fingerprint;
    }
