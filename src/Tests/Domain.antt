-- ===== src/Tests/Domain.antt =====
-- Concrete requests and walks of internal/domain.
use mathlib.Core.List.{Memᴰ}
use nex_drop.Prelude.{◌≡◌, refl, true, false, [], ◌∷◌, List, ◌↔◌}
use nex_drop.Prelude.Int.{pos}
use nex_drop.Domain.Route.{RouteRequest, automatic, node, select_route, is_large, select_automatic}
use nex_drop.Domain.Route.Safety.{Justified, select_route-Justified}
use nex_drop.Domain.Status.{
  TransferStatus, created, checking_route, queued, uploading_to_node, available_on_node,
  downloading, verifying, delivered, can_transition_to, paused,
}
use nex_drop.Domain.Status.Graph.{
  Walk, here, step, delivered_needs_verifying, refuses_all_iff_dead_end, is_dead_end,
}

abbrev big_file : RouteRequest
big_file = record {
  mode = automatic;
  lan_available = false;
  node_available = true;
  text_content = false;
  file_size = pos 200000000;
  large_file_threshold = pos 0;
  allow_large_file_via_node = true;
}

abbrev on_lan : RouteRequest
on_lan = record big_file { lan_available = true }

select_route-Justified_example : Justified big_file (is_large big_file) (select_route big_file)
select_route-Justified_example = select_route-Justified big_file

big_file_via_node : select_route big_file ≡ node
unfolding select_route is_large select_automatic
big_file_via_node = refl

abbrev through_node : List TransferStatus
through_node =
    checking_route ∷ queued ∷ uploading_to_node ∷ available_on_node ∷ downloading ∷ verifying
    ∷ delivered ∷ []

node-Walk : Walk created through_node delivered
unfolding can_transition_to
node-Walk = step refl (step refl (step refl (step refl (step refl (step refl (step refl here))))))

delivered_needs_verifying_example : Memᴰ verifying through_node
delivered_needs_verifying_example = delivered_needs_verifying through_node delivered node-Walk refl

refuses_all_iff_dead_end_example :
    ((t : TransferStatus) → can_transition_to paused t ≡ false) ↔ (is_dead_end paused ≡ true)
refuses_all_iff_dead_end_example = refuses_all_iff_dead_end paused
