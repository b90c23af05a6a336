-- ===== src/Domain/Connectivity.antt =====
-- internal/domain/connectivity.go
use nex_drop.Prelude.{Bool, true, false}

pub data LocalChannelState : Type 0 where
  local_offline local_node_only local_lan_only local_lan_and_node : LocalChannelState

unfoldable pub determine_local_channel_state : Bool → Bool → LocalChannelState
determine_local_channel_state true true = local_lan_and_node
determine_local_channel_state true false = local_lan_only
determine_local_channel_state false true = local_node_only
determine_local_channel_state false false = local_offline

pub data TargetState : Type 0 where
  target_unavailable target_node target_lan target_lan_and_node : TargetState

unfoldable pub determine_target_state : Bool → Bool → TargetState
determine_target_state true true = target_lan_and_node
determine_target_state true false = target_lan
determine_target_state false true = target_node
determine_target_state false false = target_unavailable
