-- ===== src/Domain/Status.antt =====
-- internal/domain/transfer.go: the status of a transfer to one target and its transition table.
pub mod Graph
use mathlib.Core.Bool.{decide}
use nex_drop.Prelude.{String, String-discrete, Bool, true, false}

-- A Go string type: the named constants, and any other text.
pub data TransferStatus : Type 0 where
  created checking_route waiting_for_target waiting_for_node waiting_for_lan queued : TransferStatus
  uploading_to_node available_on_node downloading transferring_lan paused verifying : TransferStatus
  delivered read failed cancelled expired : TransferStatus
  source_file_missing source_file_changed : TransferStatus
  other_status : String → TransferStatus

unfoldable pub TransferStatus-discrete : Discrete TransferStatus
TransferStatus-discrete = hlevel String-discrete

-- `==` on statuses.
abbrev pub status_eq : TransferStatus → TransferStatus → Bool
status_eq a b = decide (TransferStatus-discrete a b)

-- `terminalTransferStatuses`; a missing key is false.
unfoldable pub is_terminal : TransferStatus → Bool
is_terminal read = true
is_terminal failed = true
is_terminal cancelled = true
is_terminal expired = true
is_terminal _ = false

-- `transferStatusTransitions`, and `CanTransitionTo` over it.
unfoldable pub can_transition_to : TransferStatus → TransferStatus → Bool
can_transition_to created checking_route = true
can_transition_to checking_route transferring_lan = true
can_transition_to checking_route queued = true
can_transition_to checking_route waiting_for_target = true
can_transition_to checking_route waiting_for_node = true
can_transition_to checking_route waiting_for_lan = true
can_transition_to checking_route failed = true
can_transition_to checking_route cancelled = true
can_transition_to queued uploading_to_node = true
can_transition_to queued cancelled = true
can_transition_to queued expired = true
can_transition_to uploading_to_node available_on_node = true
can_transition_to uploading_to_node paused = true
can_transition_to uploading_to_node failed = true
can_transition_to uploading_to_node cancelled = true
can_transition_to available_on_node downloading = true
can_transition_to available_on_node expired = true
can_transition_to available_on_node cancelled = true
can_transition_to transferring_lan verifying = true
can_transition_to transferring_lan paused = true
can_transition_to transferring_lan failed = true
can_transition_to transferring_lan cancelled = true
can_transition_to downloading verifying = true
can_transition_to downloading paused = true
can_transition_to downloading failed = true
can_transition_to downloading cancelled = true
can_transition_to verifying delivered = true
can_transition_to verifying failed = true
can_transition_to delivered read = true
can_transition_to waiting_for_lan checking_route = true
can_transition_to waiting_for_lan source_file_missing = true
can_transition_to waiting_for_lan source_file_changed = true
can_transition_to waiting_for_lan paused = true
can_transition_to waiting_for_lan cancelled = true
can_transition_to waiting_for_lan expired = true
can_transition_to source_file_missing checking_route = true
can_transition_to source_file_changed checking_route = true
can_transition_to _ _ = false
