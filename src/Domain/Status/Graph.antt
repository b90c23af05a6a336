-- ===== src/Domain/Status/Graph.antt =====
-- The walks that the transition table of internal/domain/transfer.go allows.
use mathlib.Core.List.{Memᴰ}
use nex_drop.Prelude.{
  ◌↔◌, Bool-cases, ◌≡◌, refl, sym, ◌⊎◌, inl, inr, Bool, true, false, List, [], ◌∷◌, arith,
}
use nex_drop.Domain.Status.{
  TransferStatus, created, checking_route, verifying, delivered, read, paused, waiting_for_target,
  waiting_for_node, queued, uploading_to_node, available_on_node, downloading, transferring_lan,
  other_status, is_terminal, can_transition_to,
}

-- A walk from a status through the listed ones, each step by the table; the last one is its end.
pub data Walk : TransferStatus → List TransferStatus → TransferStatus → Type 0 where
  here : {s : TransferStatus} → Walk s [] s
  step :
      {s t u : TransferStatus} {ts : List TransferStatus}
      → can_transition_to s t ≡ true
      → Walk t ts u
      → Walk s (t ∷ ts) u

-- The content has reached the target.
abbrev pub is_arrived : TransferStatus → Bool
is_arrived delivered = true
is_arrived read = true
is_arrived _ = false

abbrev is_verified : TransferStatus → Bool
is_verified verifying = true
is_verified delivered = true
is_verified read = true
is_verified _ = false

enters_by_verifying :
    (s t : TransferStatus)
    → is_verified s ≡ false
    → can_transition_to s t ≡ true
    → (t ≡ verifying) ⊎ (is_verified t ≡ false)
unfolding can_transition_to
enters_by_verifying s t v h = ground arith

arrived_verified : (t : TransferStatus) → is_arrived t ≡ true → is_verified t ≡ true
arrived_verified t h = ground arith

walk_verifies :
    {s t : TransferStatus} {ts : List TransferStatus}
    → is_verified s ≡ false
    → Walk s ts t
    → is_arrived t ≡ true
    → Memᴰ verifying ts
walk_verifies {s} v here a = cc (arrived_verified s a)
walk_verifies {s} v (step {t = t} h w) a = elim (enters_by_verifying s t v h) [
  | inl e ↦ Memᴰ.head (sym e)
  | inr n ↦ Memᴰ.tail (walk_verifies n w a)
]

-- No walk of the table from `CREATED` reaches `DELIVERED` or `READ` without passing `VERIFYING`.
pub delivered_needs_verifying :
    (ts : List TransferStatus) (t : TransferStatus)
    → Walk created ts t
    → is_arrived t ≡ true
    → Memᴰ verifying ts
delivered_needs_verifying ts t w a = walk_verifies refl w a

-- The statuses with no outgoing transition: the terminal ones, and others beside them.
abbrev pub is_dead_end : TransferStatus → Bool
is_dead_end paused = true
is_dead_end waiting_for_target = true
is_dead_end waiting_for_node = true
is_dead_end (other_status x) = true
is_dead_end s = is_terminal s

dead_end_refuses : (s t : TransferStatus) → is_dead_end s ≡ true → can_transition_to s t ≡ false
unfolding can_transition_to is_terminal
dead_end_refuses s t h = ground arith

-- A status that the table lets a live status move to.
next_status : TransferStatus → TransferStatus
next_status created = checking_route
next_status checking_route = queued
next_status queued = uploading_to_node
next_status uploading_to_node = available_on_node
next_status available_on_node = downloading
next_status transferring_lan = verifying
next_status downloading = verifying
next_status verifying = delivered
next_status delivered = read
next_status s = checking_route

live_moves :
    (s : TransferStatus) → is_dead_end s ≡ false → can_transition_to s (next_status s) ≡ true
unfolding can_transition_to is_terminal next_status
live_moves s h = ground arith

live_of_refusal :
    (s : TransferStatus)
    → ((t : TransferStatus) → can_transition_to s t ≡ false)
    → is_dead_end s ≡ true
live_of_refusal s h = elim (Bool-cases (is_dead_end s)) [
  | inl e ↦ e
  | inr n ↦ cc (live_moves s n, h (next_status s))
]

-- A status refuses every transition exactly when it is terminal, `PAUSED`, `WAITING_FOR_TARGET`,
-- `WAITING_FOR_NODE` or a text that is no known status.
pub refuses_all_iff_dead_end :
    (s : TransferStatus)
    → ((t : TransferStatus) → can_transition_to s t ≡ false) ↔ (is_dead_end s ≡ true)
refuses_all_iff_dead_end s = (live_of_refusal s, λ h t. dead_end_refuses s t h)
