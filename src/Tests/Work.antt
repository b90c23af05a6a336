-- ===== src/Tests/Work.antt =====
-- Concrete runs of internal/recovery, internal/delivery, internal/presence and the rate limiter.
use mathlib.Core.List.{Perm}
use nex_drop.Prelude.{
  ℕ, suc, ◌+◌, ◌*◌, ◌^◌, ◌-◌, ◌≡◌, ◌⊎◌, ◌↔◌, inl, refl, true, false, [], ◌∷◌, List, Option, none,
  some, String, arith,
}
use nex_drop.Prelude.Int.{pos, ◌+ℤ◌}
use nex_drop.Prelude.Result.{ok}
use nex_drop.Prelude.Sort.{Pairs}
use nex_drop.Adaptive as Chunking
use nex_drop.Adaptive.{Limits, Observation, Profile, recommend}
use nex_drop.Adaptive.Bounds as Adaptive
use nex_drop.Adaptive.Bounds.{Within, recommend-Within}
use nex_drop.Prelude.{ltb, leb, Bool}
use nex_drop.Prelude.Int.{wrap64, ◌*ℤ◌}
use nex_drop.Recovery.Classify.{Outcome}
use nex_drop.Recovery.Backoff.{Config, normalized, backoff, jitter_of}
use nex_drop.Recovery.Backoff.Bounds.{InRange, least, backoff_lem}
use nex_drop.Recovery.Coordinator.{WorkItem, Queue, run_once}
use nex_drop.Recovery.Coordinator.Counts.{Sound, run_once-Sound}
use nex_drop.Recovery.Coordinator.Leases.{LeaseLaws, Returns, run_once-Returns}
use nex_drop.Delivery.{Policy, Environment, Item, evaluate, downloading, is_expired, order}
use nex_drop.Delivery.Permitted.{Permitted, evaluate_iff}
use nex_drop.Delivery.Order.{InOrder, order-IsSorted}
use nex_drop.RateLimit.{no_windows}
use nex_drop.RateLimit.Window as Window
use nex_drop.RateLimit.Window.{Request, allowed, requests, allowed_in_window}
use nex_drop.Presence.{Event, registered, unregistered, hub_after}
use nex_drop.Presence.Live.{Live, hub_after-Live}

abbrev offline : Outcome
offline = record {
  completed = false;
  receiver_offline = true;
  inconsistent = false;
  repaired = false;
  error_code = "";
}

abbrev defaults : Config
defaults = record {
  base_backoff = pos 0;
  max_backoff = pos 0;
  max_retries = pos 0;
  lease_ttl = pos 0;
}

abbrev digest : String → ℕ
digest key = 4242

defaults-InRange : InRange (normalized defaults) 5000000000 1800000000000
unfolding normalized
defaults-InRange = record {
  base_is = refl;
  bound_is = refl;
  base_small = omega arith;
  bound_small = omega arith;
  ordered = omega arith;
  positive = omega arith;
}

backoff_lem_example :
    backoff digest "t:d" 3 defaults
    ≡ pos (least 1800000000000 (5000000000 * 2 ^ least 20 3 + jitter_of digest "t:d"))
backoff_lem_example = backoff_lem digest "t:d" 3 defaults 5000000000 1800000000000 defaults-InRange

abbrev work : WorkItem
work = record {
  transfer_id = "t";
  target_id = "d";
  retry_count = 0;
  next_attempt = none;
  error_code = "";
  verified = [];
  updated_at = pos 0;
}

-- A queue whose state is the number of held leases.
abbrev counter : Queue ℕ
counter = record {
  list_recoverable = λ w now limit. ok (work ∷ work ∷ []);
  try_lease = λ w i t. (ok true, suc w);
  release_lease = λ w i. (none, w - 1);
  mark_completed = λ w i t. (none, w);
  mark_waiting = λ w i c t code. (none, w);
  mark_dead_letter = λ w i code t. (none, w);
  record_repair = λ w i t. (none, w);
}

abbrev no_receiver : ℕ → WorkItem → (Outcome × Option String) × ℕ
no_receiver w item = ((offline, none), w)

run_once-Sound_example : Sound (run_once counter no_receiver digest defaults (pos 7) (pos 0) 0).0
run_once-Sound_example = run_once-Sound counter no_receiver digest defaults (pos 7) (pos 0) 0

counter-LeaseLaws : LeaseLaws counter no_receiver (λ w. w)
counter-LeaseLaws = record {
  taken = λ w v i t e. cc;
  refused = λ w v i t e. ground arith;
  given_back = λ w v i e. ground arith;
  keep_completed = λ w i t. refl;
  keep_waiting = λ w i c t code. refl;
  keep_dead = λ w i code t. refl;
  keep_repaired = λ w i t. refl;
  keep_resume = λ w i. refl;
}

run_once-Returns_example :
    Returns (λ w. w) 0 (run_once counter no_receiver digest defaults (pos 7) (pos 0) 0)
run_once-Returns_example =
    run_once-Returns counter no_receiver digest defaults (pos 7) (pos 0) (λ w. w) counter-LeaseLaws
      0

abbrev plain : Policy
plain = record {
  expires_at = some (pos 9);
  wifi_only = true;
  charging_only = false;
  max_mobile_data_size = pos 0;
  automatic_download = true;
  foreground_only = false;
}

abbrev at_home : Environment
at_home = record {
  now = pos 3;
  online = true;
  wifi = true;
  metered = false;
  charging = false;
  foreground = false;
  storage_bytes = pos 100;
  low_battery = false;
  thermal_high = false;
}

abbrev photo : Item
photo = record {
  id = "p";
  priority = pos 1;
  size = pos 40;
  created_at = pos 2;
  policy = plain;
  metadata_synchronized = true;
}

evaluate_iff_example :
    (((evaluate photo at_home).state ≡ downloading) ↔ Permitted photo at_home)
    × ((evaluate photo at_home).metadata_only ≡ false
        → ((evaluate photo at_home).state ≡ downloading)
          ⊎ (is_expired photo.policy.expires_at at_home.now ≡ true))
evaluate_iff_example = evaluate_iff photo at_home

abbrev two_items : List Item
two_items = photo ∷ record photo { id = "q"; priority = pos 2 } ∷ []

order-IsSorted_example : Perm (order two_items) two_items × Pairs InOrder (order two_items)
order-IsSorted_example = order-IsSorted two_items

abbrev later_requests : List Request
later_requests = ("a", pos 5) ∷ ("b", pos 6) ∷ ("a", pos 7) ∷ []

allowed_in_window_example :
    allowed (pos 2) "a" no_windows (("a", pos 4) ∷ later_requests)
    ≡ Window.least 2 (suc (requests "a" later_requests))
unfolding ◌+ℤ◌
allowed_in_window_example =
    allowed_in_window (pos 2) "a" no_windows (pos 4) later_requests (inl refl) refl (ground arith)

abbrev replaced : List Event
replaced = unregistered "d" 1 ∷ registered "d" 2 ∷ registered "d" 1 ∷ []

hub_after-Live_example : (hub_after replaced "d" ≡ some 2) ↔ Live "d" 2 replaced
hub_after-Live_example = hub_after-Live "d" 2 replaced

abbrev limits : Limits
limits = record {
  min_chunk_size = pos 4;
  max_chunk_size = pos 64;
  max_parallel_chunks = pos 8;
  memory_budget = pos 100;
}

limits-InRange : Adaptive.InRange (Chunking.normalized limits) 4 64 8 100
unfolding wrap64 ◌*ℤ◌
limits-InRange = record {
  min_is = refl;
  max_is = refl;
  count_is = refl;
  budget_is = refl;
  positive = omega arith;
  low_small = omega arith;
  high_small = omega arith;
  some_chunks = omega arith;
  few_chunks = omega arith;
  room = omega arith;
}

-- A float stands for its numerator over 100.
abbrev at_least_percent : ℕ → ℕ → ℕ → Bool
at_least_percent x n d = leb (n * 100) (x * d)

abbrev below_percent : ℕ → ℕ → ℕ → Bool
below_percent x n d = ltb (x * d) (n * 100)

abbrev above_percent : ℕ → ℕ → ℕ → Bool
above_percent x n d = ltb (n * 100) (x * d)

abbrev calm : Observation ℕ
calm = record {
  rtt = pos 1000;
  throughput = 600000000000;
  retry_rate = 0;
  checksum_failure_rate = 0;
  backpressure = false;
  storage_pressure = false;
  thermal_pressure = false;
  low_battery = false;
  background = false;
}

abbrev wide : Profile
wide = record { chunk_size = pos 48; parallel_chunks = pos 6 }

recommend-Within_example :
    Within 4 64 8 100
      (recommend at_least_percent below_percent above_percent (pos 1000) wide limits calm)
recommend-Within_example =
    recommend-Within at_least_percent below_percent above_percent (pos 1000) wide limits calm 4 64 8
      100 limits-InRange
