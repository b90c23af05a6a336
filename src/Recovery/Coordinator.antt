-- ===== src/Recovery/Coordinator.antt =====
-- `RunOnce` of internal/recovery/coordinator.go. A time is an integer of nanoseconds.
pub mod Counts
pub mod Leases
use Prim.Native.String.{◌++◌}
use nex_drop.Prelude.{
  ℕ, suc, ◌+◌, ◌≡◌, String, Bool, true, false, not, ◌&&◌, ◌||◌, ltb, leb, if◌then◌else◌, List, [],
  ◌∷◌, Option, none, some, length, is_empty, arith,
}
use nex_drop.Prelude.Int.{ℤ, pos, ◌+ℤ◌, ltb_ℤ, leb_ℤ}
use nex_drop.Prelude.Result.{Result, ok, err}
use nex_drop.Recovery.Classify.{
  Classification, Outcome, retry_immediately, retry_with_backoff, wait_for_receiver,
  reconcile_state, terminal_failure, unclassified, stable_error, classify, is_nil_error,
}
use nex_drop.Recovery.Backoff.{Config, normalized, backoff}

-- `next_attempt` is none for the zero time.
pub record WorkItem : Type 0 where
  pub transfer_id : String
  pub target_id : String
  pub retry_count : ℕ
  pub next_attempt : Option ℤ
  pub error_code : String
  pub verified : List (ℤ × String)
  pub updated_at : ℤ

-- The queue of recoverable transfers, over its state `W`.
pub record Queue (W : Type 0) : Type 0 where
  pub list_recoverable : W → ℤ → ℤ → Result String (List WorkItem)
  pub try_lease : W → WorkItem → ℤ → Result String Bool × W
  pub release_lease : W → WorkItem → Option String × W
  pub mark_completed : W → WorkItem → ℤ → Option String × W
  pub mark_waiting : W → WorkItem → Classification → ℤ → String → Option String × W
  pub mark_dead_letter : W → WorkItem → String → ℤ → Option String × W
  pub record_repair : W → WorkItem → ℤ → Option String × W

pub record Report : Type 0 where
  pub scanned : ℕ
  pub leased : ℕ
  pub completed : ℕ
  pub waiting : ℕ
  pub repaired : ℕ
  pub dead_letters : ℕ

abbrev pub empty_report : ℕ → Report
empty_report n = record {
  scanned = n;
  leased = 0;
  completed = 0;
  waiting = 0;
  repaired = 0;
  dead_letters = 0;
}

abbrev pub item_key : WorkItem → String
item_key item = item.transfer_id ++ (":" ++ item.target_id)

-- Skipped before anything is leased.
abbrev pub is_skipped : WorkItem → ℤ → Bool
is_skipped item now =
    is_empty item.transfer_id || is_empty item.target_id || is_later item.next_attempt now
  where
    is_later : Option ℤ → ℤ → Bool
    is_later none now = false
    is_later (some t) now = ltb_ℤ now t

module _ {W : Type 0} (queue : Queue W) (resume : W → WorkItem → (Outcome × Option String) × W)
    (digest32 : String → ℕ) (config : Config) (now : ℤ) where
  abbrev pub reported : Report → Option String × W → Report × Option String × W
  reported report (e, w) = (report, e, w)

  abbrev pub wait : W → WorkItem → Classification → ℤ → String → Report → Report × Option String × W
  wait w item class next code report =
      reported (record report { waiting = report.waiting + 1 })
        (queue.mark_waiting w item class next code)

  abbrev pub bury : W → WorkItem → String → Report → Report × Option String × W
  bury w item code report =
      reported (record report { dead_letters = report.dead_letters + 1 })
        (queue.mark_dead_letter w item code now)

  -- The `switch` on the classification.
  unfoldable pub settle :
      W → WorkItem → Outcome → Option String → Classification → Report → Report × Option String × W
  settle w item outcome e retry_immediately report =
      wait w item retry_immediately now (stable_error outcome e) report
  settle w item outcome e retry_with_backoff report =
      if leb_ℤ config.max_retries (pos item.retry_count)
      then bury w item (stable_error outcome e) report
      else let key = item_key item in
        let next = now +ℤ backoff digest32 key item.retry_count config in
        wait w item retry_with_backoff next (stable_error outcome e) report
  settle w item outcome e wait_for_receiver report =
      wait w item wait_for_receiver (now +ℤ config.max_backoff) (stable_error outcome e) report
  settle w item outcome e reconcile_state report =
      if outcome.repaired
      then reported (record report { repaired = report.repaired + 1 })
          (queue.record_repair w item now)
      else wait w item reconcile_state (now +ℤ config.base_backoff) (stable_error outcome e) report
  settle w item outcome e terminal_failure report = bury w item (stable_error outcome e) report
  settle w item outcome e unclassified report =
      if outcome.completed && is_nil_error e
      then reported (record report { completed = report.completed + 1 })
          (queue.mark_completed w item now)
      else (report, some "unclassified recovery result", w)

  -- The lease is released where the result was stored.
  abbrev pub release : WorkItem → Report × Option String × W → Report × Option String × W
  release item (report, some e, w) = (report, some e, w)
  release item (report, none, w) = reported report (queue.release_lease w item)

  abbrev pub after_resume :
      WorkItem → Report → (Outcome × Option String) × W → Report × Option String × W
  after_resume item report ((outcome, e), w) =
      release item (settle w item outcome e (classify item.error_code outcome e) report)

  -- One item, from its lease on.
  abbrev pub after_lease : WorkItem → Report → Result String Bool × W → Report × Option String × W
  after_lease item report (err e, w) = (report, some e, w)
  after_lease item report (ok false, w) = (report, none, w)
  after_lease item report (ok true, w) =
      after_resume item (record report { leased = report.leased + 1 }) (resume w item)

  unfoldable pub run_item : WorkItem → Report → W → Report × Option String × W
  run_item item report w =
      if is_skipped item now
      then (report, none, w)
      else after_lease item report (queue.try_lease w item (now +ℤ config.lease_ttl))

  -- The loop returns at the first error.
  abbrev pub and_then :
      Report × Option String × W
      → (Report → W → Report × Option String × W)
      → Report × Option String × W
  and_then (r, some e, w) rest = (r, some e, w)
  and_then (r, none, w) rest = rest r w

  unfoldable pub run_items : List WorkItem → Report → W → Report × Option String × W
  run_items [] report w = (report, none, w)
  run_items (item ∷ items) report w = and_then (run_item item report w) (λ r v. run_items items r v)

  abbrev pub run_listed : W → Result String (List WorkItem) → Report × Option String × W
  run_listed w (err e) = (empty_report 0, some e, w)
  run_listed w (ok items) = run_items items (empty_report (length items)) w

-- `New` normalizes the configuration.
unfoldable pub run_once :
    {W : Type 0}
    → Queue W
    → (W → WorkItem → (Outcome × Option String) × W)
    → (String → ℕ)
    → Config
    → ℤ
    → ℤ
    → W
    → Report × Option String × W
run_once queue resume digest32 config now limit w =
    run_listed queue resume digest32 (normalized config) now w
      (queue.list_recoverable w now (if ltb_ℤ limit (pos 1) then pos 100 else limit))
