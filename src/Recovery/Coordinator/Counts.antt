-- ===== src/Recovery/Coordinator/Counts.antt =====
-- The report of internal/recovery/coordinator.go counts every leased item once.
use nex_drop.Prelude.{
  ℕ, suc, ◌+◌, ◌≤◌, ◌≡◌, String, Bool, true, false, if◌then◌else◌, List, [], ◌∷◌, Option, none,
  some, length, arith, refl,
}
use nex_drop.Prelude.Int.{ℤ, pos, ltb_ℤ, ◌+ℤ◌}
use nex_drop.Prelude.Result.{Result, ok, err}
use nex_drop.Recovery.Classify.{
  Classification, Outcome, retry_immediately, retry_with_backoff, wait_for_receiver,
  reconcile_state, terminal_failure, unclassified, classify, Means,
}
use nex_drop.Recovery.Classify.Meaning.{classify-Means}
use nex_drop.Recovery.Backoff.{Config, normalized}
use nex_drop.Recovery.Coordinator.{
  WorkItem, Queue, Report, empty_report, settle, release, after_resume, after_lease, run_item,
  and_then, run_items, run_listed, run_once,
}

abbrev pub counted : Report → ℕ
counted r = r.completed + r.waiting + r.repaired + r.dead_letters

pub record Counted (report after : Report) (extra : ℕ) : Type 0 where
  pub same_scanned : after.scanned ≡ report.scanned
  pub grown : counted after + report.leased ≡ counted report + after.leased
  pub few : after.leased ≤ report.leased + extra

module _ {W : Type 0} (queue : Queue W) (resume : W → WorkItem → (Outcome × Option String) × W)
    (digest32 : String → ℕ) (config : Config) (now : ℤ) where
  settle_counts :
      (w : W) (item : WorkItem) (o : Outcome) (e : Option String) (c : Classification)
      (report : Report)
      → Means item.error_code o e c
      → (counted (settle queue resume digest32 config now w item o e c report).0
          ≡ counted report + 1)
        × ((settle queue resume digest32 config now w item o e c report).0.leased ≡ report.leased)
        × ((settle queue resume digest32 config now w item o e c report).0.scanned ≡ report.scanned)
  unfolding settle
  settle_counts w item o e retry_immediately report m = ground arith
  settle_counts w item o e retry_with_backoff report m = ground arith
  settle_counts w item o e wait_for_receiver report m = ground arith
  settle_counts w item o e reconcile_state report m = ground arith
  settle_counts w item o e terminal_failure report m = ground arith
  settle_counts w item o e unclassified report m = ground arith

  release_report :
      (item : WorkItem) (s : Report × Option String × W)
      → (release queue resume digest32 config now item s).0 ≡ s.0
  release_report item (report, some e, w) = refl
  release_report item (report, none, w) = refl

  after_resume_counts :
      (item : WorkItem) (report : Report) (r : (Outcome × Option String) × W)
      → (counted (after_resume queue resume digest32 config now item report r).0
          ≡ counted report + 1)
        × ((after_resume queue resume digest32 config now item report r).0.leased ≡ report.leased)
        × ((after_resume queue resume digest32 config now item report r).0.scanned ≡ report.scanned)
  after_resume_counts item report ((o, e), w) =
      let c = classify item.error_code o e in
      rw (release_report item (settle queue resume digest32 config now w item o e c report))
        (settle_counts w item o e c report (classify-Means item.error_code o e))

  after_lease-Counted :
      (item : WorkItem) (report : Report) (l : Result String Bool × W)
      → Counted report (after_lease queue resume digest32 config now item report l).0 1
  after_lease-Counted item report (err e, w) = ground arith
  after_lease-Counted item report (ok false, w) = ground arith
  after_lease-Counted item report (ok true, w) = ground (
    arith,
    after_resume_counts item (record report { leased = report.leased + 1 }) (resume w item),
  )

  run_item-Counted :
      (item : WorkItem) (report : Report) (w : W)
      → Counted report (run_item queue resume digest32 config now item report w).0 1
  unfolding run_item
  run_item-Counted item report w =
      ground
        (arith, after_lease-Counted item report (queue.try_lease w item (now +ℤ config.lease_ttl)))

  and_then-Counted :
      (items : List WorkItem) (report : Report) (s : Report × Option String × W)
      → Counted report s.0 1
      → ((r : Report) (v : W)
          → Counted r (run_items queue resume digest32 config now items r v).0 (length items))
      → Counted report
          (and_then queue resume digest32 config now s
            (λ r v. run_items queue resume digest32 config now items r v)).0
          (suc (length items))
  and_then-Counted items report (r, some e, v) c h = ground arith
  and_then-Counted items report (r, none, v) c h = ground (arith, h r v)

  run_items-Counted :
      (items : List WorkItem) (report : Report) (w : W)
      → Counted report (run_items queue resume digest32 config now items report w).0 (length items)
  unfolding run_items
  run_items-Counted [] report w = ground arith
  run_items-Counted (item ∷ items) report w =
      and_then-Counted items report (run_item queue resume digest32 config now item report w)
        (run_item-Counted item report w) (λ r v. run_items-Counted items r v)

-- What a report promises.
pub record Sound (report : Report) : Type 0 where
  pub once :
      report.leased ≡ report.completed + report.waiting + report.repaired + report.dead_letters
  pub within : report.leased ≤ report.scanned

-- In the report of a pass, also of one that an error of the queue cuts off, every leased item is
-- counted as exactly one of completed, waiting, repaired and dead, and no more items were leased
-- than were listed.
pub run_once-Sound :
    {W : Type 0} (queue : Queue W) (resume : W → WorkItem → (Outcome × Option String) × W)
    (digest32 : String → ℕ) (config : Config) (now limit : ℤ) (w : W)
    → Sound (run_once queue resume digest32 config now limit w).0
unfolding run_once
run_once-Sound queue resume digest32 config now limit w =
    listed (queue.list_recoverable w now (if ltb_ℤ limit (pos 1) then pos 100 else limit))
  where
    listed :
        (l : Result String (List WorkItem))
        → Sound (run_listed queue resume digest32 (normalized config) now w l).0
    listed (err e) = record { once = refl; within = omega arith }
    listed (ok items) = ground (
      arith,
      run_items-Counted queue resume digest32 (normalized config) now items
          (empty_report (length items)) w,
    )
