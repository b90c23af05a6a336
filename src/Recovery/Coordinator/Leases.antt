-- ===== src/Recovery/Coordinator/Leases.antt =====
-- Every lease that a pass of internal/recovery/coordinator.go takes is given back.
use nex_drop.Prelude.{
  ℕ, suc, ◌+◌, ◌≡◌, String, Bool, true, false, if◌then◌else◌, List, [], ◌∷◌, Option, none, some,
  length, arith, refl, Bool-cases, inl, inr, ◌⊎◌, ◌&&◌, ◌∙◌, subst,
}
use nex_drop.Prelude.Int.{ℤ, pos, ltb_ℤ, leb_ℤ, ◌+ℤ◌}
use nex_drop.Prelude.Result.{Result, ok, err}
use nex_drop.Recovery.Classify.{
  Classification, Outcome, retry_immediately, retry_with_backoff, wait_for_receiver,
  reconcile_state, terminal_failure, unclassified, stable_error, classify, is_nil_error,
}
use nex_drop.Recovery.Backoff.{Config, normalized, backoff}
use nex_drop.Recovery.Coordinator.{
  WorkItem, Queue, item_key, Report, empty_report, is_skipped, reported, settle, release,
  after_resume, after_lease, run_item, and_then, run_items, run_listed, run_once,
}

-- What the queue and the runner promise of the number of held leases.
pub record LeaseLaws {W : Type 0} (queue : Queue W)
    (resume : W → WorkItem → (Outcome × Option String) × W) (held : W → ℕ) : Type 0 where
  pub taken :
      (w v : W) (i : WorkItem) (t : ℤ)
      → queue.try_lease w i t ≡ (ok true, v)
      → held v ≡ suc (held w)
  pub refused :
      (w v : W) (i : WorkItem) (t : ℤ) → queue.try_lease w i t ≡ (ok false, v) → held v ≡ held w
  pub given_back :
      (w v : W) (i : WorkItem)
      → queue.release_lease w i ≡ (none, v)
      → suc (held v) ≡ held w ⊎ (held w ≡ 0)
  pub keep_completed : (w : W) (i : WorkItem) (t : ℤ) → held (queue.mark_completed w i t).1 ≡ held w
  pub keep_waiting :
      (w : W) (i : WorkItem) (c : Classification) (t : ℤ) (code : String)
      → held (queue.mark_waiting w i c t code).1 ≡ held w
  pub keep_dead :
      (w : W) (i : WorkItem) (code : String) (t : ℤ)
      → held (queue.mark_dead_letter w i code t).1 ≡ held w
  pub keep_repaired : (w : W) (i : WorkItem) (t : ℤ) → held (queue.record_repair w i t).1 ≡ held w
  pub keep_resume : (w : W) (i : WorkItem) → held (resume w i).1 ≡ held w

abbrev pub Returns : {W : Type 0} → (W → ℕ) → ℕ → Report × Option String × W → Type 0
Returns held n (r, some e, w) = Unit {0}
Returns held n (r, none, w) = held w ≡ n

module _ {W : Type 0} (queue : Queue W) (resume : W → WorkItem → (Outcome × Option String) × W)
    (digest32 : String → ℕ) (config : Config) (now : ℤ) (held : W → ℕ)
    (laws : LeaseLaws queue resume held) where
  settle_keeps :
      (w : W) (item : WorkItem) (o : Outcome) (e : Option String) (c : Classification)
      (report : Report)
      → held (settle queue resume digest32 config now w item o e c report).2 ≡ held w
  unfolding settle stable_error
  settle_keeps w item o e retry_immediately report =
      laws.keep_waiting w item retry_immediately now (stable_error o e)
  settle_keeps w item o e retry_with_backoff report =
      let dead = laws.keep_dead w item (stable_error o e) now in
      let next = now +ℤ backoff digest32 (item_key item) item.retry_count config in
      let kept = laws.keep_waiting w item retry_with_backoff next (stable_error o e) in
      elim (Bool-cases (leb_ℤ config.max_retries (pos item.retry_count))) [
        | inl y ↦ rw y dead
        | inr n ↦ rw n kept
      ]
  settle_keeps w item o e wait_for_receiver report =
      laws.keep_waiting w item wait_for_receiver (now +ℤ config.max_backoff) (stable_error o e)
  settle_keeps w item o e reconcile_state report = elim (Bool-cases o.repaired) [
    | inl y ↦ rw y (laws.keep_repaired w item now)
    | inr n ↦
        rw n
          (laws.keep_waiting w item reconcile_state (now +ℤ config.base_backoff) (stable_error o e))
  ]
  settle_keeps w item o e terminal_failure report = laws.keep_dead w item (stable_error o e) now
  settle_keeps w item o e unclassified report = elim (Bool-cases (o.completed && is_nil_error e)) [
    | inl y ↦ rw y (laws.keep_completed w item now)
    | inr n ↦ rw n refl
  ]

  release-Returns :
      (item : WorkItem) (s : Report × Option String × W) (n : ℕ)
      → held s.2 ≡ suc n
      → Returns held n (release queue resume digest32 config now item s)
  release-Returns item (report, some e, w) n h = tt
  release-Returns item (report, none, w) n h = go (queue.release_lease w item) refl
    where
      go :
          (b : Option String × W)
          → queue.release_lease w item ≡ b
          → Returns held n (reported queue resume digest32 config now report b)
      go (some e, v) p = tt
      go (none, v) p = ground (arith, laws.given_back w v item p)

  after_lease-Returns :
      (item : WorkItem) (report : Report) (w : W) (t : ℤ) (l : Result String Bool × W)
      → queue.try_lease w item t ≡ l
      → Returns held (held w) (after_lease queue resume digest32 config now item report l)
  after_lease-Returns item report w t (err e, v) p = tt
  after_lease-Returns item report w t (ok false, v) p = laws.refused w v item t p
  after_lease-Returns item report w t (ok true, v) p =
      after_resume-Returns item (record report { leased = report.leased + 1 }) (resume v item)
        (held w) (laws.keep_resume v item ∙ laws.taken w v item t p)
    where
      after_resume-Returns :
          (item : WorkItem) (report : Report) (r : (Outcome × Option String) × W) (n : ℕ)
          → held r.1 ≡ suc n
          → Returns held n (after_resume queue resume digest32 config now item report r)
      after_resume-Returns item report ((o, e), v) n h =
          let c = classify item.error_code o e in
          release-Returns item (settle queue resume digest32 config now v item o e c report) n
            (settle_keeps v item o e c report ∙ h)

  run_item-Returns :
      (item : WorkItem) (report : Report) (w : W)
      → Returns held (held w) (run_item queue resume digest32 config now item report w)
  unfolding run_item
  run_item-Returns item report w =
      let t = now +ℤ config.lease_ttl in
      elim (Bool-cases (is_skipped item now)) [
        | inl y ↦ rw y refl
        | inr n ↦ rw n (after_lease-Returns item report w t (queue.try_lease w item t) refl)
      ]

  and_then-Returns :
      (items : List WorkItem) (n : ℕ) (s : Report × Option String × W)
      → Returns held n s
      → ((r : Report) (v : W)
          → Returns held (held v) (run_items queue resume digest32 config now items r v))
      → Returns held n (
          and_then queue resume digest32 config now s
            (λ r v. run_items queue resume digest32 config now items r v))
  and_then-Returns items n (r, some e, v) c h = tt
  and_then-Returns items n (r, none, v) c h =
      subst (λ m. Returns held m (run_items queue resume digest32 config now items r v)) c (h r v)

  run_items_return :
      (items : List WorkItem) (report : Report) (w : W)
      → Returns held (held w) (run_items queue resume digest32 config now items report w)
  unfolding run_items
  run_items_return [] report w = refl
  run_items_return (item ∷ items) report w =
      and_then-Returns items (held w) (run_item queue resume digest32 config now item report w)
        (run_item-Returns item report w) (λ r v. run_items_return items r v)

-- Where the queue counts a lease when it grants one and takes it off when it is released, a pass
-- that ends without an error leaves as many leases held as there were before it.
pub run_once-Returns :
    {W : Type 0} (queue : Queue W) (resume : W → WorkItem → (Outcome × Option String) × W)
    (digest32 : String → ℕ) (config : Config) (now limit : ℤ) (held : W → ℕ)
    → LeaseLaws queue resume held
    → (w : W) → Returns held (held w) (run_once queue resume digest32 config now limit w)
unfolding run_once
run_once-Returns queue resume digest32 config now limit held laws w =
    listed (queue.list_recoverable w now (if ltb_ℤ limit (pos 1) then pos 100 else limit))
  where
    listed :
        (l : Result String (List WorkItem))
        → Returns held (held w) (run_listed queue resume digest32 (normalized config) now w l)
    listed (err e) = tt
    listed (ok items) =
        run_items_return queue resume digest32 (normalized config) now held laws items
          (empty_report (length items)) w
