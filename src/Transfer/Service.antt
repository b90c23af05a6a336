-- ===== src/Transfer/Service.antt =====
-- The handlers of `Service` in internal/transfer/service.go over the interface `Store`. The database
-- is the parameter `store`; a call takes and returns its state `W`. A handler returns its result,
-- the store's state, and the metrics that it records, in order. `json.Marshal` and `sha256.Sum256`
-- of a request are the parameter `fingerprint`.
pub mod Gate
use nex_drop.Prelude.{
  ℕ, ◌-◌, ◌≤◌, String, Bool, true, false, not, ◌&&◌, ◌||◌, List, [], ◌∷◌, map, any, all, Option,
  none, some, length, take, is_empty, str_eq, every_char, len, ltb, leb, ◌==◌, if◌then◌else◌,
}
use nex_drop.Prelude.Int.{ℤ, pos, pos_part, sub_ℕ, ltb_ℤ}
use nex_drop.Prelude.Result.{Result, ok, err, ◌>>=◌, ◌>>◌, refuse}
use nex_drop.Domain.Route.{
  SelectedRoute, none_route, lan, node, waiting_lan, draft, mixed, unset, other_route,
}
use nex_drop.Domain.Status.{
  TransferStatus, created, cancelled, expired, delivered, read, other_status,
}
use nex_drop.Version.{current_limits}
use nex_drop.Transfer.Types.{
  Error, invalid, forbidden, conflict, TargetType, Request, Target, Prepared, Transfer, PageOptions,
  Page, Progress, Session,
}
use nex_drop.Transfer.Validate.{validate_request}
use nex_drop.Transfer.Prepare.{prepare}

-- `Store`, with the optional `PagedStore` and `RetryStore`, which a store may not implement.
pub record Store (W : Type 0) : Type 0 where
  pub resolve_transfer_targets :
      W → Session → TargetType → String → List String → Result Error (List String)
  pub create_transfer : W → Session → Prepared → Result Error Transfer × W
  pub list_transfers : W → Session → Result Error (List Transfer)
  pub get_transfer : W → Session → String → Result Error Transfer
  pub cancel_transfer : W → Session → String → ℕ → Result Error Transfer × W
  pub hide_transfer : W → Session → String → ℕ → Result Error (Unit {0}) × W
  pub read_transfer : W → Session → String → ℕ → Result Error Transfer × W
  pub report_transfer_progress : W → Session → String → Progress → ℕ → Result Error Transfer × W
  pub list_transfer_page : Option (W → Session → PageOptions → Result Error Page)
  pub retry_transfer_target :
      Option (W → Session → String → String → String → ℕ → Result Error Transfer × W)

-- The calls of `monitoring.DefaultRegistry`: a duration is in nanoseconds, and a throughput is the
-- bytes and the time that the code divides as floats.
pub data Metric : Type 0 where
  route_selection : SelectedRoute → Bool → Metric
  transfer_state : TransferStatus → Metric
  delivery_seconds : ℤ → SelectedRoute → Metric
  throughput : ℕ → ℕ → SelectedRoute → Metric
  worker_recovery : Bool → Metric

abbrev pub Outcome : Type 0 → Type 0 → Type 0
Outcome W A = Result Error A × W × List Metric

abbrev pub is_ok {ℓ κ} : {E : Type ℓ} {A : Type κ} → Result E A → Bool
is_ok (ok a) = true
is_ok (err e) = false

unfoldable pub reportable_status : TransferStatus → Bool
reportable_status created = false
reportable_status cancelled = false
reportable_status expired = false
reportable_status (other_status s) = false
reportable_status _ = true

unfoldable pub reportable_route : SelectedRoute → Bool
reportable_route unset = true
reportable_route lan = true
reportable_route node = true
reportable_route waiting_lan = true
reportable_route draft = true
reportable_route _ = false

unfoldable pub reportable_timeline_route : SelectedRoute → Bool
unfolding reportable_route
reportable_timeline_route none_route = true
reportable_timeline_route mixed = true
reportable_timeline_route r = reportable_route r

-- The characters of an error code.
abbrev pub is_code_char : ℕ → Bool
is_code_char c = (leb b'A' c && leb c b'Z') || (leb b'0' c && leb c b'9') || c == b'_'

abbrev pub is_none {ℓ} : {A : Type ℓ} → Option A → Bool
is_none none = true
is_none (some a) = false

abbrev pub or_else : SelectedRoute → SelectedRoute → SelectedRoute
or_else unset r = r
or_else r _ = r

-- The loop that looks for the route of the reporting device.
unfoldable pub route_of_device : SelectedRoute → String → List Target → SelectedRoute
route_of_device route device_id [] = route
route_of_device route device_id (t ∷ ts) =
    route_of_device
      (or_else route (if str_eq t.device_id device_id then t.selected_route else route)) device_id
      ts

abbrev is_arrival : TransferStatus → Bool
is_arrival delivered = true
is_arrival read = true
is_arrival _ = false

-- The metrics of an accepted progress report; the clock is read again for each of the two.
unfoldable pub progress_metrics : Progress → Transfer → ℕ → ℕ → List Metric
unfolding route_of_device
progress_metrics p result delivered_at measured_at =
    transfer_state p.status
    ∷ (if is_arrival p.status && not (result.created_at == 0)
        then delivery_seconds (sub_ℕ delivered_at result.created_at)
            (or_else (route_of_device p.route p.device_id result.targets) none_route)
          ∷ throughput_metric
        else throughput_metric)
  where
    throughput_metric : List Metric
    throughput_metric =
        if ltb_ℤ (pos 0) p.bytes_transferred
          && not (result.created_at == 0)
          && ltb 0 (measured_at - result.created_at)
        then throughput (pos_part p.bytes_transferred) (measured_at - result.created_at)
            (or_else p.route none_route)
          ∷ []
        else []

unfoldable pub valid_progress : Session → String → Progress → Bool
valid_progress session id p =
    not (
      is_empty id
      || is_none session.device_id
      || is_empty p.device_id
      || ltb_ℤ p.bytes_transferred (pos 0)
      || not (reportable_status p.status)
      || not (reportable_route p.route)
      || ltb 100 (len p.error_code))
    && every_char is_code_char p.error_code

module _ {W : Type 0} (store : Store W) (fingerprint : Request → List ℕ) where
  -- The part of `Create` before the store's call.
  unfoldable pub admit : W → Session → Request → ℕ → Result Error Prepared
  admit w session request now = do
    refuse (is_none session.device_id) forbidden
    validate_request request
    resolved ←
        store.resolve_transfer_targets w session request.target_type request.group_id
          request.target_device_ids
    refuse (length resolved == 0 || ltb current_limits.max_recipients (length resolved)) invalid
    refuse (any (λ id. length (request.wrapped_content_keys id) == 0) resolved) invalid
    ok (prepare request resolved now (fingerprint (record request { idempotency_key = "" })))

  unfoldable pub create : W → Session → Request → ℕ → Outcome W Transfer
  create w session request now = elim (admit w session request now) [
    | err e ↦ (err e, w, [])
    | ok prepared ↦
        let (result, w') = store.create_transfer w session prepared in
        (result, w', map (λ t. route_selection t.selected_route (is_ok result)) prepared.targets)
  ]

  -- The page of a store that is no `PagedStore`.
  unfoldable pub list_page : W → Session → PageOptions → Result Error Page
  list_page w session options = do
    refuse
        (ltb_ℤ options.limit (pos 1)
          || ltb_ℤ (pos 100) options.limit
          || (not (options.from_time == 0)
              && not (options.to_time == 0)
              && ltb options.to_time options.from_time))
        invalid
    elim store.list_transfer_page [
      | some paged ↦ paged w session options
      | none ↦ (do
        items ← store.list_transfers w session
        ok (record {
          items = take (pos_part options.limit) items;
          next_cursor = "";
          next_page_key = record { id = ""; created_at = 0 };
        }))
    ]

  unfoldable pub get : W → Session → String → Result Error Transfer
  get w session id = do refuse (is_empty id) invalid; store.get_transfer w session id

  unfoldable pub cancel : W → Session → String → ℕ → Outcome W Transfer
  cancel w session id now =
      if is_empty id
      then (err invalid, w, [])
      else (let (result, w') = store.cancel_transfer w session id now in (result, w', []))

  unfoldable pub hide : W → Session → String → ℕ → Outcome W (Unit {0})
  hide w session id now =
      if is_empty id
      then (err invalid, w, [])
      else (let (result, w') = store.hide_transfer w session id now in (result, w', []))

  unfoldable pub read_transfer : W → Session → String → ℕ → Outcome W Transfer
  read_transfer w session id now =
      if is_empty id || is_none session.device_id
      then (err forbidden, w, [])
      else (let (result, w') = store.read_transfer w session id now in (result, w', []))

  unfoldable pub report_progress : W → Session → String → Progress → ℕ → ℕ → ℕ → Outcome W Transfer
  report_progress w session id p now delivered_at measured_at =
      if valid_progress session id p
      then (let (result, w') = store.report_transfer_progress w session id p now in
          elim result [
            | err e ↦ (err e, w', [])
            | ok t ↦ (ok t, w', progress_metrics p t delivered_at measured_at)
          ])
      else (err invalid, w, [])

  unfoldable pub retry : W → Session → String → String → String → ℕ → Outcome W Transfer
  retry w session transfer_id device_id key now =
      if is_empty transfer_id || is_empty device_id || is_empty key || is_none session.device_id
      then (err invalid, w, [])
      else elim store.retry_transfer_target [
        | none ↦ (err conflict, w, [])
        | some run ↦
            let (result, w') = run w session transfer_id device_id key now in
            (result, w', worker_recovery (is_ok result) ∷ [])
      ]
