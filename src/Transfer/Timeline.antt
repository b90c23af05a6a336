-- ===== src/Transfer/Timeline.antt =====
-- internal/transfer/timeline.go, and `Timeline` and `ReportTimelineEvent` of
-- internal/transfer/service.go. A code outside the two tables is `other_code`.
pub mod Reportable
use nex_drop.Prelude.{
  ℕ, String, Bool, true, false, not, ◌&&◌, ◌||◌, List, [], ◌∷◌, Option, none, some, is_empty,
  every_char, len, ltb, if◌then◌else◌,
}
use nex_drop.Prelude.Int.{ℤ, pos, ltb_ℤ}
use nex_drop.Prelude.Result.{Result, ok, err}
use nex_drop.Domain.Route.{SelectedRoute, unset, none_route}
use nex_drop.Domain.Status
use nex_drop.Domain.Status.{TransferStatus}
use nex_drop.Transfer.Types.{Error, invalid, conflict, Session}
use nex_drop.Transfer.Service.{is_none, or_else, is_code_char, reportable_timeline_route}

pub data EventCode : Type 0 where
  task_created target_resolved route_checking target_waiting target_queued : EventCode
  node_upload_started node_file_available node_download_started lan_transfer_started : EventCode
  transfer_paused file_hash_verifying file_hash_verified target_delivered target_read : EventCode
  target_failed target_cancelled target_expired source_file_missing : EventCode
  source_file_changed route_migrated retry_started : EventCode
  routes_discovered direct_attempted tls_authenticated fallback_selected : EventCode
  encryption_prepared chunk_upload_started chunk_download_started : EventCode
  chunk_retry_started websocket_interrupted receiver_restricted network_changed : EventCode
  other_code : String → EventCode

-- `Valid`.
unfoldable pub is_valid : EventCode → Bool
is_valid (other_code s) = false
is_valid _ = true

-- `ClientReportable`.
unfoldable pub client_reportable : EventCode → Bool
client_reportable routes_discovered = true
client_reportable direct_attempted = true
client_reportable tls_authenticated = true
client_reportable fallback_selected = true
client_reportable encryption_prepared = true
client_reportable chunk_upload_started = true
client_reportable chunk_download_started = true
client_reportable chunk_retry_started = true
client_reportable websocket_interrupted = true
client_reportable receiver_restricted = true
client_reportable network_changed = true
client_reportable _ = false

-- `EventCodeForStatus`.
unfoldable pub event_code_for_status : TransferStatus → Option EventCode
event_code_for_status Status.created = some task_created
event_code_for_status Status.checking_route = some route_checking
event_code_for_status Status.waiting_for_target = some target_waiting
event_code_for_status Status.waiting_for_node = some target_waiting
event_code_for_status Status.waiting_for_lan = some target_waiting
event_code_for_status Status.queued = some target_queued
event_code_for_status Status.uploading_to_node = some node_upload_started
event_code_for_status Status.available_on_node = some node_file_available
event_code_for_status Status.downloading = some node_download_started
event_code_for_status Status.transferring_lan = some lan_transfer_started
event_code_for_status Status.paused = some transfer_paused
event_code_for_status Status.verifying = some file_hash_verifying
event_code_for_status Status.delivered = some target_delivered
event_code_for_status Status.read = some target_read
event_code_for_status Status.failed = some target_failed
event_code_for_status Status.cancelled = some target_cancelled
event_code_for_status Status.expired = some target_expired
event_code_for_status Status.source_file_missing = some source_file_missing
event_code_for_status Status.source_file_changed = some source_file_changed
event_code_for_status (Status.other_status s) = none

pub record TimelineEvent : Type 0 where
  pub sequence : ℤ
  pub transfer_id : String
  pub code : EventCode
  pub request_id : String
  pub file_id : String
  pub target_device_id : String
  pub execution_id : String
  pub route : SelectedRoute
  pub status : Option TransferStatus
  pub error_code : String
  pub duration_millis : ℤ
  pub occurred_at : ℕ

pub record TimelineEventReport : Type 0 where
  pub idempotency_key : String
  pub code : EventCode
  pub file_id : String
  pub target_device_id : String
  pub execution_id : String
  pub route : SelectedRoute
  pub error_code : String

-- The optional interfaces of a store over its state `W`.
pub record TimelineStore (W : Type 0) : Type 0 where
  pub transfer_timeline : Option (W → Session → String → Result Error (List TimelineEvent))
  pub report_event :
      Option (W → Session → String → TimelineEventReport → ℕ → Result Error TimelineEvent × W)

-- The metrics: a handshake that took so many milliseconds, and a chunk that is sent again.
pub data Metric : Type 0 where
  direct_handshake : ℤ → Bool → String → Metric
  chunk_retry : SelectedRoute → String → Metric

abbrev pub code_or_none : String → String
code_or_none code = if is_empty code then "NONE" else code

abbrev pub route_or_none : SelectedRoute → SelectedRoute
route_or_none unset = none_route
route_or_none route = route

abbrev pub handshake : ℤ → Bool → String → List Metric
handshake millis success code =
    if ltb_ℤ (pos 0) millis then direct_handshake millis success code ∷ [] else []

unfoldable pub event_metrics : EventCode → TimelineEventReport → TimelineEvent → List Metric
event_metrics tls_authenticated report event =
    handshake event.duration_millis true (code_or_none report.error_code)
event_metrics fallback_selected report event =
    handshake event.duration_millis false (code_or_none report.error_code)
event_metrics chunk_retry_started report event =
    chunk_retry (route_or_none report.route) (code_or_none report.error_code) ∷ []
event_metrics _ report event = []

-- The guards of `ReportTimelineEvent`.
unfoldable pub valid_report : Session → String → TimelineEventReport → Bool
valid_report session id report =
    not (
      is_empty id
      || is_none session.device_id
      || is_empty report.idempotency_key
      || not (client_reportable report.code)
      || is_empty report.target_device_id
      || not (reportable_timeline_route report.route)
      || ltb 100 (len report.error_code))
    && every_char is_code_char report.error_code

module _ {W : Type 0} (store : TimelineStore W) where
  unfoldable pub timeline : W → Session → String → Result Error (List TimelineEvent)
  timeline w session id =
      if is_empty id
      then err invalid
      else elim store.transfer_timeline [ none ↦ ok [] | some read ↦ read w session id ]

  abbrev pub after_report :
      TimelineEventReport
      → Result Error TimelineEvent × W
      → Result Error TimelineEvent × W × List Metric
  after_report report (err e, w) = (err e, w, [])
  after_report report (ok event, w) = (ok event, w, event_metrics report.code report event)

  unfoldable pub report_timeline_event :
      W → Session → String → TimelineEventReport → ℕ → Result Error TimelineEvent × W × List Metric
  report_timeline_event w session id report now =
      if valid_report session id report
      then elim store.report_event [
        | none ↦ (err conflict, w, [])
        | some run ↦ after_report report (run w session id report now)
      ]
      else (err invalid, w, [])
