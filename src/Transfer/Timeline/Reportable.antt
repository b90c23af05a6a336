-- ===== src/Transfer/Timeline/Reportable.antt =====
-- What a client may report to the timeline (internal/transfer/timeline.go and service.go).
use nex_drop.Prelude.{ℕ, String, true, false, ◌≡◌, [], Option, none, some, arith, subst}
use nex_drop.Prelude.Result.{err}
use nex_drop.Domain.Status.{TransferStatus}
use nex_drop.Transfer.Types.{Session, invalid}
use nex_drop.Transfer.Timeline.{
  EventCode, is_valid, client_reportable, event_code_for_status, TimelineEventReport, TimelineStore,
  valid_report, report_timeline_event,
}

abbrev Reserved : Option EventCode → Type 0
Reserved none = Unit
Reserved (some c) = (is_valid c ≡ true) × (client_reportable c ≡ false)

reserved : (s : TransferStatus) → Reserved (event_code_for_status s)
unfolding event_code_for_status is_valid client_reportable
reserved s = ground arith

reserved_code :
    (s : TransferStatus) (c : EventCode)
    → event_code_for_status s ≡ some c
    → (is_valid c ≡ true) × (client_reportable c ≡ false)
reserved_code s c h = subst Reserved h (reserved s)

-- `ReportTimelineEvent` takes no status: a report whose code is the event of a status, which is always a known
-- code, is refused whatever else it says, before the store is called and without a metric.
pub report_timeline_event-status :
    {W : Type 0} (store : TimelineStore W) (w : W) (session : Session) (id : String)
    (report : TimelineEventReport) (now : ℕ) (s : TransferStatus)
    → event_code_for_status s ≡ some report.code
    → (is_valid report.code ≡ true)
      × (report_timeline_event store w session id report now ≡ (err invalid, w, []))
unfolding report_timeline_event valid_report
report_timeline_event-status store w session id report now s h =
    let r = reserved_code s report.code h in (r.0, ground (arith, r))
