-- ===== src/Job/Reports.antt =====
-- The branch of `agent_job_result` in hub/agent_control_router.py for a monitor's report.
use dark_noc.Base.{
  leb, ◌==◌, if◌then◌else◌, clip, clip_end, concat, text_else, ℕ, suc, String, str_append, Bool,
  true, false, not, ◌&&◌, Option, none, some, [], ◌∷◌, str_eq,
}
use dark_noc.Base.Json.{Json, null, num, str, obj, Dict, end, field, get, merge, is_truthy}
use dark_noc.Store.Schema.{
  Node, Severity, Incident, JobKind, MonitorKind, icmp, tcp, https, dns, tls, snmp, MonitorStatus,
  Monitor,
}
use dark_noc.Store.Bodies.{JobResult}
use dark_noc.Store.Table.{Row}
use dark_noc.Store.Hub.{incidents, monitors, monitor_results}
use dark_noc.Store.Tx.{crash, Tx, pure, throw, utc_ts, insert, update, fetch_one, ◌>>=◌, ◌>>◌}
use dark_noc.Incident.{create_incident, is_active_for, resolve_incident}
use dark_noc.Job.{is_completed}
use dark_noc.Job.Outcomes.{parsed}
use dark_noc.Python.{Python}

-- What a report says: whether the monitor is up, the latency and the detail.
pub record Report : Type 0 where
  pub is_up : Bool
  pub latency : Option Json
  pub detail_value : Dict

-- report.get("status") == "up"
abbrev pub says_up : Option Json → Bool
says_up (some (str s)) = str_eq s "up"
says_up _ = false

-- The detail of a report that the Hub cannot read.
abbrev pub unreadable : String → Report
unreadable output = record {
  is_up = false;
  latency = none;
  detail_value =
      field "error" (str (text_else (some (clip_end 2000 output)) "Agent monitor execution failed"))
        end;
}

-- With the latency that was read: `none` is a TypeError or ValueError.
abbrev pub with_latency : Option (Option Json) → Bool → Dict → String → Report
with_latency none is_up detail output = unreadable output
with_latency (some latency) is_up detail output = record {
  is_up = is_up;
  latency = latency;
  detail_value = detail;
}

-- "up" if monitor_status == "up" else "down"
abbrev pub up_or_down : Bool → MonitorStatus
up_or_down true = MonitorStatus.up
up_or_down false = MonitorStatus.down

-- 0 if monitor_status == "up" else int(monitor["failure_streak"] or 0) + 1
abbrev pub streak : Bool → ℕ → ℕ
streak true n = 0
streak false n = suc n

abbrev pub kind_text : MonitorKind → String
kind_text icmp = "icmp"
kind_text tcp = "tcp"
kind_text MonitorKind.http = "http"
kind_text https = "https"
kind_text dns = "dns"
kind_text tls = "tls"
kind_text snmp = "snmp"

-- f"Monitor {monitor['name']} is down"
abbrev pub down_title : String → String
down_title name = str_append "Monitor " (str_append name " is down")

-- The texts that Telegram gets after the transaction.
abbrev pub down_notice : Row Node → Row Monitor → String
down_notice node monitor = concat (
    "🔴 DARK NOC MONITOR\nNode: " ∷ node.cols.name ∷ "\nMonitor: " ∷ monitor.cols.name ∷ "\nTarget: "
    ∷ monitor.cols.target ∷ "\nStatus: DOWN" ∷ [])

abbrev pub recovered_notice : Row Node → Row Monitor → String
recovered_notice node monitor = concat (
    "🟢 DARK NOC MONITOR RECOVERED\nNode: " ∷ node.cols.name ∷ "\nMonitor: " ∷ monitor.cols.name
    ∷ "\nStatus: UP" ∷ [])

abbrev pub number_read : Option Json → Option (Option Json)
number_read none = none
number_read (some v) = some (some v)

module _ (py : Python) where
  -- int(request_payload.get("monitor_id", 0) or 0)
  abbrev pub int_or : Option Json → Option ℕ
  int_or none = some 0
  int_or (some v) = if is_truthy (some v) then py.int v else some 0

  -- float(report["latency_ms"]) if report.get("latency_ms") is not None else None
  abbrev pub read_latency : Option Json → Option (Option Json)
  read_latency none = some none
  read_latency (some null) = some none
  read_latency (some v) = number_read (py.float v)

  -- report.get("detail"), or {"message": str(report.get("detail") or "")}
  unfoldable pub read_detail : Option Json → Dict
  read_detail (some (obj d)) = d
  read_detail none = field "message" (str "") end
  read_detail (some v) = field "message" (str (if is_truthy (some v) then py.text v else "")) end

  -- A JSON value that is no object has no `get`: an AttributeError, which nothing catches.
  unfoldable pub read_report : Option Json → JobResult → Tx Report
  read_report none result = pure (unreadable result.output)
  read_report (some (obj report)) result = pure (
      with_latency (read_latency (get "latency_ms" report))
        (is_completed result.status && says_up (get "status" report))
        (read_detail (get "detail" report)) result.output)
  read_report (some _) result = throw crash

  -- The incident of a monitor, and the notification that is sent after the transaction.
  unfoldable pub monitor_incident :
      Row Monitor → Row Node → Report → ℕ → ℕ → Option (Row Incident) → Tx (Option String)
  monitor_incident monitor node report failure_streak checked_at none =
      if not report.is_up && leb 2 failure_streak
      then (do
        create_incident (some node.id) none Severity.critical (down_title monitor.cols.name)
            (merge
              (field "monitor_id" (num monitor.id) (
                field "kind" (str (kind_text monitor.cols.kind))
                  (field "target" (str monitor.cols.target) end)))
              report.detail_value)
            (some checked_at)
        pure (some (down_notice node monitor)))
      else pure none
  monitor_incident monitor node report failure_streak checked_at (some incident) =
      if report.is_up
      then (do
        resolve_incident incident.id "Synthetic monitor recovered" none none
        pure (some (recovered_notice node monitor)))
      else pure none

  -- if monitor:
  unfoldable pub update_monitor : Option (Row Monitor) → JobResult → Row Node → Tx (Option String)
  update_monitor none result node = pure none
  update_monitor (some monitor) result node = do
    checked_at ← utc_ts
    report ← read_report (py.loads result.output) result
    let failure_streak = streak report.is_up monitor.cols.failure_streak
    let detail_json = clip 8000 (py.dumps report.detail_value)
    now ← utc_ts
    update monitors (λ m. m.id == monitor.id)
        (λ m. record m {
          status = up_or_down report.is_up;
          latency_ms = report.latency;
          detail = some detail_json;
          failure_streak = failure_streak;
          last_run_at = some checked_at;
          updated_at = now;
        })
    insert monitor_results (record {
      monitor_id = monitor.id;
      ts = checked_at;
      status = up_or_down report.is_up;
      latency_ms = report.latency;
      detail = detail_json;
    })
    open_monitor_incident ←
        fetch_one incidents (is_active_for node.id (down_title monitor.cols.name))
    monitor_incident monitor node report failure_streak checked_at open_monitor_incident

  -- if row["kind"] == "monitor_run":
  unfoldable pub record_monitor : JobKind → Dict → JobResult → Row Node → Tx (Option String)
  record_monitor JobKind.monitor_run payload result node = do
    monitor_id ← parsed (int_or (get "monitor_id" payload))
    monitor ← fetch_one monitors (λ m. m.id == monitor_id && m.cols.node_id == node.id)
    update_monitor monitor result node
  record_monitor _ payload result node = pure none
