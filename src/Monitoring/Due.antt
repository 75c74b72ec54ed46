-- ===== src/Monitoring/Due.antt =====
-- Queueing a monitor's check: `queue_monitor_run_mutation` of hub/monitor_incident_service.py and
-- `queue_due_monitors` of hub/maintenance_runtime.py.
use dark_noc.Base.{
  leb, ◌==◌, if◌then◌else◌, is_some, truthy, is_ref, take, any_row, order_by, ℕ, suc, ◌+◌, String,
  Bool, false, not, ◌&&◌, Option, none, some,
}
use dark_noc.Base.Json.{num, str, Dict, end, field, put, one}
use dark_noc.Store.Schema.{Node, Severity, JobKind, JobStatus, Job, MonitorStatus, Monitor}
use dark_noc.Store.Table.{Row}
use dark_noc.Store.Hub.{nodes, incidents, jobs, monitors, monitor_results}
use dark_noc.Store.Tx.{
  Tx, pure, found, reject_if, insert, update, fetch_one, fetch_all, ◌>>=◌, ◌>>◌, for_each,
}
use dark_noc.Incident.{create_incident, is_active_for}
use dark_noc.Job.{is_live}
use dark_noc.Job.Reports.{kind_text, down_title}
use dark_noc.Monitoring.{is_snmp}
use dark_noc.Nodes.{is_offline}
use dark_noc.Python.{Python}

-- last_seen>=?
abbrev pub seen_since : ℕ → Option ℕ → Bool
seen_since cutoff none = false
seen_since cutoff (some t) = leb cutoff t

-- if monitor["job_id"]: SELECT 1 FROM jobs WHERE id=? AND status IN ('queued','running')
unfoldable pub has_live_job : Option ℕ → Tx Bool
has_live_job job_id = do
  job ← fetch_one jobs (λ j. is_ref job_id j.id && is_live j.cols.status)
  pure (truthy job_id && is_some job)

abbrev pub check_payload : Row Monitor → Dict
check_payload m = field "monitor_id" (num m.id) (
    field "kind" (str (kind_text m.cols.kind)) (
      field "target" (str m.cols.target) (
        field "port" (one m.cols.port num) (
          field "timeout_seconds" (num m.cols.timeout_seconds) (
            field "expected_status" (one m.cols.expected_status num)
              (field "snmp_oid" (one m.cols.snmp_oid str) end))))))

-- The payload with the community of an SNMP monitor; `none` if `decrypt` raises.
abbrev pub with_community : Option (Option String) → Dict → Option Dict
with_community none payload = none
with_community (some secret) payload = some (put "snmp_community" (one secret str) payload)

abbrev pub run_payload : (Option String → Option (Option String)) → Row Monitor → Option Dict
run_payload decrypt m =
    if is_snmp m.cols.kind
    then with_community (decrypt m.cols.secret_enc) (check_payload m)
    else some (check_payload m)

abbrev pub queued_check : ℕ → Dict → Option ℕ → ℕ → Job
queued_check node_id payload created_by now = record {
  node_id = node_id;
  kind = JobKind.monitor_run;
  payload = payload;
  status = JobStatus.queued;
  output = none;
  created_by = created_by;
  created_at = now;
  started_at = none;
  finished_at = none;
}

unfoldable pub queue_check : Row Monitor → Dict → Option ℕ → ℕ → Tx ℕ
queue_check monitor payload created_by now = do
  job_id ← insert jobs (queued_check monitor.cols.node_id payload created_by now)
  update monitors (λ m. m.id == monitor.id)
      (λ m. record m {
        job_id = some job_id;
        next_run_at = now + monitor.cols.interval_seconds;
        updated_at = now;
      })
  pure job_id

module _ (decrypt : Option String → Option (Option String)) where
  unfoldable pub queue_monitor_run_mutation : ℕ → ℕ → ℕ → ℕ → Tx (Row Monitor × ℕ)
  queue_monitor_run_mutation node_stale_after monitor_id user_id now = do
    row ← fetch_one monitors (λ m. m.id == monitor_id)
    monitor ← found row 404 "Monitor not found"
    joined ← fetch_one nodes (λ n. n.id == monitor.cols.node_id)
    node ← found joined 404 "Monitor not found"
    reject_if (is_offline node.cols.last_seen now node_stale_after) 409 "Agent is offline"
    active ← has_live_job monitor.cols.job_id
    reject_if active 409 "Monitor check is already running"
    payload ←
        found (run_payload decrypt monitor) 409
          "Encrypted SNMP community cannot be read; edit and save the monitor again"
    job_id ← queue_check monitor payload (some user_id) now
    pure (monitor, job_id)

  -- except Exception: the secret cannot be read
  unfoldable pub mark_unreadable : Python → Row Monitor → ℕ → Tx (Unit {0})
  mark_unreadable py monitor now = do
    let failure_streak = suc monitor.cols.failure_streak
    let detail = py.dumps (
        field "error"
          (str "Encrypted monitor secret cannot be read; edit and save the monitor again") end)
    update monitors (λ m. m.id == monitor.id)
        (λ m. record m {
          status = MonitorStatus.down;
          detail = some detail;
          failure_streak = failure_streak;
          last_run_at = some now;
          next_run_at = now + monitor.cols.interval_seconds;
          updated_at = now;
        })
    insert monitor_results (record {
      monitor_id = monitor.id;
      ts = now;
      status = MonitorStatus.down;
      latency_ms = none;
      detail = detail;
    })
    active_incident ←
        fetch_one incidents (is_active_for monitor.cols.node_id (down_title monitor.cols.name))
    if leb 2 failure_streak && not (is_some active_incident)
        then (do
          create_incident (some monitor.cols.node_id) none Severity.critical
              (down_title monitor.cols.name)
              (field "monitor_id" (num monitor.id)
                (field "reason" (str "encrypted_secret_unreadable") end))
              (some now)
          pure tt)
        else pure tt

  -- The rest of the loop's body, by whether the secret was read.
  unfoldable pub run_or_mark : Python → Option Dict → Row Monitor → ℕ → Tx (Unit {0})
  run_or_mark py none monitor now = mark_unreadable py monitor now
  run_or_mark py (some payload) monitor now = do queue_check monitor payload none now; pure tt

  unfoldable pub queue_due_monitor : Python → Row Monitor → ℕ → Tx (Unit {0})
  queue_due_monitor py monitor now = do
    active ← has_live_job monitor.cols.job_id
    if active then pure tt else run_or_mark py (run_payload decrypt monitor) monitor now

  -- ORDER BY next_run_at, id LIMIT 100: the rows come in the order of their ids, and the sort is
  -- stable. The join keeps the monitors whose node was seen since the cutoff.
  unfoldable pub queue_due_monitors : Python → ℕ → ℕ → Tx (Unit {0})
  queue_due_monitors py now online_cutoff = do
    online ← fetch_all nodes (λ n. seen_since online_cutoff n.cols.last_seen)
    rows ← fetch_all monitors (λ m.
        m.cols.enabled
        && leb m.cols.next_run_at now
        && any_row (λ (n : Row Node). n.id == m.cols.node_id) online)
    let due = take 100 (order_by (λ (m : Row Monitor). m.cols.next_run_at) rows)
    for_each due (λ monitor. queue_due_monitor py monitor now)
