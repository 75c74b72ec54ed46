-- ===== src/Maintenance.antt =====
-- One maintenance cycle: `run_maintenance_cycle` of hub/maintenance_runtime.py. The raw metrics,
-- their rollups, the samples of tunnels and the audit log are not part of the model's database.
pub mod Keeps
pub mod Expiry
pub mod Requeue
use dark_noc.Base.{
  ltb, leb, ◌==◌, if◌then◌else◌, is_some, concat, is_ref, any_row, ℕ, ◌+◌, ◌-◌, ◌*◌, String, Bool,
  true, false, not, ◌&&◌, Option, none, some, [], ◌∷◌,
}
use dark_noc.Base.Json.{str, end, field}
use dark_noc.Store.Schema.{
  NodeStatus, Node, Severity, Incident, JobStatus, CertificateStatus, Certificate,
}
use dark_noc.Store.Table.{Row}
use dark_noc.Store.Hub.{nodes, sessions, incidents, jobs, certificates, monitor_results}
use dark_noc.Store.Tx.{
  Tx, pure, utc_ts, insert, update, delete, fetch_one, fetch_all, ◌>>=◌, ◌>>◌, for_each,
}
use dark_noc.Store.Cascade.{delete_jobs}
use dark_noc.Certificates.{certificate_job, renew_payload, is_valid}
use dark_noc.Fleet.Due.{queue_due_fleet_operations}
use dark_noc.Incident.{create_incident, is_active, is_active_for, resolve_incident}
use dark_noc.Job.{is_running}
use dark_noc.Monitoring.Due.{has_live_job, queue_due_monitors}
use dark_noc.Python.{Python}

abbrev pub offline_title : String → String
offline_title name = concat ("Node " ∷ name ∷ " is offline" ∷ [])

-- last_seen IS NOT NULL AND last_seen < now - node_stale_after
abbrev pub is_stale : ℕ → ℕ → Option ℕ → Bool
is_stale now node_stale_after none = false
is_stale now node_stale_after (some t) = ltb (t + node_stale_after) now

-- last_seen >= now - node_stale_after
abbrev pub is_online : ℕ → ℕ → Option ℕ → Bool
is_online now node_stale_after none = false
is_online now node_stale_after (some t) = leb now (t + node_stale_after)

-- The incident of a node that went silent, unless it has one.
unfoldable pub report_stale : Row Node → Tx (Unit {0})
report_stale stale = do
  known ← fetch_one incidents (is_active_for stale.id (offline_title stale.cols.name))
  if is_some known then pure tt else (do
    create_incident (some stale.id) none Severity.critical (offline_title stale.cols.name)
        (field "reason" (str "heartbeat_timeout") end) none
    pure tt)

-- title LIKE 'Node % is offline', with SQLite's LIKE as a parameter
abbrev pub is_offline_incident : (String → String → Bool) → ℕ → Row Incident → Bool
is_offline_incident like node_id i =
    is_ref i.cols.node_id node_id
    && not (is_some i.cols.tunnel_id)
    && like i.cols.title "Node % is offline"
    && is_active i.cols.status

unfoldable pub report_recovered : (String → String → Bool) → Row Node → Tx (Unit {0})
report_recovered like online = do
  rows ← fetch_all incidents (is_offline_incident like online.id)
  for_each rows (λ i. (do resolve_incident i.id "Agent heartbeat recovered" none none; pure tt))

-- The nodes that went silent or came back, and the sessions that ended.
unfoldable pub watch_nodes : (String → String → Bool) → ℕ → ℕ → Tx (Unit {0})
watch_nodes like now node_stale_after = do
  stale_nodes ← fetch_all nodes (λ n. is_stale now node_stale_after n.cols.last_seen)
  for_each stale_nodes report_stale
  online_nodes ← fetch_all nodes (λ n. is_online now node_stale_after n.cols.last_seen)
  for_each online_nodes (report_recovered like)
  update nodes (λ n. is_stale now node_stale_after n.cols.last_seen)
      (λ n. record n { status = NodeStatus.offline })
  delete sessions (λ s. ltb s.cols.expires_at now)

-- t < now - age
abbrev pub is_older : ℕ → ℕ → Option ℕ → Bool
is_older now age none = false
is_older now age (some t) = ltb (t + age) now

-- The jobs of an agent that stopped renewing its lease go back to the queue.
unfoldable pub requeue_lost_jobs : ℕ → Tx (Unit {0})
requeue_lost_jobs now = do
  update jobs (λ j. is_running j.cols.status && is_older now (5 * 60) j.cols.started_at)
      (λ j. record j { status = JobStatus.queued; started_at = none })
  pure tt

-- Retention around it.
unfoldable pub tidy_jobs : ℕ → ℕ → Tx (Unit {0})
tidy_jobs now monitor_result_retention_days = do
  delete monitor_results (λ r. ltb (r.cols.ts + monitor_result_retention_days * 86400) now)
  requeue_lost_jobs now
  delete_jobs (λ j. is_older now (90 * 86400) j.cols.finished_at)

-- expires_at BETWEEN ? AND ?
abbrev pub is_between : ℕ → ℕ → Option ℕ → Bool
is_between low high none = false
is_between low high (some t) = leb low t && leb t high

abbrev pub is_past : ℕ → Option ℕ → Bool
is_past now none = false
is_past now (some t) = leb t now

-- status IN ('valid','expiring')
abbrev pub is_renewable : CertificateStatus → Bool
is_renewable CertificateStatus.valid = true
is_renewable CertificateStatus.expiring = true
is_renewable _ = false

unfoldable pub age_certificates : ℕ → Tx (Unit {0})
age_certificates now = do
  update certificates (λ c. is_past now c.cols.expires_at)
      (λ c. record c { status = CertificateStatus.expired; updated_at = now })
  update certificates
      (λ c. is_valid c.cols.status && is_between now (now + 14 * 86400) c.cols.expires_at)
      (λ c. record c { status = CertificateStatus.expiring; updated_at = now })
  pure tt

-- if pending: continue
unfoldable pub renew : ℕ → Row Certificate → Tx (Unit {0})
renew now cert = do
  pending_job ← has_live_job cert.cols.job_id
  if pending_job then pure tt else (do
    job_id ←
        insert jobs
          (certificate_job cert.cols.node_id (renew_payload cert.id cert.cols.domain) none now)
    update certificates (λ c. c.id == cert.id)
        (λ c. record c {
          status = CertificateStatus.renewing;
          job_id = some job_id;
          updated_at = now;
        })
    pure tt)

unfoldable pub renew_certificates : ℕ → ℕ → Tx (Unit {0})
renew_certificates now node_stale_after = do
  online ← fetch_all nodes (λ n. is_online now node_stale_after n.cols.last_seen)
  renewable ← fetch_all certificates (λ c.
      is_renewable c.cols.status
      && is_between now (now + 30 * 86400) c.cols.expires_at
      && any_row (λ (n : Row Node). n.id == c.cols.node_id) online)
  for_each renewable (renew now)

-- The whole cycle, one transaction.
unfoldable pub run_maintenance_cycle :
    Python
    → (Option String → Option (Option String))
    → (String → String → Bool)
    → ℕ
    → ℕ
    → Tx (Unit {0})
run_maintenance_cycle py decrypt like node_stale_after monitor_result_retention_days = do
  now ← utc_ts
  watch_nodes like now node_stale_after
  tidy_jobs now monitor_result_retention_days
  age_certificates now
  renew_certificates now node_stale_after
  queue_due_monitors decrypt py now (now - node_stale_after)
  queue_due_fleet_operations now
