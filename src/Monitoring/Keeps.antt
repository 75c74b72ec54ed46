-- ===== src/Monitoring/Keeps.antt =====
-- Every operation on monitors keeps the database consistent.
use dark_noc.Base.{ℕ, suc, ◌<◌, String, Option, none, some, arith}
use dark_noc.Base.Json.{Dict}
use dark_noc.Store.Schema.{MonitorKind, Monitor}
use dark_noc.Store.Bodies.{MonitorBody}
use dark_noc.Store.Table.{Row}
use dark_noc.Store.Tx.{Tx}
use dark_noc.Store.Keeps.{Keeps}
use dark_noc.Store.Governed.{keeps_rules, delete_monitors-Keeps}
use dark_noc.Incident.Keeps.{create_incident-Keeps, resolve_incident-Keeps}
use dark_noc.Job.Keeps.{parsed-Keeps}
use dark_noc.Monitoring.{
  Values, valid_target, monitor_values, create_monitor_mutation, update_monitor_mutation,
  delete_monitor_mutation,
}
use dark_noc.Monitoring.Due.{
  has_live_job, queue_check, queue_monitor_run_mutation, mark_unreadable, run_or_mark,
  queue_due_monitor, queue_due_monitors,
}
use dark_noc.Python.{Python}

module _ (py : Python) (validate_host : String → Option String) where
  valid_target-Keeps :
      (kind : MonitorKind) (target : String) → Keeps (valid_target py validate_host kind target)
  unfolding valid_target
  valid_target-Keeps kind target = search (keeps_rules, parsed-Keeps) depth 16

  pub monitor_values-Keeps :
      (encrypt : Option String → Option String) (body : MonitorBody) (secret : Option String)
      → Keeps (monitor_values py validate_host encrypt body secret)
  unfolding monitor_values
  monitor_values-Keeps encrypt body secret = search (keeps_rules, valid_target-Keeps) depth 16

module _ (values : MonitorBody → Option String → Tx Values) where
  pub create_monitor-Keeps :
      ((body : MonitorBody) (secret : Option String) → Keeps (values body secret))
      → (body : MonitorBody) (user_id now : ℕ)
      → Keeps (create_monitor_mutation values body user_id now)
  unfolding create_monitor_mutation
  create_monitor-Keeps k body user_id now = search (keeps_rules, k) depth 16

  pub update_monitor-Keeps :
      ((body : MonitorBody) (secret : Option String) → Keeps (values body secret))
      → (n : ℕ) (body : MonitorBody) (user_id now : ℕ)
      → Keeps (update_monitor_mutation values n body user_id now)
  unfolding update_monitor_mutation
  update_monitor-Keeps k n body user_id now =
      search (keeps_rules, k, resolve_incident-Keeps) depth 24

pub delete_monitor-Keeps : (n user_id : ℕ) → Keeps (delete_monitor_mutation n user_id)
unfolding delete_monitor_mutation
delete_monitor-Keeps n user_id =
    search (keeps_rules, delete_monitors-Keeps, resolve_incident-Keeps) depth 16

pub has_live_job-Keeps : (job : Option ℕ) → Keeps (has_live_job job)
unfolding has_live_job
has_live_job-Keeps job = search keeps_rules depth 12

queue_check-Keeps :
    (m : Row Monitor) (payload : Dict) (by : Option ℕ) (now : ℕ)
    → Keeps (queue_check m payload by now)
unfolding queue_check
queue_check-Keeps m payload by now = search keeps_rules depth 16

module _ (decrypt : Option String → Option (Option String)) where
  pub queue_monitor_run-Keeps :
      (stale n user_id now : ℕ) → Keeps (queue_monitor_run_mutation decrypt stale n user_id now)
  unfolding queue_monitor_run_mutation
  queue_monitor_run-Keeps stale n user_id now =
      search (keeps_rules, has_live_job-Keeps, queue_check-Keeps) depth 20

  some_failure : (n : ℕ) → 0 < suc n
  some_failure n = omega arith

  mark_unreadable-Keeps :
      (py : Python) (m : Row Monitor) (now : ℕ) → Keeps (mark_unreadable decrypt py m now)
  unfolding mark_unreadable
  mark_unreadable-Keeps py m now =
      search (keeps_rules, create_incident-Keeps, some_failure) depth 20

  run_or_mark-Keeps :
      (py : Python) (payload : Option Dict) (m : Row Monitor) (now : ℕ)
      → Keeps (run_or_mark decrypt py payload m now)
  unfolding run_or_mark
  run_or_mark-Keeps py none m now = mark_unreadable-Keeps py m now
  run_or_mark-Keeps py (some payload) m now = search (keeps_rules, queue_check-Keeps) depth 12

  queue_due_monitor-Keeps :
      (py : Python) (m : Row Monitor) (now : ℕ) → Keeps (queue_due_monitor decrypt py m now)
  unfolding queue_due_monitor
  queue_due_monitor-Keeps py m now =
      search (keeps_rules, has_live_job-Keeps, run_or_mark-Keeps) depth 12

  pub queue_due_monitors-Keeps :
      (py : Python) (now cutoff : ℕ) → Keeps (queue_due_monitors decrypt py now cutoff)
  unfolding queue_due_monitors
  queue_due_monitors-Keeps py now cutoff = search (keeps_rules, queue_due_monitor-Keeps) depth 16
