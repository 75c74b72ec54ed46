-- ===== src/Job/Accepted.antt =====
-- A job's result, with everything that it sets off, keeps the database consistent.
use dark_noc.Base.{ℕ, refl, Bool, true, false, Option, none, some, arith}
use dark_noc.Base.Json.{Json, obj, Dict}
use dark_noc.Store.Schema.{
  Node, Incident, JobKind, JobStatus, Job, Lifecycle, Deployment, Monitor, FleetItem,
}
use dark_noc.Store.Bodies.{Outcome, JobResult}
use dark_noc.Store.Table.{Row}
use dark_noc.Store.Tx.{crash}
use dark_noc.Store.Valid.{JobShape, IsDeployment, StreakShape}
use dark_noc.Store.Keeps.{Keeps, Keeps-pure, Keeps-throw}
use dark_noc.Store.Governed.{keeps_rules}
use dark_noc.Fleet.Finalize.{finalize_fleet_operation-Keeps}
use dark_noc.Incident.Keeps.{incident_rules}
use dark_noc.Job.{job_status}
use dark_noc.Job.Keeps.{parsed-Keeps, record_certificate-Keeps}
use dark_noc.Job.Reports.{
  Report, up_or_down, streak, read_report, monitor_incident, update_monitor, record_monitor,
}
use dark_noc.Job.Results.{
  record_fleet_item, side_status, Side, with_job, set_lifecycle, roll_back, advance_deployment,
  record_deployment, record_effects, finish_job, accept_result, agent_job_result,
}
use dark_noc.Python.{Python}

streak-Shape : (is_up : Bool) (n : ℕ) → StreakShape (up_or_down is_up) (streak is_up n)
streak-Shape true n = refl
streak-Shape false n = omega arith

module _ (py : Python) where
  read_report-Keeps : (o : Option Json) (result : JobResult) → Keeps (read_report py o result)
  unfolding read_report
  read_report-Keeps none result = Keeps-pure _
  read_report-Keeps (some (obj report)) result = Keeps-pure _
  read_report-Keeps (some _) result = Keeps-throw crash

  monitor_incident-Keeps :
      (monitor : Row Monitor) (node : Row Node) (report : Report) (n at : ℕ)
      (active : Option (Row Incident))
      → Keeps (monitor_incident py monitor node report n at active)
  unfolding monitor_incident
  monitor_incident-Keeps monitor node report n at none =
      search (keeps_rules, incident_rules) depth 12
  monitor_incident-Keeps monitor node report n at (some incident) =
      search (keeps_rules, incident_rules) depth 12

  update_monitor-Keeps :
      (monitor : Option (Row Monitor)) (result : JobResult) (node : Row Node)
      → Keeps (update_monitor py monitor result node)
  unfolding update_monitor
  update_monitor-Keeps none result node = Keeps-pure none
  update_monitor-Keeps (some monitor) result node =
      search (keeps_rules, read_report-Keeps, monitor_incident-Keeps, streak-Shape) depth 20

  record_monitor-Keeps :
      (kind : JobKind) (payload : Dict) (result : JobResult) (node : Row Node)
      → Keeps (record_monitor py kind payload result node)
  unfolding record_monitor
  record_monitor-Keeps JobKind.monitor_run payload result node =
      search (keeps_rules, parsed-Keeps, update_monitor-Keeps) depth 14
  record_monitor-Keeps _ payload result node = Keeps-pure none

record_fleet_item-Keeps :
    (item : Option (Row FleetItem)) (result : JobResult) → Keeps (record_fleet_item item result)
unfolding record_fleet_item
record_fleet_item-Keeps none result = Keeps-pure tt
record_fleet_item-Keeps (some item) result =
    search (keeps_rules, finalize_fleet_operation-Keeps) depth 12

side_status-Keeps : (job : Option ℕ) → Keeps (side_status job)
unfolding side_status
side_status-Keeps job = search (keeps_rules, parsed-Keeps) depth 12

set_lifecycle-Keeps : (n : ℕ) (l : Lifecycle) → Keeps (set_lifecycle n l)
unfolding set_lifecycle
set_lifecycle-Keeps n l = search keeps_rules depth 12

with_job-IsDeployment :
    (side : Side) (job : ℕ) (d : Deployment) → IsDeployment d → IsDeployment (with_job side job d)
with_job-IsDeployment Side.iran job d k = k
with_job-IsDeployment Side.kharej job d k = k

roll_back-Keeps : (d : Row Deployment) (side : Side) → Keeps (roll_back d side)
unfolding roll_back
roll_back-Keeps d side = search (keeps_rules, with_job-IsDeployment) depth 16

advance_deployment-Keeps :
    (l : Lifecycle) (d : Row Deployment) (side : Option Side) (status : Outcome)
    → Keeps (advance_deployment l d side status)
unfolding advance_deployment
advance_deployment-Keeps Lifecycle.active d none status = Keeps-pure tt
advance_deployment-Keeps Lifecycle.active d (some side) status = roll_back-Keeps d side
advance_deployment-Keeps Lifecycle.rolling_back d side Outcome.completed = set_lifecycle-Keeps _ _
advance_deployment-Keeps Lifecycle.rolling_back d side Outcome.failed = set_lifecycle-Keeps _ _
advance_deployment-Keeps Lifecycle.removing d side status = Keeps-pure tt
advance_deployment-Keeps Lifecycle.rolled_back d side status = Keeps-pure tt
advance_deployment-Keeps Lifecycle.rollback_failed d side status = Keeps-pure tt

record_deployment-Keeps :
    (d : Option (Row Deployment)) (result : JobResult) → Keeps (record_deployment d result)
unfolding record_deployment
record_deployment-Keeps none result = Keeps-pure tt
record_deployment-Keeps (some d) result =
    search (keeps_rules, side_status-Keeps, advance_deployment-Keeps) depth 14

record_effects-Keeps :
    (py : Python) (job : Row Job) (result : JobResult) (node : Row Node)
    → Keeps (record_effects py job result node)
unfolding record_effects
record_effects-Keeps py job result node =
    search
      (
        keeps_rules, record_certificate-Keeps, record_monitor-Keeps, record_fleet_item-Keeps,
        record_deployment-Keeps,
      )
      depth 18

finished :
    (status : Outcome) (started : Option ℕ) (now : ℕ)
    → JobShape (job_status status) started (some now) true
finished Outcome.completed started now = (refl, refl)
finished Outcome.failed started now = (refl, refl)

finish_job-Keeps : (result : JobResult) → Keeps (finish_job result)
unfolding finish_job
finish_job-Keeps result = search (keeps_rules, finished) depth 12

accept_result-Keeps :
    (status : JobStatus) (py : Python) (job : Row Job) (result : JobResult) (node : Row Node)
    → Keeps (accept_result status py job result node)
unfolding accept_result
accept_result-Keeps JobStatus.queued py job result node = Keeps-throw _
accept_result-Keeps JobStatus.running py job result node =
    search (keeps_rules, finish_job-Keeps, record_effects-Keeps) depth 12
accept_result-Keeps JobStatus.completed py job result node = search keeps_rules depth 12
accept_result-Keeps JobStatus.failed py job result node = search keeps_rules depth 12

pub agent_job_result-Keeps :
    (py : Python) (result : JobResult) (node : Row Node) → Keeps (agent_job_result py result node)
unfolding agent_job_result
agent_job_result-Keeps py result node = search (keeps_rules, accept_result-Keeps) depth 12
