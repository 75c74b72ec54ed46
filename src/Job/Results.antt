-- ===== src/Job/Results.antt =====
-- `agent_job_result` of hub/agent_control_router.py: a job's result and everything it sets off.
use dark_noc.Base.{◌==◌, is_ref, ℕ, String, not, ◌&&◌, ◌||◌, Option, none, some}
use dark_noc.Base.Json.{str, end, field}
use dark_noc.Store.Schema.{
  Node, JobKind, JobStatus, Job, Lifecycle, Deployment, FleetStatus, FleetItem,
}
use dark_noc.Store.Bodies.{Outcome, JobResult}
use dark_noc.Store.Table.{Row}
use dark_noc.Store.Hub.{jobs, plugin_deployments, fleet_operation_items}
use dark_noc.Store.Tx.{
  Error, Tx, pure, throw, found, reject_if, utc_ts, insert, update, fetch_one, ◌>>=◌, ◌>>◌,
}
use dark_noc.Fleet.{finalize_fleet_operation}
use dark_noc.Job.{job_status, same_status, same_output}
use dark_noc.Job.Outcomes.{parsed, record_certificate}
use dark_noc.Job.Reports.{record_monitor}
use dark_noc.Python.{Python}

abbrev pub fleet_status : Outcome → FleetStatus
fleet_status Outcome.completed = FleetStatus.completed
fleet_status Outcome.failed = FleetStatus.failed

-- if fleet_item:
unfoldable pub record_fleet_item : Option (Row FleetItem) → JobResult → Tx (Unit {0})
record_fleet_item none result = pure tt
record_fleet_item (some item) result = do
  update fleet_operation_items (λ i. i.id == item.id)
      (λ i. record i { status = fleet_status result.status })
  finalize_fleet_operation item.cols.operation_id

-- conn.execute("SELECT status FROM jobs WHERE id=?", …).fetchone()["status"]: a job that was
-- deleted has no row, and None["status"] is a TypeError.
unfoldable pub side_status : Option ℕ → Tx JobStatus
side_status job_id = do
  job ← fetch_one jobs (λ j. is_ref job_id j.id)
  row ← parsed job
  pure row.cols.status

-- Which side completed where the other failed, with the node to roll back.
pub data Side : Type 0 where
  iran kharej : Side

-- statuses == {"completed", "failed"}
abbrev pub diverged : JobStatus → JobStatus → Option Side
diverged JobStatus.completed JobStatus.failed = some Side.iran
diverged JobStatus.failed JobStatus.completed = some Side.kharej
diverged _ _ = none

abbrev pub node_of : Side → Deployment → ℕ
node_of Side.iran d = d.iran_node_id
node_of Side.kharej d = d.kharej_node_id

abbrev pub with_job : Side → ℕ → Deployment → Deployment
with_job Side.iran job d = record d { iran_job_id = some job; lifecycle = Lifecycle.rolling_back }
with_job Side.kharej job d = record d {
  kharej_job_id = some job;
  lifecycle = Lifecycle.rolling_back;
}

unfoldable pub set_lifecycle : ℕ → Lifecycle → Tx (Unit {0})
set_lifecycle deployment_id lifecycle = do
  update plugin_deployments (λ d. d.id == deployment_id) (λ d. record d { lifecycle = lifecycle })
  pure tt

unfoldable pub roll_back : Row Deployment → Side → Tx (Unit {0})
roll_back deployment side = do
  now ← utc_ts
  rollback_job ← insert jobs (record {
    node_id = node_of side deployment.cols;
    kind = JobKind.plugin_remove;
    payload =
        field "plugin_id" (str deployment.cols.plugin_id)
          (field "name" (str deployment.cols.name) end);
    status = JobStatus.queued;
    output = none;
    created_by = deployment.cols.created_by;
    created_at = now;
    started_at = none;
    finished_at = none;
  })
  update plugin_deployments (λ d. d.id == deployment.id) (with_job side rollback_job)
  pure tt

-- The three branches on the deployment's lifecycle.
unfoldable pub advance_deployment :
    Lifecycle → Row Deployment → Option Side → Outcome → Tx (Unit {0})
advance_deployment Lifecycle.active deployment (some side) status = roll_back deployment side
advance_deployment Lifecycle.rolling_back deployment side Outcome.completed =
    set_lifecycle deployment.id Lifecycle.rolled_back
advance_deployment Lifecycle.rolling_back deployment side Outcome.failed =
    set_lifecycle deployment.id Lifecycle.rollback_failed
advance_deployment _ deployment side status = pure tt

-- if deployment:
unfoldable pub record_deployment : Option (Row Deployment) → JobResult → Tx (Unit {0})
record_deployment none result = pure tt
record_deployment (some deployment) result = do
  iran_status ← side_status deployment.cols.iran_job_id
  kharej_status ← side_status deployment.cols.kharej_job_id
  advance_deployment deployment.cols.lifecycle deployment (diverged iran_status kharej_status)
      result.status

-- Everything that follows once the job has taken its result; the answer is the notification.
unfoldable pub record_effects : Python → Row Job → JobResult → Row Node → Tx (Option String)
record_effects py job result node = do
  record_certificate py job.cols.kind job.cols.payload result node
  notification ← record_monitor py job.cols.kind job.cols.payload result node
  fleet_item ← fetch_one fleet_operation_items (λ i. is_ref i.cols.job_id result.job_id)
  record_fleet_item fleet_item result
  deployment ←
      fetch_one plugin_deployments
        (λ d. is_ref d.cols.iran_job_id result.job_id || is_ref d.cols.kharej_job_id result.job_id)
  record_deployment deployment result
  pure notification

unfoldable pub finish_job : JobResult → Tx (Unit {0})
finish_job result = do
  now ← utc_ts
  update jobs (λ j. j.id == result.job_id)
      (λ j. record j {
        status = job_status result.status;
        output = some result.output;
        finished_at = some now;
      })
  pure tt

-- By the status of the job when its result arrives.
unfoldable pub accept_result :
    JobStatus → Python → Row Job → JobResult → Row Node → Tx (Option String)
accept_result JobStatus.running py job result node = do
  finish_job result
  record_effects py job result node
accept_result JobStatus.queued py job result node =
    throw (Error.http 409 "Only a running job can accept a result")
accept_result status py job result node = do
  reject_if (not (same_status status result.status && same_output job.cols.output result.output))
      409 "Job already has a different terminal result"
  pure none

unfoldable pub agent_job_result : Python → JobResult → Row Node → Tx (Option String)
agent_job_result py result node = do
  row ← fetch_one jobs (λ j. j.id == result.job_id && j.cols.node_id == node.id)
  job ← found row 404 "Job not found"
  accept_result job.cols.status py job result node
