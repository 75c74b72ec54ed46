-- ===== src/Job.antt =====
-- The job queue of the agents: `agent_jobs`, `agent_job_result` and `renew_agent_job_lease` of
-- hub/agent_control_router.py. The node of a request is the one that its token authenticates.
pub mod Outcomes
pub mod Reports
pub mod Results
pub mod Keeps
pub mod Accepted
pub mod Queue
pub mod Frozen
pub mod Rollback
pub mod Unchanged
pub mod Recorded
use dark_noc.Base.{◌==◌, ℕ, String, Bool, true, false, not, ◌&&◌, ◌||◌, Option, none, some, str_eq}
use dark_noc.Store.Schema.{Node, JobStatus, Job}
use dark_noc.Store.Bodies.{Outcome}
use dark_noc.Store.Table.{Row}
use dark_noc.Store.Hub.{jobs}
use dark_noc.Store.Tx.{Tx, pure, reject_if, utc_ts, update, fetch_one, ◌>>=◌, ◌>>◌}

abbrev pub is_queued : JobStatus → Bool
is_queued JobStatus.queued = true
is_queued _ = false

abbrev pub is_running : JobStatus → Bool
is_running JobStatus.running = true
is_running _ = false

-- status IN ('queued','running')
abbrev pub is_live : JobStatus → Bool
is_live s = is_queued s || is_running s

-- status IN ('completed','failed')
abbrev pub is_done : JobStatus → Bool
is_done s = not (is_live s)

-- UPDATE … WHERE id=(SELECT … ORDER BY id LIMIT 1) AND status='queued' RETURNING …
unfoldable pub claim : Option (Row Job) → ℕ → Tx (Option (Row Job))
claim none now = pure none
claim (some job) now = do
  update jobs (λ j. j.id == job.id && is_queued j.cols.status)
      (λ j. record j { status = JobStatus.running; started_at = some now })
  pure (some job)

unfoldable pub agent_jobs : Row Node → Tx (Option (Row Job))
agent_jobs node = do
  now ← utc_ts
  first ← fetch_one jobs (λ j. j.cols.node_id == node.id && is_queued j.cols.status)
  claim first now

unfoldable pub renew_agent_job_lease : ℕ → Row Node → Tx (Unit {0})
renew_agent_job_lease job_id node = do
  now ← utc_ts
  changed ←
      update jobs (λ j. j.id == job_id && j.cols.node_id == node.id && is_running j.cols.status)
        (λ j. record j { started_at = some now })
  reject_if (not (changed == 1)) 409 "Job is no longer running on this node"

abbrev pub job_status : Outcome → JobStatus
job_status Outcome.completed = JobStatus.completed
job_status Outcome.failed = JobStatus.failed

abbrev pub is_completed : Outcome → Bool
is_completed Outcome.completed = true
is_completed Outcome.failed = false

abbrev pub same_status : JobStatus → Outcome → Bool
same_status JobStatus.completed Outcome.completed = true
same_status JobStatus.failed Outcome.failed = true
same_status _ _ = false

abbrev pub same_output : Option String → String → Bool
same_output none output = false
same_output (some s) output = str_eq s output
