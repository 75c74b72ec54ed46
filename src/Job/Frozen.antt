-- ===== src/Job/Frozen.antt =====
-- Results that change nothing.
use dark_noc.Base.{
  ◌==◌, Option-cases, first_row, any_row, first_row-test, any_row-first_row, ◌≡◌, refl, inl, inr,
  false, ◌&&◌, arith,
}
use dark_noc.Store.Schema.{Node, JobStatus, Job}
use dark_noc.Store.Bodies.{JobResult}
use dark_noc.Store.Table.{Row}
use dark_noc.Store.Hub.{Hub}
use dark_noc.Store.Tx.{◌>>=◌, settle}
use dark_noc.Job.{is_running}
use dark_noc.Job.Results.{accept_result, agent_job_result}
use dark_noc.Python.{Python}

accept_result-frozen :
    (status : JobStatus) (py : Python) (job : Row Job) (result : JobResult) (node : Row Node)
    (h : Hub)
    → is_running status ≡ false
    → settle h (accept_result status py job result node h) ≡ h
unfolding accept_result ◌>>=◌
accept_result-frozen JobStatus.queued py job result node h k = refl
accept_result-frozen JobStatus.running py job result node h k = cc
accept_result-frozen JobStatus.completed py job result node h k = ground arith
accept_result-frozen JobStatus.failed py job result node h k = ground arith

-- A result for a job that is not running changes nothing in the database, whatever it says: a
-- queued job, a job that already has its result, a job of another node or no job at all.
pub agent_job_result-frozen :
    (py : Python) (result : JobResult) (node : Row Node) (h : Hub)
    → any_row
        (λ j. j.id == result.job_id && j.cols.node_id == node.id && is_running j.cols.status)
        h.job_table.rows
      ≡ false
    → settle h (agent_job_result py result node h) ≡ h
unfolding agent_job_result ◌>>=◌
agent_job_result-frozen py result node h k =
    elim (Option-cases (
      first_row (λ (j : Row Job). j.id == result.job_id && j.cols.node_id == node.id)
        h.job_table.rows)) [
          | inl e ↦ rw e refl
          | inr (job, e) ↦
              let mine = first_row-test _ h.job_table.rows job e in
              let idle = any_row-first_row _ _ h.job_table.rows job k e in
              rw e (accept_result-frozen job.cols.status py job result node h (ground arith))
        ]
