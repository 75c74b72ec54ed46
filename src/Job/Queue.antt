-- ===== src/Job/Queue.antt =====
-- The queue that an agent sees: oldest job first, and each job to one poll only.
use dark_noc.Base.{
  ◌==◌, and_right, first_row-test, ℕ, suc, ◌≤◌, ◌≡◌, refl, true, ◌&&◌, Option, none, some, arith,
}
use dark_noc.Store.Schema.{Node, JobStatus, Job}
use dark_noc.Store.Table.{Row, find, find-update}
use dark_noc.Store.Hub.{Hub}
use dark_noc.Store.Tx.{◌>>=◌, Result, ok, err, settle}
use dark_noc.Store.Valid.{Consistent}
use dark_noc.Store.Lookup.{first_row-least, find-first_row}
use dark_noc.Job.{is_queued, claim, agent_jobs}

abbrev pub claimed_job : Result (Option (Row Job) × Hub) → Option (Row Job)
claimed_job (ok (job, h)) = job
claimed_job (err e) = none

abbrev pub job_state : Option (Row Job) → Option JobStatus
job_state none = none
job_state (some j) = some j.cols.status

is_queued-queued : (s : JobStatus) → is_queued s ≡ true → s ≡ JobStatus.queued
is_queued-queued JobStatus.queued e = refl
is_queued-queued JobStatus.running e = absurd (cc e)
is_queued-queued JobStatus.completed e = absurd (cc e)
is_queued-queued JobStatus.failed e = absurd (cc e)

claim-runs :
    (job : Row Job) (now : ℕ) (h before : Hub)
    → find job.id h.job_table.rows ≡ some job
    → is_queued job.cols.status ≡ true
    → job_state (find job.id (settle before (claim (some job) now h)).job_table.rows)
      ≡ some JobStatus.running
unfolding claim ◌>>=◌
claim-runs job now h before e q = grind (arith, find-update)

-- In a consistent database: when an agent polls and any job is queued for its node, the poll claims
-- a job that was queued for this node, none of the node's queued jobs is older than that one, and
-- the job is running afterwards.
pub agent_jobs-oldest :
    (h : Hub) (node : Row Node) (n : ℕ) (waiting : Row Job)
    → Consistent h
    → find n h.job_table.rows ≡ some waiting
    → waiting.cols.node_id ≡ node.id
    → waiting.cols.status ≡ JobStatus.queued
    → (job : Row Job) × ((claimed_job (agent_jobs node h) ≡ some job)
        × ((find job.id h.job_table.rows ≡ some job)
            × ((job.cols.node_id ≡ node.id)
                × ((job.cols.status ≡ JobStatus.queued)
                    × ((job.id ≤ n)
                        × (job_state (find job.id (settle h (agent_jobs node h)).job_table.rows)
                            ≡ some JobStatus.running))))))
unfolding agent_jobs claim ◌>>=◌
agent_jobs-oldest h node n waiting c e own_node is_waiting =
    let waits : (waiting.cols.node_id == node.id && is_queued waiting.cols.status) ≡ true =
      rw is_waiting (ground (arith, own_node)) in
    let first =
      first_row-least 0 n (λ (j : Row Job). j.cols.node_id == node.id && is_queued j.cols.status)
        h.job_table.rows h.job_table.next_id waiting c.jobs.rising e waits in
    let own = first_row-test _ h.job_table.rows first.0 first.1.0 in
    let there = find-first_row 0 _ h.job_table.rows _ first.0 c.jobs.rising first.1.0 in
    (
      first.0,
      (
        rw first.1.0 refl,
        (
          there,
          (
            ground (arith, own),
            (
              is_queued-queued first.0.cols.status (and_right _ _ own),
              (
                first.1.1,
                rw first.1.0 (
                    claim-runs first.0 (h.clock h.readings) (record h { readings = suc h.readings })
                      h there (and_right _ _ own)),
              ),
            ),
          ),
        ),
      ),
    )
