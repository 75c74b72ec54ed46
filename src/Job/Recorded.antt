-- ===== src/Job/Recorded.antt =====
-- The result of a running job is recorded, and kept.
use mathlib.Core.Path.{subst}
use dark_noc.Base.{◌==◌, ℕ, String, ◌≡◌, refl, sym, ◌∙◌, true, Option, none, some, arith, eq_iff}
use dark_noc.Store.Schema.{Node, JobStatus, Job}
use dark_noc.Store.Bodies.{Outcome, JobResult}
use dark_noc.Store.Table.{Row, find, find-update, find-id}
use dark_noc.Store.Hub.{Hub}
use dark_noc.Store.Tx.{Result, ok, ◌>>=◌, settle}
use dark_noc.Store.Lookup.{find-also}
use dark_noc.Store.Frame.{Reads}
use dark_noc.Job.{job_status}
use dark_noc.Job.Results.{record_effects, finish_job, accept_result, agent_job_result}
use dark_noc.Job.Unchanged.{record_effects-Spares}
use dark_noc.Python.{Python}

-- The row of a job that has taken a result at a time.
abbrev pub with_result : JobResult → ℕ → Row Job → Row Job
with_result result now job = record job {
  cols = record job.cols {
    status = job_status result.status;
    output = some result.output;
    finished_at = some now;
  };
}

-- The database in which the job has taken the result, before its effects.
abbrev taken : JobResult → Hub → Hub
taken result h = settle h (finish_job result h)

taken-find :
    (result : JobResult) (h : Hub) (job : Row Job)
    → find result.job_id h.job_table.rows ≡ some job
    → find result.job_id (taken result h).job_table.rows
      ≡ some (with_result result (h.clock h.readings) job)
unfolding finish_job ◌>>=◌
taken-find result h job e = grind (arith, find-update, find-id result.job_id h.job_table.rows job e)

kept :
    (result : JobResult) (row : Row Job) (h h' : Hub) (a : Option String)
    (x : Result (Option String × Hub))
    → Reads result.job_id row x
    → x ≡ ok (a, h')
    → find result.job_id h'.job_table.rows ≡ some row
kept result row h h' a x k e = subst (Reads result.job_id row) e k

accept_result-again :
    (s : Outcome) (py : Python) (row : Row Job) (result : JobResult) (node : Row Node) (h : Hub)
    → result.status ≡ s
    → row.cols.output ≡ some result.output
    → accept_result (job_status s) py row result node h ≡ ok (none, h)
unfolding accept_result ◌>>=◌
accept_result-again Outcome.completed py row result node h q o =
    rw (q, o, (eq_iff result.output result.output).1 refl) refl
accept_result-again Outcome.failed py row result node h q o =
    rw (q, o, (eq_iff result.output result.output).1 refl) refl

again :
    (py : Python) (result : JobResult) (node : Row Node) (now : ℕ) (job : Row Job) (h : Hub)
    → find result.job_id h.job_table.rows ≡ some (with_result result now job)
    → (job.cols.node_id == node.id) ≡ true
    → agent_job_result py result node h ≡ ok (none, h)
unfolding agent_job_result ◌>>=◌
again py result node now job h e m =
    let there =
      find-also result.job_id (λ j. j.cols.node_id == node.id) h.job_table.rows
        (with_result result now job) e m in
    rw there
      (accept_result-again result.status py (with_result result now job) result node h refl refl)

accept_result-running :
    (s : JobStatus) (py : Python) (job : Row Job) (result : JobResult) (node : Row Node) (h : Hub)
    → s ≡ JobStatus.running
    → accept_result s py job result node h ≡ record_effects py job result node (taken result h)
unfolding accept_result finish_job ◌>>=◌
accept_result-running JobStatus.queued py job result node h q = absurd cc
accept_result-running JobStatus.running py job result node h q = refl
accept_result-running JobStatus.completed py job result node h q = absurd cc
accept_result-running JobStatus.failed py job result node h q = absurd cc

accepted :
    (py : Python) (result : JobResult) (node : Row Node) (h : Hub) (job : Row Job)
    → find result.job_id h.job_table.rows ≡ some job
    → (job.cols.node_id == node.id) ≡ true
    → job.cols.status ≡ JobStatus.running
    → agent_job_result py result node h ≡ record_effects py job result node (taken result h)
unfolding agent_job_result ◌>>=◌
accepted py result node h job e m s =
    let there = find-also result.job_id (λ j. j.cols.node_id == node.id) h.job_table.rows job e m in
    rw there (accept_result-running job.cols.status py job result node h s)

-- When the request that reports a running job's result succeeds, the job has the status and output
-- that were reported, whatever else the result set off, and to report the same again succeeds and
-- changes nothing.
pub agent_job_result-recorded :
    (py : Python) (result : JobResult) (node : Row Node) (h h' : Hub) (job : Row Job)
    (notification : Option String)
    → find result.job_id h.job_table.rows ≡ some job
    → (job.cols.node_id == node.id) ≡ true
    → job.cols.status ≡ JobStatus.running
    → agent_job_result py result node h ≡ ok (notification, h')
    → (find result.job_id h'.job_table.rows ≡ some (with_result result (h.clock h.readings) job))
      × (agent_job_result py result node h' ≡ ok (none, h'))
agent_job_result-recorded py result node h h' job notification e m s k =
    let row = with_result result (h.clock h.readings) job in
    let spared =
      (record_effects-Spares result.job_id row py job result node).at (taken result h)
        (taken-find result h job e) in
    let stays =
      kept result row h h' notification _ spared (sym (accepted py result node h job e m s) ∙ k) in
    (stays, again py result node (h.clock h.readings) job h' stays m)
