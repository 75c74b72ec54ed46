-- ===== src/Maintenance/Requeue.antt =====
-- Which jobs a maintenance cycle puts back into the queue.
use dark_noc.Base.{
  ltb, if◌then◌else◌, Option-cases, ℕ, ◌+◌, ◌*◌, ◌≡◌, refl, inl, inr, ◌&&◌, Option, none, some,
  arith,
}
use dark_noc.Store.Schema.{Node, JobStatus, Job}
use dark_noc.Store.Table.{Row, find, amend_if, find-update}
use dark_noc.Store.Hub.{Hub}
use dark_noc.Store.Tx.{◌>>=◌, settle}
use dark_noc.Job.{is_running}
use dark_noc.Maintenance.{is_older, requeue_lost_jobs}

-- A running job whose claim or last renewal is more than five minutes before `now` waits again.
abbrev pub requeued : ℕ → JobStatus → Option ℕ → Row Job → Row Job
requeued now JobStatus.running (some t) j =
    if ltb (t + 300) now
    then record j { cols = record j.cols { status = JobStatus.queued; started_at = none } }
    else j
requeued now _ _ j = j

abbrev pub requeued_row : ℕ → Option (Row Job) → Option (Row Job)
requeued_row now none = none
requeued_row now (some j) = some (requeued now j.cols.status j.cols.started_at j)

abbrev put_back : ℕ → Row Job → Option (Row Job)
put_back now j =
    amend_if (λ j. is_running j.cols.status && is_older now (5 * 60) j.cols.started_at)
      (λ j. record j { status = JobStatus.queued; started_at = none }) (some j)

abbrev with_start : Row Job → JobStatus → Option ℕ → Row Job
with_start j s o = record j { cols = record j.cols { status = s; started_at = o } }

put_back-requeued :
    (now : ℕ) (j : Row Job) (s : JobStatus) (o : Option ℕ)
    → put_back now (with_start j s o) ≡ some (requeued now s o (with_start j s o))
put_back-requeued now j JobStatus.running none = refl
put_back-requeued now j JobStatus.running (some t) = ground arith
put_back-requeued now j _ o = refl

-- Putting lost jobs back at a time changes exactly the jobs that run and whose claim or last renewal
-- is more than five minutes before: they are queued without a start. Every other job reads as before.
pub requeue_lost_jobs-requeued :
    (now n : ℕ) (h : Hub)
    → find n (settle h (requeue_lost_jobs now h)).job_table.rows
      ≡ requeued_row now (find n h.job_table.rows)
unfolding requeue_lost_jobs ◌>>=◌
requeue_lost_jobs-requeued now n h =
    rw (find-update n) (elim (Option-cases (find n h.job_table.rows)) [
      | inl e ↦ rw e refl
      | inr (j, e) ↦ rw e (put_back-requeued now j j.cols.status j.cols.started_at)
    ])

abbrev pub state_of : Option (Row Job) → Option JobStatus
state_of none = none
state_of (some j) = some j.cols.status

module _ (job_id : ℕ) (node : Row Node) (h : Hub) (job : Row Job) where
  -- The row of the job after its renewal.
  abbrev renewed : Row Job
  renewed = with_start job job.cols.status (some (h.clock h.readings))
