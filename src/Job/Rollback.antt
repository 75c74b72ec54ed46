-- ===== src/Job/Rollback.antt =====
-- The rollback of a deployment of which one side failed.
use dark_noc.Base.{
  ◌==◌, is_ref, first_row, update_rows, ℕ, ◌≡◌, refl, sym, ap, Option, none, some, List, arith,
}
use dark_noc.Base.Json.{str, end, field}
use dark_noc.Store.Schema.{JobKind, JobStatus, Job, Lifecycle, Deployment}
use dark_noc.Store.Bodies.{Outcome, JobResult}
use dark_noc.Store.Table.{Row, amend, find, find-update, find-add}
use dark_noc.Store.Hub.{Hub}
use dark_noc.Store.Tx.{◌>>=◌, settle}
use dark_noc.Store.Valid.{Consistent}
use dark_noc.Fleet.Closing.{outcome}
use dark_noc.Job.Results.{
  side_status, Side, diverged, with_job, set_lifecycle, roll_back, advance_deployment,
  record_deployment,
}

abbrev pub lifecycle_of : Option (Row Deployment) → Option Lifecycle
lifecycle_of none = none
lifecycle_of (some d) = some d.cols.lifecycle

-- The node whose side completed where the other side failed.
abbrev pub survivor : JobStatus → JobStatus → Deployment → Option ℕ
survivor JobStatus.completed JobStatus.failed d = some d.iran_node_id
survivor JobStatus.failed JobStatus.completed d = some d.kharej_node_id
survivor _ _ d = none

-- The lifecycle after a result, for a deployment with or without a side that outlived the other.
abbrev pub after_result : Lifecycle → Option ℕ → Outcome → Lifecycle
after_result Lifecycle.active (some n) outcome = Lifecycle.rolling_back
after_result Lifecycle.rolling_back n Outcome.completed = Lifecycle.rolled_back
after_result Lifecycle.rolling_back n Outcome.failed = Lifecycle.rollback_failed
after_result l n outcome = l

-- The job that takes the deployment down on a node.
abbrev pub TakesDown : ℕ → Deployment → Option (Row Job) → Type 0
TakesDown n d none = ⊥
TakesDown n d (some j) =
    (j.cols.node_id ≡ n)
    × ((j.cols.kind ≡ JobKind.plugin_remove)
        × ((j.cols.status ≡ JobStatus.queued)
            × (j.cols.payload
                ≡ field "plugin_id" (str d.plugin_id) (field "name" (str d.name) end))))

-- What becomes of the jobs: an active deployment gets a job that takes its surviving side down, and
-- nothing else changes them.
abbrev pub Follows : Lifecycle → Option ℕ → Deployment → Hub → Hub → Type 0
Follows Lifecycle.active (some n) d h h' =
    TakesDown n d (find h.job_table.next_id h'.job_table.rows)
Follows _ _ d h h' = h'.job_table ≡ h.job_table

-- The node of the side that the program picked.
abbrev side_node : Option Side → Deployment → Option ℕ
side_node none d = none
side_node (some Side.iran) d = some d.iran_node_id
side_node (some Side.kharej) d = some d.kharej_node_id

diverged-survivor : (i k : JobStatus) (d : Deployment) → side_node (diverged i k) d ≡ survivor i k d
diverged-survivor JobStatus.queued k d = refl
diverged-survivor JobStatus.running k d = refl
diverged-survivor JobStatus.completed JobStatus.queued d = refl
diverged-survivor JobStatus.completed JobStatus.running d = refl
diverged-survivor JobStatus.completed JobStatus.completed d = refl
diverged-survivor JobStatus.completed JobStatus.failed d = refl
diverged-survivor JobStatus.failed JobStatus.queued d = refl
diverged-survivor JobStatus.failed JobStatus.running d = refl
diverged-survivor JobStatus.failed JobStatus.completed d = refl
diverged-survivor JobStatus.failed JobStatus.failed d = refl

-- The lifecycle of a deployment after an UPDATE by its id.
changed_lifecycle :
    (f : Deployment → Deployment) (d : Row Deployment) (rows : List (Row Deployment))
    → find d.id rows ≡ some d
    → lifecycle_of (find d.id (update_rows (λ x. x.id == d.id) (amend f) rows))
      ≡ some (f d.cols).lifecycle
changed_lifecycle f d rows e = rw (find-update d.id, e) (ground arith)

-- The end of a rollback.
ended :
    (h : Hub) (d : Row Deployment) (side : Option Side) (o : Outcome)
    → find d.id h.deployment_table.rows ≡ some d
    → (lifecycle_of (
          find d.id
            (settle h (advance_deployment Lifecycle.rolling_back d side o h)).deployment_table.rows)
        ≡ some (after_result Lifecycle.rolling_back (side_node side d.cols) o))
      × ((settle h (advance_deployment Lifecycle.rolling_back d side o h)).job_table ≡ h.job_table)
unfolding advance_deployment set_lifecycle ◌>>=◌
ended h d side Outcome.completed e = (
  changed_lifecycle (λ x. record x { lifecycle = Lifecycle.rolled_back }) d h.deployment_table.rows
      e,
  refl,
)
ended h d side Outcome.failed e = (
  changed_lifecycle (λ x. record x { lifecycle = Lifecycle.rollback_failed }) d
      h.deployment_table.rows e,
  refl,
)

module _ (h : Hub) (d : Row Deployment) (o : Outcome) where
  -- What `advance_deployment` has to bring about.
  abbrev Advanced : Lifecycle → Option Side → Type 0
  Advanced l side =
      let h' = settle h (advance_deployment l d side o h) in
      (lifecycle_of (find d.id h'.deployment_table.rows)
        ≡ some (after_result l (side_node side d.cols) o))
      × Follows l (side_node side d.cols) d.cols h h'

  advance-Advanced :
      (l : Lifecycle) (side : Option Side)
      → Consistent h
      → find d.id h.deployment_table.rows ≡ some d
      → d.cols.lifecycle ≡ l
      → Advanced l side
  unfolding advance_deployment roll_back set_lifecycle ◌>>=◌
  advance-Advanced Lifecycle.active none c e a = (rw e (ap some a), refl)
  advance-Advanced Lifecycle.active (some Side.iran) c e a = (
    changed_lifecycle (with_job Side.iran h.job_table.next_id) d h.deployment_table.rows e,
    rw (find-add 0 h.job_table.rows h.job_table.next_id _ c.jobs.rising)
        (refl, (refl, (refl, refl))),
  )
  advance-Advanced Lifecycle.active (some Side.kharej) c e a = (
    changed_lifecycle (with_job Side.kharej h.job_table.next_id) d h.deployment_table.rows e,
    rw (find-add 0 h.job_table.rows h.job_table.next_id _ c.jobs.rising)
        (refl, (refl, (refl, refl))),
  )
  advance-Advanced Lifecycle.rolling_back side c e a = ended h d side o e
  advance-Advanced Lifecycle.removing side c e a = (rw e (ap some a), refl)
  advance-Advanced Lifecycle.rolled_back side c e a = (rw e (ap some a), refl)
  advance-Advanced Lifecycle.rollback_failed side c e a = (rw e (ap some a), refl)

-- In a consistent database, for a deployment whose two sides both have a job: a result leaves an
-- active deployment rolling back exactly if one side has completed and the other has failed, and then
-- a queued job takes the deployment down on the node of the side that completed; a result ends a
-- rollback as it says; and in every other case the lifecycle and the jobs are as they were.
pub record_deployment-rollback :
    (h : Hub) (d : Row Deployment) (result : JobResult) (i k : Row Job)
    → Consistent h
    → find d.id h.deployment_table.rows ≡ some d
    → first_row (λ j. is_ref d.cols.iran_job_id j.id) h.job_table.rows ≡ some i
    → first_row (λ j. is_ref d.cols.kharej_job_id j.id) h.job_table.rows ≡ some k
    → (lifecycle_of
          (find d.id (settle h (record_deployment (some d) result h)).deployment_table.rows)
        ≡ some (
            after_result d.cols.lifecycle
              (survivor i.cols.status k.cols.status d.cols)
              result.status))
      × Follows d.cols.lifecycle
          (survivor i.cols.status k.cols.status d.cols)
          d.cols
          h
          (settle h (record_deployment (some d) result h))
unfolding record_deployment side_status ◌>>=◌
record_deployment-rollback h d result i k c e fi fk =
    let side = diverged i.cols.status k.cols.status in
    rw (fi, fk, sym (diverged-survivor i.cols.status k.cols.status d.cols))
      (advance-Advanced h d result.status d.cols.lifecycle side c e refl)
