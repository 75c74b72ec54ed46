-- ===== src/Scenarios/Jobs.antt =====
-- The theorems on jobs and their results at concrete inputs.
use dark_noc.Base.{first_row, any_row, ◌≤◌, ◌≡◌, refl, none, some}
use dark_noc.Store.Schema.{JobStatus, Job, Lifecycle}
use dark_noc.Store.Bodies.{Outcome, JobResult}
use dark_noc.Store.Table.{Row, find}
use dark_noc.Store.Hub.{Hub}
use dark_noc.Store.Tx.{◌>>=◌, ok, settle}
use dark_noc.Job.{agent_jobs, renew_agent_job_lease}
use dark_noc.Job.Frozen.{agent_job_result-frozen}
use dark_noc.Job.Outcomes.{record_certificate}
use dark_noc.Job.Queue.{claimed_job, job_state, agent_jobs-oldest}
use dark_noc.Job.Recorded.{with_result, agent_job_result-recorded}
use dark_noc.Job.Reports.{record_monitor}
use dark_noc.Job.Results.{
  record_fleet_item, record_deployment, record_effects, finish_job, accept_result, agent_job_result,
}
use dark_noc.Job.Rollback.{lifecycle_of, TakesDown, record_deployment-rollback}
use dark_noc.Maintenance.{requeue_lost_jobs}
use dark_noc.Maintenance.Requeue.{requeued_row, requeue_lost_jobs-requeued}
use dark_noc.Samples.{
  sample_py, edge_node, queued_job, one_row, sample, finished_job, deployment, half_deployed,
}
use dark_noc.Samples.Checked.{sample-Consistent, half_deployed-Consistent}

agent_jobs-oldest_example :
    (job : Row Job) × ((claimed_job (agent_jobs edge_node sample) ≡ some job)
      × ((find job.id sample.job_table.rows ≡ some job)
          × ((job.cols.node_id ≡ 1)
              × ((job.cols.status ≡ JobStatus.queued)
                  × ((job.id ≤ 1)
                      × (job_state (
                            find job.id
                              (settle sample (agent_jobs edge_node sample)).job_table.rows)
                          ≡ some JobStatus.running))))))
unfolding first_row
agent_jobs-oldest_example =
    agent_jobs-oldest sample edge_node 1 queued_job sample-Consistent refl refl refl

abbrev early_result : JobResult
early_result = record { job_id = 1; status = Outcome.completed; output = "done" }

agent_job_result-frozen_example :
    settle sample (agent_job_result sample_py early_result edge_node sample) ≡ sample
unfolding any_row
agent_job_result-frozen_example =
    agent_job_result-frozen sample_py early_result edge_node sample refl

abbrev failed_result : JobResult
failed_result = record { job_id = 2; status = Outcome.failed; output = "done" }

abbrev rolled : Hub
rolled = settle half_deployed (record_deployment (some deployment) failed_result half_deployed)

record_deployment-rollback_example :
    (lifecycle_of (find 1 rolled.deployment_table.rows) ≡ some Lifecycle.rolling_back)
    × TakesDown 1 deployment.cols (find 3 rolled.job_table.rows)
unfolding first_row
record_deployment-rollback_example =
    record_deployment-rollback half_deployed deployment failed_result
      (finished_job 1 JobStatus.completed) (finished_job 2 JobStatus.failed)
      half_deployed-Consistent refl refl refl

abbrev running_job : Row Job
running_job = record queued_job {
  cols = record queued_job.cols { status = JobStatus.running; started_at = some 990 };
}

abbrev busy : Hub
busy = record sample { job_table = one_row running_job }

abbrev reported : Hub
reported = settle busy (agent_job_result sample_py early_result edge_node busy)

agent_job_result-recorded_example :
    (find 1 reported.job_table.rows ≡ some (with_result early_result 1000 running_job))
    × (agent_job_result sample_py early_result edge_node reported ≡ ok (none, reported))
unfolding agent_job_result accept_result finish_job record_effects record_certificate record_monitor
    record_fleet_item record_deployment ◌>>=◌ first_row
agent_job_result-recorded_example =
    agent_job_result-recorded sample_py early_result edge_node busy reported running_job none refl
      refl refl refl

abbrev renewed_hub : Hub
renewed_hub = settle busy (renew_agent_job_lease 1 edge_node busy)

requeue_lost_jobs-requeued_example :
    find 1 (settle busy (requeue_lost_jobs 2000 busy)).job_table.rows
    ≡ requeued_row 2000 (find 1 busy.job_table.rows)
requeue_lost_jobs-requeued_example = requeue_lost_jobs-requeued 2000 1 busy
