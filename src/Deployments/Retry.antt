-- ===== src/Deployments/Retry.antt =====
-- Retrying and removing a managed deployment, of hub/plugin_deployment_service.py.
use dark_noc.Base.{
  ◌==◌, if◌then◌else◌, filled, is_ref, first_row, ℕ, ◌-◌, String, not, ◌&&◌, ◌||◌, Option, none,
  some, List, str_eq,
}
use dark_noc.Base.Json.{Dict}
use dark_noc.Store.Schema.{JobKind, JobStatus, Lifecycle, Deployment}
use dark_noc.Store.Table.{Row}
use dark_noc.Store.Hub.{nodes, jobs, plugin_deployments}
use dark_noc.Store.Tx.{
  Tx, pure, found, reject_if, utc_ts, update, fetch_one, fetch_count, ◌>>=◌, ◌>>◌,
}
use dark_noc.Deployments.{
  Plugin, joined_status, is_pending_job, is_completed_job, is_removing, is_rolling_back,
  is_rolled_back, queue_plugin_job, removal,
}
use dark_noc.Job.{is_live}
use dark_noc.Job.Outcomes.{parsed}
use dark_noc.Job.Results.{Side, node_of}
use dark_noc.Monitoring.Due.{seen_since}

abbrev pub set_side_job : Side → ℕ → Deployment → Deployment
set_side_job Side.iran job d = record d { iran_job_id = some job }
set_side_job Side.kharej job d = record d { kharej_job_id = some job }

-- One side of the loop of `retry_managed_mutation`: a side that completed is left alone, unless the
-- deployment was rolled back. The answer is the new job.
unfoldable pub retry_side : Row Deployment → Side → Option JobStatus → Dict → ℕ → ℕ → Tx (Option ℕ)
retry_side row side old_status payload user_id now =
    if is_completed_job old_status && not (is_rolled_back row.cols.lifecycle)
    then pure none
    else (do
      job_id ← queue_plugin_job (node_of side row.cols) JobKind.plugin_deploy payload user_id now
      update plugin_deployments (λ d. d.id == row.id) (set_side_job side job_id)
      pure (some job_id))

unfoldable pub retry_managed_mutation :
    List Plugin
    → (Option String → Option (Option String))
    → (Dict → Option String → String → Dict)
    → ℕ
    → ℕ
    → ℕ
    → Tx (Row Deployment × (Option ℕ × Option ℕ))
retry_managed_mutation plugin_catalog decrypt plugin_job_payload node_stale_after deployment_id
      user_id =
    do
      now ← utc_ts
      found_row ← fetch_one plugin_deployments (λ d. d.id == deployment_id)
      row ← found found_row 404 "Deployment not found"
      iran_status ← joined_status row.cols.iran_job_id
      kharej_status ← joined_status row.cols.kharej_job_id
      reject_if
          (is_removing row.cols.lifecycle
            && is_completed_job iran_status
            && is_completed_job kharej_status)
          409 "This deployment was removed; create a new deployment instead"
      reject_if (is_rolling_back row.cols.lifecycle) 409 "Automatic rollback is still running"
      reject_if (is_pending_job iran_status || is_pending_job kharej_status) 409
          "Deployment is still running"
      online_nodes ← fetch_count nodes (λ n.
          (n.id == row.cols.iran_node_id || n.id == row.cols.kharej_node_id)
          && seen_since (now - node_stale_after) n.cols.last_seen)
      reject_if (not (online_nodes == 2)) 409 "Both nodes must be online before retry"
      token ← parsed (decrypt row.cols.pair_token_enc)
      reject_if (not (filled token)) 409
          "This older deployment has no recoverable pair token; create it again"
      plugin ←
          found (first_row (λ (p : Plugin). str_eq p.id row.cols.plugin_id) plugin_catalog) 409
            "Plugin is no longer available"
      update plugin_deployments (λ d. d.id == deployment_id)
          (λ d. record d { lifecycle = Lifecycle.active })
      iran_job ←
          retry_side row Side.iran iran_status
            (plugin_job_payload row.cols.settings token plugin.iran_role) user_id now
      kharej_job ←
          retry_side row Side.kharej kharej_status
            (plugin_job_payload row.cols.settings token plugin.kharej_role) user_id now
      pure (row, (iran_job, kharej_job))

unfoldable pub remove_managed_mutation : ℕ → ℕ → Tx (Row Deployment × (ℕ × ℕ))
remove_managed_mutation deployment_id user_id = do
  now ← utc_ts
  found_row ← fetch_one plugin_deployments (λ d. d.id == deployment_id)
  row ← found found_row 404 "Deployment not found"
  reject_if (is_removing row.cols.lifecycle) 409
      "Deployment is already being removed or has been removed"
  active_jobs ← fetch_count jobs (λ j.
      (is_ref row.cols.iran_job_id j.id || is_ref row.cols.kharej_job_id j.id)
      && is_live j.cols.status)
  reject_if (not (active_jobs == 0)) 409 "Wait for the current deployment action to finish"
  iran_job ←
      queue_plugin_job row.cols.iran_node_id JobKind.plugin_remove
        (removal row.cols.plugin_id row.cols.name) user_id now
  kharej_job ←
      queue_plugin_job row.cols.kharej_node_id JobKind.plugin_remove
        (removal row.cols.plugin_id row.cols.name) user_id now
  update plugin_deployments (λ d. d.id == deployment_id)
      (λ d. record d {
        iran_job_id = some iran_job;
        kharej_job_id = some kharej_job;
        lifecycle = Lifecycle.removing;
      })
  pure (row, (iran_job, kharej_job))
