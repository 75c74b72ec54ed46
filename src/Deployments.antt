-- ===== src/Deployments.antt =====
-- Plugin deployments after their creation: retrying, removing and recovering, of
-- hub/plugin_deployment_service.py.
pub mod Retry
pub mod Keeps
pub mod Managed
pub mod Payload
pub mod Deploy
pub mod DeployKeeps
use dark_noc.Base.{
  ◌==◌, is_some, is_ref, first_row, ℕ, ◌-◌, String, Bool, true, false, not, ◌&&◌, Option, none,
  some, List, str_eq,
}
use dark_noc.Base.Json.{str, Dict, end, field, put, one}
use dark_noc.Store.Schema.{JobKind, JobStatus, Job, Lifecycle, Hybrid}
use dark_noc.Store.Table.{Row}
use dark_noc.Store.Hub.{nodes, jobs, hybrid_deployments}
use dark_noc.Store.Tx.{◌>>=◌, ◌>>◌, Tx, pure, found, reject_if, utc_ts, insert, update, fetch_one}
use dark_noc.Store.Lift.{Checked, lift}
use dark_noc.Job.{is_live}
use dark_noc.Job.Outcomes.{parsed}
use dark_noc.Monitoring.Due.{seen_since}

-- An entry of the plugin catalog.
pub record Plugin : Type 0 where
  pub id : String
  pub name : String
  pub transports : List String
  pub profiles : List String
  pub iran_role : String
  pub kharej_role : String
  -- `none` if the entry's runtime is no object
  pub runtime : Option Dict

-- LEFT JOIN jobs: the status of a side's job, if there is such a job.
abbrev pub status_of_job : Option (Row Job) → Option JobStatus
status_of_job none = none
status_of_job (some j) = some j.cols.status

unfoldable pub joined_status : Option ℕ → Tx (Option JobStatus)
joined_status job_id = do job ← fetch_one jobs (λ j. is_ref job_id j.id); pure (status_of_job job)

-- status in {"queued", "running"}
abbrev pub is_pending_job : Option JobStatus → Bool
is_pending_job none = false
is_pending_job (some s) = is_live s

abbrev pub is_completed_job : Option JobStatus → Bool
is_completed_job (some JobStatus.completed) = true
is_completed_job _ = false

abbrev pub is_active_lifecycle : Lifecycle → Bool
is_active_lifecycle Lifecycle.active = true
is_active_lifecycle _ = false

abbrev pub is_removing : Lifecycle → Bool
is_removing Lifecycle.removing = true
is_removing _ = false

abbrev pub is_rolling_back : Lifecycle → Bool
is_rolling_back Lifecycle.rolling_back = true
is_rolling_back _ = false

abbrev pub is_rolled_back : Lifecycle → Bool
is_rolled_back Lifecycle.rolled_back = true
is_rolled_back _ = false

unfoldable pub queue_plugin_job : ℕ → JobKind → Dict → ℕ → ℕ → Tx ℕ
queue_plugin_job node_id kind payload user_id now = insert jobs (record {
  node_id = node_id;
  kind = kind;
  payload = payload;
  status = JobStatus.queued;
  output = none;
  created_by = some user_id;
  created_at = now;
  started_at = none;
  finished_at = none;
})

abbrev pub removal : String → String → Dict
removal plugin_id name = field "plugin_id" (str plugin_id) (field "name" (str name) end)

-- hmac.compare_digest on the two hashes
unfoldable pub recover_pair_code_mutation :
    (Option String → Option (Option String))
    → (ℕ → Dict → Option String → Checked String)
    → (String → String)
    → ℕ
    → Tx (Row Hybrid × String)
recover_pair_code_mutation decrypt plugin_pair_code token_hash deployment_id = do
  found_row ← fetch_one hybrid_deployments (λ d. d.id == deployment_id)
  row ← found found_row 404 "Pair Code deployment not found"
  reject_if (not (is_active_lifecycle row.cols.lifecycle)) 409
      "This Pair Code deployment is no longer active"
  token ← parsed (decrypt row.cols.pair_token_enc)
  time ← utc_ts
  pair_code ← lift (plugin_pair_code time row.cols.settings token)
  reject_if (not (str_eq (token_hash pair_code) row.cols.pair_code_hash)) 500
      "Pair Code integrity check failed"
  pure (row, pair_code)

unfoldable pub retry_hybrid_mutation :
    List Plugin → (Option String → Option (Option String)) → ℕ → ℕ → ℕ → Tx (Row Hybrid × ℕ)
retry_hybrid_mutation plugin_catalog decrypt node_stale_after deployment_id user_id = do
  now ← utc_ts
  found_row ← fetch_one hybrid_deployments (λ d. d.id == deployment_id)
  row ← found found_row 404 "Pair Code deployment not found"
  iran_status ← joined_status row.cols.iran_job_id
  reject_if (not (is_active_lifecycle row.cols.lifecycle)) 409
      "This Pair Code deployment is no longer active"
  reject_if (is_pending_job iran_status) 409 "The Iran deployment is still running"
  online ←
      fetch_one nodes
        (λ n. n.id == row.cols.iran_node_id && seen_since (now - node_stale_after) n.cols.last_seen)
  reject_if (not (is_some online)) 409 "The Iran Agent must be online before retry"
  plugin ←
      found (first_row (λ (p : Plugin). str_eq p.id row.cols.plugin_id) plugin_catalog) 409
        "Plugin is no longer available"
  token ← parsed (decrypt row.cols.pair_token_enc)
  job_id ←
      queue_plugin_job row.cols.iran_node_id JobKind.plugin_deploy
        (put "role" (str plugin.iran_role) (put "token" (one token str) row.cols.settings)) user_id
        now
  update hybrid_deployments (λ d. d.id == deployment_id)
      (λ d. record d { iran_job_id = some job_id; updated_at = now })
  pure (row, job_id)

unfoldable pub remove_hybrid_mutation : ℕ → ℕ → Tx (Row Hybrid × ℕ)
remove_hybrid_mutation deployment_id user_id = do
  now ← utc_ts
  found_row ← fetch_one hybrid_deployments (λ d. d.id == deployment_id)
  row ← found found_row 404 "Pair Code deployment not found"
  iran_status ← joined_status row.cols.iran_job_id
  reject_if (is_removing row.cols.lifecycle) 409 "The Iran side is already being removed"
  reject_if (is_pending_job iran_status) 409 "Wait for the current Iran job to finish"
  job_id ←
      queue_plugin_job row.cols.iran_node_id JobKind.plugin_remove
        (removal row.cols.plugin_id row.cols.name) user_id now
  update hybrid_deployments (λ d. d.id == deployment_id)
      (λ d. record d {
        iran_job_id = some job_id;
        lifecycle = Lifecycle.removing;
        updated_at = now;
      })
  pure (row, job_id)
