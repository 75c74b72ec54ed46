-- ===== src/Fleet/Due.antt =====
-- `queue_due_fleet_operations` of hub/maintenance_runtime.py.
use dark_noc.Base.{leb, ◌==◌, if◌then◌else◌, truthy, take, order_by, ℕ, ◌&&◌, none, some}
use dark_noc.Store.Schema.{JobKind, JobStatus, FleetKind, FleetStatus, FleetOperation, FleetItem}
use dark_noc.Store.Table.{Row}
use dark_noc.Store.Hub.{jobs, fleet_operations, fleet_operation_items}
use dark_noc.Store.Tx.{Tx, pure, insert, update, fetch_all, ◌>>=◌, ◌>>◌, for_each}
use dark_noc.Fleet.{is_scheduled}

abbrev pub job_kind : FleetKind → JobKind
job_kind FleetKind.diagnostics = JobKind.diagnostics
job_kind FleetKind.tunnel_test = JobKind.tunnel_test
job_kind FleetKind.restart_service = JobKind.restart_service
job_kind FleetKind.service_status = JobKind.service_status
job_kind FleetKind.logs = JobKind.logs
job_kind FleetKind.configure_autoheal = JobKind.configure_autoheal
job_kind FleetKind.sync_agent = JobKind.sync_agent
job_kind FleetKind.upgrade_agents = JobKind.upgrade_agents

-- if item["job_id"]: continue
unfoldable pub queue_item : Row FleetOperation → ℕ → Row FleetItem → Tx (Unit {0})
queue_item operation now item = if truthy item.cols.job_id then pure tt else (do
  job_id ← insert jobs (record {
    node_id = item.cols.node_id;
    kind = job_kind operation.cols.kind;
    payload = operation.cols.payload;
    status = JobStatus.queued;
    output = none;
    created_by = operation.cols.created_by;
    created_at = now;
    started_at = none;
    finished_at = none;
  })
  update fleet_operation_items (λ i. i.id == item.id)
      (λ i. record i { job_id = some job_id; status = FleetStatus.queued })
  pure tt)

unfoldable pub queue_operation : ℕ → Row FleetOperation → Tx (Unit {0})
queue_operation now operation = do
  items ← fetch_all fleet_operation_items (λ i. i.cols.operation_id == operation.id)
  for_each items (queue_item operation now)
  update fleet_operations (λ o. o.id == operation.id)
      (λ o. record o { status = FleetStatus.running; started_at = some now })
  pure tt

-- ORDER BY scheduled_at,id LIMIT 20
unfoldable pub queue_due_fleet_operations : ℕ → Tx (Unit {0})
queue_due_fleet_operations now = do
  rows ← fetch_all fleet_operations (λ o. is_scheduled o.cols.status && leb o.cols.scheduled_at now)
  let operations = take 20 (order_by (λ (o : Row FleetOperation). o.cols.scheduled_at) rows)
  for_each operations (queue_operation now)
