-- ===== src/Fleet.antt =====
-- Fleet operations: `finalize_fleet_operation` of hub/app.py and `cancel_fleet_operation_mutation`
-- of hub/certificate_fleet_service.py.
pub mod Finalize
pub mod Due
pub mod Payload
pub mod Create
pub mod Rollout
pub mod Keeps
pub mod Closing
pub mod Cancelling
pub mod Settings
use dark_noc.Base.{◌==◌, if◌then◌else◌, ℕ, Bool, true, false, not, ◌&&◌, ◌||◌, some}
use dark_noc.Store.Schema.{FleetKind, FleetStatus, FleetOperation}
use dark_noc.Store.Table.{Row}
use dark_noc.Store.Hub.{fleet_operations, fleet_operation_items}
use dark_noc.Store.Tx.{
  Tx, pure, found, reject_if, utc_ts, update, fetch_one, fetch_count, ◌>>=◌, ◌>>◌,
}
use dark_noc.Store.Valid.{is_over}

abbrev pub is_cancelled : FleetStatus → Bool
is_cancelled FleetStatus.cancelled = true
is_cancelled _ = false

abbrev pub is_failed : FleetStatus → Bool
is_failed FleetStatus.failed = true
is_failed _ = false

-- "failed" if counts["failed"] else "cancelled" if counts["cancelled"] else "completed"
abbrev pub verdict : ℕ → ℕ → FleetStatus
verdict failures cancellations =
    if not (failures == 0)
    then FleetStatus.failed
    else if not (cancellations == 0)
    then FleetStatus.cancelled
    else FleetStatus.completed

unfoldable pub finalize_fleet_operation : ℕ → Tx (Unit {0})
finalize_fleet_operation operation_id = do
  total ← fetch_count fleet_operation_items (λ i. i.cols.operation_id == operation_id)
  terminal ←
      fetch_count fleet_operation_items
        (λ i. i.cols.operation_id == operation_id && is_over i.cols.status)
  failures ←
      fetch_count fleet_operation_items
        (λ i. i.cols.operation_id == operation_id && is_failed i.cols.status)
  cancellations ←
      fetch_count fleet_operation_items
        (λ i. i.cols.operation_id == operation_id && is_cancelled i.cols.status)
  if not (total == 0) && terminal == total
      then (do
        now ← utc_ts
        update fleet_operations (λ o. o.id == operation_id)
            (λ o. record o { status = verdict failures cancellations; finished_at = some now })
        pure tt)
      else pure tt

abbrev pub is_scheduled : FleetStatus → Bool
is_scheduled FleetStatus.scheduled = true
is_scheduled _ = false

abbrev pub is_under_way : FleetStatus → Bool
is_under_way FleetStatus.running = true
is_under_way _ = false

abbrev pub is_upgrade : FleetKind → Bool
is_upgrade FleetKind.upgrade_agents = true
is_upgrade _ = false

-- status IN ('scheduled'), or an upgrade that is running
abbrev pub is_cancellable : FleetOperation → Bool
is_cancellable o = is_scheduled o.status || (is_upgrade o.kind && is_under_way o.status)

unfoldable pub cancel_scheduled_items : ℕ → Tx (Unit {0})
cancel_scheduled_items operation_id = do
  update fleet_operation_items
      (λ i. i.cols.operation_id == operation_id && is_scheduled i.cols.status)
      (λ i. record i { status = FleetStatus.cancelled })
  pure tt

unfoldable pub cancel_fleet_operation_mutation : ℕ → Tx (Row FleetOperation)
cancel_fleet_operation_mutation operation_id = do
  row ← fetch_one fleet_operations (λ o. o.id == operation_id)
  operation ← found row 404 "Fleet operation not found"
  reject_if (not (is_cancellable operation.cols)) 409
      "Only a scheduled operation or active Agent rollout can be cancelled"
  now ← utc_ts
  update fleet_operations (λ o. o.id == operation_id)
      (λ o. record o { status = FleetStatus.cancelled; finished_at = some now })
  cancel_scheduled_items operation_id
  pure operation
