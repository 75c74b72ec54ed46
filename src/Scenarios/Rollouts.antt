-- ===== src/Scenarios/Rollouts.antt =====
-- The theorems on fleet operations at concrete inputs.
use dark_noc.Base.{
  first_row, All, ◌≡◌, refl, true, false, not, ◌&&◌, none, some, List, [], ◌∷◌, arith,
}
use dark_noc.Base.Json.{num, end, field}
use dark_noc.Store.Schema.{FleetKind, FleetStatus, FleetOperation}
use dark_noc.Store.Table.{Row}
use dark_noc.Store.Hub.{Hub}
use dark_noc.Store.Tx.{settle}
use dark_noc.Fleet.{
  is_cancelled, is_failed, finalize_fleet_operation, cancel_fleet_operation_mutation,
}
use dark_noc.Fleet.Cancelling.{IsStopped, cancel_fleet_operation-stops}
use dark_noc.Fleet.Closing.{
  operation_status, has_item, some_item, is_pending, outcome, closed, finalize-status,
}
use dark_noc.Fleet.Create.{Entry, rollout_order}
use dark_noc.Fleet.Payload.{rollout_settings}
use dark_noc.Fleet.Rollout.{batches, start_batch}
use dark_noc.Fleet.Rollout.Batches.{
  flatten, AtMost, batches-flatten, batches-AtMost, batches-canary,
}
use dark_noc.Fleet.Settings.{InBounds, rollout_settings-InBounds}
use dark_noc.Samples.{sample_py, operation, one_row, sample, entry, rollout}

finalize-status_example :
    operation_status 1 (settle sample (finalize_fleet_operation 1 sample))
    ≡ closed
        (has_item 1 sample && not (some_item 1 is_pending sample))
        (outcome (some_item 1 is_failed sample) (some_item 1 is_cancelled sample))
        (operation_status 1 sample)
finalize-status_example = finalize-status 1 sample

batches-flatten_example : flatten (batches 2 rollout) ≡ rollout
batches-flatten_example = batches-flatten 2 rollout (omega arith)

batches-AtMost_example : AtMost 2 (batches 2 rollout)
batches-AtMost_example = batches-AtMost 2 rollout (omega arith)

abbrev unordered : List Entry
unordered = entry 2 false ∷ entry 1 true ∷ entry 3 false ∷ []

batches-canary_example :
    (rest : List (List Entry)) × (batches 2 (rollout_order unordered) ≡ (entry 1 true ∷ []) ∷ rest)
unfolding first_row
batches-canary_example = batches-canary 2 unordered (entry 1 true) refl

rollout_settings-InBounds_example :
    InBounds (rollout_settings sample_py FleetKind.upgrade_agents (field "batch_size" (num 50) end))
rollout_settings-InBounds_example =
    rollout_settings-InBounds sample_py FleetKind.upgrade_agents (field "batch_size" (num 50) end)

abbrev planned : Row FleetOperation
planned = record operation {
  cols = record operation.cols { status = FleetStatus.scheduled; started_at = none };
}

abbrev planning : Hub
planning = record sample { operation_table = one_row planned }

cancel_fleet_operation-stops_example :
    let h' = settle planning (cancel_fleet_operation_mutation 1 planning) in
    (operation_status 1 h' ≡ some FleetStatus.cancelled)
    × (All (λ i. IsStopped 1 i.cols) h'.item_table.rows
        × (settle h' (start_batch 1 rollout h') ≡ h'))
unfolding first_row
cancel_fleet_operation-stops_example =
    cancel_fleet_operation-stops 1 planning planned rollout refl refl
