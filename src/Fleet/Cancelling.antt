-- ===== src/Fleet/Cancelling.antt =====
-- What cancelling a fleet operation leaves.
use dark_noc.Base.{◌==◌, update_rows, All, ℕ, ◌≡◌, true, false, ◌&&◌, some, List, [], ◌∷◌, arith}
use dark_noc.Store.Schema.{FleetStatus, FleetOperation, FleetItem}
use dark_noc.Store.Table.{Row, amend, find, find-update, find-id}
use dark_noc.Store.Hub.{Hub}
use dark_noc.Store.Tx.{◌>>=◌, settle}
use dark_noc.Fleet.{
  is_scheduled, is_cancellable, cancel_scheduled_items, cancel_fleet_operation_mutation,
}
use dark_noc.Fleet.Closing.{operation_status}
use dark_noc.Fleet.Create.{Entry}
use dark_noc.Fleet.Rollout.{start_batch}

-- No item of the operation still waits for its turn.
abbrev pub IsStopped : ℕ → FleetItem → Type 0
IsStopped n i = (i.operation_id == n) ≡ true → is_scheduled i.status ≡ false

IsStopped-rows :
    (n : ℕ) (rows : List (Row FleetItem))
    → All
        (λ i. IsStopped n i.cols)
        (update_rows
          (λ i. i.cols.operation_id == n && is_scheduled i.cols.status)
          (amend (λ i. record i { status = FleetStatus.cancelled }))
          rows)
unfolding update_rows
IsStopped-rows n [] = tt
IsStopped-rows n (i ∷ rows) = (λ v. ground arith, IsStopped-rows n rows)

-- Cancelling a fleet operation that is scheduled, or an upgrade that is running, succeeds: the
-- operation is cancelled, no item of it still waits, and a rollout starts no further batch.
pub cancel_fleet_operation-stops :
    (n : ℕ) (h : Hub) (o : Row FleetOperation) (batch : List Entry)
    → find n h.operation_table.rows ≡ some o
    → is_cancellable o.cols ≡ true
    → let h' = settle h (cancel_fleet_operation_mutation n h) in
      (operation_status n h' ≡ some FleetStatus.cancelled)
      × (All (λ i. IsStopped n i.cols) h'.item_table.rows
          × (settle h' (start_batch n batch h') ≡ h'))
unfolding cancel_fleet_operation_mutation cancel_scheduled_items start_batch ◌>>=◌
cancel_fleet_operation-stops n h o batch e k =
    rw (e, k)
      (
        grind (arith, find-update, find-id n h.operation_table.rows o e),
        (
          IsStopped-rows n h.item_table.rows,
          grind (arith, find-update, find-id n h.operation_table.rows o e),
        ),
      )
