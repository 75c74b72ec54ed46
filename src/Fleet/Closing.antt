-- ===== src/Fleet/Closing.antt =====
-- When a fleet operation is closed, and with what status.
use dark_noc.Base.{
  ◌==◌, if◌then◌else◌, Option-cases, any_row, count_rows, count-any_row, count-every, ℕ, ◌≡◌, refl,
  ◌∙◌, inl, inr, Bool, true, false, not, ◌&&◌, Option, none, some, List, arith,
}
use dark_noc.Store.Schema.{FleetStatus, FleetOperation, FleetItem}
use dark_noc.Store.Table.{Row, find, find-update, find-id}
use dark_noc.Store.Hub.{Hub, fleet_operations}
use dark_noc.Store.Tx.{pure, utc_ts, update, ◌>>=◌, ◌>>◌, settle}
use dark_noc.Store.Valid.{is_over}
use dark_noc.Fleet.{is_cancelled, is_failed, verdict, finalize_fleet_operation}

abbrev pub status_of_row : Option (Row FleetOperation) → Option FleetStatus
status_of_row none = none
status_of_row (some o) = some o.cols.status

abbrev pub operation_status : ℕ → Hub → Option FleetStatus
operation_status n h = status_of_row (find n h.operation_table.rows)

-- The operation has an item.
abbrev pub has_item : ℕ → Hub → Bool
has_item n h = any_row (λ i. i.cols.operation_id == n) h.item_table.rows

-- Some item of the operation has such a status.
abbrev pub some_item : ℕ → (FleetStatus → Bool) → Hub → Bool
some_item n test h = any_row (λ i. i.cols.operation_id == n && test i.cols.status) h.item_table.rows

abbrev pub is_pending : FleetStatus → Bool
is_pending s = not (is_over s)

-- What the items say that the operation has come to.
abbrev pub outcome : Bool → Bool → FleetStatus
outcome any_failed any_cancelled =
    if any_failed
    then FleetStatus.failed
    else if any_cancelled
    then FleetStatus.cancelled
    else FleetStatus.completed

abbrev pub closed : Bool → FleetStatus → Option FleetStatus → Option FleetStatus
closed is_closed s none = none
closed is_closed s (some old) = some (if is_closed then s else old)

closing :
    (b : Bool) (n : ℕ) (s : FleetStatus) (h : Hub)
    → operation_status n (
        settle h (
          (if b
              then (do
                now ← utc_ts
                update fleet_operations
                    (λ o. o.id == n)
                    (λ o. record o { status = s; finished_at = some now })
                pure tt)
              else pure tt)
            h))
      ≡ closed b s (operation_status n h)
unfolding ◌>>=◌
closing true n s h = elim (Option-cases (find n h.operation_table.rows)) [
  | inl e ↦ grind (arith, find-update)
  | inr (o, e) ↦ grind (arith, find-update, find-id n h.operation_table.rows o e)
]
closing false n s h = ground arith

finalize-counts :
    (n : ℕ) (h : Hub)
    → let of : Row FleetItem → Bool = λ i. i.cols.operation_id == n in
      let count : (Row FleetItem → Bool) → ℕ = λ test. count_rows test h.item_table.rows in
      operation_status n (settle h (finalize_fleet_operation n h))
      ≡ closed
          (not (count of == 0) && count (λ i. of i && is_over i.cols.status) == count of)
          (verdict
            (count (λ i. of i && is_failed i.cols.status))
            (count (λ i. of i && is_cancelled i.cols.status)))
          (operation_status n h)
unfolding finalize_fleet_operation ◌>>=◌
finalize-counts n h =
    closing
      (not (count_rows (λ i. i.cols.operation_id == n) h.item_table.rows == 0)
        && count_rows (λ i. i.cols.operation_id == n && is_over i.cols.status) h.item_table.rows
          == count_rows (λ i. i.cols.operation_id == n) h.item_table.rows)
      n _ h

present :
    {C : Type 0} (test : C → Bool) (rows : List C)
    → not (count_rows test rows == 0) ≡ any_row test rows
present test rows = ground (arith, count-any_row test rows)

-- `finalize_fleet_operation` closes an operation exactly if it has an item and no item of it is
-- still to be done, and then its status is failed if an item failed, else cancelled if an item was
-- cancelled, else completed; in every other case its status stays.
pub finalize-status :
    (n : ℕ) (h : Hub)
    → operation_status n (settle h (finalize_fleet_operation n h))
      ≡ closed
          (has_item n h && not (some_item n is_pending h))
          (outcome (some_item n is_failed h) (some_item n is_cancelled h))
          (operation_status n h)
finalize-status n h =
    let of : Row FleetItem → Bool = λ i. i.cols.operation_id == n in
    let rows = h.item_table.rows in
    finalize-counts n h
    ∙ rw
        (
          present of rows,
          count-every of (λ i. is_over i.cols.status) rows,
          present (λ i. of i && is_failed i.cols.status) rows,
          present (λ i. of i && is_cancelled i.cols.status) rows,
        )
        refl
