-- ===== src/Fleet/Keeps.antt =====
-- Every operation on fleet operations keeps the database consistent.
use dark_noc.Base.{
  if◌then◌else◌, is_some, ℕ, String, ◌≡◌, Bool, true, false, Option, none, some, List, [], ◌∷◌,
}
use dark_noc.Store.Schema.{Node, FleetKind, FleetStatus, FleetOperation, FleetItem}
use dark_noc.Store.Bodies.{FleetOperationBody}
use dark_noc.Store.Table.{Row}
use dark_noc.Store.Valid.{undated, is_over}
use dark_noc.Store.Keeps.{Keeps, Keeps-pure, Keeps-bind}
use dark_noc.Store.Governed.{keeps_rules}
use dark_noc.Fleet.{cancel_scheduled_items, cancel_fleet_operation_mutation}
use dark_noc.Fleet.Create.{
  refuse_unmanaged, Entry, create_item, create_items, create_fleet_operation_mutation,
}
use dark_noc.Fleet.Due.{queue_item, queue_operation, queue_due_fleet_operations}
use dark_noc.Fleet.Finalize.{finalize_fleet_operation-Keeps}
use dark_noc.Fleet.Rollout.{
  start_entry, start_batch, finish_batch, record_item, record_if_item, finish_provision,
}
use dark_noc.Python.{Python}

cancel_scheduled_items-Keeps : (n : ℕ) → Keeps (cancel_scheduled_items n)
unfolding cancel_scheduled_items
cancel_scheduled_items-Keeps n = search keeps_rules depth 12

pub cancel_fleet_operation-Keeps : (n : ℕ) → Keeps (cancel_fleet_operation_mutation n)
unfolding cancel_fleet_operation_mutation
cancel_fleet_operation-Keeps n = search (keeps_rules, cancel_scheduled_items-Keeps) depth 16

queue_item-Keeps :
    (o : Row FleetOperation) (now : ℕ) (i : Row FleetItem) → Keeps (queue_item o now i)
unfolding queue_item
queue_item-Keeps o now i = search keeps_rules depth 16

queue_operation-Keeps : (now : ℕ) (o : Row FleetOperation) → Keeps (queue_operation now o)
unfolding queue_operation
queue_operation-Keeps now o = search (keeps_rules, queue_item-Keeps, undated) depth 16

pub queue_due_fleet_operations-Keeps : (now : ℕ) → Keeps (queue_due_fleet_operations now)
unfolding queue_due_fleet_operations
queue_due_fleet_operations-Keeps now = search (keeps_rules, queue_operation-Keeps) depth 12

refuse_unmanaged-Keeps : (n : Row Node) → Keeps (refuse_unmanaged n)
unfolding refuse_unmanaged
refuse_unmanaged-Keeps n = search keeps_rules depth 12

create_item-Keeps :
    (kind : FleetKind) (n now : ℕ) (canary : Option ℕ) (token : ℕ → String) (node : Row Node)
    → Keeps (create_item kind n now canary token node)
unfolding create_item
create_item-Keeps kind n now canary token node = search keeps_rules depth 16

create_items-Keeps :
    (kind : FleetKind) (n now : ℕ) (canary : Option ℕ) (token : ℕ → String) (rows : List (Row Node))
    → Keeps (create_items kind n now canary token rows)
unfolding create_items
create_items-Keeps kind n now canary token [] = Keeps-pure []
create_items-Keeps kind n now canary token (x ∷ xs) =
    Keeps-bind _ _ (create_item-Keeps kind n now canary token x) (λ entry.
      Keeps-bind _ _ (create_items-Keeps kind n now canary token xs) (λ entries. Keeps-pure _))

unfinished :
    (b : Bool) (finished : Option ℕ)
    → is_over (if b then FleetStatus.running else FleetStatus.scheduled) ≡ true
    → is_some finished ≡ true
unfinished true finished e = cc
unfinished false finished e = cc

pub create_fleet_operation-Keeps :
    (py : Python) (version : String) (token : ℕ → String) (body : FleetOperationBody) (user : ℕ)
    → Keeps (create_fleet_operation_mutation py version token body user)
unfolding create_fleet_operation_mutation
create_fleet_operation-Keeps py version token body user =
    search
      (
        keeps_rules, refuse_unmanaged-Keeps, create_items-Keeps, unfinished,
        queue_due_fleet_operations-Keeps,
      )
      depth 40

start_entry-Keeps : (e : Entry) → Keeps (start_entry e)
unfolding start_entry
start_entry-Keeps e = search keeps_rules depth 16

pub start_batch-Keeps : (n : ℕ) (batch : List Entry) → Keeps (start_batch n batch)
unfolding start_batch
start_batch-Keeps n batch = search (keeps_rules, start_entry-Keeps) depth 16

pub finish_batch-Keeps : (stop : Bool) (n : ℕ) → Keeps (finish_batch stop n)
unfolding finish_batch
finish_batch-Keeps stop n =
    search (keeps_rules, cancel_scheduled_items-Keeps, finalize_fleet_operation-Keeps) depth 16

record_item-Keeps :
    (version : String) (item : Row FleetItem) (m n : ℕ) (node_row : Option (Row Node))
    → Keeps (record_item version item m n node_row)
unfolding record_item
record_item-Keeps version item m n node_row =
    search (keeps_rules, finalize_fleet_operation-Keeps) depth 16

record_if_item-Keeps :
    (version : String) (item : Option (Row FleetItem)) (m n : ℕ) (node_row : Option (Row Node))
    → Keeps (record_if_item version item m n node_row)
unfolding record_if_item
record_if_item-Keeps version none m n node_row = Keeps-pure tt
record_if_item-Keeps version (some item) m n node_row = record_item-Keeps version item m n node_row

pub finish_provision-Keeps : (version : String) (m n : ℕ) → Keeps (finish_provision version m n)
unfolding finish_provision
finish_provision-Keeps version m n = search (keeps_rules, record_if_item-Keeps) depth 12
