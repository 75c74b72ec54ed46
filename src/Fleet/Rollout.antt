-- ===== src/Fleet/Rollout.antt =====
-- `orchestrate_agent_upgrade` and `provision_node_for_fleet` of hub/app.py. The SSH session of
-- `provision_node` is a parameter; each `with db()` block commits on its own.
pub mod Batches
use dark_noc.Base.{
  ◌==◌, if◌then◌else◌, concat, text_else, length, take, drop, ℕ, zero, suc, String, Bool, true,
  false, not, ◌&&◌, ◌||◌, Option, none, some, List, [], ◌∷◌, str_eq,
}
use dark_noc.Store.Schema.{Provision, Node, FleetStatus, FleetOperation, FleetItem}
use dark_noc.Store.Table.{Row}
use dark_noc.Store.Hub.{Hub, nodes, fleet_operations, fleet_operation_items}
use dark_noc.Store.Tx.{
  Result, ok, err, Tx, pure, utc_ts, update, fetch_one, fetch_count, ◌>>=◌, ◌>>◌, for_each, settle,
}
use dark_noc.Fleet.{
  is_failed, finalize_fleet_operation, is_scheduled, is_under_way, cancel_scheduled_items,
}
use dark_noc.Fleet.Create.{Entry}

-- range(0, len(remaining), batch_size): the slices of a list, with fuel for each slice
unfoldable pub slices : {A : Type 0} → ℕ → ℕ → List A → List (List A)
slices fuel n [] = []
slices zero n (x ∷ xs) = []
slices (suc fuel) n (x ∷ xs) = take n (x ∷ xs) ∷ slices fuel n (drop n (x ∷ xs))

-- The canary first, on its own; then slices of the rest.
unfoldable pub batches : ℕ → List Entry → List (List Entry)
batches batch_size [] = []
batches batch_size (e ∷ rest) =
    if e.canary
    then (e ∷ []) ∷ slices (length rest) batch_size rest
    else slices (length (e ∷ rest)) batch_size (e ∷ rest)

-- operation["status"] in {"running", "scheduled"}
abbrev pub is_open_operation : Option (Row FleetOperation) → Bool
is_open_operation none = false
is_open_operation (some o) = is_under_way o.cols.status || is_scheduled o.cols.status

unfoldable pub start_entry : Entry → Tx (Unit {0})
start_entry entry = do
  update fleet_operation_items (λ i. i.id == entry.item_id)
      (λ i. record i { status = FleetStatus.running })
  now ← utc_ts
  update nodes (λ n. n.id == entry.node_id)
      (λ n. record n {
        provision_status = some Provision.provisioning;
        provision_output = some "";
        updated_at = now;
      })
  pure tt

-- The block before a batch: whether the batch starts.
unfoldable pub start_batch : ℕ → List Entry → Tx Bool
start_batch operation_id batch = do
  operation ← fetch_one fleet_operations (λ o. o.id == operation_id)
  if is_open_operation operation then (do for_each batch start_entry; pure true) else pure false

-- The block after a batch: whether the rollout goes on.
unfoldable pub finish_batch : Bool → ℕ → Tx Bool
finish_batch stop_on_failure operation_id = do
  failures ←
      fetch_count fleet_operation_items
        (λ i. i.cols.operation_id == operation_id && is_failed i.cols.status)
  if not (failures == 0) && stop_on_failure
      then (do
        cancel_scheduled_items operation_id
        finalize_fleet_operation operation_id
        pure false)
      else pure true

abbrev pub is_provisioned : Option Provision → Bool
is_provisioned (some Provision.completed) = true
is_provisioned _ = false

abbrev pub has_version : String → Option String → Bool
has_version version none = false
has_version version (some v) = str_eq v version

-- node and node["provision_status"] == "completed" and node["agent_version"] == VERSION
abbrev pub reached : String → Option (Row Node) → Bool
reached version none = false
reached version (some n) =
    is_provisioned n.cols.provision_status && has_version version n.cols.agent_version

abbrev pub outdated : String → Option (Row Node) → Bool
outdated version none = false
outdated version (some n) =
    is_provisioned n.cols.provision_status && not (has_version version n.cols.agent_version)

abbrev pub version_of : Option (Row Node) → String
version_of none = "unknown"
version_of (some n) = text_else n.cols.agent_version "unknown"

-- The `finally` block of `provision_node_for_fleet`.
unfoldable pub record_item : String → Row FleetItem → ℕ → ℕ → Option (Row Node) → Tx (Unit {0})
record_item version item item_id node_id node = do
  (if outdated version node
      then (do
        now ← utc_ts
        update nodes (λ n. n.id == node_id)
            (λ n. record n {
              provision_status = some Provision.failed;
              provision_output = some (
                  concat (
                    text_else n.provision_output ""
                    ∷ "\nVERSION CHECK FAILED: expected Agent "
                    ∷ version
                    ∷ ", received "
                    ∷ version_of node
                    ∷ []));
              updated_at = now;
            })
        pure tt)
      else pure tt)
  update fleet_operation_items (λ i. i.id == item_id)
      (λ i. record i {
        status = if reached version node then FleetStatus.completed else FleetStatus.failed;
      })
  finalize_fleet_operation item.cols.operation_id

-- if not item: return
unfoldable pub record_if_item :
    String → Option (Row FleetItem) → ℕ → ℕ → Option (Row Node) → Tx (Unit {0})
record_if_item version none item_id node_id node_row = pure tt
record_if_item version (some item) item_id node_id node_row =
    record_item version item item_id node_id node_row

unfoldable pub finish_provision : String → ℕ → ℕ → Tx (Unit {0})
finish_provision version item_id node_id = do
  item ← fetch_one fleet_operation_items (λ i. i.id == item_id)
  node ← fetch_one nodes (λ n. n.id == node_id)
  record_if_item version item item_id node_id node

-- await provision_node(node_id, enrollment), then the `finally` block. The SSH session is the
-- parameter: what it leaves in the database.
module _ (version : String) (provision_node : ℕ → Option String → Hub → Hub) where
  abbrev pub provision_node_for_fleet : Entry → Hub → Hub
  provision_node_for_fleet e h =
      let h' = provision_node e.node_id e.enrollment h in
      settle h' (finish_provision version e.item_id e.node_id h')

  -- asyncio.gather: the sessions of a batch, here one after the other
  abbrev pub provision_batch : List Entry → Hub → Hub
  provision_batch [] h = h
  provision_batch (e ∷ es) h = provision_batch es (provision_node_for_fleet e h)

  abbrev pub says_yes : Result (Bool × Hub) → Bool
  says_yes (ok (b, h)) = b
  says_yes (err e) = false

  unfoldable pub orchestrate : Bool → ℕ → List (List Entry) → Hub → Hub
  orchestrate stop_on_failure operation_id [] h = h
  orchestrate stop_on_failure operation_id (batch ∷ rest) h =
      let started = start_batch operation_id batch h in
      let h' = provision_batch batch (settle h started) in
      let ended = finish_batch stop_on_failure operation_id h' in
      let onward = orchestrate stop_on_failure operation_id rest (settle h' ended) in
      if says_yes started
      then (if says_yes ended then onward else settle h' ended)
      else settle h started

  abbrev pub orchestrate_agent_upgrade : ℕ → List Entry → ℕ → Bool → Hub → Hub
  orchestrate_agent_upgrade operation_id rollout batch_size stop_on_failure h =
      orchestrate stop_on_failure operation_id (batches batch_size rollout) h
