-- ===== src/Fleet/Create.antt =====
-- `create_fleet_operation_mutation` of hub/certificate_fleet_service.py.
use dark_noc.Base.{
  ltb, leb, ◌==◌, if◌then◌else◌, is_some, filled, is_ref, length, where_rows, any_row, order_by, ℕ,
  ◌+◌, ◌*◌, String, str_append, Bool, true, false, not, ◌&&◌, ◌||◌, Option, none, some, List, [],
  ◌∷◌,
}
use dark_noc.Store.Schema.{Provision, Node, FleetKind, FleetStatus}
use dark_noc.Store.Bodies.{FleetOperationBody}
use dark_noc.Store.Table.{Row}
use dark_noc.Store.Hub.{nodes, fleet_operations, fleet_operation_items}
use dark_noc.Store.Tx.{
  Tx, pure, found, reject_if, utc_ts, insert, update, fetch_all, ◌>>=◌, ◌>>◌, for_each,
}
use dark_noc.Fleet.{is_upgrade}
use dark_noc.Fleet.Due.{queue_due_fleet_operations}
use dark_noc.Fleet.Payload.{RolloutSettings, rollout_settings, upgrade_payload, with_service}
use dark_noc.Nodes.{is_hub, is_provisioning}
use dark_noc.Python.{Python}

-- list(dict.fromkeys(ids))
unfoldable pub distinct : List ℕ → List ℕ
distinct [] = []
distinct (n ∷ ns) = n ∷ where_rows (λ m. not (m == n)) (distinct ns)

abbrev pub is_sync : FleetKind → Bool
is_sync FleetKind.sync_agent = true
is_sync _ = false

abbrev pub is_remote : FleetKind → Bool
is_remote k = is_sync k || is_upgrade k

-- body.kind in {"restart_service", "service_status"}
abbrev pub needs_service : FleetKind → Bool
needs_service FleetKind.restart_service = true
needs_service FleetKind.service_status = true
needs_service _ = false

-- node["role"] == "hub" or neither SSH secret, then a provisioning node
unfoldable pub refuse_unmanaged : Row Node → Tx (Unit {0})
refuse_unmanaged node = do
  reject_if
      (is_hub node.cols.role
        || (not (filled node.cols.ssh_password_enc) && not (filled node.cols.ssh_key_enc)))
      409 (str_append node.cols.name " cannot be managed through remote SSH")
  reject_if (is_provisioning node.cols.provision_status) 409
      (str_append node.cols.name " is already being provisioned")

pub record Entry : Type 0 where
  pub item_id : ℕ
  pub node_id : ℕ
  pub enrollment : Option String
  pub canary : Bool

-- canary_node_id = node_ids[0] for an upgrade that names none
abbrev pub choose_canary : FleetKind → Option ℕ → List ℕ → Option ℕ
choose_canary FleetKind.upgrade_agents none (n ∷ ns) = some n
choose_canary _ canary node_ids = canary

-- The loop's body: the item of one node.
unfoldable pub create_item : FleetKind → ℕ → ℕ → Option ℕ → (ℕ → String) → Row Node → Tx Entry
create_item kind operation_id now canary token node = do
  (if is_sync kind
      then (do
        update nodes (λ n. n.id == node.id)
            (λ n. record n {
              provision_status = some Provision.provisioning;
              provision_output = some "";
              updated_at = now;
            })
        pure tt)
      else pure tt)
  item_id ← insert fleet_operation_items (record {
    operation_id = operation_id;
    node_id = node.id;
    job_id = none;
    status = if is_sync kind then FleetStatus.running else FleetStatus.scheduled;
  })
  pure (record {
    item_id = item_id;
    node_id = node.id;
    enrollment = if is_remote kind then some (token node.id) else none;
    canary = is_ref canary node.id;
  })

unfoldable pub create_items :
    FleetKind → ℕ → ℕ → Option ℕ → (ℕ → String) → List (Row Node) → Tx (List Entry)
create_items kind operation_id now canary token [] = pure []
create_items kind operation_id now canary token (node ∷ rest) = do
  entry ← create_item kind operation_id now canary token node
  entries ← create_items kind operation_id now canary token rest
  pure (entry ∷ entries)

-- int(body.scheduled_at or now)
abbrev pub time_else : Option ℕ → ℕ → ℕ
time_else none now = now
time_else (some t) now = if t == 0 then now else t

pub record Created : Type 0 where
  pub operation_id : ℕ
  pub created_items : List Entry
  pub rollout : List Entry
  pub settings : RolloutSettings

-- sorted(created_items, key=lambda item: 0 if item["canary"] else 1)
abbrev pub rollout_order : List Entry → List Entry
rollout_order items = order_by (λ (e : Entry). if e.canary then 0 else 1) items

-- The checks that need no database, then the settings of an upgrade. `token` is
-- secrets.token_urlsafe, drawn for each node.
unfoldable pub create_fleet_operation_mutation :
    Python → String → (ℕ → String) → FleetOperationBody → ℕ → Tx Created
create_fleet_operation_mutation py version token body user_id = do
  let node_ids = distinct body.node_ids
  now ← utc_ts
  let scheduled_at = time_else body.scheduled_at now
  reject_if (ltb (now + 366 * 86400) scheduled_at) 422
      "Fleet operations can be scheduled at most one year ahead"
  reject_if (needs_service body.kind && not (filled body.service)) 422
      "This fleet operation requires a managed service name"
  reject_if (is_remote body.kind && ltb (now + 5) scheduled_at) 422
      "Agent synchronization and upgrades must be started immediately"
  settings ←
      found (rollout_settings py body.kind body.payload) 422
        "Invalid Agent upgrade rollout settings"
  rows ← fetch_all nodes (λ n. any_row (λ m. n.id == m) node_ids)
  reject_if (not (length rows == length node_ids)) 404 "One or more selected Nodes do not exist"
  (if is_remote body.kind then for_each rows refuse_unmanaged else pure tt)
  let canary = choose_canary body.kind settings.canary_node_id node_ids
  reject_if (is_some canary && not (any_row (λ m. is_ref canary m) node_ids)) 422
      "The canary Node must be included in the selected rollout Nodes"
  operation_id ← insert fleet_operations (record {
    name = body.name;
    kind = body.kind;
    payload = with_service body.service (
        if is_upgrade body.kind
        then upgrade_payload version (record settings { canary_node_id = canary })
        else body.payload);
    status = if is_remote body.kind then FleetStatus.running else FleetStatus.scheduled;
    scheduled_at = scheduled_at;
    created_by = some user_id;
    created_at = now;
    started_at = if is_remote body.kind then some now else none;
    finished_at = none;
  })
  items ← create_items body.kind operation_id now canary token rows
  (if not (is_remote body.kind) && leb scheduled_at now
      then queue_due_fleet_operations now
      else pure tt)
  pure (record {
    operation_id = operation_id;
    created_items = items;
    rollout = rollout_order items;
    settings = settings;
  })
