-- ===== src/Nodes.antt =====
-- The registry of nodes: the node operations of hub/node_tunnel_service.py and
-- `find_node_endpoint_conflict` of hub/node_tunnel_repository.py.
pub mod Keeps
pub mod Endpoints
use dark_noc.Base.{
  ltb, ◌==◌, if◌then◌else◌, is_some, filled, ℕ, ◌+◌, String, str_append, Bool, true, false, not,
  ◌&&◌, ◌||◌, Option, none, some, str_eq,
}
use dark_noc.Base.Json.{end}
use dark_noc.Store.Schema.{Role, NodeStatus, Provision, Node, Lifecycle}
use dark_noc.Store.Bodies.{NodeBody}
use dark_noc.Store.Table.{Row}
use dark_noc.Store.Hub.{nodes, plugin_deployments}
use dark_noc.Store.Tx.{
  Error, Tx, pure, throw, found, reject_if, insert, update, fetch_one, refuse_clash, ◌>>=◌, ◌>>◌,
  on_integrity,
}
use dark_noc.Store.Cascade.{delete_nodes}

-- not last_seen or last_seen < now - node_stale_after; a difference below 0 is below no time
abbrev pub is_offline : Option ℕ → ℕ → ℕ → Bool
is_offline none now node_stale_after = true
is_offline (some t) now node_stale_after = t == 0 || ltb (t + node_stale_after) now

abbrev pub is_hub : Role → Bool
is_hub Role.hub = true
is_hub _ = false

abbrev pub is_provisioning : Option Provision → Bool
is_provisioning (some Provision.provisioning) = true
is_provisioning _ = false

-- row["id"] != exclude_id
abbrev pub is_other : Option ℕ → ℕ → Bool
is_other none n = true
is_other (some m) n = not (n == m)

-- A row of the same port whose host has the same canonical form.
abbrev pub is_at : (String → String) → String → ℕ → Row Node → Bool
is_at canonicalize_host host ssh_port n =
    n.cols.ssh_port == ssh_port && str_eq (canonicalize_host n.cols.host) (canonicalize_host host)

unfoldable pub find_node_endpoint_conflict :
    (String → String) → String → ℕ → Option ℕ → Tx (Option (Row Node))
find_node_endpoint_conflict canonicalize_host host ssh_port exclude_id =
    fetch_one nodes (λ n. is_at canonicalize_host host ssh_port n && is_other exclude_id n.id)

abbrev pub same_text : Option String → Option String → Bool
same_text none t = false
same_text (some s) none = false
same_text (some s) (some t) = str_eq s t

-- if conflict: raise NodeTunnelServiceError(409, …)
unfoldable pub refuse_conflict : Option (Row Node) → Tx (Unit {0})
refuse_conflict none = pure tt
refuse_conflict (some n) =
    throw (Error.http 409 (str_append "SSH endpoint is already registered as " n.cols.name))

module _ (encrypt : Option String → Option String) (canonicalize_host : String → String) where
  unfoldable pub create_node_mutation : (String → String) → NodeBody → String → ℕ → Tx ℕ
  create_node_mutation token_hash body enrollment now = do
    reject_if (is_hub body.role) 400
        "The Hub node is registered automatically; add this server as Iran Edge or Global Exit"
    reject_if (not (filled body.ssh_password) && not (filled body.ssh_private_key)) 400
        "SSH password or private key is required for automatic Node installation"
    reject_if (not (str_eq body.ssh_user "root")) 400
        "Automatic Node installation currently requires SSH user root"
    on_integrity 409 "Node name already exists" (do
      conflict ← find_node_endpoint_conflict canonicalize_host body.host body.ssh_port none
      refuse_conflict conflict
      refuse_clash nodes (λ n.
          str_eq n.cols.name body.name
          || same_text n.cols.agent_token_hash (some (token_hash enrollment)))
      insert nodes (record {
        name = body.name;
        region = body.region;
        role = body.role;
        host = body.host;
        ssh_port = body.ssh_port;
        ssh_user = body.ssh_user;
        ssh_password_enc = encrypt body.ssh_password;
        ssh_key_enc = encrypt body.ssh_private_key;
        agent_token_hash = some (token_hash enrollment);
        status = NodeStatus.pending;
        agent_version = none;
        observed_ip = none;
        plugin_inventory = end;
        provision_status = some Provision.provisioning;
        provision_output = none;
        ssh_host_fingerprint = none;
        autoheal_enabled = false;
        autoheal_cooldown = 300;
        autoheal_max_restarts = 3;
        last_seen = none;
        created_at = now;
        updated_at = now;
      }))

  unfoldable pub update_node_mutation : ℕ → NodeBody → ℕ → Tx Bool
  update_node_mutation node_id body now = do
    row ← fetch_one nodes (λ n. n.id == node_id)
    current ← found row 404 "Node not found"
    reject_if (is_provisioning current.cols.provision_status) 409
        "Wait for Agent installation or synchronization to finish before editing this Node"
    conflict ← find_node_endpoint_conflict canonicalize_host body.host body.ssh_port (some node_id)
    refuse_conflict conflict
    let reset_pin =
        not (str_eq current.cols.host body.host) || not (current.cols.ssh_port == body.ssh_port)
    on_integrity 409 "Node name already exists" (do
      refuse_clash nodes (λ n. not (n.id == node_id) && str_eq n.cols.name body.name)
      update nodes (λ n. n.id == node_id)
          (λ n. record n {
            name = body.name;
            region = body.region;
            role = body.role;
            host = body.host;
            ssh_port = body.ssh_port;
            ssh_user = body.ssh_user;
            ssh_password_enc =
                if filled body.ssh_password
                then encrypt body.ssh_password
                else current.cols.ssh_password_enc;
            ssh_key_enc =
                if filled body.ssh_private_key
                then encrypt body.ssh_private_key
                else current.cols.ssh_key_enc;
            ssh_host_fingerprint = if reset_pin then none else current.cols.ssh_host_fingerprint;
            updated_at = now;
          })
      pure reset_pin)

unfoldable pub prepare_node_provision_mutation : (String → String) → ℕ → ℕ → Tx (Row Node)
prepare_node_provision_mutation canonicalize_host node_id now = do
  row ← fetch_one nodes (λ n. n.id == node_id)
  node ← found row 404 "Node not found"
  reject_if (is_hub node.cols.role) 400 "The local Hub Agent is managed by the Hub installer"
  reject_if (not (filled node.cols.ssh_password_enc) && not (filled node.cols.ssh_key_enc)) 400
      "Configure SSH credentials before retrying installation"
  conflict ←
      find_node_endpoint_conflict canonicalize_host node.cols.host node.cols.ssh_port (some node_id)
  refuse_conflict conflict
  changed ←
      update nodes (λ n. n.id == node_id && not (is_provisioning n.cols.provision_status))
        (λ n. record n {
          provision_status = some Provision.provisioning;
          provision_output = some "";
          updated_at = now;
        })
  reject_if (not (changed == 1)) 409 "Agent installation or synchronization is already running"
  pure node

-- lifecycle IN ('active','removing','rolling_back')
abbrev pub is_unfinished : Lifecycle → Bool
is_unfinished Lifecycle.active = true
is_unfinished Lifecycle.removing = true
is_unfinished Lifecycle.rolling_back = true
is_unfinished _ = false

unfoldable pub delete_node_mutation : ℕ → Tx (Row Node)
delete_node_mutation node_id = do
  found_row ← fetch_one nodes (λ n. n.id == node_id)
  row ← found found_row 404 "Node not found"
  reject_if (is_provisioning row.cols.provision_status) 409
      "Wait for Agent installation or synchronization to finish before deleting this Node"
  deployment ← fetch_one plugin_deployments (λ d.
      is_unfinished d.cols.lifecycle
      && (d.cols.iran_node_id == node_id || d.cols.kharej_node_id == node_id))
  reject_if (is_some deployment) 409
      "Remove active DARK NOC tunnel deployments before deleting this node"
  delete_nodes (λ n. n.id == node_id)
  pure row

unfoldable pub reset_node_fingerprint_mutation : ℕ → ℕ → Tx (Row Node)
reset_node_fingerprint_mutation node_id now = do
  found_row ← fetch_one nodes (λ n. n.id == node_id)
  row ← found found_row 404 "Node not found"
  reject_if (is_provisioning row.cols.provision_status) 409
      "Wait for Agent installation or synchronization to finish before resetting its SSH fingerprint"
  update nodes (λ n. n.id == node_id)
      (λ n. record n { ssh_host_fingerprint = none; updated_at = now })
  pure row
