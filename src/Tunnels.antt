-- ===== src/Tunnels.antt =====
-- Tunnels of the panel: the tunnel operations of hub/node_tunnel_service.py.
pub mod Keeps
use dark_noc.Base.{
  ◌==◌, if◌then◌else◌, truthy, text_else, any_row, ℕ, String, not, ◌&&◌, ◌||◌, Option, none, some,
  List, str_eq,
}
use dark_noc.Base.Json.{Json, str, Dict, end, field, get}
use dark_noc.Store.Schema.{Node, Tunnel, JobKind, Lifecycle, Deployment, Hybrid}
use dark_noc.Store.Table.{Row}
use dark_noc.Store.Hub.{nodes, tunnels, plugin_deployments, hybrid_deployments}
use dark_noc.Store.Tx.{Tx, pure, found, reject_if, utc_ts, update, fetch_one, ◌>>=◌, ◌>>◌}
use dark_noc.Deployments.{Plugin, is_active_lifecycle, queue_plugin_job}
use dark_noc.Job.Outcomes.{default}
use dark_noc.Nodes.{is_offline}
use dark_noc.Python.{Python}

pub data TunnelAction : Type 0 where
  start stop restart logs status test install : TunnelAction

-- service.startswith(…), in the order of the source
unfoldable pub plugin_of : Python → String → Option String
plugin_of py service =
    if py.starts "dark-realm@" service
    then some "dark-realm"
    else if py.starts "ghostpro@" service
    then some "dark-ghostpro"
    else if py.starts "paqetpro@" service
    then some "dark-packetpro"
    else if py.starts "backhaul@" service
    then some "dark-backhaul"
    else none

abbrev pub control : String → String → String → JobKind × Dict
control name action plugin_id = (
  JobKind.tunnel_control,
  field "name" (str name) (field "action" (str action) (field "plugin_id" (str plugin_id) end)),
)

abbrev pub action_job : TunnelAction → String → String → String → JobKind × Dict
action_job TunnelAction.start name service plugin_id = control name "start" plugin_id
action_job TunnelAction.stop name service plugin_id = control name "stop" plugin_id
action_job TunnelAction.restart name service plugin_id = control name "restart" plugin_id
action_job TunnelAction.logs name service plugin_id =
    (JobKind.logs, field "service" (str service) end)
action_job TunnelAction.status name service plugin_id =
    (JobKind.service_status, field "service" (str service) end)
action_job TunnelAction.test name service plugin_id = (JobKind.tunnel_test, end)
action_job TunnelAction.install name service plugin_id =
    (JobKind.plugin_install, field "plugin_id" (str plugin_id) end)

unfoldable pub queue_tunnel_action_mutation :
    Python → ℕ → ℕ → TunnelAction → ℕ → Tx (Row Tunnel × ℕ)
queue_tunnel_action_mutation py node_stale_after tunnel_id action user_id = do
  row ← fetch_one tunnels (λ t. t.id == tunnel_id)
  tunnel ← found row 404 "Tunnel not found"
  joined ← fetch_one nodes (λ n. n.id == tunnel.cols.node_id)
  node ← found joined 404 "Tunnel not found"
  checked_at ← (if truthy node.cols.last_seen then utc_ts else pure 0)
  reject_if (is_offline node.cols.last_seen checked_at node_stale_after) 409
      "The tunnel Agent is offline"
  let service = text_else tunnel.cols.service ""
  plugin_id ← found (plugin_of py service) 422 "This tunnel is not managed by a DARK NOC plugin"
  let job = action_job action tunnel.cols.name service plugin_id
  now ← utc_ts
  job_id ← queue_plugin_job tunnel.cols.node_id job.0 job.1 user_id now
  pure (tunnel, job_id)

unfoldable pub queue_plugin_install_mutation : List Plugin → ℕ → ℕ → String → ℕ → Tx (Row Node × ℕ)
queue_plugin_install_mutation plugin_catalog node_stale_after node_id plugin_id user_id = do
  reject_if (not (any_row (λ (p : Plugin). str_eq p.id plugin_id) plugin_catalog)) 404
      "Plugin not found"
  row ← fetch_one nodes (λ n. n.id == node_id)
  node ← found row 404 "Node not found"
  checked_at ← (if truthy node.cols.last_seen then utc_ts else pure 0)
  reject_if (is_offline node.cols.last_seen checked_at node_stale_after) 409 "Agent must be online"
  now ← utc_ts
  job_id ←
      queue_plugin_job node_id JobKind.plugin_install (field "plugin_id" (str plugin_id) end)
        user_id now
  pure (node, job_id)

-- settings.get("plugin_id", "dark-backhaul")
abbrev pub settings_plugin : Dict → Json
settings_plugin settings = default (get "plugin_id" settings) (str "dark-backhaul")

abbrev pub removal_of : Json → String → Dict
removal_of plugin_id name = field "plugin_id" plugin_id (field "name" (str name) end)

-- The jobs that a removal queued: the Iran side's, or the only one, and the other side's.
pub record Removed : Type 0 where
  pub tunnel_name : String
  pub iran_job : ℕ
  pub kharej_job : Option ℕ

-- if managed:
unfoldable pub remove_managed_tunnel : Row Tunnel → Row Deployment → ℕ → ℕ → Tx Removed
remove_managed_tunnel tunnel managed user_id now = do
  let payload = removal_of (settings_plugin managed.cols.settings) tunnel.cols.name
  iran_job ← queue_plugin_job managed.cols.iran_node_id JobKind.plugin_remove payload user_id now
  kharej_job ←
      queue_plugin_job managed.cols.kharej_node_id JobKind.plugin_remove payload user_id now
  update plugin_deployments (λ d. d.id == managed.id)
      (λ d. record d {
        iran_job_id = some iran_job;
        kharej_job_id = some kharej_job;
        lifecycle = Lifecycle.removing;
      })
  pure
      (record { tunnel_name = tunnel.cols.name; iran_job = iran_job; kharej_job = some kharej_job })

-- if hybrid, its plugin; if not, the plugin that the service's name shows
abbrev pub lone_plugin : Python → Option (Row Hybrid) → Option String → Json
lone_plugin py none service =
    if py.starts "ghostpro@" (text_else service "None")
    then str "dark-ghostpro"
    else str "dark-backhaul"
lone_plugin py (some d) service = settings_plugin d.cols.settings

unfoldable pub mark_hybrid : Option (Row Hybrid) → ℕ → ℕ → Tx (Unit {0})
mark_hybrid none job_id now = pure tt
mark_hybrid (some d) job_id now = do
  update hybrid_deployments (λ x. x.id == d.id)
      (λ x. record x {
        iran_job_id = some job_id;
        lifecycle = Lifecycle.removing;
        updated_at = now;
      })
  pure tt

unfoldable pub remove_lone_tunnel : Python → Row Tunnel → Option (Row Hybrid) → ℕ → ℕ → Tx Removed
remove_lone_tunnel py tunnel hybrid user_id now = do
  iran_job ←
      queue_plugin_job tunnel.cols.node_id JobKind.plugin_remove
        (removal_of (lone_plugin py hybrid tunnel.cols.service) tunnel.cols.name) user_id now
  mark_hybrid hybrid iran_job now
  pure (record { tunnel_name = tunnel.cols.name; iran_job = iran_job; kharej_job = none })

unfoldable pub remove_either :
    Python → Row Tunnel → Option (Row Deployment) → Option (Row Hybrid) → ℕ → ℕ → Tx Removed
remove_either py tunnel (some managed) hybrid user_id now =
    remove_managed_tunnel tunnel managed user_id now
remove_either py tunnel none hybrid user_id now = remove_lone_tunnel py tunnel hybrid user_id now

unfoldable pub remove_tunnel_mutation : Python → ℕ → ℕ → ℕ → Tx Removed
remove_tunnel_mutation py tunnel_id user_id now = do
  row ← fetch_one tunnels (λ t. t.id == tunnel_id)
  tunnel ← found row 404 "Tunnel not found"
  managed ← fetch_one plugin_deployments (λ d.
      str_eq d.cols.name tunnel.cols.name
      && is_active_lifecycle d.cols.lifecycle
      && (d.cols.iran_node_id == tunnel.cols.node_id
          || d.cols.kharej_node_id == tunnel.cols.node_id))
  hybrid ← fetch_one hybrid_deployments (λ d.
      str_eq d.cols.name tunnel.cols.name
      && is_active_lifecycle d.cols.lifecycle
      && d.cols.iran_node_id == tunnel.cols.node_id)
  remove_either py tunnel managed hybrid user_id now
