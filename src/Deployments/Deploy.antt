-- ===== src/Deployments/Deploy.antt =====
-- `deploy_managed_mutation` of hub/plugin_deployment_service.py.
use dark_noc.Base.{
  ◌==◌, if◌then◌else◌, is_some, any_row, ℕ, String, Bool, not, ◌&&◌, ◌||◌, Option, some, List,
  str_eq,
}
use dark_noc.Base.Json.{num, str, arr, Dict, end, field, get, pop, nums, text_or, is_truthy}
use dark_noc.Store.Schema.{Node, JobKind, Lifecycle}
use dark_noc.Store.Table.{Row}
use dark_noc.Store.Hub.{nodes, plugin_deployments}
use dark_noc.Store.Tx.{◌>>=◌, ◌>>◌, Tx, pure, found, reject_if, utc_ts, insert, fetch_one}
use dark_noc.Store.Lift.{Checked}
use dark_noc.Certificates.{CertificateSettings}
use dark_noc.Deployments.{Plugin, queue_plugin_job}
use dark_noc.Deployments.Managed.{
  PluginDeployBody, catalog_item, runtime_settings, validate_catalog_choices, sorted_ports,
  is_bad_port, is_edge, is_exit, is_occupying, choose_endpoint, standard_settings, realm_settings,
}
use dark_noc.Deployments.Payload.{plugin_job_payload}
use dark_noc.Nodes.{is_offline}
use dark_noc.Python.{Python}
use dark_noc.Realm.Prepare.{prepare_realm_settings}
use dark_noc.World.{World, catalog_of}

abbrev pub common_settings : String → PluginDeployBody → List ℕ → String → Dict → Dict
common_settings plugin_id body ports token runtime = field "plugin_id" (str plugin_id) (
    field "name" (str body.name) (
      field "endpoint" (str body.iran_endpoint) (
        field "tunnel_port" (num body.tunnel_port) (
          field "user_ports" (arr (nums ports)) (
            field "transport" (str body.transport) (
              field "profile" (str body.profile) (
                field "restart_every" (str body.restart_every) (
                  field "token" (str token) (
                    field "pair_codec" (str (text_or "generic-v1" (get "pair_codec" runtime))) (
                      field "certificate_role" (str (text_or "" (get "certificate_role" runtime)))
                        end))))))))))

-- Both nodes are online, and no deployment of this name occupies one of them.
unfoldable pub check_nodes : ℕ → ℕ → String → Row Node → Row Node → Tx (Unit {0})
check_nodes node_stale_after now name iran kharej = do
  reject_if
      (is_offline iran.cols.last_seen now node_stale_after
        || is_offline kharej.cols.last_seen now node_stale_after)
      409 "Both nodes must be online before deployment"
  occupied ← fetch_one plugin_deployments (λ d.
      str_eq d.cols.name name
      && (d.cols.iran_node_id == iran.id
          || d.cols.iran_node_id == kharej.id
          || d.cols.kharej_node_id == iran.id
          || d.cols.kharej_node_id == kharej.id)
      && is_occupying d.cols.lifecycle)
  reject_if (is_some occupied) 409
      "A deployment with this name is already running on one of the selected nodes"

unfoldable pub insert_deployment :
    (Dict → Option String → String → Dict)
    → (Option String → Option String)
    → Plugin
    → PluginDeployBody
    → Row Node
    → Row Node
    → String
    → Dict
    → ℕ
    → ℕ
    → Tx (ℕ × (ℕ × ℕ))
insert_deployment plugin_job_payload encrypt catalog body iran kharej token common user_id now = do
  iran_job ←
      queue_plugin_job iran.id JobKind.plugin_deploy
        (plugin_job_payload common (some token) catalog.iran_role) user_id now
  kharej_job ←
      queue_plugin_job kharej.id JobKind.plugin_deploy
        (plugin_job_payload common (some token) catalog.kharej_role) user_id now
  deployment_id ← insert plugin_deployments (record {
    plugin_id = catalog.id;
    name = body.name;
    iran_node_id = iran.id;
    kharej_node_id = kharej.id;
    iran_job_id = some iran_job;
    kharej_job_id = some kharej_job;
    settings = pop "token" common;
    pair_token_enc = encrypt (some token);
    lifecycle = Lifecycle.active;
    created_by = some user_id;
    created_at = now;
  })
  pure (deployment_id, (iran_job, kharej_job))

-- settings_profile == "realm", or the settings of another plugin
unfoldable pub final_settings :
    Python
    → (ℕ → Dict → String → Option CertificateSettings → Bool → Checked Dict)
    → Dict
    → PluginDeployBody
    → Row Node
    → Row Node
    → String
    → Dict
    → Tx Dict
final_settings py prepare_realm_settings runtime body iran kharej token common =
    if str_eq (text_or "standard" (get "settings_profile" runtime)) "realm"
    then realm_settings py prepare_realm_settings runtime body kharej token common
    else standard_settings py runtime body iran kharej common

-- What is done with both nodes: `token` is secrets.token_urlsafe with its dashes replaced.
unfoldable pub deploy_on :
    World
    → Plugin
    → Dict
    → PluginDeployBody
    → String
    → ℕ
    → ℕ
    → Row Node
    → Row Node
    → Tx (ℕ × (ℕ × ℕ))
deploy_on w catalog runtime body token user_id now iran kharej = do
  reject_if (not (is_edge iran.cols.role) || not (is_exit kharej.cols.role)) 422
      "Select an Iran Edge node for IRAN and a Global Exit node for KHAREJ"
  addressed ←
      choose_endpoint w.py w.normalize_ip w.is_ipv4 catalog
        (text_or "iran" (get "managed_endpoint" runtime)) kharej
        (common_settings catalog.id body (sorted_ports body.user_ports) token runtime)
  common ←
      final_settings w.py (prepare_realm_settings w.py w.ip_address) runtime body iran kharej token
        addressed
  check_nodes w.node_stale_after now body.name iran kharej
  insert_deployment (plugin_job_payload w.py) w.encrypt catalog body iran kharej token common
      user_id now

-- The two nodes, once the body has been checked.
unfoldable pub deploy_between :
    World → Plugin → Dict → PluginDeployBody → String → ℕ → ℕ → Tx (ℕ × (ℕ × ℕ))
deploy_between w catalog runtime body token user_id now = do
  iran_row ← fetch_one nodes (λ n. n.id == body.iran_node_id)
  kharej_row ← fetch_one nodes (λ n. n.id == body.kharej_node_id)
  iran ← found iran_row 404 "One or both nodes were not found"
  kharej ← found kharej_row 404 "One or both nodes were not found"
  deploy_on w catalog runtime body token user_id now iran kharej

unfoldable pub deploy_managed_mutation :
    World → String → PluginDeployBody → String → ℕ → Tx (ℕ × (ℕ × ℕ))
deploy_managed_mutation w plugin_id body token user_id = do
  catalog ← catalog_item (catalog_of w) plugin_id
  runtime ← runtime_settings catalog
  validate_catalog_choices catalog body.transport body.profile
  reject_if (body.iran_node_id == body.kharej_node_id) 422 "IRAN and KHAREJ must be different nodes"
  reject_if
      (any_row (is_bad_port (is_truthy (get "allow_tunnel_port_overlap" runtime)) body.tunnel_port)
        (sorted_ports body.user_ports))
      422 "User ports must be unique valid ports and cannot collide with the tunnel port"
  now ← utc_ts
  deploy_between w catalog runtime body token user_id now
