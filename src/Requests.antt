-- ===== src/Requests.antt =====
-- The requests that the Hub serves and the maintenance cycle that it runs, each as one transaction
-- of the services: what the routers in hub/ and `run_maintenance_cycle` call.
pub mod States
pub mod Reach
use dark_noc.Base.{ℕ, String, Bool, Option, List}
use dark_noc.Store.Schema.{Node}
use dark_noc.Store.Bodies.{JobResult, NodeBody, MonitorBody, FleetOperationBody, CertificateBody}
use dark_noc.Store.Table.{Row}
use dark_noc.Store.Hub.{Hub}
use dark_noc.Store.Tx.{Tx, settle}
use dark_noc.Agents.Beat.{serve_pulse, serve_heartbeat}
use dark_noc.Agents.Enrollment.{LocalEnroll, local_agent_enroll}
use dark_noc.Agents.Report.{AgentReport}
use dark_noc.Certificates.{issue_certificate_mutation, renew_certificate_mutation}
use dark_noc.Deployments.{recover_pair_code_mutation, retry_hybrid_mutation, remove_hybrid_mutation}
use dark_noc.Deployments.Deploy.{deploy_managed_mutation}
use dark_noc.Deployments.Managed.{PluginDeployBody}
use dark_noc.Deployments.Payload.{plugin_job_payload, plugin_pair_code}
use dark_noc.Deployments.Retry.{retry_managed_mutation, remove_managed_mutation}
use dark_noc.Fleet.{cancel_fleet_operation_mutation}
use dark_noc.Fleet.Create.{Entry, create_fleet_operation_mutation}
use dark_noc.Fleet.Rollout.{start_batch, finish_batch, finish_provision}
use dark_noc.Guards.Sessions.{logout, sign_in}
use dark_noc.Incident.{
  IncidentActionBody, IncidentNoteBody, add_incident_note_mutation, incident_action_mutation,
}
use dark_noc.Job.{agent_jobs, renew_agent_job_lease}
use dark_noc.Job.Results.{agent_job_result}
use dark_noc.Lease.{acquire_hub_lease}
use dark_noc.Maintenance.{run_maintenance_cycle}
use dark_noc.Monitoring.{
  Values, monitor_values, create_monitor_mutation, update_monitor_mutation, delete_monitor_mutation,
}
use dark_noc.Monitoring.Due.{queue_monitor_run_mutation}
use dark_noc.Nodes.{
  create_node_mutation, update_node_mutation, prepare_node_provision_mutation, delete_node_mutation,
  reset_node_fingerprint_mutation,
}
use dark_noc.Registry.Catalog.{managed_tunnel_report}
use dark_noc.Tunnels.{
  TunnelAction, queue_tunnel_action_mutation, queue_plugin_install_mutation, remove_tunnel_mutation,
}
use dark_noc.World.{World, catalog_of}

pub data Operation : Type 0 where
  note_incident : ℕ → IncidentNoteBody → ℕ → ℕ → Operation
  act_on_incident : ℕ → IncidentActionBody → ℕ → ℕ → Operation
  acquire_lease : String → String → Option ℕ → Operation
  claim_job renew_job : Row Node → ℕ → Operation
  report_job : JobResult → Row Node → Operation
  create_node : NodeBody → String → ℕ → Operation
  update_node : ℕ → NodeBody → ℕ → Operation
  provision_node delete_node reset_fingerprint : ℕ → ℕ → Operation
  create_monitor : MonitorBody → ℕ → ℕ → Operation
  edit_monitor : ℕ → MonitorBody → ℕ → ℕ → Operation
  delete_monitor : ℕ → ℕ → Operation
  run_monitor : ℕ → ℕ → ℕ → Operation
  issue_certificate : CertificateBody → ℕ → Operation
  renew_certificate : ℕ → ℕ → Operation
  create_fleet : FleetOperationBody → ℕ → Operation
  cancel_fleet : ℕ → Operation
  start_fleet_batch : ℕ → List Entry → Operation
  finish_fleet_batch : Bool → ℕ → Operation
  finish_provisioning : ℕ → ℕ → Operation
  deploy_managed : String → PluginDeployBody → String → ℕ → Operation
  recover_pair_code : ℕ → Operation
  retry_hybrid remove_hybrid retry_managed remove_managed : ℕ → ℕ → Operation
  act_on_tunnel : ℕ → TunnelAction → ℕ → Operation
  install_plugin : ℕ → String → ℕ → Operation
  remove_tunnel : ℕ → ℕ → ℕ → Operation
  enroll_local : LocalEnroll → Operation
  pulse : Option String → String → Option String → Operation
  open_session : String → String → String → String → Operation
  close_session : Option String → Operation
  heartbeat : Option String → AgentReport → Option String → Operation
  maintain : Operation

abbrev pub values : World → MonitorBody → Option String → Tx Values
values w = monitor_values w.py w.validate_host w.encrypt

unfoldable pub run : World → Operation → Hub → Hub
run w (note_incident n body user now) h = settle h (add_incident_note_mutation n body user now h)
run w (act_on_incident n body user now) h = settle h (incident_action_mutation n body user now h)
run w (acquire_lease holder name now) h =
    settle h (acquire_hub_lease w.hub_lease_seconds holder name now h)
run w (claim_job node n) h = settle h (agent_jobs node h)
run w (renew_job node n) h = settle h (renew_agent_job_lease n node h)
run w (report_job result node) h = settle h (agent_job_result w.py result node h)
run w (create_node body enrollment now) h =
    settle h (create_node_mutation w.encrypt w.canonicalize_host w.token_hash body enrollment now h)
run w (update_node n body now) h =
    settle h (update_node_mutation w.encrypt w.canonicalize_host n body now h)
run w (provision_node n now) h =
    settle h (prepare_node_provision_mutation w.canonicalize_host n now h)
run w (delete_node n now) h = settle h (delete_node_mutation n h)
run w (reset_fingerprint n now) h = settle h (reset_node_fingerprint_mutation n now h)
run w (create_monitor body user now) h =
    settle h (create_monitor_mutation (values w) body user now h)
run w (edit_monitor n body user now) h =
    settle h (update_monitor_mutation (values w) n body user now h)
run w (delete_monitor n user) h = settle h (delete_monitor_mutation n user h)
run w (run_monitor n user now) h =
    settle h (queue_monitor_run_mutation w.decrypt w.node_stale_after n user now h)
run w (issue_certificate body user) h =
    settle h
      (issue_certificate_mutation w.py w.getaddrinfo w.normalize_ip w.node_stale_after body user h)
run w (renew_certificate n user) h =
    settle h (renew_certificate_mutation w.node_stale_after n user h)
run w (create_fleet body user) h =
    settle h (create_fleet_operation_mutation w.py w.version w.token_urlsafe body user h)
run w (cancel_fleet n) h = settle h (cancel_fleet_operation_mutation n h)
run w (start_fleet_batch n batch) h = settle h (start_batch n batch h)
run w (finish_fleet_batch stop n) h = settle h (finish_batch stop n h)
run w (finish_provisioning item n) h = settle h (finish_provision w.version item n h)
run w (deploy_managed plugin_id body token user) h =
    settle h (deploy_managed_mutation w plugin_id body token user h)
run w (recover_pair_code n) h =
    settle h
      (recover_pair_code_mutation w.decrypt (plugin_pair_code w.py w.encoding) w.token_hash n h)
run w (retry_hybrid n user) h =
    settle h (retry_hybrid_mutation (catalog_of w) w.decrypt w.node_stale_after n user h)
run w (remove_hybrid n user) h = settle h (remove_hybrid_mutation n user h)
run w (retry_managed n user) h = settle h (
    retry_managed_mutation (catalog_of w) w.decrypt (plugin_job_payload w.py) w.node_stale_after n
      user h)
run w (remove_managed n user) h = settle h (remove_managed_mutation n user h)
run w (act_on_tunnel n action user) h =
    settle h (queue_tunnel_action_mutation w.py w.node_stale_after n action user h)
run w (install_plugin n plugin user) h =
    settle h (queue_plugin_install_mutation (catalog_of w) w.node_stale_after n plugin user h)
run w (remove_tunnel n user now) h = settle h (remove_tunnel_mutation w.py n user now h)
run w (enroll_local e) h = settle h (local_agent_enroll w.py w.token_hash e h)
run w (pulse authorization version client) h =
    settle h (serve_pulse w.token_hash w.like authorization version client h)
run w (open_session username password client_ip token) h =
    settle h (sign_in w.users w.token_hash w.verify_password username password client_ip token h)
run w (close_session cookie) h = settle h (logout w.users w.token_hash cookie h)
run w (heartbeat authorization report client) h = settle h (
    serve_heartbeat w.py w.token_hash w.peer_address (managed_tunnel_report w.py w.manifests) w.like
      authorization report client h)
run w maintain h = settle h (
    run_maintenance_cycle w.py w.decrypt w.like w.node_stale_after w.monitor_result_retention_days
      h)
