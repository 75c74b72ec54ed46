-- ===== src/Requests/Reach.antt =====
-- Whatever the Hub has served, its database is consistent.
use dark_noc.Base.{ℕ, String, Option, none, some, arith}
use dark_noc.Store.Schema.{Lease}
use dark_noc.Store.Bodies.{MonitorBody}
use dark_noc.Store.Table.{Row, IsTable}
use dark_noc.Store.Hub.{Hub}
use dark_noc.Store.Valid.{
  IsNode, IsIncident, IsJob, IsDeployment, IsCertificate, IsMonitor, IsOperation, Anything,
  Consistent,
}
use dark_noc.Store.Growth.{Grown, Grown-refl, Grown-trans}
use dark_noc.Store.Keeps.{Keeps, Keeps-settle}
use dark_noc.Store.Governed.{keeps_rules}
use dark_noc.Agents.Keeps.{local_agent_enroll-Keeps, serve_pulse-Keeps, serve_heartbeat-Keeps}
use dark_noc.Certificates.Keeps.{issue_certificate-Keeps, renew_certificate-Keeps}
use dark_noc.Deployments.DeployKeeps.{deploy_managed-Keeps}
use dark_noc.Deployments.Keeps.{
  recover_pair_code-Keeps, retry_hybrid-Keeps, remove_hybrid-Keeps, retry_managed-Keeps,
  remove_managed-Keeps,
}
use dark_noc.Deployments.Payload.{plugin_job_payload, plugin_pair_code}
use dark_noc.Fleet.Keeps.{
  cancel_fleet_operation-Keeps, create_fleet_operation-Keeps, start_batch-Keeps, finish_batch-Keeps,
  finish_provision-Keeps,
}
use dark_noc.Guards.Keeps.{logout-Keeps, sign_in-Keeps}
use dark_noc.Incident.Keeps.{time_or_now-Keeps, add_incident_note-Keeps, incident_action-Keeps}
use dark_noc.Job.Accepted.{agent_job_result-Keeps}
use dark_noc.Job.Keeps.{agent_jobs-Keeps, renew_agent_job_lease-Keeps}
use dark_noc.Lease.{upsert_lease, acquire_hub_lease}
use dark_noc.Maintenance.Keeps.{run_maintenance_cycle-Keeps}
use dark_noc.Monitoring.Keeps.{
  monitor_values-Keeps, create_monitor-Keeps, update_monitor-Keeps, delete_monitor-Keeps,
  queue_monitor_run-Keeps,
}
use dark_noc.Nodes.Keeps.{
  create_node-Keeps, update_node-Keeps, prepare_node_provision-Keeps, delete_node-Keeps,
  reset_node_fingerprint-Keeps,
}
use dark_noc.Registry.Catalog.{managed_tunnel_report}
use dark_noc.Requests.{
  Operation, note_incident, act_on_incident, acquire_lease, claim_job, renew_job, report_job,
  create_node, update_node, provision_node, delete_node, reset_fingerprint, create_monitor,
  edit_monitor, delete_monitor, run_monitor, issue_certificate, renew_certificate, create_fleet,
  cancel_fleet, start_fleet_batch, finish_fleet_batch, finish_provisioning, deploy_managed,
  recover_pair_code, retry_hybrid, remove_hybrid, retry_managed, remove_managed, act_on_tunnel,
  install_plugin, remove_tunnel, enroll_local, pulse, open_session, close_session, heartbeat,
  maintain, values, run,
}
use dark_noc.Requests.States.{
  fresh, initial, serves, Reachable, then_step, Later, now_on, after_step,
}
use dark_noc.Tunnels.Keeps.{
  queue_tunnel_action-Keeps, queue_plugin_install-Keeps, remove_tunnel-Keeps,
}
use dark_noc.World.{World, catalog_of}

fresh-IsTable : {C : Type 0} (P : C → Type 0) → IsTable P fresh
fresh-IsTable P = record { rising = omega arith; each = tt }

initial-Consistent : (clock : ℕ → ℕ) → Consistent (initial clock)
initial-Consistent clock = record {
  nodes = fresh-IsTable IsNode;
  sessions = fresh-IsTable Anything;
  tunnels = fresh-IsTable Anything;
  incidents = fresh-IsTable IsIncident;
  events = fresh-IsTable Anything;
  jobs = fresh-IsTable IsJob;
  deployments = fresh-IsTable IsDeployment;
  hybrids = fresh-IsTable Anything;
  certificates = fresh-IsTable IsCertificate;
  monitors = fresh-IsTable IsMonitor;
  results = fresh-IsTable Anything;
  operations = fresh-IsTable IsOperation;
  items = fresh-IsTable Anything;
  leases = fresh-IsTable Anything;
}

upsert_lease-Keeps :
    (held : Option (Row Lease)) (name holder : String) (expiry now : ℕ)
    → Keeps (upsert_lease held name holder expiry now)
unfolding upsert_lease
upsert_lease-Keeps none name holder expiry now = search keeps_rules depth 8
upsert_lease-Keeps (some l) name holder expiry now = search keeps_rules depth 8

acquire_hub_lease-Keeps :
    (seconds : ℕ) (holder name : String) (now : Option ℕ)
    → Keeps (acquire_hub_lease seconds holder name now)
unfolding acquire_hub_lease
acquire_hub_lease-Keeps seconds holder name now =
    search (keeps_rules, time_or_now-Keeps, upsert_lease-Keeps) depth 12

values-Keeps : (w : World) (body : MonitorBody) (s : Option String) → Keeps (values w body s)
values-Keeps w body s = monitor_values-Keeps w.py w.validate_host w.encrypt body s

run-Kept :
    (w : World) (o : Operation) (h : Hub)
    → Consistent h
    → Consistent (run w o h) × Grown h (run w o h)
unfolding run
run-Kept w (note_incident n body user now) h c =
    Keeps-settle _ h (add_incident_note-Keeps n body user now) c
run-Kept w (act_on_incident n body user now) h c =
    Keeps-settle _ h (incident_action-Keeps n body user now) c
run-Kept w (acquire_lease holder name now) h c =
    Keeps-settle _ h (acquire_hub_lease-Keeps w.hub_lease_seconds holder name now) c
run-Kept w (claim_job node n) h c = Keeps-settle _ h (agent_jobs-Keeps node) c
run-Kept w (renew_job node n) h c = Keeps-settle _ h (renew_agent_job_lease-Keeps n node) c
run-Kept w (report_job result node) h c =
    Keeps-settle _ h (agent_job_result-Keeps w.py result node) c
run-Kept w (create_node body enrollment now) h c =
    Keeps-settle _ h
      (create_node-Keeps w.encrypt w.canonicalize_host w.token_hash body enrollment now) c
run-Kept w (update_node n body now) h c =
    Keeps-settle _ h (update_node-Keeps w.encrypt w.canonicalize_host n body now) c
run-Kept w (provision_node n now) h c =
    Keeps-settle _ h (prepare_node_provision-Keeps w.canonicalize_host n now) c
run-Kept w (delete_node n now) h c = Keeps-settle _ h (delete_node-Keeps n) c
run-Kept w (reset_fingerprint n now) h c = Keeps-settle _ h (reset_node_fingerprint-Keeps n now) c
run-Kept w (create_monitor body user now) h c =
    Keeps-settle _ h (create_monitor-Keeps (values w) (values-Keeps w) body user now) c
run-Kept w (edit_monitor n body user now) h c =
    Keeps-settle _ h (update_monitor-Keeps (values w) (values-Keeps w) n body user now) c
run-Kept w (delete_monitor n user) h c = Keeps-settle _ h (delete_monitor-Keeps n user) c
run-Kept w (run_monitor n user now) h c =
    Keeps-settle _ h (queue_monitor_run-Keeps w.decrypt w.node_stale_after n user now) c
run-Kept w (issue_certificate body user) h c =
    Keeps-settle _ h
      (issue_certificate-Keeps w.py w.getaddrinfo w.normalize_ip w.node_stale_after body user) c
run-Kept w (renew_certificate n user) h c =
    Keeps-settle _ h (renew_certificate-Keeps w.node_stale_after n user) c
run-Kept w (create_fleet body user) h c =
    Keeps-settle _ h (create_fleet_operation-Keeps w.py w.version w.token_urlsafe body user) c
run-Kept w (cancel_fleet n) h c = Keeps-settle _ h (cancel_fleet_operation-Keeps n) c
run-Kept w (start_fleet_batch n batch) h c = Keeps-settle _ h (start_batch-Keeps n batch) c
run-Kept w (finish_fleet_batch stop n) h c = Keeps-settle _ h (finish_batch-Keeps stop n) c
run-Kept w (finish_provisioning item n) h c =
    Keeps-settle _ h (finish_provision-Keeps w.version item n) c
run-Kept w (deploy_managed plugin_id body token user) h c =
    Keeps-settle _ h (deploy_managed-Keeps w plugin_id body token user) c
run-Kept w (recover_pair_code n) h c =
    Keeps-settle _ h
      (recover_pair_code-Keeps w.decrypt (plugin_pair_code w.py w.encoding) w.token_hash n) c
run-Kept w (retry_hybrid n user) h c =
    Keeps-settle _ h (retry_hybrid-Keeps (catalog_of w) w.decrypt w.node_stale_after n user) c
run-Kept w (remove_hybrid n user) h c = Keeps-settle _ h (remove_hybrid-Keeps n user) c
run-Kept w (retry_managed n user) h c =
    Keeps-settle _ h
      (retry_managed-Keeps (catalog_of w) w.decrypt (plugin_job_payload w.py) w.node_stale_after n
        user)
      c
run-Kept w (remove_managed n user) h c = Keeps-settle _ h (remove_managed-Keeps n user) c
run-Kept w (act_on_tunnel n action user) h c =
    Keeps-settle _ h (queue_tunnel_action-Keeps w.py w.node_stale_after n action user) c
run-Kept w (install_plugin n plugin user) h c =
    Keeps-settle _ h (queue_plugin_install-Keeps (catalog_of w) w.node_stale_after n plugin user) c
run-Kept w (remove_tunnel n user now) h c = Keeps-settle _ h (remove_tunnel-Keeps w.py n user now) c
run-Kept w (enroll_local e) h c = Keeps-settle _ h (local_agent_enroll-Keeps w.py w.token_hash e) c
run-Kept w (pulse authorization version client) h c =
    Keeps-settle _ h (serve_pulse-Keeps w.token_hash w.like authorization version client) c
run-Kept w (open_session username password client_ip token) h c =
    Keeps-settle _ h
      (sign_in-Keeps w.users w.token_hash w.verify_password username password client_ip token) c
run-Kept w (close_session cookie) h c =
    Keeps-settle _ h (logout-Keeps w.users w.token_hash cookie) c
run-Kept w (heartbeat authorization report client) h c =
    Keeps-settle _ h
      (serve_heartbeat-Keeps w.py w.token_hash w.peer_address
        (managed_tunnel_report w.py w.manifests) w.like authorization report client)
      c
run-Kept w maintain h c =
    Keeps-settle _ h
      (run_maintenance_cycle-Keeps w.py w.decrypt w.like w.node_stale_after
        w.monitor_result_retention_days)
      c

-- Every operation, with any arguments and at any time, leaves a consistent database consistent,
-- whether it succeeds or fails.
pub run-Consistent : (w : World) (o : Operation) (h : Hub) → Consistent h → Consistent (run w o h)
run-Consistent w o h c = (run-Kept w o h c).0

start-Consistent : (w : World) (h : Hub) → Reachable w h → Consistent h
start-Consistent w _ (Reachable.start clock) = initial-Consistent clock
start-Consistent w _ (then_step {h = h} r (serves _ o)) =
    run-Consistent w o h (start-Consistent w h r)

Later-Consistent :
    (w : World) (h h' : Hub) → Consistent h → Later w h h' → Consistent h' × Grown h h'
Later-Consistent w h _ c now_on = (c, Grown-refl h)
Later-Consistent w h _ c (after_step {h' = h'} l (serves _ o)) =
    let before = Later-Consistent w h h' c l in
    let after = run-Kept w o h' before.0 in
    (after.0, Grown-trans h h' (run w o h') before.1 after.1)

-- Take a state that the Hub reaches from an empty database, and any later state, by any number of
-- operations in any order and interleaving. The later state is consistent: ids rise, no incident is
-- resolved without its time, no job is finished without a result, no deployment has one node on both
-- sides, no certificate in force lacks an expiry date, no monitor is down without a failure, and no
-- fleet operation is over without its time. And no id is reused: in each table but those of sessions
-- and leases, an id that was handed out before the first state, and that no row of it has any more,
-- is the id of no row of the later state.
pub Reachable-Consistent :
    (w : World) (h h' : Hub) → Reachable w h → Later w h h' → Consistent h' × Grown h h'
Reachable-Consistent w h h' r l = Later-Consistent w h h' (start-Consistent w h r) l
