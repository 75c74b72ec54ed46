-- ===== src/Store/Governed.antt =====
-- The row invariant of each table, the rules with which `search` walks a transaction, and the
-- foreign keys.
use dark_noc.Base.{Bool}
use dark_noc.Store.Schema.{Node, Tunnel, Job, Monitor}
use dark_noc.Store.Table.{Row}
use dark_noc.Store.Hub.{
  nodes, sessions, tunnels, incidents, incident_events, jobs, plugin_deployments,
  hybrid_deployments, certificates, monitors, monitor_results, fleet_operations,
  fleet_operation_items, hub_leases,
}
use dark_noc.Store.Cascade.{delete_jobs, delete_tunnels, delete_monitors, delete_nodes}
use dark_noc.Store.Valid.{
  IsNode, IsIncident, IsJob, IsDeployment, IsCertificate, IsMonitor, IsOperation, Anything,
}
use dark_noc.Store.Keeps.{
  Keeps, Governed, Keeps-pure, Keeps-throw, Keeps-found, Keeps-if, Keeps-reject_if, Keeps-utc_ts,
  Keeps-fetch_one, Keeps-fetch_all, Keeps-fetch_count, Keeps-refuse_clash, Keeps-insert,
  Keeps-update, Keeps-delete, Keeps-insert_any, Keeps-update_any, Keeps-bind, Keeps-on_integrity,
  Keeps-for_each,
}

pub Governed-nodes : Governed nodes IsNode
Governed-nodes = record {
  look = λ h c. c.nodes;
  back = λ h t good c. assumption;
  grows = λ h t e same. assumption;
}

pub Governed-sessions : Governed sessions Anything
Governed-sessions = record {
  look = λ h c. c.sessions;
  back = λ h t good c. assumption;
  grows = λ h t e same. assumption;
}

pub Governed-tunnels : Governed tunnels Anything
Governed-tunnels = record {
  look = λ h c. c.tunnels;
  back = λ h t good c. assumption;
  grows = λ h t e same. assumption;
}

pub Governed-incidents : Governed incidents IsIncident
Governed-incidents = record {
  look = λ h c. c.incidents;
  back = λ h t good c. assumption;
  grows = λ h t e same. assumption;
}

pub Governed-incident_events : Governed incident_events Anything
Governed-incident_events = record {
  look = λ h c. c.events;
  back = λ h t good c. assumption;
  grows = λ h t e same. assumption;
}

pub Governed-jobs : Governed jobs IsJob
Governed-jobs = record {
  look = λ h c. c.jobs;
  back = λ h t good c. assumption;
  grows = λ h t e same. assumption;
}

pub Governed-plugin_deployments : Governed plugin_deployments IsDeployment
Governed-plugin_deployments = record {
  look = λ h c. c.deployments;
  back = λ h t good c. assumption;
  grows = λ h t e same. assumption;
}

pub Governed-hybrid_deployments : Governed hybrid_deployments Anything
Governed-hybrid_deployments = record {
  look = λ h c. c.hybrids;
  back = λ h t good c. assumption;
  grows = λ h t e same. assumption;
}

pub Governed-certificates : Governed certificates IsCertificate
Governed-certificates = record {
  look = λ h c. c.certificates;
  back = λ h t good c. assumption;
  grows = λ h t e same. assumption;
}

pub Governed-monitors : Governed monitors IsMonitor
Governed-monitors = record {
  look = λ h c. c.monitors;
  back = λ h t good c. assumption;
  grows = λ h t e same. assumption;
}

pub Governed-monitor_results : Governed monitor_results Anything
Governed-monitor_results = record {
  look = λ h c. c.results;
  back = λ h t good c. assumption;
  grows = λ h t e same. assumption;
}

pub Governed-fleet_operations : Governed fleet_operations IsOperation
Governed-fleet_operations = record {
  look = λ h c. c.operations;
  back = λ h t good c. assumption;
  grows = λ h t e same. assumption;
}

pub Governed-fleet_operation_items : Governed fleet_operation_items Anything
Governed-fleet_operation_items = record {
  look = λ h c. c.items;
  back = λ h t good c. assumption;
  grows = λ h t e same. assumption;
}

pub Governed-hub_leases : Governed hub_leases Anything
Governed-hub_leases = record {
  look = λ h c. c.leases;
  back = λ h t good c. assumption;
  grows = λ h t e same. assumption;
}

-- What `search` needs to walk a transaction, but for the rows that carry an invariant.
pub ruleset keeps_rules = (
  Keeps-pure, Keeps-throw, Keeps-found, Keeps-if, Keeps-reject_if, Keeps-utc_ts, Keeps-fetch_one,
  Keeps-fetch_all, Keeps-fetch_count, Keeps-refuse_clash, Keeps-delete, Keeps-insert_any,
  Keeps-update_any, Keeps-update, Keeps-insert, Keeps-bind, Keeps-on_integrity, Keeps-for_each,
  Governed-nodes, Governed-sessions, Governed-tunnels, Governed-incidents, Governed-incident_events,
  Governed-jobs, Governed-plugin_deployments, Governed-hybrid_deployments, Governed-certificates,
  Governed-monitors, Governed-monitor_results, Governed-fleet_operations,
  Governed-fleet_operation_items, Governed-hub_leases,
)

pub delete_jobs-Keeps : (test : Row Job → Bool) → Keeps (delete_jobs test)
unfolding delete_jobs
delete_jobs-Keeps test = search keeps_rules depth 12

pub delete_tunnels-Keeps : (test : Row Tunnel → Bool) → Keeps (delete_tunnels test)
unfolding delete_tunnels
delete_tunnels-Keeps test = search keeps_rules depth 12

pub delete_monitors-Keeps : (test : Row Monitor → Bool) → Keeps (delete_monitors test)
unfolding delete_monitors
delete_monitors-Keeps test = search keeps_rules depth 12

ruleset cascades = (delete_jobs-Keeps, delete_tunnels-Keeps, delete_monitors-Keeps)

pub delete_nodes-Keeps : (test : Row Node → Bool) → Keeps (delete_nodes test)
unfolding delete_nodes
delete_nodes-Keeps test = search (keeps_rules, cascades) depth 16
