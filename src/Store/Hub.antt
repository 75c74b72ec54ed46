-- ===== src/Store/Hub.antt =====
-- The database as one state, with the clock that `utc_ts` of hub/app.py reads, and a name for each
-- table by which a statement reads and writes it. The keys of sessions and
-- leases are texts; the model numbers their rows as well, and finds them by their texts.
use dark_noc.Base.{ℕ}
use dark_noc.Store.Schema.{
  Node, Session, Tunnel, Incident, IncidentEvent, Job, Deployment, Hybrid, Certificate, Monitor,
  MonitorResult, FleetOperation, FleetItem, Lease,
}
use dark_noc.Store.Table.{Table}

-- `clock n` is the time at the n-th reading; `readings` counts the readings made so far.
pub record Hub : Type 0 where
  pub clock : ℕ → ℕ
  pub readings : ℕ
  pub node_table : Table Node
  pub session_table : Table Session
  pub tunnel_table : Table Tunnel
  pub incident_table : Table Incident
  pub event_table : Table IncidentEvent
  pub job_table : Table Job
  pub deployment_table : Table Deployment
  pub hybrid_table : Table Hybrid
  pub certificate_table : Table Certificate
  pub monitor_table : Table Monitor
  pub result_table : Table MonitorResult
  pub operation_table : Table FleetOperation
  pub item_table : Table FleetItem
  pub lease_table : Table Lease

pub record Relation (C : Type 0) : Type 0 where
  pub read : Hub → Table C
  pub write : Table C → Hub → Hub

abbrev pub nodes : Relation Node
nodes = record { read = λ h. h.node_table; write = λ t h. record h { node_table = t } }

abbrev pub sessions : Relation Session
sessions = record { read = λ h. h.session_table; write = λ t h. record h { session_table = t } }

abbrev pub tunnels : Relation Tunnel
tunnels = record { read = λ h. h.tunnel_table; write = λ t h. record h { tunnel_table = t } }

abbrev pub incidents : Relation Incident
incidents = record { read = λ h. h.incident_table; write = λ t h. record h { incident_table = t } }

abbrev pub incident_events : Relation IncidentEvent
incident_events = record { read = λ h. h.event_table; write = λ t h. record h { event_table = t } }

abbrev pub jobs : Relation Job
jobs = record { read = λ h. h.job_table; write = λ t h. record h { job_table = t } }

abbrev pub plugin_deployments : Relation Deployment
plugin_deployments = record {
  read = λ h. h.deployment_table;
  write = λ t h. record h { deployment_table = t };
}

abbrev pub hybrid_deployments : Relation Hybrid
hybrid_deployments = record {
  read = λ h. h.hybrid_table;
  write = λ t h. record h { hybrid_table = t };
}

abbrev pub certificates : Relation Certificate
certificates = record {
  read = λ h. h.certificate_table;
  write = λ t h. record h { certificate_table = t };
}

abbrev pub monitors : Relation Monitor
monitors = record { read = λ h. h.monitor_table; write = λ t h. record h { monitor_table = t } }

abbrev pub monitor_results : Relation MonitorResult
monitor_results = record {
  read = λ h. h.result_table;
  write = λ t h. record h { result_table = t };
}

abbrev pub fleet_operations : Relation FleetOperation
fleet_operations = record {
  read = λ h. h.operation_table;
  write = λ t h. record h { operation_table = t };
}

abbrev pub fleet_operation_items : Relation FleetItem
fleet_operation_items = record {
  read = λ h. h.item_table;
  write = λ t h. record h { item_table = t };
}

abbrev pub hub_leases : Relation Lease
hub_leases = record { read = λ h. h.lease_table; write = λ t h. record h { lease_table = t } }
