-- ===== src/Store/Schema.antt =====
-- The columns of the tables of `SCHEMA` in hub/database.py, the id apart. A text column that holds
-- one of a few words is an enumeration; a column of JSON text holds the value; a REAL column, which
-- the model only stores, holds the JSON number that was read.
use dark_noc.Base.{ℕ, String, Bool, Option}
use dark_noc.Base.Json.{Json, Dict}

pub data Role : Type 0 where
  hub edge exit : Role

pub data NodeStatus : Type 0 where
  pending online offline : NodeStatus

pub data Provision : Type 0 where
  provisioning completed failed : Provision

pub record Node : Type 0 where
  pub name : String
  pub region : String
  pub role : Role
  pub host : String
  pub ssh_port : ℕ
  pub ssh_user : String
  pub ssh_password_enc : Option String
  pub ssh_key_enc : Option String
  pub agent_token_hash : Option String
  pub status : NodeStatus
  pub agent_version : Option String
  pub observed_ip : Option String
  pub plugin_inventory : Dict
  pub provision_status : Option Provision
  pub provision_output : Option String
  pub ssh_host_fingerprint : Option String
  pub autoheal_enabled : Bool
  pub autoheal_cooldown : ℕ
  pub autoheal_max_restarts : ℕ
  pub last_seen : Option ℕ
  pub created_at : ℕ
  pub updated_at : ℕ

pub record Session : Type 0 where
  pub token_hash : String
  pub user_id : ℕ
  pub expires_at : ℕ
  pub ip : Option String
  pub created_at : ℕ

pub record Tunnel : Type 0 where
  pub node_id : ℕ
  pub name : String
  pub method : Option String
  pub target : Option String
  pub service : Option String
  pub listen_port : Option Json
  pub status : Option String
  pub latency_ms : Option Json
  pub packet_loss : Option Json
  pub sessions : Option Json
  pub rx_bps : Option Json
  pub tx_bps : Option Json
  pub last_check : Option ℕ
  pub details : Dict
  pub failure_streak : ℕ

pub data IncidentStatus : Type 0 where
  opened acknowledged resolved : IncidentStatus

pub data Severity : Type 0 where
  warning critical : Severity

pub record Incident : Type 0 where
  pub node_id : Option ℕ
  pub tunnel_id : Option ℕ
  pub severity : Severity
  pub title : String
  pub detail : Dict
  pub status : IncidentStatus
  pub opened_at : ℕ
  pub acknowledged_at : Option ℕ
  pub resolved_at : Option ℕ
  pub last_changed_at : Option ℕ
  pub root_cause : Option String
  pub resolution : Option String

pub record IncidentEvent : Type 0 where
  pub incident_id : ℕ
  pub event_type : String
  pub message : String
  pub info : Dict
  pub actor_id : Option ℕ
  pub created_at : ℕ

pub data JobKind : Type 0 where
  diagnostics tunnel_test tunnel_scan restart_service service_status speed_test logs : JobKind
  plugin_deploy plugin_remove plugin_install tunnel_control configure_autoheal : JobKind
  certificate_issue monitor_run sync_agent upgrade_agents : JobKind

pub data JobStatus : Type 0 where
  queued running completed failed : JobStatus

pub record Job : Type 0 where
  pub node_id : ℕ
  pub kind : JobKind
  pub payload : Dict
  pub status : JobStatus
  pub output : Option String
  pub created_by : Option ℕ
  pub created_at : ℕ
  pub started_at : Option ℕ
  pub finished_at : Option ℕ

pub data Lifecycle : Type 0 where
  active removing rolling_back rolled_back rollback_failed : Lifecycle

pub record Deployment : Type 0 where
  pub plugin_id : String
  pub name : String
  pub iran_node_id : ℕ
  pub kharej_node_id : ℕ
  pub iran_job_id : Option ℕ
  pub kharej_job_id : Option ℕ
  pub settings : Dict
  pub pair_token_enc : Option String
  pub lifecycle : Lifecycle
  pub created_by : Option ℕ
  pub created_at : ℕ

pub record Hybrid : Type 0 where
  pub plugin_id : String
  pub name : String
  pub iran_node_id : ℕ
  pub iran_job_id : Option ℕ
  pub iran_endpoint : String
  pub remote_label : String
  pub settings : Dict
  pub pair_token_enc : Option String
  pub pair_code_hash : String
  pub lifecycle : Lifecycle
  pub created_by : Option ℕ
  pub created_at : ℕ
  pub updated_at : ℕ

pub data CertificateStatus : Type 0 where
  pending renewing valid expiring expired failed : CertificateStatus

pub record Certificate : Type 0 where
  pub node_id : ℕ
  pub domain : String
  pub status : CertificateStatus
  pub issuer : String
  pub cert_path : Option String
  pub key_path : Option String
  pub expires_at : Option ℕ
  pub job_id : Option ℕ
  pub last_error : Option String
  pub created_by : Option ℕ
  pub created_at : ℕ
  pub updated_at : ℕ

pub data MonitorKind : Type 0 where
  icmp tcp http https dns tls snmp : MonitorKind

pub data MonitorStatus : Type 0 where
  pending up down : MonitorStatus

pub record Monitor : Type 0 where
  pub node_id : ℕ
  pub name : String
  pub kind : MonitorKind
  pub target : String
  pub port : Option ℕ
  pub secret_enc : Option String
  pub snmp_oid : Option String
  pub interval_seconds : ℕ
  pub timeout_seconds : ℕ
  pub expected_status : Option ℕ
  pub enabled : Bool
  pub status : MonitorStatus
  pub latency_ms : Option Json
  pub detail : Option String
  pub failure_streak : ℕ
  pub next_run_at : ℕ
  pub last_run_at : Option ℕ
  pub job_id : Option ℕ
  pub created_by : Option ℕ
  pub created_at : ℕ
  pub updated_at : ℕ

pub record MonitorResult : Type 0 where
  pub monitor_id : ℕ
  pub ts : ℕ
  pub status : MonitorStatus
  pub latency_ms : Option Json
  pub detail : String

pub data FleetKind : Type 0 where
  diagnostics tunnel_test restart_service service_status logs configure_autoheal : FleetKind
  sync_agent upgrade_agents : FleetKind

-- The status of a fleet operation and of its items.
pub data FleetStatus : Type 0 where
  scheduled queued running completed failed cancelled : FleetStatus

pub record FleetOperation : Type 0 where
  pub name : String
  pub kind : FleetKind
  pub payload : Dict
  pub status : FleetStatus
  pub scheduled_at : ℕ
  pub created_by : Option ℕ
  pub created_at : ℕ
  pub started_at : Option ℕ
  pub finished_at : Option ℕ

pub record FleetItem : Type 0 where
  pub operation_id : ℕ
  pub node_id : ℕ
  pub job_id : Option ℕ
  pub status : FleetStatus

pub record Lease : Type 0 where
  pub name : String
  pub holder : String
  pub expires_at : ℕ
  pub updated_at : ℕ
