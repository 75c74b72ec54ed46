-- ===== src/Store/Bodies.antt =====
-- The bodies of requests, as hub/schemas.py validates them.
use dark_noc.Base.{ℕ, String, Bool, Option, List}
use dark_noc.Base.Json.{Dict}
use dark_noc.Store.Schema.{Role, MonitorKind, FleetKind}

-- What an agent reports of a job: the pattern allows these two words.
pub data Outcome : Type 0 where
  completed failed : Outcome

pub record JobResult : Type 0 where
  pub job_id : ℕ
  pub status : Outcome
  pub output : String

pub record NodeBody : Type 0 where
  pub name : String
  pub region : String
  pub role : Role
  pub host : String
  pub ssh_port : ℕ
  pub ssh_user : String
  pub ssh_password : Option String
  pub ssh_private_key : Option String

pub record MonitorBody : Type 0 where
  pub name : String
  pub node_id : ℕ
  pub kind : MonitorKind
  pub target : String
  pub port : Option ℕ
  pub interval_seconds : ℕ
  pub timeout_seconds : ℕ
  pub expected_status : Option ℕ
  pub snmp_community : Option String
  pub snmp_oid : Option String
  pub enabled : Bool

pub record FleetOperationBody : Type 0 where
  pub name : String
  pub node_ids : List ℕ
  pub kind : FleetKind
  pub service : Option String
  pub payload : Dict
  pub scheduled_at : Option ℕ

pub record CertificateBody : Type 0 where
  pub node_id : ℕ
  pub domain : String
