-- ===== src/Samples.antt =====
-- A small database and a world for the tests: one online node with a queued job, an open incident,
-- a valid certificate and a fleet operation with two items.
pub mod Checked
use dark_noc.Base.{
  ltb, leb, text_else, ℕ, suc, ◌+◌, ◌*◌, Bool, true, false, Option, none, some, List, [], ◌∷◌,
  str_eq,
}
use dark_noc.Base.Json.{Json, num, neg, str, end}
use dark_noc.Store.Schema.{
  Role, NodeStatus, Provision, Node, opened, Severity, Incident, JobKind, JobStatus, Job, Lifecycle,
  Deployment, CertificateStatus, Certificate, FleetKind, FleetStatus, FleetOperation, FleetItem,
}
use dark_noc.Store.Bodies.{NodeBody}
use dark_noc.Store.Table.{Row, Table}
use dark_noc.Store.Hub.{Hub}
use dark_noc.Fleet.Create.{Entry}
use dark_noc.Incident.{acknowledge, IncidentActionBody}
use dark_noc.Python.{Python}
use dark_noc.Realm.Names.{validate_host}
use dark_noc.Registry.Catalog.{Placed}
use dark_noc.Requests.States.{initial}
use dark_noc.World.{World}

-- int of a JSON value
abbrev pub number : Json → Option ℕ
number (num n) = some n
number (neg n) = some 0
number _ = none

abbrev pub sample_py : Python
sample_py = record {
  loads = λ s. none;
  dumps = λ d. "{}";
  text = λ j. elim j [ str s ↦ s | _ ↦ "" ];
  int = number;
  float = λ j. some j;
  column = λ j. some none;
  numeric = λ j. some (some j);
  reaches = λ j n. elim j [ num m ↦ leb n m | _ ↦ false ];
  recovers = λ j n. elim j [ num m ↦ ltb (10 * m) (9 * n) | _ ↦ false ];
  strip = λ s. s;
  casefold = λ s. s;
  contains = λ a b. false;
  starts = λ a b. false;
  without_dots = λ s. s;
  listed = λ ss. "";
}

abbrev pub backhaul : Placed
backhaul = record {
  order = 10;
  manifest = record {
    plugin_id = "dark-backhaul";
    name = "DARK Backhaul";
    version = "1.0";
    publisher = "DARK";
    repository = "https://github.com/darktunnelmika/dark-backhaul";
    description = "a tunnel";
    iran_role = "server";
    kharej_role = "client";
    transports = "tcp" ∷ [];
    profiles = "balanced" ∷ [];
    automated = true;
    ui = record {
      icon = "D";
      method = "DARK Backhaul";
      inventory_key = "backhaul";
      form_profile = "standard";
      tls_transports = [];
      endpoint_default_side = "iran";
      iran_role_label = "IRAN side";
    };
    runtime = record {
      settings_profile = "standard";
      service_prefix = "backhaul-";
      pair_codec = "backhaul";
      pair_endpoint = "iran";
      managed_endpoint = "iran";
      certificate_side = "none";
      certificate_role = "";
    };
    raw = end;
    raw_ui = end;
    raw_runtime = end;
  };
}

abbrev pub world : World
world = record {
  py = sample_py;
  encrypt = λ s. s;
  decrypt = λ s. some s;
  token_hash = λ s. s;
  canonicalize_host = λ s. s;
  validate_host = λ s. some s;
  normalize_ip = λ s. text_else s "";
  getaddrinfo = λ s. some ("192.0.2.1" ∷ []);
  like = λ s t. false;
  token_urlsafe = λ n. "token";
  version = "2.9.3";
  node_stale_after = 90;
  hub_lease_seconds = 30;
  monitor_result_retention_days = 7;
  manifests = backhaul ∷ [];
  encoding = record { b64 = λ s. s; urlsafe = λ s. s; sha256 = λ s. s; dumps_sorted = λ d. "{}" };
  is_ipv4 = λ s. true;
  ip_address = λ s. some s;
  peer_address = λ s. some (some s);
  users = record { id = 1; username = "owner"; password_hash = "secret"; role = "owner" } ∷ [];
  verify_password = λ password hash. str_eq password hash;
}

abbrev pub edge_node : Row Node
edge_node = record {
  id = 1;
  cols = record {
    name = "edge-1";
    region = "IR";
    role = Role.edge;
    host = "192.0.2.1";
    ssh_port = 22;
    ssh_user = "root";
    ssh_password_enc = some "secret";
    ssh_key_enc = none;
    agent_token_hash = some "hash";
    status = NodeStatus.online;
    agent_version = some "2.9.3";
    observed_ip = some "192.0.2.1";
    plugin_inventory = end;
    provision_status = some Provision.completed;
    provision_output = none;
    ssh_host_fingerprint = none;
    autoheal_enabled = false;
    autoheal_cooldown = 300;
    autoheal_max_restarts = 3;
    last_seen = some 1000;
    created_at = 10;
    updated_at = 10;
  };
}

abbrev pub open_incident : Row Incident
open_incident = record {
  id = 1;
  cols = record {
    node_id = some 1;
    tunnel_id = none;
    severity = Severity.critical;
    title = "Node edge-1 is offline";
    detail = end;
    status = opened;
    opened_at = 900;
    acknowledged_at = none;
    resolved_at = none;
    last_changed_at = some 900;
    root_cause = none;
    resolution = none;
  };
}

abbrev pub queued_job : Row Job
queued_job = record {
  id = 1;
  cols = record {
    node_id = 1;
    kind = JobKind.diagnostics;
    payload = end;
    status = JobStatus.queued;
    output = none;
    created_by = some 1;
    created_at = 950;
    started_at = none;
    finished_at = none;
  };
}

abbrev pub valid_certificate : Row Certificate
valid_certificate = record {
  id = 1;
  cols = record {
    node_id = 1;
    domain = "edge.example";
    status = CertificateStatus.valid;
    issuer = "letsencrypt";
    cert_path = some "/etc/cert.pem";
    key_path = some "/etc/key.pem";
    expires_at = some 9000000;
    job_id = none;
    last_error = none;
    created_by = some 1;
    created_at = 20;
    updated_at = 20;
  };
}

abbrev pub operation : Row FleetOperation
operation = record {
  id = 1;
  cols = record {
    name = "nightly";
    kind = FleetKind.diagnostics;
    payload = end;
    status = FleetStatus.running;
    scheduled_at = 900;
    created_by = some 1;
    created_at = 900;
    started_at = some 900;
    finished_at = none;
  };
}

abbrev pub item : ℕ → FleetStatus → Row FleetItem
item n status = record {
  id = n;
  cols = record { operation_id = 1; node_id = n; job_id = none; status = status };
}

abbrev pub one_row : {C : Type 0} → Row C → Table C
one_row r = record { rows = r ∷ []; next_id = suc r.id }

abbrev pub sample : Hub
sample = record (initial (λ n. 1000 + n)) {
  node_table = one_row edge_node;
  incident_table = one_row open_incident;
  job_table = one_row queued_job;
  certificate_table = one_row valid_certificate;
  operation_table = one_row operation;
  item_table = record {
    rows = item 1 FleetStatus.completed ∷ item 2 FleetStatus.failed ∷ [];
    next_id = 3;
  };
}

abbrev pub acknowledge_body : IncidentActionBody
acknowledge_body = record {
  action = acknowledge;
  note = none;
  root_cause = none;
  resolution = none;
}

abbrev pub node_body : NodeBody
node_body = record {
  name = "exit-1";
  region = "DE";
  role = Role.exit;
  host = "198.51.100.7";
  ssh_port = 22;
  ssh_user = "root";
  ssh_password = some "secret";
  ssh_private_key = none;
}

abbrev pub finished_job : ℕ → JobStatus → Row Job
finished_job n status = record {
  id = n;
  cols = record {
    node_id = n;
    kind = JobKind.plugin_deploy;
    payload = end;
    status = status;
    output = some "done";
    created_by = some 1;
    created_at = 950;
    started_at = some 960;
    finished_at = some 970;
  };
}

abbrev pub deployment : Row Deployment
deployment = record {
  id = 1;
  cols = record {
    plugin_id = "dark-backhaul";
    name = "link";
    iran_node_id = 1;
    kharej_node_id = 2;
    iran_job_id = some 1;
    kharej_job_id = some 2;
    settings = end;
    pair_token_enc = some "secret";
    lifecycle = Lifecycle.active;
    created_by = some 1;
    created_at = 950;
  };
}

-- One side of a deployment completed, the other failed.
abbrev pub half_deployed : Hub
half_deployed = record sample {
  job_table = record {
    rows = finished_job 1 JobStatus.completed ∷ finished_job 2 JobStatus.failed ∷ [];
    next_id = 3;
  };
  deployment_table = one_row deployment;
}

abbrev pub entry : ℕ → Bool → Entry
entry n canary = record { item_id = n; node_id = n; enrollment = none; canary = canary }

abbrev pub rollout : List Entry
rollout = entry 1 true ∷ entry 2 false ∷ entry 3 false ∷ entry 4 false ∷ []
