-- ===== src/Store/Valid.antt =====
-- What holds of each row of the database, whatever requests it has served.
use dark_noc.Base.{is_some, ℕ, ◌≤◌, ◌<◌, ◌≡◌, ◌≢◌, Bool, true, false, Option, none}
use dark_noc.Store.Schema.{
  Node, IncidentStatus, Incident, JobStatus, Job, Deployment, CertificateStatus, Certificate,
  MonitorStatus, Monitor, FleetStatus, FleetOperation,
}
use dark_noc.Store.Table.{IsTable}
use dark_noc.Store.Hub.{Hub}

-- A node's Auto-Heal policy lies in the range that the panel allows.
pub record IsPolicy (cooldown restarts : ℕ) : Type 0 where
  pub cooldown_low : 60 ≤ cooldown
  pub cooldown_high : cooldown ≤ 86400
  pub restarts_low : 1 ≤ restarts
  pub restarts_high : restarts ≤ 12

abbrev pub IsNode : Node → Type 0
IsNode n = IsPolicy n.autoheal_cooldown n.autoheal_max_restarts

abbrev pub is_resolved : IncidentStatus → Bool
is_resolved IncidentStatus.resolved = true
is_resolved _ = false

-- An incident is resolved exactly when it has the time of its resolution.
abbrev pub IsIncident : Incident → Type 0
IsIncident i = is_some i.resolved_at ≡ is_resolved i.status

-- A job has been started if it runs, has a result exactly when it is terminal, and a queued one
-- carries nothing of an earlier run.
abbrev pub JobShape : JobStatus → Option ℕ → Option ℕ → Bool → Type 0
JobShape JobStatus.queued started finished output =
    (started ≡ none) × (finished ≡ none) × (output ≡ false)
JobShape JobStatus.running started finished output =
    (is_some started ≡ true) × (finished ≡ none) × (output ≡ false)
JobShape _ started finished output = (is_some finished ≡ true) × (output ≡ true)

abbrev pub IsJob : Job → Type 0
IsJob j = JobShape j.status j.started_at j.finished_at (is_some j.output)

-- The two sides of a managed deployment are two nodes.
abbrev pub IsDeployment : Deployment → Type 0
IsDeployment d = d.iran_node_id ≢ d.kharej_node_id

abbrev pub is_dated : CertificateStatus → Bool
is_dated CertificateStatus.valid = true
is_dated CertificateStatus.expiring = true
is_dated CertificateStatus.expired = true
is_dated _ = false

-- A certificate that is valid, expiring or expired has an expiry date.
abbrev pub IsCertificate : Certificate → Type 0
IsCertificate c = is_dated c.status ≡ true → is_some c.expires_at ≡ true

pub undated : (expires : Option ℕ) → false ≡ true → is_some expires ≡ true
undated expires e = cc

-- The failures in a row of a monitor: none while it is up or pending, some while it is down.
abbrev pub StreakShape : MonitorStatus → ℕ → Type 0
StreakShape MonitorStatus.down n = 0 < n
StreakShape _ n = n ≡ 0

abbrev pub IsMonitor : Monitor → Type 0
IsMonitor m = StreakShape m.status m.failure_streak

abbrev pub is_over : FleetStatus → Bool
is_over FleetStatus.completed = true
is_over FleetStatus.failed = true
is_over FleetStatus.cancelled = true
is_over _ = false

-- A fleet operation that is over has a finishing time.
abbrev pub IsOperation : FleetOperation → Type 0
IsOperation o = is_over o.status ≡ true → is_some o.finished_at ≡ true

abbrev pub Anything : {C : Type 0} → C → Type 0
Anything c = Unit

-- Every table has rising ids below its next one, and every row is well-formed.
pub record Consistent (h : Hub) : Type 0 where
  pub nodes : IsTable IsNode h.node_table
  pub sessions : IsTable Anything h.session_table
  pub tunnels : IsTable Anything h.tunnel_table
  pub incidents : IsTable IsIncident h.incident_table
  pub events : IsTable Anything h.event_table
  pub jobs : IsTable IsJob h.job_table
  pub deployments : IsTable IsDeployment h.deployment_table
  pub hybrids : IsTable Anything h.hybrid_table
  pub certificates : IsTable IsCertificate h.certificate_table
  pub monitors : IsTable IsMonitor h.monitor_table
  pub results : IsTable Anything h.result_table
  pub operations : IsTable IsOperation h.operation_table
  pub items : IsTable Anything h.item_table
  pub leases : IsTable Anything h.lease_table
