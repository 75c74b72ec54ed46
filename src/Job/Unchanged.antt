-- ===== src/Job/Unchanged.antt =====
-- What a job's result sets off leaves every job that there is as it was.
use dark_noc.Base.{ℕ, zero, suc, String, Option, none, some}
use dark_noc.Base.Json.{Json, obj, Dict}
use dark_noc.Store.Schema.{
  Node, Severity, Incident, JobKind, Job, Lifecycle, Deployment, Monitor, FleetItem,
}
use dark_noc.Store.Bodies.{Outcome, JobResult}
use dark_noc.Store.Table.{Row}
use dark_noc.Store.Hub.{certificates}
use dark_noc.Store.Tx.{crash}
use dark_noc.Store.Frame.{
  Spares, Spares-pure, Spares-throw, Spares-utc_ts, Spares-refuse_clash, spares_rules,
}
use dark_noc.Fleet.{finalize_fleet_operation}
use dark_noc.Incident.{time_or_now, append_incident_event, create_incident, resolve_incident}
use dark_noc.Job.Outcomes.{
  parsed, fail_certificate, Metadata, store_certificate, accept_certificate, read_certificate,
  record_certificate,
}
use dark_noc.Job.Reports.{Report, read_report, monitor_incident, update_monitor, record_monitor}
use dark_noc.Job.Results.{
  record_fleet_item, side_status, Side, set_lifecycle, roll_back, advance_deployment,
  record_deployment, record_effects,
}
use dark_noc.Python.{Python}

module _ (n : ℕ) (job : Row Job) where
  time_or_now-Spares : (t : Option ℕ) → Spares n job (time_or_now t)
  unfolding time_or_now
  time_or_now-Spares none = Spares-utc_ts n job
  time_or_now-Spares (some zero) = Spares-utc_ts n job
  time_or_now-Spares (some (suc t)) = Spares-pure n job (suc t)

  append_incident_event-Spares :
      (i : ℕ) (event message : String) (info : Dict) (actor created : Option ℕ)
      → Spares n job (append_incident_event i event message info actor created)
  unfolding append_incident_event
  append_incident_event-Spares i event message info actor created =
      search (spares_rules, time_or_now-Spares) depth 12

  create_incident-Spares :
      (a b : Option ℕ) (severity : Severity) (title : String) (detail : Dict) (at : Option ℕ)
      → Spares n job (create_incident a b severity title detail at)
  unfolding create_incident
  create_incident-Spares a b severity title detail at =
      search (spares_rules, time_or_now-Spares, append_incident_event-Spares) depth 12

  resolve_incident-Spares :
      (i : ℕ) (message : String) (actor : Option ℕ) (resolution : Option String)
      → Spares n job (resolve_incident i message actor resolution)
  unfolding resolve_incident
  resolve_incident-Spares i message actor resolution =
      search (spares_rules, append_incident_event-Spares) depth 12

  fail_certificate-Spares : (message : String) (c : ℕ) → Spares n job (fail_certificate message c)
  unfolding fail_certificate
  fail_certificate-Spares message c = search spares_rules depth 12

  parsed-Spares : {A : Type 0} (o : Option A) → Spares n job (parsed o)
  parsed-Spares none = Spares-throw n job crash
  parsed-Spares (some a) = Spares-pure n job a

  store_certificate-Spares :
      (issuer cert_path key_path : Option String) (expires now c : ℕ) (node : Row Node)
      → Spares n job (store_certificate issuer cert_path key_path expires now c node)
  unfolding store_certificate
  store_certificate-Spares none cert_path key_path expires now c node =
      Spares-refuse_clash n job certificates _
  store_certificate-Spares (some issuer) cert_path key_path expires now c node =
      search spares_rules depth 12

  module _ (py : Python) where
    accept_certificate-Spares :
        (m : Option Metadata) (c : ℕ) (node : Row Node)
        → Spares n job (accept_certificate py m c node)
    unfolding accept_certificate
    accept_certificate-Spares none c node = fail_certificate-Spares _ c
    accept_certificate-Spares (some m) c node =
        search (spares_rules, parsed-Spares, store_certificate-Spares) depth 12

    read_certificate-Spares : (o : Option Json) → Spares n job (read_certificate py o)
    read_certificate-Spares none = Spares-pure n job none
    read_certificate-Spares (some (obj cert)) = Spares-pure n job _
    read_certificate-Spares (some _) = Spares-throw n job crash

    record_certificate-Spares :
        (kind : JobKind) (payload : Dict) (result : JobResult) (node : Row Node)
        → Spares n job (record_certificate py kind payload result node)
    unfolding record_certificate
    record_certificate-Spares JobKind.certificate_issue payload result node =
        search
          (
            spares_rules, parsed-Spares, read_certificate-Spares, accept_certificate-Spares,
            fail_certificate-Spares,
          )
          depth 14
    record_certificate-Spares _ payload result node = Spares-pure n job tt

    read_report-Spares :
        (o : Option Json) (result : JobResult) → Spares n job (read_report py o result)
    unfolding read_report
    read_report-Spares none result = Spares-pure n job _
    read_report-Spares (some (obj report)) result = Spares-pure n job _
    read_report-Spares (some _) result = Spares-throw n job crash

    monitor_incident-Spares :
        (monitor : Row Monitor) (node : Row Node) (report : Report) (k at : ℕ)
        (known : Option (Row Incident))
        → Spares n job (monitor_incident py monitor node report k at known)
    unfolding monitor_incident
    monitor_incident-Spares monitor node report k at none =
        search (spares_rules, create_incident-Spares) depth 12
    monitor_incident-Spares monitor node report k at (some incident) =
        search (spares_rules, resolve_incident-Spares) depth 12

    update_monitor-Spares :
        (monitor : Option (Row Monitor)) (result : JobResult) (node : Row Node)
        → Spares n job (update_monitor py monitor result node)
    unfolding update_monitor
    update_monitor-Spares none result node = Spares-pure n job none
    update_monitor-Spares (some monitor) result node =
        search (spares_rules, read_report-Spares, monitor_incident-Spares) depth 20

    record_monitor-Spares :
        (kind : JobKind) (payload : Dict) (result : JobResult) (node : Row Node)
        → Spares n job (record_monitor py kind payload result node)
    unfolding record_monitor
    record_monitor-Spares JobKind.monitor_run payload result node =
        search (spares_rules, parsed-Spares, update_monitor-Spares) depth 14
    record_monitor-Spares _ payload result node = Spares-pure n job none

  finalize-Spares : (o : ℕ) → Spares n job (finalize_fleet_operation o)
  unfolding finalize_fleet_operation
  finalize-Spares o = search spares_rules depth 16

  record_fleet_item-Spares :
      (item : Option (Row FleetItem)) (result : JobResult)
      → Spares n job (record_fleet_item item result)
  unfolding record_fleet_item
  record_fleet_item-Spares none result = Spares-pure n job tt
  record_fleet_item-Spares (some item) result = search (spares_rules, finalize-Spares) depth 12

  side_status-Spares : (j : Option ℕ) → Spares n job (side_status j)
  unfolding side_status
  side_status-Spares j = search (spares_rules, parsed-Spares) depth 12

  set_lifecycle-Spares : (d : ℕ) (l : Lifecycle) → Spares n job (set_lifecycle d l)
  unfolding set_lifecycle
  set_lifecycle-Spares d l = search spares_rules depth 12

  roll_back-Spares : (d : Row Deployment) (side : Side) → Spares n job (roll_back d side)
  unfolding roll_back
  roll_back-Spares d side = search spares_rules depth 12

  advance_deployment-Spares :
      (l : Lifecycle) (d : Row Deployment) (side : Option Side) (status : Outcome)
      → Spares n job (advance_deployment l d side status)
  unfolding advance_deployment
  advance_deployment-Spares Lifecycle.active d none status = Spares-pure n job tt
  advance_deployment-Spares Lifecycle.active d (some side) status = roll_back-Spares d side
  advance_deployment-Spares Lifecycle.rolling_back d side Outcome.completed =
      set_lifecycle-Spares _ _
  advance_deployment-Spares Lifecycle.rolling_back d side Outcome.failed = set_lifecycle-Spares _ _
  advance_deployment-Spares Lifecycle.removing d side status = Spares-pure n job tt
  advance_deployment-Spares Lifecycle.rolled_back d side status = Spares-pure n job tt
  advance_deployment-Spares Lifecycle.rollback_failed d side status = Spares-pure n job tt

  record_deployment-Spares :
      (d : Option (Row Deployment)) (result : JobResult) → Spares n job (record_deployment d result)
  unfolding record_deployment
  record_deployment-Spares none result = Spares-pure n job tt
  record_deployment-Spares (some d) result =
      search (spares_rules, side_status-Spares, advance_deployment-Spares) depth 14

  pub record_effects-Spares :
      (py : Python) (of : Row Job) (result : JobResult) (node : Row Node)
      → Spares n job (record_effects py of result node)
  unfolding record_effects
  record_effects-Spares py of result node =
      search
        (
          spares_rules, record_certificate-Spares, record_monitor-Spares, record_fleet_item-Spares,
          record_deployment-Spares,
        )
        depth 18
