-- ===== src/Monitoring.antt =====
-- Synthetic monitors: the monitor operations of hub/monitor_incident_service.py, and
-- `monitor_values` of hub/app.py.
pub mod Due
pub mod Keeps
use dark_noc.Base.{
  ◌==◌, if◌then◌else◌, truthy, concat, filled, ℕ, String, str_append, Bool, true, false, not, ◌&&◌,
  ◌||◌, Option, none, some, [], ◌∷◌, str_eq,
}
use dark_noc.Store.Schema.{MonitorKind, icmp, tcp, https, dns, tls, snmp, MonitorStatus, Monitor}
use dark_noc.Store.Bodies.{MonitorBody}
use dark_noc.Store.Table.{Row}
use dark_noc.Store.Hub.{nodes, incidents, monitors}
use dark_noc.Store.Tx.{
  Tx, pure, found, reject_if, insert, update, fetch_one, fetch_all, refuse_clash, ◌>>=◌, ◌>>◌,
  on_integrity, for_each,
}
use dark_noc.Store.Cascade.{delete_monitors}
use dark_noc.Incident.{is_active_for, resolve_incident}
use dark_noc.Job.Outcomes.{parsed}
use dark_noc.Job.Reports.{kind_text, down_title}
use dark_noc.Python.{Python}

abbrev pub is_snmp : MonitorKind → Bool
is_snmp snmp = true
is_snmp _ = false

abbrev pub is_web : MonitorKind → Bool
is_web MonitorKind.http = true
is_web https = true
is_web _ = false

abbrev pub upper : MonitorKind → String
upper icmp = "ICMP"
upper tcp = "TCP"
upper MonitorKind.http = "HTTP"
upper https = "HTTPS"
upper dns = "DNS"
upper tls = "TLS"
upper snmp = "SNMP"

-- port or default, and the port that a kind takes by default
abbrev pub default_port : MonitorKind → Option ℕ → Option ℕ
default_port tls port = if truthy port then port else some 443
default_port snmp port = if truthy port then port else some 161
default_port _ port = port

-- What a monitor stores of its body: `expected_status` replaces the body's.
pub record Values : Type 0 where
  pub target : String
  pub port : Option ℕ
  pub secret : Option String
  pub oid : Option String
  pub expected_status : Option ℕ

module _ (py : Python) (validate_host : String → Option String) where
  unfoldable pub valid_target : MonitorKind → String → Tx String
  valid_target kind target = if is_web kind then pure target else (do
    reject_if (py.contains "://" target || py.contains "/" target) 422
        (str_append (upper kind) " target must be a hostname or IP address")
    parsed (validate_host target))

  unfoldable pub monitor_values :
      (Option String → Option String) → MonitorBody → Option String → Tx Values
  monitor_values encrypt body existing_secret = do
    target ← valid_target body.kind (py.strip body.target)
    reject_if (str_eq (kind_text body.kind) "tcp" && not (truthy body.port)) 422
        "TCP monitor requires a port"
    reject_if
        (is_snmp body.kind && not (filled body.snmp_community) && not (filled existing_secret)) 422
        "SNMP monitor requires a community string"
    reject_if (is_snmp body.kind && not (filled body.snmp_oid)) 422 "SNMP monitor requires an OID"
    reject_if
        (is_web body.kind
          && py.contains "://" target
          && not (py.starts (str_append (kind_text body.kind) "://") (py.casefold target)))
        422 (concat (upper body.kind ∷ " monitor must use " ∷ kind_text body.kind ∷ "://" ∷ []))
    let secret = if filled body.snmp_community then encrypt body.snmp_community else existing_secret
    pure (record {
      target = target;
      port = default_port body.kind body.port;
      secret = if is_snmp body.kind then secret else none;
      oid = if is_snmp body.kind then body.snmp_oid else none;
      expected_status = if is_web body.kind then body.expected_status else none;
    })

module _ (monitor_values : MonitorBody → Option String → Tx Values) where
  unfoldable pub create_monitor_mutation : MonitorBody → ℕ → ℕ → Tx (ℕ × String)
  create_monitor_mutation body user_id now = do
    v ← monitor_values body none
    on_integrity 409 "A monitor with this name already exists on the selected Node" (do
      row ← fetch_one nodes (λ n. n.id == body.node_id)
      node ← found row 404 "Node not found"
      refuse_clash monitors (λ m. m.cols.node_id == body.node_id && str_eq m.cols.name body.name)
      monitor_id ← insert monitors (record {
        node_id = body.node_id;
        name = body.name;
        kind = body.kind;
        target = v.target;
        port = v.port;
        secret_enc = v.secret;
        snmp_oid = v.oid;
        interval_seconds = body.interval_seconds;
        timeout_seconds = body.timeout_seconds;
        expected_status = v.expected_status;
        enabled = body.enabled;
        status = MonitorStatus.pending;
        latency_ms = none;
        detail = none;
        failure_streak = 0;
        next_run_at = now;
        last_run_at = none;
        job_id = none;
        created_by = some user_id;
        created_at = now;
        updated_at = now;
      })
      pure (monitor_id, v.target))

  unfoldable pub update_monitor_mutation : ℕ → MonitorBody → ℕ → ℕ → Tx String
  update_monitor_mutation monitor_id body user_id now =
      on_integrity 409 "A monitor with this name already exists on the selected Node" (do
        row ← fetch_one monitors (λ m. m.id == monitor_id)
        current ← found row 404 "Monitor not found"
        node ← fetch_one nodes (λ n. n.id == body.node_id)
        found node 404 "Node not found"
        v ← monitor_values body current.cols.secret_enc
        old_incidents ←
            fetch_all incidents (is_active_for current.cols.node_id (down_title current.cols.name))
        for_each old_incidents (λ i. (do
          resolve_incident i.id "Monitor configuration changed" (some user_id) none
          pure tt))
        refuse_clash monitors (λ m.
            not (m.id == monitor_id)
            && m.cols.node_id == body.node_id
            && str_eq m.cols.name body.name)
        update monitors (λ m. m.id == monitor_id)
            (λ m. record m {
              node_id = body.node_id;
              name = body.name;
              kind = body.kind;
              target = v.target;
              port = v.port;
              secret_enc = v.secret;
              snmp_oid = v.oid;
              interval_seconds = body.interval_seconds;
              timeout_seconds = body.timeout_seconds;
              expected_status = v.expected_status;
              enabled = body.enabled;
              status = MonitorStatus.pending;
              failure_streak = 0;
              next_run_at = now;
              updated_at = now;
            })
        pure v.target)

unfoldable pub delete_monitor_mutation : ℕ → ℕ → Tx (Row Monitor)
delete_monitor_mutation monitor_id user_id = do
  found_row ← fetch_one monitors (λ m. m.id == monitor_id)
  row ← found found_row 404 "Monitor not found"
  active ← fetch_all incidents (is_active_for row.cols.node_id (down_title row.cols.name))
  for_each active (λ i. (do
    resolve_incident i.id "Monitor was removed by the operator" (some user_id) none
    pure tt))
  delete_monitors (λ m. m.id == monitor_id)
  pure row
