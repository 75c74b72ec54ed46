-- ===== src/Incident.antt =====
-- Incidents: `append_incident_event`, `create_incident` and `resolve_incident` of hub/app.py, the
-- operator's note and action of hub/monitor_incident_service.py.
pub mod Lifecycle
pub mod Keeps
use dark_noc.Base.{
  ◌==◌, if◌then◌else◌, is_some, clip, text_else, coalesce, is_ref, ℕ, zero, String, Bool, true,
  false, not, ◌&&◌, Option, none, some, str_eq,
}
use dark_noc.Base.Json.{Dict, end}
use dark_noc.Store.Schema.{IncidentStatus, opened, acknowledged, resolved, Severity, Incident}
use dark_noc.Store.Table.{Row}
use dark_noc.Store.Hub.{incidents, incident_events}
use dark_noc.Store.Tx.{Tx, pure, found, reject_if, utc_ts, insert, update, fetch_one, ◌>>=◌, ◌>>◌}
use dark_noc.Store.Valid.{is_resolved}

-- created_at or utc_ts()
unfoldable pub time_or_now : Option ℕ → Tx ℕ
unfolding ◌>>=◌
time_or_now none = utc_ts
time_or_now (some zero) = utc_ts
time_or_now (some t) = pure t

unfoldable pub append_incident_event :
    ℕ → String → String → Dict → Option ℕ → Option ℕ → Tx (Unit {0})
append_incident_event incident_id event_type message info actor_id created_at = do
  now ← time_or_now created_at
  insert incident_events (record {
    incident_id = incident_id;
    event_type = event_type;
    message = clip 4000 message;
    info = info;
    actor_id = actor_id;
    created_at = now;
  })
  pure tt

unfoldable pub create_incident : Option ℕ → Option ℕ → Severity → String → Dict → Option ℕ → Tx ℕ
create_incident node_id tunnel_id severity title detail opened_at = do
  now ← time_or_now opened_at
  incident_id ← insert incidents (record {
    node_id = node_id;
    tunnel_id = tunnel_id;
    severity = severity;
    title = title;
    detail = detail;
    status = opened;
    opened_at = now;
    acknowledged_at = none;
    resolved_at = none;
    last_changed_at = some now;
    root_cause = none;
    resolution = none;
  })
  append_incident_event incident_id "detected" title detail none (some now)
  pure incident_id

-- status IN ('open','acknowledged')
abbrev pub is_active : IncidentStatus → Bool
is_active resolved = false
is_active _ = true

-- node_id=? AND tunnel_id IS NULL AND title=? AND status IN ('open','acknowledged')
abbrev pub is_active_for : ℕ → String → Row Incident → Bool
is_active_for node_id title i =
    is_ref i.cols.node_id node_id
    && not (is_some i.cols.tunnel_id)
    && str_eq i.cols.title title
    && is_active i.cols.status

unfoldable pub resolve_incident : ℕ → String → Option ℕ → Option String → Tx Bool
resolve_incident incident_id message actor_id resolution = do
  now ← utc_ts
  changed ←
      update incidents (λ i. i.id == incident_id && is_active i.cols.status)
        (λ i. record i {
          status = resolved;
          resolved_at = some now;
          last_changed_at = some now;
          resolution = coalesce resolution i.resolution;
        })
  if changed == 0 then pure false else (do
    append_incident_event incident_id "resolved" message end actor_id (some now)
    pure true)

pub data IncidentAction : Type 0 where
  acknowledge resolve reopen : IncidentAction

pub record IncidentActionBody : Type 0 where
  pub action : IncidentAction
  pub note : Option String
  pub root_cause : Option String
  pub resolution : Option String

pub record IncidentNoteBody : Type 0 where
  pub message : String
  pub event_type : String

unfoldable pub add_incident_note_mutation : ℕ → IncidentNoteBody → ℕ → ℕ → Tx (Row Incident)
add_incident_note_mutation incident_id body user_id now = do
  found_row ← fetch_one incidents (λ i. i.id == incident_id)
  row ← found found_row 404 "Incident not found"
  append_incident_event incident_id body.event_type body.message end (some user_id) none
  update incidents (λ i. i.id == incident_id) (λ i. record i { last_changed_at = some now })
  pure row

abbrev pub is_opened : IncidentStatus → Bool
is_opened opened = true
is_opened _ = false

-- The branch of `incident_action_mutation` that the action selects.
unfoldable pub apply_action :
    IncidentAction → Row Incident → IncidentActionBody → ℕ → ℕ → Tx (Unit {0})
apply_action acknowledge row body user_id now = do
  reject_if (not (is_opened row.cols.status)) 409 "Only an open incident can be acknowledged"
  update incidents (λ i. i.id == row.id)
      (λ i. record i {
        status = acknowledged;
        acknowledged_at = some now;
        last_changed_at = some now;
        root_cause = coalesce body.root_cause i.root_cause;
      })
  append_incident_event row.id "acknowledged"
      (text_else body.note "Operator acknowledged the incident") end (some user_id) (some now)
apply_action resolve row body user_id now = do
  reject_if (is_resolved row.cols.status) 409 "Incident is already resolved"
  update incidents (λ i. i.id == row.id)
      (λ i. record i { root_cause = coalesce body.root_cause i.root_cause })
  resolve_incident row.id (text_else body.note "Operator resolved the incident") (some user_id)
      body.resolution
  pure tt
apply_action reopen row body user_id now = do
  reject_if (not (is_resolved row.cols.status)) 409 "Only a resolved incident can be reopened"
  update incidents (λ i. i.id == row.id)
      (λ i. record i {
        status = opened;
        resolved_at = none;
        last_changed_at = some now;
        resolution = none;
      })
  append_incident_event row.id "reopened" (text_else body.note "Operator reopened the incident") end
      (some user_id) (some now)

unfoldable pub incident_action_mutation : ℕ → IncidentActionBody → ℕ → ℕ → Tx (Row Incident)
incident_action_mutation incident_id body user_id now = do
  found_row ← fetch_one incidents (λ i. i.id == incident_id)
  row ← found found_row 404 "Incident not found"
  apply_action body.action row body user_id now
  pure row
