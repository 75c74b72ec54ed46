-- ===== src/Incident/Keeps.antt =====
-- Every operation on incidents keeps the database consistent.
use dark_noc.Base.{
  ◌==◌, Bool-cases, Option-cases, text_else, coalesce, All-first_row, ℕ, zero, suc, String, ◌≡◌,
  inl, inr, Option, none, some, arith,
}
use dark_noc.Base.Json.{Dict, end}
use dark_noc.Store.Schema.{acknowledged, Severity, Incident}
use dark_noc.Store.Table.{Row, find, find_self}
use dark_noc.Store.Hub.{Hub, incidents}
use dark_noc.Store.Tx.{◌>>=◌, pure, update}
use dark_noc.Store.Valid.{IsIncident, Consistent}
use dark_noc.Store.Keeps.{Holds, Keeps, Keeps-pure, Keeps-utc_ts, Holds-continue}
use dark_noc.Store.Governed.{Governed-incidents, keeps_rules}
use dark_noc.Store.Lookup.{Holds-update_at}
use dark_noc.Incident.{
  time_or_now, append_incident_event, create_incident, resolve_incident, IncidentAction,
  acknowledge, resolve, reopen, IncidentActionBody, IncidentNoteBody, add_incident_note_mutation,
  is_opened, apply_action, incident_action_mutation,
}

pub time_or_now-Keeps : (t : Option ℕ) → Keeps (time_or_now t)
unfolding time_or_now
time_or_now-Keeps none = Keeps-utc_ts
time_or_now-Keeps (some zero) = Keeps-utc_ts
time_or_now-Keeps (some (suc t)) = Keeps-pure (suc t)

module _ (n : ℕ) (event_type message : String) (info : Dict) (actor created : Option ℕ) where
  pub append_incident_event-Keeps :
      Keeps (append_incident_event n event_type message info actor created)
  unfolding append_incident_event
  append_incident_event-Keeps = search (keeps_rules, time_or_now-Keeps) depth 12

pub create_incident-Keeps :
    (on_node on_tunnel : Option ℕ) (severity : Severity) (title : String) (detail : Dict)
    (at : Option ℕ)
    → Keeps (create_incident on_node on_tunnel severity title detail at)
unfolding create_incident
create_incident-Keeps on_node on_tunnel severity title detail at =
    search (keeps_rules, time_or_now-Keeps, append_incident_event-Keeps) depth 12

pub resolve_incident-Keeps :
    (n : ℕ) (message : String) (actor : Option ℕ) (resolution : Option String)
    → Keeps (resolve_incident n message actor resolution)
unfolding resolve_incident
resolve_incident-Keeps n message actor resolution =
    search (keeps_rules, append_incident_event-Keeps) depth 12

pub ruleset incident_rules =
    (time_or_now-Keeps, append_incident_event-Keeps, create_incident-Keeps, resolve_incident-Keeps)

pub add_incident_note-Keeps :
    (n : ℕ) (body : IncidentNoteBody) (user_id now : ℕ)
    → Keeps (add_incident_note_mutation n body user_id now)
unfolding add_incident_note_mutation
add_incident_note-Keeps n body user_id now = search (keeps_rules, incident_rules) depth 12

module _ (body : IncidentActionBody) (user_id now : ℕ) where
  acknowledged_cols : Incident → Incident
  acknowledged_cols i = record i {
    status = acknowledged;
    acknowledged_at = some now;
    last_changed_at = some now;
    root_cause = coalesce body.root_cause i.root_cause;
  }

  -- Only an open incident, which has no time of resolution, is acknowledged.
  apply-acknowledge-Holds :
      (h : Hub) (row : Row Incident)
      → Consistent h
      → IsIncident row.cols
      → find row.id h.incident_table.rows ≡ some row
      → Holds h (apply_action acknowledge row body user_id now h)
  unfolding apply_action acknowledged_cols ◌>>=◌
  apply-acknowledge-Holds h row c i e = elim (Bool-cases (is_opened row.cols.status)) [
    | inl o ↦ rw o (
        Holds-continue h (update incidents (λ x. x.id == row.id) acknowledged_cols h)
          (λ _.
            append_incident_event row.id "acknowledged"
              (text_else body.note "Operator acknowledged the incident") end (some user_id)
              (some now))
          (Holds-update_at Governed-incidents h row.id acknowledged_cols row c e (ground arith))
          (λ _. append_incident_event-Keeps row.id "acknowledged" _ _ _ _))
    | inr o ↦ rw o tt
  ]

  apply-resolve-Keeps : (row : Row Incident) → Keeps (apply_action resolve row body user_id now)
  unfolding apply_action
  apply-resolve-Keeps row = search (keeps_rules, incident_rules) depth 14

  apply-reopen-Keeps : (row : Row Incident) → Keeps (apply_action reopen row body user_id now)
  unfolding apply_action
  apply-reopen-Keeps row = search (keeps_rules, incident_rules) depth 14

  apply-Holds :
      (action : IncidentAction) (h : Hub) (row : Row Incident)
      → Consistent h
      → find row.id h.incident_table.rows ≡ some row
      → Holds h (apply_action action row body user_id now h)
  apply-Holds acknowledge h row c e =
      apply-acknowledge-Holds h row c
        (All-first_row _ _ h.incident_table.rows row c.incidents.each e) e
  apply-Holds resolve h row c e = (apply-resolve-Keeps row).at h c
  apply-Holds reopen h row c e = (apply-reopen-Keeps row).at h c

-- An operator's action keeps the database consistent.
pub incident_action-Keeps :
    (n : ℕ) (body : IncidentActionBody) (user_id now : ℕ)
    → Keeps (incident_action_mutation n body user_id now)
unfolding incident_action_mutation ◌>>=◌
incident_action-Keeps n body user_id now = record {
  at = λ h c. elim (Option-cases (find n h.incident_table.rows)) [
    | inl e ↦ rw e tt
    | inr (row, e) ↦ rw e (
        Holds-continue h (apply_action body.action row body user_id now h) (λ _. pure row)
          (apply-Holds body user_id now body.action h row c
            (find_self n h.incident_table.rows row e))
          (λ _. Keeps-pure row))
  ];
}
