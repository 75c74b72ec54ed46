-- ===== src/Incident/Lifecycle.antt =====
-- The lifecycle of an incident.
use dark_noc.Base.{
  if◌then◌else◌, Option-cases, ℕ, ◌≡◌, ◌≢◌, inl, inr, Bool, true, false, Option, none, some, arith,
}
use dark_noc.Store.Schema.{IncidentStatus, opened, acknowledged, resolved, Incident}
use dark_noc.Store.Table.{Row, find, find-update, find-id}
use dark_noc.Store.Hub.{Hub}
use dark_noc.Store.Tx.{◌>>=◌, settle, http_status}
use dark_noc.Incident.{
  time_or_now, append_incident_event, resolve_incident, IncidentAction, acknowledge, resolve,
  reopen, IncidentActionBody, apply_action, incident_action_mutation,
}

-- The action that the operator asks for is possible in this status.
abbrev pub allows : IncidentAction → IncidentStatus → Bool
allows acknowledge opened = true
allows acknowledge _ = false
allows resolve resolved = false
allows resolve _ = true
allows reopen resolved = true
allows reopen _ = false

abbrev pub after : IncidentAction → IncidentStatus
after acknowledge = acknowledged
after resolve = resolved
after reopen = opened

abbrev pub status_of : Option (Row Incident) → Option IncidentStatus
status_of none = none
status_of (some i) = some i.cols.status

abbrev pub status_at : ℕ → Hub → Option IncidentStatus
status_at n h = status_of (find n h.incident_table.rows)

-- What the status of the incident becomes: an action that is refused leaves it.
abbrev pub next : IncidentAction → Option IncidentStatus → Option IncidentStatus
next action none = none
next action (some s) = some (if allows action s then after action else s)

module _ (h : Hub) (n : ℕ) (body : IncidentActionBody) (user_id now : ℕ) where
  apply-status :
      (action : IncidentAction) (row : Row Incident)
      → find n h.incident_table.rows ≡ some row
      → row.id ≡ n
      → status_at n (settle h (apply_action action row body user_id now h))
        ≡ next action (some row.cols.status)
  unfolding apply_action resolve_incident append_incident_event time_or_now ◌>>=◌
  apply-status acknowledge row e k = grind (arith, find-update)
  apply-status resolve row e k = grind (arith, find-update)
  apply-status reopen row e k = grind (arith, find-update)

module _ (h : Hub) (n : ℕ) (body : IncidentActionBody) (user_id now : ℕ) where
  -- An operator's action on an incident: whatever the state, the action and the body, the incident
  -- takes the status that the action leads to if its status allows the action, and keeps its
  -- status if not; an incident that does not exist stays absent.
  pub incident_action-status :
      status_at n (settle h (incident_action_mutation n body user_id now h))
      ≡ next body.action (status_at n h)
  unfolding incident_action_mutation ◌>>=◌
  incident_action-status = elim (Option-cases (find n h.incident_table.rows)) [
    | inl e ↦ ground arith
    | inr (row, e) ↦ ground (
      arith,
      e,
      find-id n h.incident_table.rows row,
      apply-status h n body user_id now body.action row,
    )
  ]

abbrev pub expected_answer : IncidentAction → Option IncidentStatus → ℕ
expected_answer action none = 404
expected_answer action (some s) = if allows action s then 200 else 409

module _ (h : Hub) (n : ℕ) (body : IncidentActionBody) (user_id now : ℕ) where
  apply-answer :
      (action : IncidentAction) (row : Row Incident)
      → http_status (apply_action action row body user_id now h)
        ≡ expected_answer action (some row.cols.status)
  unfolding apply_action resolve_incident append_incident_event time_or_now ◌>>=◌
  apply-answer acknowledge row = ground arith
  apply-answer resolve row = ground arith
  apply-answer reopen row = ground arith

  -- The answer to an operator's action: 404 if there is no such incident, 409 if its status does
  -- not allow the action, and success in every other case.
  pub incident_action-answer :
      http_status (incident_action_mutation n body user_id now h)
      ≡ expected_answer body.action (status_at n h)
  unfolding incident_action_mutation ◌>>=◌
  incident_action-answer = elim (Option-cases (find n h.incident_table.rows)) [
    | inl e ↦ ground arith
    | inr (row, e) ↦ ground (arith, apply-answer body.action row)
  ]

  apply-frame :
      (m : ℕ) (action : IncidentAction) (row : Row Incident)
      → m ≢ row.id
      → find m (settle h (apply_action action row body user_id now h)).incident_table.rows
        ≡ find m h.incident_table.rows
  unfolding apply_action resolve_incident append_incident_event time_or_now ◌>>=◌
  apply-frame m acknowledge row d = grind (arith, find-update, find-id)
  apply-frame m resolve row d = grind (arith, find-update, find-id)
  apply-frame m reopen row d = grind (arith, find-update, find-id)

  -- An action on one incident leaves every other incident as it was, in all its columns.
  pub incident_action-other :
      (m : ℕ)
      → m ≢ n
      → find m (settle h (incident_action_mutation n body user_id now h)).incident_table.rows
        ≡ find m h.incident_table.rows
  unfolding incident_action_mutation ◌>>=◌
  incident_action-other m d = elim (Option-cases (find n h.incident_table.rows)) [
    | inl e ↦ ground arith
    | inr (row, e) ↦
        ground (arith, find-id n h.incident_table.rows row, apply-frame m body.action row)
  ]
