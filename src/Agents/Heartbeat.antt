-- ===== src/Agents/Heartbeat.antt =====
-- `agent_node` of hub/app.py, and `agent_pulse` and `agent_heartbeat` of
-- hub/agent_control_router.py but for the statements on the tables of metrics, services and tunnel
-- samples.
use dark_noc.Base.{
  ◌==◌, if◌then◌else◌, is_some, concat, ℕ, String, str_append, Bool, false, not, ◌&&◌, Option, none,
  some, [], ◌∷◌, str_eq,
}
use dark_noc.Base.Json.{Json, null, num, str, end, field, get, is_truthy}
use dark_noc.Store.Schema.{NodeStatus, Node, Severity, Incident}
use dark_noc.Store.Table.{Row}
use dark_noc.Store.Hub.{nodes, incidents}
use dark_noc.Store.Tx.{◌>>=◌, ◌>>◌, Tx, pure, found, utc_ts, update, fetch_one, fetch_all, for_each}
use dark_noc.Agents.Report.{AgentReport, Flags, observed_address, Resource, autoheal_policy}
use dark_noc.Incident.{create_incident, is_active_for, resolve_incident}
use dark_noc.Job.Outcomes.{parsed}
use dark_noc.Maintenance.{is_offline_incident}
use dark_noc.Python.{Python}

abbrev pub has_token : String → Row Node → Bool
has_token hash n = elim n.cols.agent_token_hash [ none ↦ false | some known ↦ str_eq known hash ]

-- The node of a Bearer token, which `authorization` holds after "Bearer ".
unfoldable pub agent_node : (String → String) → Option String → Tx (Row Node)
agent_node token_hash authorization = do
  token ← found authorization 401 "Agent token required"
  row ← fetch_one nodes (has_token (token_hash token))
  found row 401 "Invalid agent token"

-- The incidents of a node that was offline.
unfoldable pub resolve_offline : (String → String → Bool) → ℕ → String → Tx (Unit {0})
resolve_offline like node_id message = do
  recovered ← fetch_all incidents (is_offline_incident like node_id)
  for_each recovered (λ i. (do resolve_incident i.id message none none; pure tt))

unfoldable pub agent_pulse : (String → String → Bool) → String → Option String → Row Node → Tx ℕ
agent_pulse like agent_version client node = do
  now ← utc_ts
  update nodes (λ n. n.id == node.id)
      (λ n. record n {
        status = NodeStatus.online;
        agent_version = some agent_version;
        observed_ip = observed_address client node;
        last_seen = some now;
        updated_at = now;
      })
  resolve_offline like node.id "Agent liveness pulse recovered"
  pure now

abbrev pub resource_title : String → String → String
resource_title node_name label = concat ("Node " ∷ node_name ∷ " " ∷ label ∷ " pressure" ∷ [])

module _ (py : Python) where
  unfoldable pub open_resource : Row Node → Resource → Json → ℕ → Tx (Unit {0})
  open_resource node r value now = do
    create_incident (some node.id) none Severity.warning (resource_title node.cols.name r.label)
        (field "resource" (str r.word) (field "value" value (field "threshold" (num r.limit) end)))
        (some now)
    pure tt

  unfoldable pub close_resource : Resource → Option (Row Incident) → Tx (Unit {0})
  close_resource r none = pure tt
  close_resource r (some incident) = do
    resolve_incident incident.id (str_append r.label " returned below the recovery threshold") none
        none
    pure tt

  abbrev pub answer_resource :
      Row Node → Resource → Json → ℕ → Option (Row Incident) → Tx (Unit {0})
  answer_resource node r value now active =
      if py.reaches value r.limit && not (is_some active)
      then open_resource node r value now
      else if py.recovers value r.limit
      then close_resource r active
      else pure tt

  -- One round of the loop over the resource limits, for a value that is there.
  unfoldable pub judge_resource : Row Node → Resource → Json → ℕ → Tx (Unit {0})
  judge_resource node r value now = do
    active ← fetch_one incidents (is_active_for node.id (resource_title node.cols.name r.label))
    answer_resource node r value now active

  abbrev pub watch_reading : Row Node → ℕ → Resource → Option Json → Tx (Unit {0})
  watch_reading node now r none = pure tt
  watch_reading node now r (some null) = pure tt
  watch_reading node now r (some raw) = do
    value ← parsed (py.float raw)
    judge_resource node r value now

  unfoldable pub watch_resource : Row Node → ℕ → Resource → Tx (Unit {0})
  watch_resource node now r = watch_reading node now r r.reading

  unfoldable pub store_heartbeat :
      AgentReport → Option String → Row Node → Flags → ℕ → Tx (Unit {0})
  store_heartbeat report client node flags now = do
    let policy = autoheal_policy py report.autoheal
    update nodes (λ n. n.id == node.id)
        (λ n. record n {
          status = NodeStatus.online;
          agent_version = some report.agent_version;
          observed_ip = observed_address client node;
          plugin_inventory = if flags.is_complete then report.plugins else n.plugin_inventory;
          autoheal_enabled = is_truthy (get "enabled" report.autoheal);
          autoheal_cooldown = policy.cooldown;
          autoheal_max_restarts = policy.max_restarts;
          last_seen = some now;
          updated_at = now;
        })
    pure tt
