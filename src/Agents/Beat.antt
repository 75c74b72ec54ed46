-- ===== src/Agents/Beat.antt =====
-- `agent_heartbeat` of hub/agent_control_router.py, from its parts.
use dark_noc.Base.{ℕ, String, Bool, true, false, Option, List}
use dark_noc.Store.Schema.{Node}
use dark_noc.Store.Table.{Row}
use dark_noc.Store.Tx.{◌>>=◌, ◌>>◌, Tx, pure, utc_ts, for_each}
use dark_noc.Agents.Heartbeat.{
  agent_node, resolve_offline, agent_pulse, watch_resource, store_heartbeat,
}
use dark_noc.Agents.Report.{AgentReport, resource_limits, agent_inventory_flags}
use dark_noc.Agents.Tunnels.{record_managed, active_names, remove_stale}
use dark_noc.Python.{Python}

-- if inventory_fresh: …
abbrev pub settle_inventory : Bool → ℕ → List String → Tx (Unit {0})
settle_inventory true node_id names = remove_stale node_id names
settle_inventory false node_id names = pure tt

unfoldable pub agent_heartbeat :
    Python
    → (String → Option (Option String))
    → (String → String → Bool)
    → (String → String → Bool)
    → AgentReport
    → Option String
    → Row Node
    → Tx ℕ
agent_heartbeat py peer_address managed like report client node = do
  now ← utc_ts
  let flags = agent_inventory_flags py report.metrics
  store_heartbeat py report client node flags now
  resolve_offline like node.id "Agent heartbeat recovered"
  for_each (resource_limits report.metrics) (watch_resource py node now)
  for_each report.tunnels (record_managed py peer_address managed node now)
  settle_inventory flags.is_fresh node.id (active_names py peer_address managed report.tunnels)
  pure now

-- The two routes with their dependency on `agent_node`.
unfoldable pub serve_pulse :
    (String → String) → (String → String → Bool) → Option String → String → Option String → Tx ℕ
serve_pulse token_hash like authorization agent_version client = do
  node ← agent_node token_hash authorization
  agent_pulse like agent_version client node

unfoldable pub serve_heartbeat :
    Python
    → (String → String)
    → (String → Option (Option String))
    → (String → String → Bool)
    → (String → String → Bool)
    → Option String
    → AgentReport
    → Option String
    → Tx ℕ
serve_heartbeat py token_hash peer_address managed like authorization report client = do
  node ← agent_node token_hash authorization
  agent_heartbeat py peer_address managed like report client node
