-- ===== src/Scenarios/Heartbeats.antt =====
-- The theorems on heartbeats at concrete inputs.
use dark_noc.Base.{
  clip, where_rows, first_row, any_row, ℕ, String, ◌≡◌, refl, Bool, true, false, Option, none, some,
  [], ◌∷◌,
}
use dark_noc.Base.Json.{Json, bool, str, arr, nil, cons, Dict, end, field, get, is_truthy}
use dark_noc.Store.Schema.{Tunnel}
use dark_noc.Store.Table.{Row}
use dark_noc.Store.Hub.{Hub}
use dark_noc.Store.Tx.{◌>>=◌, Tx, for_each, settle}
use dark_noc.Store.Cascade.{delete_tunnels}
use dark_noc.Agents.Beat.{agent_heartbeat}
use dark_noc.Agents.Heartbeat.{resolve_offline, watch_resource, store_heartbeat}
use dark_noc.Agents.Inventory.{is_stale_tunnel, agent_heartbeat-IsFresh}
use dark_noc.Agents.Peers.{collect_peers, usable_peer_ips, IsPeers, usable_peer_ips-IsPeers}
use dark_noc.Agents.Report.{
  AgentReport, observed_address, resource_limits, agent_inventory_flags, autoheal_policy, text_get,
}
use dark_noc.Agents.Tunnels.{
  next_streak, close_tunnel_incident, judge_tunnel, upsert_tunnel, text_cell, number_cell,
  read_telemetry, stored_tunnel, store_report, record_tunnel, is_managed_report, record_managed,
  active_names, remove_stale,
}
use dark_noc.Incident.{resolve_incident}
use dark_noc.Realm.Agent.{text_at}
use dark_noc.Samples.{sample_py, edge_node, one_row, sample}

-- A tunnel that the next inventory does not have.
abbrev old_tunnel : Row Tunnel
old_tunnel = record {
  id = 1;
  cols = record {
    node_id = 1;
    name = "old";
    method = some "DARK Backhaul";
    target = none;
    service = some "backhaul-old";
    listen_port = none;
    status = some "healthy";
    latency_ms = none;
    packet_loss = none;
    sessions = none;
    rx_bps = none;
    tx_bps = none;
    last_check = some 900;
    details = end;
    failure_streak = 0;
  };
}

abbrev tunnelled : Hub
tunnelled = record sample { tunnel_table = one_row old_tunnel }

abbrev tunnel_report : Dict
tunnel_report = field "name" (str "new") (field "status" (str "healthy") end)

abbrev heartbeat_report : AgentReport
heartbeat_report = record {
  metrics = field "inventory_complete" (bool true) end;
  tunnels = tunnel_report ∷ [];
  agent_version = "2.9.3";
  autoheal = end;
  plugins = end;
}

abbrev any_peer : String → Option (Option String)
any_peer s = some (some s)

abbrev all_managed : String → String → Bool
all_managed method service = true

abbrev no_match : String → String → Bool
no_match s t = false

abbrev beat : Tx ℕ
beat = agent_heartbeat sample_py any_peer all_managed no_match heartbeat_report none edge_node

abbrev beaten : Hub
beaten = settle tunnelled (beat tunnelled)

agent_heartbeat-IsFresh_example :
    any_row
      (is_stale_tunnel edge_node.id
        (active_names sample_py any_peer all_managed heartbeat_report.tunnels))
      beaten.tunnel_table.rows
    ≡ false
unfolding agent_inventory_flags agent_heartbeat store_heartbeat resolve_offline watch_resource
    resource_limits record_managed record_tunnel store_report read_telemetry text_cell number_cell
    upsert_tunnel next_streak judge_tunnel close_tunnel_incident remove_stale resolve_incident
    delete_tunnels for_each autoheal_policy observed_address stored_tunnel usable_peer_ips
    collect_peers text_get text_at get is_managed_report ◌>>=◌ first_row any_row where_rows
    is_truthy clip
agent_heartbeat-IsFresh_example =
    agent_heartbeat-IsFresh sample_py any_peer all_managed no_match heartbeat_report none edge_node
      tunnelled beaten 1000 refl refl

abbrev peer_list : Option Json
peer_list =
    some (arr (cons (str "192.0.2.7") (cons (str "localhost") (cons (str "192.0.2.7") nil))))

usable_peer_ips-IsPeers_example : IsPeers (usable_peer_ips sample_py any_peer peer_list)
usable_peer_ips-IsPeers_example = usable_peer_ips-IsPeers sample_py any_peer peer_list

-- A tunnel that was failing when it was last reported, and is down again.
abbrev failing_tunnel : Row Tunnel
failing_tunnel = record old_tunnel { cols = record old_tunnel.cols { failure_streak = 1 } }

abbrev failing : Hub
failing = record sample { tunnel_table = one_row failing_tunnel }

abbrev down_report : Dict
down_report = field "name" (str "old") (field "status" (str "down") end)

abbrev alarmed : Hub
alarmed = settle failing (record_tunnel sample_py any_peer edge_node 1000 down_report failing)
