-- ===== src/Agents/Keeps.antt =====
-- Enrollment, pulse and heartbeat keep the database consistent.
use dark_noc.Base.{ℕ, String, Bool, true, false, Option, none, some, List}
use dark_noc.Base.Json.{Json, null, bool, num, neg, str, arr, obj, Dict}
use dark_noc.Store.Schema.{Node, Tunnel, Incident}
use dark_noc.Store.Table.{Row}
use dark_noc.Store.Tx.{◌>>=◌}
use dark_noc.Store.Keeps.{Keeps, Keeps-pure, Keeps-update, Keeps-bind}
use dark_noc.Store.Governed.{Governed-nodes, keeps_rules, delete_tunnels-Keeps}
use dark_noc.Agents.Beat.{settle_inventory, agent_heartbeat, serve_pulse, serve_heartbeat}
use dark_noc.Agents.Enrollment.{LocalEnroll, renew_hub, insert_hub, enroll_hub, local_agent_enroll}
use dark_noc.Agents.Heartbeat.{
  agent_node, resolve_offline, agent_pulse, open_resource, close_resource, judge_resource,
  watch_reading, watch_resource, store_heartbeat,
}
use dark_noc.Agents.Report.{AgentReport, Flags, Resource, autoheal_policy-IsPolicy}
use dark_noc.Agents.Tunnels.{
  Telemetry, open_tunnel_incident, close_tunnel_incident, judge_tunnel, upsert_tunnel, stored_text,
  stored_number, text_cell, number_cell, read_telemetry, store_report, record_tunnel,
  record_managed, remove_stale,
}
use dark_noc.Incident.Keeps.{create_incident-Keeps, resolve_incident-Keeps}
use dark_noc.Job.Keeps.{parsed-Keeps}
use dark_noc.Job.Outcomes.{parsed}
use dark_noc.Job.Reports.{streak}
use dark_noc.Nodes.Keeps.{policy}
use dark_noc.Python.{Python}

pub agent_node-Keeps :
    (hash : String → String) (authorization : Option String) → Keeps (agent_node hash authorization)
unfolding agent_node
agent_node-Keeps hash authorization = search keeps_rules depth 12

resolve_offline-Keeps :
    (like : String → String → Bool) (n : ℕ) (message : String)
    → Keeps (resolve_offline like n message)
unfolding resolve_offline
resolve_offline-Keeps like n message = search (keeps_rules, resolve_incident-Keeps) depth 16

pub agent_pulse-Keeps :
    (like : String → String → Bool) (version : String) (client : Option String) (node : Row Node)
    → Keeps (agent_pulse like version client node)
unfolding agent_pulse
agent_pulse-Keeps like version client node = search (keeps_rules, resolve_offline-Keeps) depth 16

module _ (py : Python) where
  store_heartbeat-Keeps :
      (report : AgentReport) (client : Option String) (node : Row Node) (flags : Flags) (now : ℕ)
      → Keeps (store_heartbeat py report client node flags now)
  unfolding store_heartbeat
  store_heartbeat-Keeps report client node flags now =
      Keeps-bind _ _
        (Keeps-update Governed-nodes _ _ (λ n p e. autoheal_policy-IsPolicy py report.autoheal))
        (λ _. Keeps-pure tt)

  close_resource-Keeps : (r : Resource) (i : Option (Row Incident)) → Keeps (close_resource py r i)
  unfolding close_resource
  close_resource-Keeps r none = Keeps-pure tt
  close_resource-Keeps r (some i) = search (keeps_rules, resolve_incident-Keeps) depth 12

  open_resource-Keeps :
      (node : Row Node) (r : Resource) (v : Json) (now : ℕ) → Keeps (open_resource py node r v now)
  unfolding open_resource
  open_resource-Keeps node r v now = search (keeps_rules, create_incident-Keeps) depth 12

  judge_resource-Keeps :
      (node : Row Node) (r : Resource) (v : Json) (now : ℕ) → Keeps (judge_resource py node r v now)
  unfolding judge_resource
  judge_resource-Keeps node r v now =
      search (keeps_rules, open_resource-Keeps, close_resource-Keeps) depth 16

  measured-Keeps :
      (node : Row Node) (now : ℕ) (r : Resource) (v : Json)
      → Keeps (parsed (py.float v) >>= λ value. judge_resource py node r value now)
  measured-Keeps node now r v = search (keeps_rules, parsed-Keeps, judge_resource-Keeps) depth 12

  watch_reading-Keeps :
      (node : Row Node) (now : ℕ) (r : Resource) (o : Option Json)
      → Keeps (watch_reading py node now r o)
  watch_reading-Keeps node now r none = Keeps-pure tt
  watch_reading-Keeps node now r (some null) = Keeps-pure tt
  watch_reading-Keeps node now r (some (bool b)) = measured-Keeps node now r _
  watch_reading-Keeps node now r (some (num n)) = measured-Keeps node now r _
  watch_reading-Keeps node now r (some (neg n)) = measured-Keeps node now r _
  watch_reading-Keeps node now r (some (str t)) = measured-Keeps node now r _
  watch_reading-Keeps node now r (some (arr xs)) = measured-Keeps node now r _
  watch_reading-Keeps node now r (some (obj d)) = measured-Keeps node now r _

  watch_resource-Keeps :
      (node : Row Node) (now : ℕ) (r : Resource) → Keeps (watch_resource py node now r)
  unfolding watch_resource
  watch_resource-Keeps node now r = watch_reading-Keeps node now r r.reading

  stored_text-Keeps : (o : Option Json) → Keeps (stored_text py o)
  stored_text-Keeps none = Keeps-pure none
  stored_text-Keeps (some v) = parsed-Keeps _

  stored_number-Keeps : (o : Option Json) → Keeps (stored_number py o)
  stored_number-Keeps none = Keeps-pure none
  stored_number-Keeps (some v) = parsed-Keeps _

  text_cell-Keeps : (key : String) (tunnel : Dict) → Keeps (text_cell py key tunnel)
  unfolding text_cell
  text_cell-Keeps key tunnel = stored_text-Keeps _

  number_cell-Keeps : (key : String) (tunnel : Dict) → Keeps (number_cell py key tunnel)
  unfolding number_cell
  number_cell-Keeps key tunnel = stored_number-Keeps _

  read_telemetry-Keeps : (tunnel : Dict) → Keeps (read_telemetry py tunnel)
  unfolding read_telemetry
  read_telemetry-Keeps tunnel = search (keeps_rules, text_cell-Keeps, number_cell-Keeps) depth 30

upsert_tunnel-Keeps :
    (old : Option (Row Tunnel)) (n : ℕ) (name : String) (x : Telemetry) (stored : Dict) (now : ℕ)
    → Keeps (upsert_tunnel old n name x stored now)
unfolding upsert_tunnel
upsert_tunnel-Keeps none n name x stored now = search keeps_rules depth 12
upsert_tunnel-Keeps (some old) n name x stored now = search keeps_rules depth 12

close_tunnel-Keeps : (i : Option (Row Incident)) → Keeps (close_tunnel_incident i)
unfolding close_tunnel_incident
close_tunnel-Keeps none = Keeps-pure tt
close_tunnel-Keeps (some i) = search (keeps_rules, resolve_incident-Keeps) depth 12

open_tunnel-Keeps :
    (node : Row Node) (id : ℕ) (name current : String) (tunnel : Dict) (now : ℕ)
    → Keeps (open_tunnel_incident node id name current tunnel now)
unfolding open_tunnel_incident
open_tunnel-Keeps node id name current tunnel now =
    search (keeps_rules, create_incident-Keeps) depth 12

judge_tunnel-Keeps :
    (node : Row Node) (id : ℕ) (name current : String) (streak : ℕ) (tunnel : Dict) (now : ℕ)
    → Keeps (judge_tunnel node id name current streak tunnel now)
unfolding judge_tunnel
judge_tunnel-Keeps node id name current streak tunnel now =
    search (keeps_rules, open_tunnel-Keeps, close_tunnel-Keeps) depth 16

store_report-Keeps :
    (py : Python) (peers : String → Option (Option String)) (node : Row Node) (now : ℕ)
    (tunnel : Dict) (old : Option (Row Tunnel))
    → Keeps (store_report py peers node now tunnel old)
unfolding store_report
store_report-Keeps py peers node now tunnel old =
    search
      (
        keeps_rules, read_telemetry-Keeps, upsert_tunnel-Keeps, number_cell-Keeps,
        judge_tunnel-Keeps,
      )
      depth 24

record_tunnel-Keeps :
    (py : Python) (peers : String → Option (Option String)) (node : Row Node) (now : ℕ)
    (tunnel : Dict)
    → Keeps (record_tunnel py peers node now tunnel)
unfolding record_tunnel
record_tunnel-Keeps py peers node now tunnel = search (keeps_rules, store_report-Keeps) depth 12

record_managed-Keeps :
    (py : Python) (peers : String → Option (Option String)) (managed : String → String → Bool)
    (node : Row Node) (now : ℕ) (tunnel : Dict)
    → Keeps (record_managed py peers managed node now tunnel)
unfolding record_managed
record_managed-Keeps py peers managed node now tunnel =
    search (keeps_rules, record_tunnel-Keeps) depth 12

remove_stale-Keeps : (n : ℕ) (names : List String) → Keeps (remove_stale n names)
unfolding remove_stale
remove_stale-Keeps n names =
    search (keeps_rules, resolve_incident-Keeps, delete_tunnels-Keeps) depth 20

settle_inventory-Keeps :
    (fresh : Bool) (n : ℕ) (names : List String) → Keeps (settle_inventory fresh n names)
settle_inventory-Keeps true n names = remove_stale-Keeps n names
settle_inventory-Keeps false n names = Keeps-pure tt

pub agent_heartbeat-Keeps :
    (py : Python) (peers : String → Option (Option String)) (managed like : String → String → Bool)
    (report : AgentReport) (client : Option String) (node : Row Node)
    → Keeps (agent_heartbeat py peers managed like report client node)
unfolding agent_heartbeat
agent_heartbeat-Keeps py peers managed like report client node =
    search
      (
        keeps_rules, store_heartbeat-Keeps, resolve_offline-Keeps, watch_resource-Keeps,
        record_managed-Keeps, settle_inventory-Keeps,
      )
      depth 24

module _ (py : Python) (hash : String → String) where
  renew_hub-Keeps :
      (e : LocalEnroll) (row : Row Node) (supplied name host : String) (reused : Bool) (now : ℕ)
      → Keeps (renew_hub py hash e row supplied name host reused now)
  unfolding renew_hub
  renew_hub-Keeps e row supplied name host true now = search keeps_rules depth 16
  renew_hub-Keeps e row supplied name host false now = search keeps_rules depth 16

  insert_hub-Keeps :
      (e : LocalEnroll) (name host : String) (now : ℕ) → Keeps (insert_hub py hash e name host now)
  unfolding insert_hub
  insert_hub-Keeps e name host now = search (keeps_rules, policy) depth 16

  enroll_hub-Keeps :
      (e : LocalEnroll) (row : Option (Row Node)) (host : String) (now : ℕ)
      → Keeps (enroll_hub py hash e row host now)
  unfolding enroll_hub
  enroll_hub-Keeps e none host now = search (keeps_rules, insert_hub-Keeps) depth 12
  enroll_hub-Keeps e (some row) host now = search (keeps_rules, renew_hub-Keeps) depth 12

  pub local_agent_enroll-Keeps : (e : LocalEnroll) → Keeps (local_agent_enroll py hash e)
  unfolding local_agent_enroll
  local_agent_enroll-Keeps e = search (keeps_rules, enroll_hub-Keeps) depth 16

pub serve_pulse-Keeps :
    (hash : String → String) (like : String → String → Bool) (authorization : Option String)
    (version : String) (client : Option String)
    → Keeps (serve_pulse hash like authorization version client)
unfolding serve_pulse
serve_pulse-Keeps hash like authorization version client =
    search (keeps_rules, agent_node-Keeps, agent_pulse-Keeps) depth 12

pub serve_heartbeat-Keeps :
    (py : Python) (hash : String → String) (peers : String → Option (Option String))
    (managed like : String → String → Bool) (authorization : Option String) (report : AgentReport)
    (client : Option String)
    → Keeps (serve_heartbeat py hash peers managed like authorization report client)
unfolding serve_heartbeat
serve_heartbeat-Keeps py hash peers managed like authorization report client =
    search (keeps_rules, agent_node-Keeps, agent_heartbeat-Keeps) depth 12
