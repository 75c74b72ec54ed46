-- ===== src/Agents/Tunnels.antt =====
-- The tunnels of a heartbeat: the loop over `report.tunnels` of `agent_heartbeat`, and the removal
-- of the tunnels that a fresh inventory does not have.
use dark_noc.Base.{
  leb, ◌==◌, if◌then◌else◌, is_some, clip, concat, is_ref, where_rows, ℕ, ◌+◌, String, Bool, not,
  ◌&&◌, Option, none, some, List, [], ◌∷◌, map, str_eq,
}
use dark_noc.Base.Json.{Json, arr, Dict, end, get, put, texts}
use dark_noc.Store.Schema.{Node, Tunnel, Severity, Incident}
use dark_noc.Store.Table.{Row}
use dark_noc.Store.Hub.{tunnels, incidents}
use dark_noc.Store.Tx.{◌>>=◌, ◌>>◌, Tx, pure, insert, update, fetch_one, fetch_all, for_each}
use dark_noc.Store.Cascade.{among, refers, delete_tunnels}
use dark_noc.Agents.Peers.{usable_peer_ips}
use dark_noc.Agents.Report.{text_get}
use dark_noc.Fleet.Payload.{is_among}
use dark_noc.Incident.{create_incident, is_active, resolve_incident}
use dark_noc.Job.Outcomes.{parsed}
use dark_noc.Python.{Python}
use dark_noc.Registry.Catalog.{reports}

-- current in {"down", "degraded"}
abbrev pub is_failing : String → Bool
is_failing current = is_among current ("down" ∷ "degraded" ∷ [])

-- The failures in a row of a tunnel, from those it had, `none` for a new tunnel.
unfoldable pub next_streak : Option ℕ → String → ℕ
next_streak none current = if is_failing current then 1 else 0
next_streak (some streak) current = if is_failing current then streak + 1 else 0

-- 2 if current == "down" else 3
abbrev pub threshold : String → ℕ
threshold current = if str_eq current "down" then 2 else 3

abbrev pub severity_of : String → Severity
severity_of current = if str_eq current "down" then Severity.critical else Severity.warning

-- WHERE node_id=? AND name=?
abbrev pub is_named : ℕ → String → Row Tunnel → Bool
is_named node_id name t = t.cols.node_id == node_id && str_eq t.cols.name name

-- tunnel_id=? AND status IN ('open','acknowledged')
abbrev pub is_active_of : ℕ → Row Incident → Bool
is_active_of tunnel_id i = is_ref i.cols.tunnel_id tunnel_id && is_active i.cols.status

abbrev pub streak_of : Option (Row Tunnel) → Option ℕ
streak_of none = none
streak_of (some t) = some t.cols.failure_streak

abbrev pub details_of : Option (Row Tunnel) → Dict
details_of none = end
details_of (some t) = t.cols.details

abbrev pub or_else : List String → List String → List String
or_else [] other = other
or_else peers other = peers

-- The columns that an upsert writes.
pub record Telemetry : Type 0 where
  pub method : Option String
  pub target : Option String
  pub service : Option String
  pub listen_port : Option Json
  pub status : Option String
  pub latency_ms : Option Json
  pub packet_loss : Option Json
  pub sessions : Option Json
  pub rx_bps : Option Json
  pub tx_bps : Option Json

unfoldable pub open_tunnel_incident : Row Node → ℕ → String → String → Dict → ℕ → Tx (Unit {0})
open_tunnel_incident node tunnel_id name current tunnel now = do
  create_incident (some node.id) (some tunnel_id) (severity_of current)
      (concat ("Tunnel " ∷ name ∷ " is " ∷ current ∷ [])) tunnel (some now)
  pure tt

unfoldable pub close_tunnel_incident : Option (Row Incident) → Tx (Unit {0})
close_tunnel_incident none = pure tt
close_tunnel_incident (some incident) = do
  resolve_incident incident.id "Tunnel telemetry returned to healthy" none none
  pure tt

abbrev pub answer_tunnel :
    Row Node → ℕ → String → String → ℕ → Dict → ℕ → Option (Row Incident) → Tx (Unit {0})
answer_tunnel node tunnel_id name current streak tunnel now open_incident =
    if is_failing current && leb (threshold current) streak && not (is_some open_incident)
    then open_tunnel_incident node tunnel_id name current tunnel now
    else if str_eq current "healthy"
    then close_tunnel_incident open_incident
    else pure tt

-- The incident of a tunnel after its status has been stored.
unfoldable pub judge_tunnel : Row Node → ℕ → String → String → ℕ → Dict → ℕ → Tx (Unit {0})
judge_tunnel node tunnel_id name current streak tunnel now = do
  open_incident ← fetch_one incidents (is_active_of tunnel_id)
  answer_tunnel node tunnel_id name current streak tunnel now open_incident

-- INSERT … ON CONFLICT(node_id,name) DO UPDATE; the answer is the tunnel's id.
unfoldable pub upsert_tunnel : Option (Row Tunnel) → ℕ → String → Telemetry → Dict → ℕ → Tx ℕ
upsert_tunnel (some old) node_id name x stored now = do
  update tunnels (λ t. t.id == old.id)
      (λ t. record t {
        method = x.method;
        target = x.target;
        service = x.service;
        listen_port = x.listen_port;
        status = x.status;
        latency_ms = x.latency_ms;
        packet_loss = x.packet_loss;
        sessions = x.sessions;
        rx_bps = x.rx_bps;
        tx_bps = x.tx_bps;
        last_check = some now;
        details = stored;
      })
  pure old.id
upsert_tunnel none node_id name x stored now = insert tunnels (record {
  node_id = node_id;
  name = name;
  method = x.method;
  target = x.target;
  service = x.service;
  listen_port = x.listen_port;
  status = x.status;
  latency_ms = x.latency_ms;
  packet_loss = x.packet_loss;
  sessions = x.sessions;
  rx_bps = x.rx_bps;
  tx_bps = x.tx_bps;
  last_check = some now;
  details = stored;
  failure_streak = 0;
})

module _ (py : Python) where
  abbrev pub stored_text : Option Json → Tx (Option String)
  stored_text none = pure none
  stored_text (some v) = parsed (py.column v)

  abbrev pub stored_number : Option Json → Tx (Option Json)
  stored_number none = pure none
  stored_number (some v) = parsed (py.numeric v)

  -- tunnel.get(key) as a column stores it
  unfoldable pub text_cell : String → Dict → Tx (Option String)
  text_cell key tunnel = stored_text (get key tunnel)

  unfoldable pub number_cell : String → Dict → Tx (Option Json)
  number_cell key tunnel = stored_number (get key tunnel)

  unfoldable pub read_telemetry : Dict → Tx Telemetry
  read_telemetry tunnel = do
    method ← text_cell "method" tunnel
    target ← text_cell "target" tunnel
    service ← text_cell "service" tunnel
    listen_port ← number_cell "listen_port" tunnel
    status ← text_cell "status" tunnel
    latency_ms ← number_cell "latency_ms" tunnel
    packet_loss ← number_cell "packet_loss" tunnel
    sessions ← number_cell "sessions" tunnel
    rx_bps ← number_cell "rx_bps" tunnel
    tx_bps ← number_cell "tx_bps" tunnel
    pure (record {
      method = method;
      target = target;
      service = service;
      listen_port = listen_port;
      status = status;
      latency_ms = latency_ms;
      packet_loss = packet_loss;
      sessions = sessions;
      rx_bps = rx_bps;
      tx_bps = tx_bps;
    })

  module _ (peer_address : String → Option (Option String)) where
    -- The report of a tunnel with its live and its last known peers.
    unfoldable pub stored_tunnel : Dict → Dict → Dict
    stored_tunnel tunnel previous =
        let live = usable_peer_ips py peer_address (get "peer_ips" tunnel) in
        let remembered =
          or_else (usable_peer_ips py peer_address (get "last_known_peer_ips" previous))
            (usable_peer_ips py peer_address (get "peer_ips" previous)) in
        put "last_known_peer_ips" (arr (texts (or_else live remembered)))
          (put "peer_ips" (arr (texts live)) tunnel)

    -- What is done once the old row of the tunnel, if there is one, has been read.
    unfoldable pub store_report : Row Node → ℕ → Dict → Option (Row Tunnel) → Tx (Unit {0})
    store_report node now tunnel old = do
      let name = clip 128 (text_get py "name" "unnamed" tunnel)
      let current = text_get py "status" "unknown" tunnel
      let streak = next_streak (streak_of old) current
      telemetry ← read_telemetry tunnel
      tunnel_id ←
          upsert_tunnel old node.id name telemetry (stored_tunnel tunnel (details_of old)) now
      number_cell "service_uptime" tunnel
      update tunnels (λ t. t.id == tunnel_id) (λ t. record t { failure_streak = streak })
      judge_tunnel node tunnel_id name current streak tunnel now

    -- One round of the loop, for a tunnel that a plugin manages.
    unfoldable pub record_tunnel : Row Node → ℕ → Dict → Tx (Unit {0})
    record_tunnel node now tunnel = do
      old ← fetch_one tunnels (is_named node.id (clip 128 (text_get py "name" "unnamed" tunnel)))
      store_report node now tunnel old

    module _ (managed_tunnel_report : String → String → Bool) where
      unfoldable pub is_managed_report : Dict → Bool
      is_managed_report tunnel =
          managed_tunnel_report (text_get py "method" "" tunnel) (text_get py "service" "" tunnel)

      unfoldable pub record_managed : Row Node → ℕ → Dict → Tx (Unit {0})
      record_managed node now tunnel =
          if is_managed_report tunnel then record_tunnel node now tunnel else pure tt

      -- `active_names`
      unfoldable pub active_names : List Dict → List String
      active_names reports =
          map (λ tunnel. clip 128 (text_get py "name" "unnamed" tunnel))
            (where_rows is_managed_report reports)

-- The tunnels of the node that are not in the inventory, with their incidents.
unfoldable pub remove_stale : ℕ → List String → Tx (Unit {0})
remove_stale node_id names = do
  stale_rows ←
      fetch_all tunnels (λ t. t.cols.node_id == node_id && not (is_among t.cols.name names))
  let stale_ids = map (λ (t : Row Tunnel). t.id) stale_rows
  stale_incidents ←
      fetch_all incidents (λ i. refers i.cols.tunnel_id stale_ids && is_active i.cols.status)
  for_each stale_incidents (λ i. (do
    resolve_incident i.id "Tunnel was removed from the active Agent inventory" none none
    pure tt))
  delete_tunnels (λ t. among t.id stale_ids)
