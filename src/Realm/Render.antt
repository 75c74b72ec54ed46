-- ===== src/Realm/Render.antt =====
-- The configuration that agent/realm_plugin.py writes for a Realm tunnel: `render_config`.
use dark_noc.Base.{
  if◌then◌else◌, concat, ℕ, String, str_append, Option, none, some, List, [], ◌∷◌, ◌++◌, map,
  str_eq,
}
use dark_noc.Base.Json.{Dict}
use dark_noc.Base.Text.{join, decimal}
use dark_noc.Fallible.{returned, need, ◌>>=◌}
use dark_noc.Python.{Python}
use dark_noc.Realm.Agent.{value_error, Raises, text_at, parse_mappings}
use dark_noc.Realm.Config.{
  Machine, Profile, agent_host, address, agent_profile, edge_transport, gateway_transport,
}
use dark_noc.Realm.Mappings.{Mapping}

pub data RealmRole : Type 0 where
  edge_side gateway_side : RealmRole

abbrev pub realm_role : String → Option RealmRole
realm_role role =
    if str_eq role "edge"
    then some edge_side
    else if str_eq role "gateway"
    then some gateway_side
    else none

-- One [[endpoints]] table; `wrapping` is its transport, the empty text for plain TCP.
pub record Endpoint : Type 0 where
  pub listen : ℕ
  pub remote : String
  pub wrapping : String

module _ (py : Python) (os : Machine) where
  -- The table of a mapping on each side.
  unfoldable pub endpoint : RealmRole → String → String → String → Mapping → Endpoint
  endpoint edge_side gateway target_host wrapping m = record {
    listen = m.public_port;
    remote = address py os gateway m.backbone_port;
    wrapping = wrapping;
  }
  endpoint gateway_side gateway target_host wrapping m = record {
    listen = m.backbone_port;
    remote = address py os target_host m.target_port;
    wrapping = wrapping;
  }

  abbrev pub wrapping_key : RealmRole → String
  wrapping_key edge_side = "remote_transport"
  wrapping_key gateway_side = "listen_transport"

  abbrev pub transport_for : RealmRole → Dict → Raises String
  transport_for edge_side payload = edge_transport py os payload
  transport_for gateway_side payload = gateway_transport py os payload

  -- the lines of a table
  unfoldable pub endpoint_lines : RealmRole → Endpoint → List String
  endpoint_lines role e =
      let wrapped =
        if str_eq e.wrapping ""
        then []
        else concat (wrapping_key role ∷ " = " ∷ os.toml e.wrapping ∷ []) ∷ [] in
      "[[endpoints]]"
      ∷ concat ("listen = \"0.0.0.0:" ∷ decimal e.listen ∷ "\"" ∷ [])
      ∷ concat ("remote = " ∷ os.toml e.remote ∷ [])
      ∷ (wrapped ++ "" ∷ [])

  unfoldable pub all_lines : RealmRole → List Endpoint → List String
  all_lines role [] = []
  all_lines role (e ∷ es) = endpoint_lines role e ++ all_lines role es

  abbrev pub header_lines : Profile → List String
  header_lines p =
      "[log]"
      ∷ concat ("level = " ∷ os.toml p.level ∷ [])
      ∷ "output = \"stdout\""
      ∷ ""
      ∷ "[network]"
      ∷ "no_tcp = false"
      ∷ "use_udp = false"
      ∷ concat ("tcp_timeout = " ∷ decimal p.timeout ∷ [])
      ∷ concat ("tcp_keepalive = " ∷ decimal p.keepalive ∷ [])
      ∷ concat ("tcp_keepalive_probe = " ∷ decimal p.probes ∷ [])
      ∷ ""
      ∷ []

  abbrev pub gateway_text : Dict → String
  gateway_text payload = text_at py "gateway_host" (text_at py "endpoint" "" payload) payload

  -- The profile and the tables of a configuration, in the order in which the text has them.
  unfoldable pub endpoints : Dict → RealmRole → Raises (Profile × List Endpoint)
  endpoints payload role = do
    gateway ← agent_host py os (gateway_text payload) "Gateway host"
    target_host ← agent_host py os (text_at py "target_host" "127.0.0.1" payload) "target host"
    mappings ← parse_mappings py payload
    profile ← agent_profile py os payload
    wrapping ← transport_for role payload
    returned (profile, map (endpoint role gateway target_host wrapping) mappings)

  unfoldable pub render_config : Dict → String → Raises String
  render_config payload role_name = do
    role ← need (realm_role role_name) (value_error "Realm role must be edge or gateway")
    (profile, tables) ← endpoints payload role
    returned
        (str_append (os.rstrip (join "\n" (header_lines profile ++ all_lines role tables))) "\n")
