-- ===== src/Deployments/Payload.antt =====
-- The payload of a deployment's job and its Pair Code: `plugin_job_payload`, `plugin_pair_code`,
-- `dark_backhaul_pair_code` and `generic_pair_code` of hub/app.py.
use dark_noc.Base.{
  if◌then◌else◌, ℕ, String, str_append, Bool, false, Option, none, some, [], ◌∷◌, map, str_eq,
}
use dark_noc.Base.Json.{Json, null, num, str, arr, nil, Dict, end, field, get, put, pop, one}
use dark_noc.Base.Text.{join, decimal}
use dark_noc.Fallible.{returned, raised, need, ◌>>=◌}
use dark_noc.Store.Tx.{Error}
use dark_noc.Store.Lift.{Checked}
use dark_noc.Python.{Python}
use dark_noc.Realm.Agent.{text_at}
use dark_noc.Realm.Prepare.{item_text, realm_pair_code}
use dark_noc.Realm.Settings.{texts_of, iterated}

-- base64, its URL-safe form without padding, SHA-256 in hexadecimal, and json.dumps with sorted
-- keys and no blanks
pub record Encoding : Type 0 where
  pub b64 : String → String
  pub urlsafe : String → String
  pub sha256 : String → String
  pub dumps_sorted : Dict → String

abbrev pub packet_profile : String → Option (ℕ × (ℕ × ℕ))
packet_profile profile =
    if str_eq profile "stable"
    then some (0, (2, 1150))
    else if str_eq profile "balanced"
    then some (1, (4, 1150))
    else if str_eq profile "lowping"
    then some (2, (4, 1150))
    else if str_eq profile "turbo"
    then some (3, (8, 1250))
    else none

abbrev pub transport_index : String → Option ℕ
transport_index transport =
    if str_eq transport "tcp"
    then some 1
    else if str_eq transport "tcpmux"
    then some 2
    else if str_eq transport "ws"
    then some 3
    else if str_eq transport "wsmux"
    then some 4
    else if str_eq transport "wss"
    then some 5
    else if str_eq transport "wssmux"
    then some 6
    else if str_eq transport "udp"
    then some 7
    else none

abbrev pub legacy_codec : String → String
legacy_codec plugin_id =
    if str_eq plugin_id "dark-realm"
    then "realm"
    else if str_eq plugin_id "dark-backhaul"
    then "backhaul"
    else if str_eq plugin_id "dark-ghostpro"
    then "ghostpro"
    else if str_eq plugin_id "dark-packetpro"
    then "packetpro"
    else ""

abbrev pub is_plugin : String → Option Json → Bool
is_plugin plugin_id (some (str s)) = str_eq s plugin_id
is_plugin plugin_id _ = false

-- the role that keeps the certificate's files
abbrev pub owner_role : String → Dict → String
owner_role role settings =
    if str_eq role ""
    then (if is_plugin "dark-realm" (get "plugin_id" settings) then "gateway" else "server")
    else role

-- a text that is joined, where None or a number is a TypeError
abbrev pub joined_text : Option Json → Checked String
joined_text (some (str s)) = returned s
joined_text _ = raised Error.crash

module _ (py : Python) where
  unfoldable pub plugin_job_payload : Dict → Option String → String → Dict
  plugin_job_payload settings token role =
      let payload = put "role" (str role) (put "token" (one token str) settings) in
      if str_eq role (owner_role (text_at py "certificate_role" "" settings) settings)
      then payload
      else pop "certificate_key_path" (pop "certificate_path" payload)

  -- sep.join(str(port) for port in settings["user_ports"]), with a prefix for each port
  unfoldable pub port_texts : String → Dict → Checked String
  port_texts prefix settings = do
    ports ← iterated py (get "user_ports" settings)
    returned (join "," (map (λ p. str_append prefix p) (texts_of py ports)))

  abbrev pub token_text : Option String → Checked String
  token_text token = need token Error.crash

  unfoldable pub dark_backhaul_pair_code : Encoding → Dict → Option String → Checked String
  dark_backhaul_pair_code e settings token = do
    ports ← port_texts "" settings
    endpoint ← joined_text (get "endpoint" settings)
    tunnel_port ← item_text py (get "tunnel_port" settings)
    transport ← joined_text (get "transport" settings)
    index ← need (transport_index transport) Error.crash
    secret ← token_text token
    profile ← joined_text (get "profile" settings)
    restart ← joined_text (get "restart_every" settings)
    let raw =
        join "|"
          ("B2" ∷ endpoint ∷ tunnel_port ∷ secret ∷ decimal index ∷ profile ∷ restart ∷ ports ∷ [])
    returned (str_append "DBH-" (e.b64 raw))

  unfoldable pub ghostpro_pair_code : Encoding → Dict → Option String → Checked String
  ghostpro_pair_code e settings token = do
    ports ← port_texts "" settings
    endpoint ← joined_text (get "endpoint" settings)
    tunnel_port ← item_text py (get "tunnel_port" settings)
    secret ← token_text token
    transport ← joined_text (get "transport" settings)
    profile ← joined_text (get "profile" settings)
    restart ← joined_text (get "restart_every" settings)
    let raw =
        join "|"
          ("GPC1" ∷ endpoint ∷ tunnel_port ∷ secret ∷ transport ∷ profile ∷ restart ∷ ports ∷ [])
    returned (str_append "DGP-" (e.b64 raw))

  unfoldable pub packetpro_pair_code : Encoding → Dict → Option String → Checked String
  packetpro_pair_code e settings token = do
    profile ← joined_text (get "profile" settings)
    (mode, (conn, mtu)) ← need (packet_profile profile) Error.crash
    ports ← port_texts "t" settings
    name ← joined_text (get "name" settings)
    endpoint ← joined_text (get "endpoint" settings)
    tunnel_port ← item_text py (get "tunnel_port" settings)
    secret ← token_text token
    restart ← joined_text (get "restart_every" settings)
    pair_id ← joined_text (get "pair_id" settings)
    pair_created ← item_text py (get "pair_created" settings)
    let raw = join "|" (
        "N1"
        ∷ name
        ∷ endpoint
        ∷ tunnel_port
        ∷ secret
        ∷ "1"
        ∷ decimal mode
        ∷ decimal conn
        ∷ decimal mtu
        ∷ restart
        ∷ "v1.0.0-alpha.21"
        ∷ pair_id
        ∷ pair_created
        ∷ ports
        ∷ [])
    returned (str_append "DPP-N1-" (e.urlsafe raw))

  -- settings.get(key)
  abbrev pub value_or_null : Option Json → Json
  value_or_null none = null
  value_or_null (some v) = v

  abbrev pub ports_or_empty : Option Json → Json
  ports_or_empty none = arr nil
  ports_or_empty (some v) = v

  unfoldable pub generic_pair_code : Encoding → Dict → Option String → String
  generic_pair_code e settings token =
      let payload = field "schema" (num 1) (
        field "plugin_id" (value_or_null (get "plugin_id" settings)) (
          field "name" (value_or_null (get "name" settings)) (
            field "endpoint" (value_or_null (get "endpoint" settings)) (
              field "tunnel_port" (value_or_null (get "tunnel_port" settings)) (
                field "user_ports" (ports_or_empty (get "user_ports" settings)) (
                  field "transport" (value_or_null (get "transport" settings)) (
                    field "profile" (value_or_null (get "profile" settings)) (
                      field "restart_every" (value_or_null (get "restart_every" settings))
                        (field "token" (one token str) end))))))))) in
      str_append "DNP1." (e.urlsafe (e.dumps_sorted payload))

  unfoldable pub plugin_pair_code : Encoding → ℕ → Dict → Option String → Checked String
  plugin_pair_code e time settings token =
      let codec =
        text_at py "pair_codec" (legacy_codec (text_at py "plugin_id" "" settings)) settings in
      if str_eq codec "realm"
      then realm_pair_code py e.urlsafe e.sha256 time settings
      else if str_eq codec "backhaul"
      then dark_backhaul_pair_code e settings token
      else if str_eq codec "ghostpro"
      then ghostpro_pair_code e settings token
      else if str_eq codec "packetpro"
      then packetpro_pair_code e settings token
      else if str_eq codec "generic-v1"
      then returned (generic_pair_code e settings token)
      else raised (Error.http 409 "Plugin Pair Code codec is not supported by this Hub build")
