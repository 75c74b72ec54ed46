-- ===== src/Realm/Config.antt =====
-- The parts of the configuration that agent/realm_plugin.py writes for a Realm tunnel: hosts,
-- domains, addresses, profiles and the transports of both sides.
use Prim.Native.Char.{code}
use dark_noc.Base.{
  ltb, ◌==◌, if◌then◌else◌, concat, length, any_row, ℕ, String, str_append, Bool, not, ◌&&◌, ◌||◌,
  Option, none, some, [], ◌∷◌, str_eq,
}
use dark_noc.Base.Json.{Dict, get, is_truthy}
use dark_noc.Base.Text.{codes, split_text, decimal, value}
use dark_noc.Fallible.{returned, raised, raise_if, need, ◌>>=◌, ◌>>◌}
use dark_noc.Fleet.Payload.{is_among}
use dark_noc.Python.{Python}
use dark_noc.Realm.Agent.{value_error, runtime_error, Raises, text_at}
use dark_noc.Realm.Names.{match_domain, match_ws_path, match_alpn, is_bad_label, has_blank}
use dark_noc.Realm.Settings.{ws_masks, uses_tls}

-- What the agent takes from Python and the file system.
pub record Machine : Type 0 where
  -- ipaddress.ip_address(text).compressed, `none` for a ValueError, and whether it has version 6
  pub ip_address : String → Option String
  pub is_version_6 : String → Bool
  -- str.isalnum
  pub isalnum : String → Bool
  -- json.dumps(text, ensure_ascii=False)
  pub toml : String → String
  -- str(Path(text)), and Path(text).is_file()
  pub path : String → String
  pub is_file : String → Bool
  -- text.rstrip()
  pub rstrip : String → String

-- the fields of PROFILE_VALUES that a configuration has
pub record Profile : Type 0 where
  pub timeout : ℕ
  pub keepalive : ℕ
  pub probes : ℕ
  pub level : String

abbrev pub profile_of : ℕ → ℕ → ℕ → String → Profile
profile_of timeout keepalive probes level = record {
  timeout = timeout;
  keepalive = keepalive;
  probes = probes;
  level = level;
}

-- PROFILE_VALUES
abbrev pub profile_values : String → Option Profile
profile_values key =
    if str_eq key "stable"
    then some (profile_of 10 20 5 "warn")
    else if str_eq key "balanced"
    then some (profile_of 5 15 3 "warn")
    else if str_eq key "lowping"
    then some (profile_of 3 5 3 "warn")
    else if str_eq key "low_ping"
    then some (profile_of 3 5 3 "warn")
    else if str_eq key "turbo"
    then some (profile_of 4 10 3 "error")
    else none

-- part.replace("-", "a")
unfoldable pub without_dashes : String → String
without_dashes String.[] = ""
without_dashes (String.◌∷◌ c s) =
    if code c == b'-' then str_append "a" (without_dashes s) else String.◌∷◌ c (without_dashes s)

abbrev pub invalid : {A : Type 0} → String → Raises A
invalid label = raised (value_error (str_append "Invalid Realm " label))

-- any(… for part in labels), with `isalnum`
abbrev pub is_refused_label : (String → Bool) → String → Bool
is_refused_label isalnum part = is_bad_label (codes part) || not (isalnum (without_dashes part))

module _ (py : Python) (os : Machine) where
  abbrev pub agent_host_name : String → String → Option String → Raises String
  agent_host_name text label (some compressed) = returned compressed
  agent_host_name text label none =
      if any_row (is_refused_label os.isalnum) (split_text b'.' text)
      then invalid label
      else returned (py.casefold text)

  -- _host
  unfoldable pub agent_host : String → String → Raises String
  agent_host value label =
      let text = py.without_dots (py.strip value) in
      if str_eq text "" || ltb 253 (length (codes text)) || has_blank text
      then invalid label
      else agent_host_name text label (os.ip_address text)

  -- _domain
  unfoldable pub agent_domain : String → String → Raises String
  agent_domain value label =
      let text = py.without_dots (py.casefold (py.strip value)) in
      if match_domain text then returned text else invalid label

  -- _ws_path
  unfoldable pub agent_ws_path : String → Raises String
  agent_ws_path value =
      let text = py.strip value in
      if not (match_ws_path (codes text)) || py.contains ".." text
      then invalid "WebSocket Path"
      else returned text

  -- _ws_mask
  unfoldable pub agent_ws_mask : String → Raises String
  agent_ws_mask value =
      let text = py.casefold value in
      if is_among text ws_masks then returned text else invalid "WebSocket mask"

  abbrev pub joined_address : String → ℕ → Option String → String
  joined_address host p none = concat (host ∷ ":" ∷ decimal p ∷ [])
  joined_address host p (some compressed) =
      if os.is_version_6 host
      then concat ("[" ∷ compressed ∷ "]:" ∷ decimal p ∷ [])
      else concat (compressed ∷ ":" ∷ decimal p ∷ [])

  -- _address
  unfoldable pub address : String → ℕ → String
  address host p = joined_address host p (os.ip_address host)

  -- _profile
  unfoldable pub agent_profile : Dict → Raises Profile
  agent_profile payload =
      need (profile_values (py.casefold (text_at py "profile" "balanced" payload)))
        (value_error "Unsupported Realm performance profile")

  -- payload.get("sni") or payload.get("tls_domain")
  abbrev pub sni_text : Dict → String
  sni_text payload = text_at py "sni" (text_at py "tls_domain" "" payload) payload

  unfoldable pub edge_websocket : Dict → Raises String
  edge_websocket payload = do
    host ← agent_domain (text_at py "ws_host" "" payload) "WebSocket Host"
    path ← agent_ws_path (text_at py "ws_path" "" payload)
    mask ← agent_ws_mask (text_at py "ws_mask" "skipped" payload)
    returned (concat ("ws;host=" ∷ host ∷ ";path=" ∷ path ∷ ";mask=" ∷ mask ∷ []))

  unfoldable pub edge_tls : Dict → Raises String
  edge_tls payload = do
    sni ← agent_domain (sni_text payload) "SNI"
    returned (str_append "tls;sni=" sni)

  -- the part before the options
  unfoldable pub edge_base : Dict → String → Raises String
  edge_base payload transport =
      if str_eq transport "tls"
      then edge_tls payload
      else if str_eq transport "ws"
      then edge_websocket payload
      else if str_eq transport "wss"
      then (do
        websocket ← edge_websocket payload
        tls ← edge_tls payload
        returned (concat (websocket ∷ ";" ∷ tls ∷ [])))
      else raised (value_error "DARK Realm supports TCP, TLS, WS and WSS")

  -- _edge_transport
  unfoldable pub edge_transport : Dict → Raises String
  edge_transport payload =
      let transport = text_at py "transport" "tcp" payload in
      let alpn = py.strip (text_at py "alpn" "" payload) in
      if str_eq transport "tcp" then returned "" else (do
        base ← edge_base payload transport
        raise_if (not (str_eq alpn "") && not (match_alpn alpn))
            (value_error "Invalid Realm ALPN list")
        let named = if str_eq alpn "" then base else concat (base ∷ ";alpn=" ∷ alpn ∷ [])
        returned (
            if uses_tls transport && is_truthy (get "tls_insecure" payload)
            then str_append named ";insecure"
            else named))

  unfoldable pub gateway_websocket : Dict → Raises String
  gateway_websocket payload = do
    host ← agent_domain (text_at py "ws_host" "" payload) "WebSocket Host"
    path ← agent_ws_path (text_at py "ws_path" "" payload)
    returned (concat ("ws;host=" ∷ host ∷ ";path=" ∷ path ∷ []))

  -- _gateway_transport
  unfoldable pub gateway_transport : Dict → Raises String
  gateway_transport payload =
      let transport = text_at py "transport" "tcp" payload in
      let cert = os.path (text_at py "certificate_path" "" payload) in
      let key = os.path (text_at py "certificate_key_path" "" payload) in
      let tls = concat ("tls;cert=" ∷ cert ∷ ";key=" ∷ key ∷ []) in
      if str_eq transport "tcp"
      then returned ""
      else if str_eq transport "ws"
      then gateway_websocket payload
      else (do
        raise_if (not (uses_tls transport)) (value_error "DARK Realm supports TCP, TLS, WS and WSS")
        raise_if (not (os.is_file cert) || not (os.is_file key))
            (runtime_error "The selected Gateway TLS certificate files are missing")
        if str_eq transport "tls" then returned tls else (do
          websocket ← gateway_websocket payload
          returned (concat (websocket ∷ ";" ∷ tls ∷ []))))
