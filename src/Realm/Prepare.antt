-- ===== src/Realm/Prepare.antt =====
-- `prepare_realm_settings` and `realm_pair_code` of hub/realm_support.py, from their parts.
use dark_noc.Base.{
  if◌then◌else◌, concat, ℕ, String, Bool, not, ◌&&◌, Option, none, some, List, [], ◌∷◌, map, str_eq,
}
use dark_noc.Base.Json.{Json, bool, num, str, arr, Dict, end, field, get, nums, texts, is_truthy}
use dark_noc.Base.Text.{join, decimal}
use dark_noc.Fallible.{returned, raised, raise_if, ◌>>=◌, ◌>>◌}
use dark_noc.Store.Tx.{Error}
use dark_noc.Store.Lift.{Checked}
use dark_noc.Certificates.{CertificateSettings}
use dark_noc.Deployments.Managed.{gateway_host}
use dark_noc.Fleet.Payload.{is_among}
use dark_noc.Python.{Python}
use dark_noc.Realm.Agent.{text_at}
use dark_noc.Realm.Names.{match_alpn, validate_host}
use dark_noc.Realm.Settings.{
  realm_transports, realm_profiles, profile_name, Tls, WebSocket, public_of, certified, number_at,
  mappings_of, tls_of, websocket_of,
}

-- What `prepare_realm_settings` has computed when it builds its result.
pub record Prepared : Type 0 where
  pub transport : String
  pub profile : String
  pub mappings : List String
  pub target_host : String
  pub alpn : String
  pub tunnel_port : ℕ
  pub created_at : ℕ
  pub tls : Tls
  pub websocket : WebSocket

module _ (py : Python) where
  unfoldable pub prepared_settings : Dict → Prepared → Dict
  prepared_settings values p = field "plugin_id" (str "dark-realm") (
      field "name" (str (text_at py "name" "" values)) (
        field "endpoint" (str p.tls.gateway) (
          field "gateway_host" (str p.tls.gateway) (
            field "target_host" (str p.target_host) (
              field "tunnel_port" (num p.tunnel_port) (
                field "user_ports" (arr (nums (map public_of p.mappings))) (
                  field "port_mappings" (arr (texts p.mappings)) (
                    field "maps" (str (join "," p.mappings)) (
                      field "transport" (str p.transport) (
                        field "profile" (str p.profile) (
                          field "restart_every" (str (text_at py "restart_every" "off" values)) (
                            field "tls_domain" (str p.tls.tls_domain) (
                              field "tls_insecure" (bool p.tls.tls_insecure) (
                                field "sni" (str p.tls.sni) (
                                  field "alpn" (str p.alpn) (
                                    field "ws_host" (str p.websocket.ws_host) (
                                      field "ws_path" (str p.websocket.ws_path) (
                                        field "ws_mask" (str p.websocket.ws_mask) (
                                          field "created_at" (num p.created_at)
                                            end)))))))))))))))))))

  -- `time` is what time.time() gives.
  unfoldable pub prepare_parts :
      (String → Option String)
      → ℕ
      → Dict
      → String
      → Option CertificateSettings
      → Bool
      → Checked Prepared
  prepare_parts ip_address time values gateway_host certificate pair_mode = do
    let transport = py.casefold (text_at py "transport" "tcp" values)
    let profile = py.casefold (text_at py "profile" "balanced" values)
    raise_if (not (is_among transport realm_transports))
        (Error.http 422 "DARK Realm supports TCP, TLS, WS and WSS")
    raise_if (not (is_among profile realm_profiles))
        (Error.http 422 "Unsupported DARK Realm performance profile")
    mappings ← mappings_of py values
    gateway ← validate_host py ip_address gateway_host "Gateway host"
    target_host ←
        validate_host py ip_address (text_at py "target_host" "127.0.0.1" values) "target host"
    let alpn = py.strip (text_at py "alpn" "" values)
    raise_if (not (str_eq alpn "") && not (match_alpn alpn))
        (Error.http 422 "Invalid Realm ALPN list")
    tls ← tls_of py certificate pair_mode transport values gateway
    websocket ← websocket_of py transport values tls
    tunnel_port ← number_at py "tunnel_port" 3080 values
    created_at ← number_at py "created_at" time values
    returned (record {
      transport = transport;
      profile = profile_name profile;
      mappings = mappings;
      target_host = target_host;
      alpn = alpn;
      tunnel_port = tunnel_port;
      created_at = created_at;
      tls = tls;
      websocket = websocket;
    })

  unfoldable pub prepare_realm_settings :
      (String → Option String)
      → ℕ
      → Dict
      → String
      → Option CertificateSettings
      → Bool
      → Checked Dict
  prepare_realm_settings ip_address time values gateway_host certificate pair_mode = do
    p ← prepare_parts ip_address time values gateway_host certificate pair_mode
    returned (certified certificate (prepared_settings values p))

  -- f"{key}={text}", where `settings[key]` is a KeyError if the key is missing
  abbrev pub line : String → String → String
  line key text = concat (key ∷ "=" ∷ text ∷ [])

  abbrev pub item_text : Option Json → Checked String
  item_text none = raised Error.crash
  item_text (some v) = returned (py.text v)

  abbrev pub pair_profile : Dict → String
  pair_profile settings = elim (get "profile" settings) [
    | some (str s) ↦
        if str_eq s "lowping" then "low_ping" else text_at py "profile" "balanced" settings
    | _ ↦ text_at py "profile" "balanced" settings
  ]

  -- `encode` is the unpadded URL-safe base64 of the UTF-8 text, `digest` its SHA-256 in hexadecimal
  unfoldable pub realm_pair_code : (String → String) → (String → String) → ℕ → Dict → Checked String
  realm_pair_code encode digest time settings = do
    name ← item_text (get "name" settings)
    gateway ← item_text (get "gateway_host" settings)
    transport ← item_text (get "transport" settings)
    maps ← item_text (get "maps" settings)
    created ← number_at py "created_at" time settings
    let payload = join "\n" (
        "schema=1"
        ∷ line "name" name
        ∷ line "gateway" gateway
        ∷ line "target" (text_at py "target_host" "127.0.0.1" settings)
        ∷ line "transport" transport
        ∷ line "profile" (pair_profile settings)
        ∷ line "maps" maps
        ∷ line "tls_domain" (text_at py "tls_domain" "" settings)
        ∷ line "tls_insecure" (if is_truthy (get "tls_insecure" settings) then "1" else "0")
        ∷ line "sni" (text_at py "sni" "" settings)
        ∷ line "alpn" (text_at py "alpn" "" settings)
        ∷ line "ws_host" (text_at py "ws_host" "" settings)
        ∷ line "ws_path" (text_at py "ws_path" "" settings)
        ∷ line "ws_mask" (text_at py "ws_mask" "skipped" settings)
        ∷ line "created" (decimal created)
        ∷ [])
    returned (concat ("DR1." ∷ encode payload ∷ "." ∷ digest payload ∷ []))
