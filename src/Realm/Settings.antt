-- ===== src/Realm/Settings.antt =====
-- The settings of a Realm tunnel: `prepare_realm_settings` and `realm_pair_code` of
-- hub/realm_support.py.
use dark_noc.Base.{
  if◌then◌else◌, is_some, ℕ, String, Bool, false, not, ◌&&◌, ◌||◌, Option, none, some, List, [],
  ◌∷◌, str_eq,
}
use dark_noc.Base.Json.{
  Json, str, arr, obj, Items, nil, cons, Dict, end, field, get, merge, texts, is_truthy,
}
use dark_noc.Base.Text.{codes, chars, digits, value}
use dark_noc.Fallible.{returned, raised, raise_if, need, ◌>>=◌, ◌>>◌}
use dark_noc.Store.Tx.{Error}
use dark_noc.Store.Lift.{Checked}
use dark_noc.Certificates.{CertificateSettings}
use dark_noc.Deployments.Managed.{certificate_fields}
use dark_noc.Fleet.Payload.{is_among}
use dark_noc.Job.Outcomes.{default}
use dark_noc.Python.{Python}
use dark_noc.Realm.Agent.{text_at}
use dark_noc.Realm.Mappings.{canonical_realm_mappings}
use dark_noc.Realm.Names.{match_ws_path, validate_domain}

abbrev pub realm_transports : List String
realm_transports = "tcp" ∷ "tls" ∷ "ws" ∷ "wss" ∷ []

abbrev pub realm_profiles : List String
realm_profiles = "stable" ∷ "balanced" ∷ "lowping" ∷ "low_ping" ∷ "turbo" ∷ []

abbrev pub ws_masks : List String
ws_masks = "skipped" ∷ "fixed" ∷ "standard" ∷ []

abbrev pub uses_tls : String → Bool
uses_tls transport = is_among transport ("tls" ∷ "wss" ∷ [])

abbrev pub uses_websocket : String → Bool
uses_websocket transport = is_among transport ("ws" ∷ "wss" ∷ [])

-- "lowping" if profile == "low_ping" else profile
abbrev pub profile_name : String → String
profile_name profile = if str_eq profile "low_ping" then "lowping" else profile

-- endpoint, tls_domain, sni and tls_insecure
pub record Tls : Type 0 where
  pub gateway : String
  pub tls_domain : String
  pub sni : String
  pub tls_insecure : Bool

pub record WebSocket : Type 0 where
  pub ws_host : String
  pub ws_path : String
  pub ws_mask : String

abbrev pub a_text_else : String → String → String
a_text_else s d = if str_eq s "" then d else s

-- the port before ">" of a mapping
unfoldable pub public_of : String → ℕ
public_of spec = value 0 (digits (codes spec))

-- `**dict(certificate)`: the certificate's fields replace those of the same names
abbrev pub certified : Option CertificateSettings → Dict → Dict
certified none settings = settings
certified (some c) settings = merge settings (certificate_fields c)

module _ (py : Python) where
  abbrev pub crash_on_none : {A : Type 0} → Option A → Checked A
  crash_on_none o = need o Error.crash

  -- int(values.get(key) or default)
  abbrev pub int_of : Option Json → Checked ℕ
  int_of none = raised Error.crash
  int_of (some v) = crash_on_none (py.int v)

  unfoldable pub number_at : String → ℕ → Dict → Checked ℕ
  number_at key default values =
      if is_truthy (get key values) then int_of (get key values) else returned default

  -- [int(item) for item in items]
  unfoldable pub ints : Items → Checked (List ℕ)
  ints nil = returned []
  ints (cons v items) = do n ← crash_on_none (py.int v); ns ← ints items; returned (n ∷ ns)

  -- [str(item) for item in items]
  unfoldable pub texts_of : Items → List String
  texts_of nil = []
  texts_of (cons v items) = py.text v ∷ texts_of items

  -- what iterating over a value yields: the items of a list, the keys of an object, the
  -- characters of a text; a number cannot be iterated over
  unfoldable pub keys : Dict → Items
  keys end = nil
  keys (field k v d) = cons (str k) (keys d)

  abbrev pub iterated : Option Json → Checked Items
  iterated (some (arr items)) = returned items
  iterated (some (obj d)) = returned (keys d)
  iterated (some (str s)) = returned (texts (chars s))
  iterated _ = raised Error.crash

  -- values.get(key) or []
  unfoldable pub items_at : String → Dict → Checked Items
  items_at key values =
      if is_truthy (get key values) then iterated (get key values) else returned nil

  unfoldable pub mappings_of : Dict → Checked (List String)
  mappings_of values = do
    port_items ← items_at "user_ports" values
    user_ports ← ints port_items
    tunnel_port ← number_at "tunnel_port" 3080 values
    explicit ← items_at "port_mappings" values
    canonical_realm_mappings py user_ports tunnel_port (texts_of explicit) 256

  -- if transport in {"tls", "wss"}: …
  abbrev pub tls_source : Option CertificateSettings → Dict → String → Checked Tls
  tls_source (some c) values gateway = do
    tls_domain ← validate_domain py c.certificate_domain "certificate domain"
    returned (record {
      gateway = if str_eq (py.casefold gateway) tls_domain then gateway else tls_domain;
      tls_domain = tls_domain;
      sni = "";
      tls_insecure = false;
    })
  tls_source none values gateway = do
    tls_domain ← validate_domain py (text_at py "tls_domain" gateway values) "TLS domain"
    returned (record {
      gateway = gateway;
      tls_domain = tls_domain;
      sni = "";
      tls_insecure = is_truthy (get "tls_insecure" values);
    })

  unfoldable pub tls_of : Option CertificateSettings → Bool → String → Dict → String → Checked Tls
  tls_of certificate pair_mode transport values gateway =
      if uses_tls transport
      then (do
        tls ← tls_source certificate values gateway
        sni ← validate_domain py (text_at py "sni" tls.tls_domain values) "SNI"
        raise_if (not pair_mode && not (is_some certificate)) (
            Error.http 422
              "Managed Realm TLS/WSS requires a valid Gateway certificate from TLS Vault")
        returned (record {
          gateway = tls.gateway;
          tls_domain = tls.tls_domain;
          sni = sni;
          tls_insecure = tls.tls_insecure;
        }))
      else returned (record { gateway = gateway; tls_domain = ""; sni = ""; tls_insecure = false })

  -- if transport in {"ws", "wss"}: …
  unfoldable pub websocket_of : String → Dict → Tls → Checked WebSocket
  websocket_of transport values tls =
      if uses_websocket transport
      then (do
        ws_host ←
            validate_domain py
              (text_at py "ws_host" (a_text_else tls.tls_domain tls.gateway) values)
              "WebSocket Host"
        let ws_path = py.strip (text_at py "ws_path" "/dark-realm" values)
        raise_if (not (match_ws_path (codes ws_path)) || py.contains ".." ws_path) (
            Error.http 422
              "Realm WebSocket Path must start with / and contain only safe URL characters")
        let ws_mask = py.casefold (text_at py "ws_mask" "skipped" values)
        raise_if (not (is_among ws_mask ws_masks))
            (Error.http 422 "Realm WebSocket mask must be skipped, fixed or standard")
        returned (record { ws_host = ws_host; ws_path = ws_path; ws_mask = ws_mask }))
      else returned (record { ws_host = ""; ws_path = ""; ws_mask = "skipped" })
