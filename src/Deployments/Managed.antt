-- ===== src/Deployments/Managed.antt =====
-- The settings of a managed deployment: the validation helpers of hub/plugin_deployment_service.py
-- and what `deploy_managed_mutation` puts into the settings.
use dark_noc.Base.{
  ltb, ◌==◌, if◌then◌else◌, is_some, concat, text_else, first_row, order_by, ℕ, String, Bool, true,
  false, not, ◌&&◌, ◌||◌, Option, none, some, List, [], ◌∷◌, str_eq,
}
use dark_noc.Base.Json.{num, str, Dict, end, field, get, put, merge, one, text_or, is_truthy}
use dark_noc.Store.Schema.{Role, Node, Lifecycle}
use dark_noc.Store.Table.{Row}
use dark_noc.Store.Tx.{◌>>=◌, ◌>>◌, Error, Tx, pure, throw, found, reject_if, utc_ts}
use dark_noc.Store.Lift.{Checked, lift}
use dark_noc.Certificates.{CertificateSettings, certificate_for_deployment}
use dark_noc.Deployments.{Plugin}
use dark_noc.Fleet.Create.{distinct}
use dark_noc.Fleet.Payload.{is_among}
use dark_noc.Python.{Python}
use dark_noc.Realm.Mappings.{port}

pub record PluginDeployBody : Type 0 where
  pub name : String
  pub iran_node_id : ℕ
  pub kharej_node_id : ℕ
  pub iran_endpoint : String
  pub tunnel_port : ℕ
  pub user_ports : List ℕ
  pub transport : String
  pub profile : String
  pub restart_every : String
  pub certificate_id : Option ℕ
  -- target_host, port_mappings, tls_domain, tls_insecure, sni, alpn, ws_host, ws_path and ws_mask
  pub realm_fields : Dict

-- _catalog_item, _runtime_settings and _validate_catalog_choices
unfoldable pub catalog_item : List Plugin → String → Tx Plugin
catalog_item plugin_catalog plugin_id =
    found (first_row (λ (p : Plugin). str_eq p.id plugin_id) plugin_catalog) 404 "Plugin not found"

unfoldable pub runtime_settings : Plugin → Tx Dict
runtime_settings catalog = found catalog.runtime 500 "Plugin runtime metadata is invalid"

unfoldable pub validate_catalog_choices : Plugin → String → String → Tx (Unit {0})
validate_catalog_choices catalog transport profile = do
  reject_if (not (is_among transport catalog.transports)) 422
      (concat ("Unsupported " ∷ catalog.name ∷ " transport" ∷ []))
  reject_if (not (is_among profile catalog.profiles)) 422
      (concat ("Unsupported " ∷ catalog.name ∷ " performance profile" ∷ []))

-- sorted(set(body.user_ports))
abbrev pub sorted_ports : List ℕ → List ℕ
sorted_ports ports = order_by (λ p. p) (distinct ports)

-- port < 1 or port > 65535 or (not allow_overlap and port == body.tunnel_port)
abbrev pub is_bad_port : Bool → ℕ → ℕ → Bool
is_bad_port allow_overlap tunnel_port port =
    ltb port 1 || ltb 65535 port || (not allow_overlap && port == tunnel_port)

abbrev pub certificate_fields : CertificateSettings → Dict
certificate_fields c = field "certificate_id" (num c.certificate_id) (
    field "certificate_domain" (str c.certificate_domain) (
      field "certificate_path" (one c.certificate_path str)
        (field "certificate_key_path" (one c.certificate_key_path str) end)))

abbrev pub is_edge : Role → Bool
is_edge Role.edge = true
is_edge _ = false

abbrev pub is_exit : Role → Bool
is_exit Role.exit = true
is_exit _ = false

-- lifecycle IN ('active','removing','rolling_back','rollback_failed')
abbrev pub is_occupying : Lifecycle → Bool
is_occupying Lifecycle.rolled_back = false
is_occupying _ = true

-- str(kharej["observed_ip"] or kharej["host"])
abbrev pub public_host : Row Node → String
public_host n = text_else n.cols.observed_ip n.cols.host

-- "none", "iran" or "kharej"; another side is a 500
pub data CertificateSide : Type 0 where
  no_side iran_side kharej_side wrong_side : CertificateSide

abbrev pub side_of : String → CertificateSide
side_of s =
    if str_eq s "none"
    then no_side
    else if str_eq s "iran"
    then iran_side
    else if str_eq s "kharej"
    then kharej_side
    else wrong_side

module _ (py : Python) where
  abbrev pub same_host : String → String → Bool
  same_host a b = str_eq (py.casefold a) (py.casefold b)

  -- The endpoint that the deployment's runtime asks for.
  unfoldable pub choose_endpoint :
      (Option String → String) → (String → Bool) → Plugin → String → Row Node → Dict → Tx Dict
  choose_endpoint normalize_ip is_ipv4 catalog managed_endpoint kharej common =
      if str_eq managed_endpoint "kharej_public_ipv4"
      then (do
        let packet_endpoint = normalize_ip (some (public_host kharej))
        reject_if (not (is_ipv4 packet_endpoint)) 422
            (concat ("The KHAREJ node needs a detected public IPv4 for " ∷ catalog.name ∷ []))
        pure (put "endpoint" (str packet_endpoint) common))
      else if str_eq managed_endpoint "kharej"
      then pure (put "endpoint" (str (public_host kharej)) common)
      else if str_eq managed_endpoint "iran"
      then pure common
      else throw (Error.http 500 "Plugin managed-endpoint metadata is invalid")

  -- if cert: common.update(cert), and on the Iran side the endpoint is the certificate's domain
  unfoldable pub add_certificate : Option CertificateSettings → Bool → String → Dict → Tx Dict
  add_certificate none is_iran endpoint common = pure common
  add_certificate (some c) is_iran endpoint common = do
    reject_if (is_iran && not (same_host endpoint c.certificate_domain)) 422
        "TLS endpoint must match the selected certificate domain"
    pure (merge common (certificate_fields c))

  unfoldable pub side_certificate :
      CertificateSide → PluginDeployBody → Row Node → Row Node → Tx (Option CertificateSettings)
  side_certificate no_side body iran kharej = pure none
  side_certificate iran_side body iran kharej =
      certificate_for_deployment py body.certificate_id iran.id body.transport
  side_certificate kharej_side body iran kharej =
      certificate_for_deployment py body.certificate_id kharej.id body.transport
  side_certificate wrong_side body iran kharej =
      throw (Error.http 500 "Plugin certificate-side metadata is invalid")

  abbrev pub is_iran_side : CertificateSide → Bool
  is_iran_side iran_side = true
  is_iran_side _ = false

  -- The settings of a plugin that is not Realm.
  unfoldable pub standard_settings : Dict → PluginDeployBody → Row Node → Row Node → Dict → Tx Dict
  standard_settings runtime body iran kharej common = do
    let side = side_of (text_or "none" (get "certificate_side" runtime))
    cert ← side_certificate side body iran kharej
    settings ← add_certificate cert (is_iran_side side) body.iran_endpoint common
    reject_if
        (not (is_some cert)
          && is_truthy (get "iran_endpoint_must_match_node" runtime)
          && not (same_host body.iran_endpoint iran.cols.host))
        422 "Iran endpoint must match the selected Iran node host/IP"
    pure settings

  abbrev pub gateway_host : Option CertificateSettings → Row Node → String
  gateway_host none kharej = public_host kharej
  gateway_host (some c) kharej = c.certificate_domain

  unfoldable pub realm_settings :
      (ℕ → Dict → String → Option CertificateSettings → Bool → Checked Dict)
      → Dict
      → PluginDeployBody
      → Row Node
      → String
      → Dict
      → Tx Dict
  realm_settings prepare_realm_settings runtime body kharej token common = do
    cert ← certificate_for_deployment py body.certificate_id kharej.id body.transport
    time ← utc_ts
    settings ← lift (
        prepare_realm_settings time (merge common body.realm_fields) (gateway_host cert kharej) cert
          false)
    pure (
        put "certificate_role" (str (text_or "gateway" (get "certificate_role" runtime))) (
          put "pair_codec" (str (text_or "realm" (get "pair_codec" runtime)))
            (put "token" (str token) settings)))
