-- ===== src/Registry/Manifest.antt =====
-- A plugin manifest: `validate_plugin_manifest` of hub/plugin_registry.py. A record for each part
-- holds what the source normalises; `source` is the name of the manifest's file.
use dark_noc.Base.{
  ◌==◌, if◌then◌else◌, is_some, String, str_append, Bool, true, false, not, ◌&&◌, ◌||◌, Option,
  none, some, List, [], ◌∷◌, str_eq,
}
use dark_noc.Base.Json.{Json, bool, num, str, arr, obj, nil, Dict, end, field, get}
use dark_noc.Fallible.{returned, need, ◌>>=◌, ◌>>◌}
use dark_noc.Fleet.Payload.{is_among}
use dark_noc.Python.{Python}
use dark_noc.Realm.Agent.{text_at}
use dark_noc.Registry.Text.{
  registry_error, Read, refuse, refuse_if, match_plugin_id, match_inventory_key,
  match_service_prefix, has_twice, get_or, read_text, read_texts, list_of, string_list, read_choice,
  read_match,
}

pub record Ui : Type 0 where
  pub icon : String
  pub method : String
  pub inventory_key : String
  pub form_profile : String
  pub tls_transports : List String
  pub endpoint_default_side : String
  pub iran_role_label : String

pub record Runtime : Type 0 where
  pub settings_profile : String
  pub service_prefix : String
  pub pair_codec : String
  pub pair_endpoint : String
  pub managed_endpoint : String
  pub certificate_side : String
  pub certificate_role : String

pub record Manifest : Type 0 where
  pub plugin_id : String
  pub name : String
  pub version : String
  pub publisher : String
  pub repository : String
  pub description : String
  pub iran_role : String
  pub kharej_role : String
  pub transports : List String
  pub profiles : List String
  pub automated : Bool
  pub ui : Ui
  pub runtime : Runtime
  pub raw : Dict
  pub raw_ui : Dict
  pub raw_runtime : Dict

abbrev pub allowed_roles : List String
allowed_roles = "server" ∷ "client" ∷ "edge" ∷ "gateway" ∷ []

-- ALLOWED_FORM_PROFILES and ALLOWED_SETTINGS_PROFILES
abbrev pub allowed_profiles : List String
allowed_profiles = "standard" ∷ "packet" ∷ "realm" ∷ "generic" ∷ []

abbrev pub allowed_pair_codecs : List String
allowed_pair_codecs = "backhaul" ∷ "ghostpro" ∷ "packetpro" ∷ "realm" ∷ "generic-v1" ∷ []

abbrev pub allowed_endpoint_sides : List String
allowed_endpoint_sides = "iran" ∷ "kharej" ∷ []

abbrev pub allowed_managed_endpoints : List String
allowed_managed_endpoints = "iran" ∷ "kharej" ∷ "kharej_public_ipv4" ∷ []

abbrev pub allowed_certificate_sides : List String
allowed_certificate_sides = "iran" ∷ "kharej" ∷ "none" ∷ []

abbrev pub dict_of : Option Json → Option Dict
dict_of (some (obj d)) = some d
dict_of _ = none

-- raw.get("schema_version") == 1, where True equals 1 too
abbrev pub is_schema_1 : Option Json → Bool
is_schema_1 (some (num n)) = n == 1
is_schema_1 (some (bool b)) = b
is_schema_1 _ = false

abbrev pub bool_of : Option Json → Option Bool
bool_of (some (bool b)) = some b
bool_of _ = none

-- set(roles) == {"iran", "kharej"}
unfoldable pub only_sides : Dict → Bool
only_sides end = true
only_sides (field k v d) = is_among k ("iran" ∷ "kharej" ∷ []) && only_sides d

abbrev pub has_sides : Dict → Bool
has_sides roles = is_some (get "iran" roles) && is_some (get "kharej" roles) && only_sides roles

-- any(item not in transports for item in normalized_tls)
unfoldable pub any_missing : List String → List String → Bool
any_missing words [] = false
any_missing words (s ∷ ss) = not (is_among s words) || any_missing words ss

-- the first of the names whose value is no boolean
unfoldable pub not_boolean : Dict → List String → Option String
not_boolean d [] = none
not_boolean d (name ∷ names) =
    if is_some (bool_of (get name d)) then not_boolean d names else some name

abbrev pub boolean_names : List String
boolean_names =
    "pair_code" ∷ "pair_endpoint_ipv4" ∷ "allow_tunnel_port_overlap"
    ∷ "iran_endpoint_must_match_node" ∷ "pair_hides_certificate" ∷ []

module _ (py : Python) (source : String) where
  abbrev pub named : String → String
  named key = str_append source key

  -- for boolean_name in (…): if it is no boolean, raise
  abbrev pub refuse_flag : Option String → Read (Unit {0})
  refuse_flag none = returned tt
  refuse_flag (some flag) = refuse (source ∷ ": runtime." ∷ flag ∷ " must be boolean" ∷ [])

  unfoldable pub read_ui : List String → Dict → Read Ui
  read_ui transports ui = do
    icon ← read_text py (get "icon" ui) (named ".ui.icon") 4
    method ← read_text py (get "method" ui) (named ".ui.method") 96
    inventory_key ←
        read_match py match_inventory_key (get "inventory_key" ui) (named ".ui.inventory_key") 64
          (source ∷ ": inventory_key is invalid" ∷ [])
    form_profile ←
        read_choice py allowed_profiles (get "form_profile" ui) (named ".ui.form_profile") 24
          (source ∷ ": unsupported form_profile" ∷ [])
    tls_items ←
        need (list_of py (get_or (arr nil) (get "tls_transports" ui)))
          (registry_error (named ": ui.tls_transports must be a list"))
    tls_transports ← read_texts py (named ".ui.tls_transports") tls_items
    refuse_if (has_twice tls_transports || any_missing transports tls_transports)
        (source ∷ ": ui.tls_transports must be unique supported transports" ∷ [])
    endpoint_default_side ←
        read_choice py allowed_endpoint_sides (get_or (str "iran") (get "endpoint_default_side" ui))
          (named ".ui.endpoint_default_side") 16
          (source ∷ ": unsupported endpoint_default_side" ∷ [])
    iran_role_label ←
        read_text py (get_or (str "IRAN side") (get "iran_role_label" ui))
          (named ".ui.iran_role_label") 128
    returned (record {
      icon = icon;
      method = method;
      inventory_key = inventory_key;
      form_profile = form_profile;
      tls_transports = tls_transports;
      endpoint_default_side = endpoint_default_side;
      iran_role_label = iran_role_label;
    })

  unfoldable pub read_runtime : Dict → Read Runtime
  read_runtime runtime = do
    settings_profile ←
        read_choice py allowed_profiles (get "settings_profile" runtime)
          (named ".runtime.settings_profile") 24 (source ∷ ": unsupported settings_profile" ∷ [])
    service_prefix ←
        read_match py match_service_prefix (get "service_prefix" runtime)
          (named ".runtime.service_prefix") 96
          (source ∷ ": service_prefix must end in @ or - and use safe service-name characters" ∷ [])
    pair_codec ←
        read_choice py allowed_pair_codecs (get "pair_codec" runtime) (named ".runtime.pair_codec")
          24 (source ∷ ": unsupported pair_codec" ∷ [])
    pair_endpoint ←
        read_choice py allowed_endpoint_sides (get_or (str "iran") (get "pair_endpoint" runtime))
          (named ".runtime.pair_endpoint") 16 (source ∷ ": unsupported pair_endpoint" ∷ [])
    managed_endpoint ←
        read_choice py allowed_managed_endpoints
          (get_or (str "iran") (get "managed_endpoint" runtime)) (named ".runtime.managed_endpoint")
          32 (source ∷ ": unsupported managed_endpoint" ∷ [])
    certificate_side ←
        read_choice py allowed_certificate_sides
          (get_or (str "none") (get "certificate_side" runtime)) (named ".runtime.certificate_side")
          16 (source ∷ ": unsupported certificate_side" ∷ [])
    let certificate_role = py.strip (text_at py "certificate_role" "" runtime)
    refuse_if (not (str_eq certificate_role "") && not (is_among certificate_role allowed_roles))
        (source ∷ ": unsupported certificate_role" ∷ [])
    refuse_flag (not_boolean runtime boolean_names)
    returned (record {
      settings_profile = settings_profile;
      service_prefix = service_prefix;
      pair_codec = pair_codec;
      pair_endpoint = pair_endpoint;
      managed_endpoint = managed_endpoint;
      certificate_side = certificate_side;
      certificate_role = certificate_role;
    })

  unfoldable pub validate_plugin_manifest : Json → Read Manifest
  validate_plugin_manifest manifest = do
    raw ← need (dict_of (some manifest)) (registry_error (named ": manifest must be an object"))
    refuse_if (not (is_schema_1 (get "schema_version" raw)))
        (source ∷ ": unsupported schema_version" ∷ [])
    plugin_id ←
        read_match py match_plugin_id (get "id" raw) (named ".id") 64
          (source ∷ ": id must use lowercase letters, digits and hyphens" ∷ [])
    name ← read_text py (get "name" raw) (named ".name") 96
    version ← read_text py (get "version" raw) (named ".version") 48
    publisher ← read_text py (get "publisher" raw) (named ".publisher") 96
    repository ← read_text py (get "repository" raw) (named ".repository") 256
    refuse_if (not (py.starts "https://github.com/" repository))
        (source ∷ ": repository must be an HTTPS GitHub URL" ∷ [])
    description ← read_text py (get "description" raw) (named ".description") 512
    roles ←
        need (dict_of (get "roles" raw))
          (registry_error (named ": roles must define exactly iran and kharej"))
    refuse_if (not (has_sides roles)) (source ∷ ": roles must define exactly iran and kharej" ∷ [])
    iran_role ← read_text py (get "iran" roles) (named ".roles.iran") 24
    kharej_role ← read_text py (get "kharej" roles) (named ".roles.kharej") 24
    refuse_if (not (is_among iran_role allowed_roles) || not (is_among kharej_role allowed_roles))
        (source ∷ ": unsupported runtime role" ∷ [])
    transports ← string_list py (get "transports" raw) (named ".transports")
    profiles ← string_list py (get "profiles" raw) (named ".profiles")
    automated ←
        need (bool_of (get "automated" raw)) (registry_error (named ": automated must be boolean"))
    raw_ui ← need (dict_of (get "ui" raw)) (registry_error (named ": ui must be an object"))
    ui ← read_ui transports raw_ui
    raw_runtime ←
        need (dict_of (get "runtime" raw)) (registry_error (named ": runtime must be an object"))
    runtime ← read_runtime raw_runtime
    returned (record {
      plugin_id = plugin_id;
      name = name;
      version = version;
      publisher = publisher;
      repository = repository;
      description = description;
      iran_role = iran_role;
      kharej_role = kharej_role;
      transports = transports;
      profiles = profiles;
      automated = automated;
      ui = ui;
      runtime = runtime;
      raw = raw;
      raw_ui = raw_ui;
      raw_runtime = raw_runtime;
    })
