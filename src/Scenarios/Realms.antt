-- ===== src/Scenarios/Realms.antt =====
-- The theorems on Realm tunnels at concrete inputs.
use dark_noc.Base.{
  where_rows, any_row, String, ◌≡◌, refl, Bool, true, false, none, some, List, [], ◌∷◌, arith,
}
use dark_noc.Base.Json.{bool, num, str, arr, nil, cons, Dict, end, field, get, texts, is_truthy}
use dark_noc.Base.Text.{codes, all_codes, any_code, decimal, digits, after_digits, value}
use dark_noc.Fallible.{returned, ◌>>=◌}
use dark_noc.Realm.Agent.{
  required_group, match_full_mapping, agent_port, read_agent_mapping, read_agent_mappings,
  item_texts, text_at, raw_mappings, parse_mappings,
}
use dark_noc.Realm.Config.{Machine, profile_of, agent_host, address, agent_profile, edge_transport}
use dark_noc.Realm.Contract.{Means, parse_mappings-prepare, canonical-again}
use dark_noc.Realm.Listening.{Once, endpoints-Once}
use dark_noc.Realm.Mappings.{
  Mapping, group, optional_group, match_mapping, port, print, seen, read_mapping, read_mappings,
  stripped, canonical_realm_mappings,
}
use dark_noc.Realm.Names.{validate_host}
use dark_noc.Realm.Prepare.{Prepared, prepared_settings, prepare_parts, prepare_realm_settings}
use dark_noc.Realm.Render.{edge_side, Endpoint, endpoint, endpoints}
use dark_noc.Realm.Reread.{IsPython}
use dark_noc.Realm.Settings.{
  Tls, WebSocket, number_at, ints, texts_of, items_at, mappings_of, tls_of, websocket_of,
}
use dark_noc.Realm.Verified.{prepare_realm_settings-verified}
use dark_noc.Samples.{sample_py}

abbrev wanted : Dict
wanted = field "name" (str "eu-1") (
    field "user_ports" (arr (cons (num 443) (cons (num 80) nil)))
      (field "tunnel_port" (num 3080) end))

abbrev plain : Tls
plain = record { gateway = "192.0.2.1"; tls_domain = ""; sni = ""; tls_insecure = false }

abbrev no_websocket : WebSocket
no_websocket = record { ws_host = ""; ws_path = ""; ws_mask = "skipped" }

abbrev parts : Prepared
parts = record {
  transport = "tcp";
  profile = "balanced";
  mappings = "443>443@3080" ∷ "80>80@3081" ∷ [];
  target_host = "127.0.0.1";
  alpn = "";
  tunnel_port = 3080;
  created_at = 1000;
  tls = plain;
  websocket = no_websocket;
}

prepared : Dict
unfolding prepared_settings
prepared = prepared_settings sample_py wanted parts

sample-IsPython : IsPython sample_py
sample-IsPython = record { text_str = λ s. refl; strip_visible = λ s h. refl }

prepares :
    (pair_mode : Bool)
    → prepare_realm_settings sample_py (λ s. some s) 1000 wanted "192.0.2.1" none pair_mode
      ≡ returned prepared
unfolding prepared prepare_realm_settings prepare_parts mappings_of canonical_realm_mappings port
    ints items_at number_at text_at get is_truthy any_row stripped where_rows read_mappings
    read_mapping match_mapping group digits after_digits value codes optional_group decimal print
    seen all_codes validate_host any_code tls_of websocket_of prepared_settings texts_of ◌>>=◌
prepares pair_mode = refl

parse_mappings-prepare_example :
    (specs : List String) × (ms : List Mapping) × (get "port_mappings" prepared
      ≡ some (arr (texts specs)))
    × Means specs ms
    × (parse_mappings sample_py prepared ≡ returned ms)
parse_mappings-prepare_example =
    parse_mappings-prepare sample_py (λ s. some s) 1000 wanted "192.0.2.1" none false
      sample-IsPython prepared (prepares false)

prepare_realm_settings-verified_example : get "tls_insecure" prepared ≡ some (bool false)
prepare_realm_settings-verified_example =
    prepare_realm_settings-verified sample_py (λ s. some s) 1000 wanted "192.0.2.1" none prepared
      (prepares false)

abbrev two_mappings : List Mapping
two_mappings =
    record { public_port = 443; target_port = 443; backbone_port = 3080 }
    ∷ record { public_port = 80; target_port = 8080; backbone_port = 3081 }
    ∷ []

abbrev two_specs : List String
two_specs = "443>443@3080" ∷ "80>8080@3081" ∷ []

two-Means : Means two_specs two_mappings
unfolding print decimal
two-Means = record {
  printed = refl;
  in_range = omega arith;
  publics = omega arith;
  backbones = omega arith;
  count = omega arith;
}

canonical-again_example :
    canonical_realm_mappings sample_py [] 3080 two_specs 256 ≡ returned two_specs
canonical-again_example =
    canonical-again sample_py [] 3080 two_specs two_mappings 256 sample-IsPython (omega arith)
      (omega arith) two-Means

abbrev machine : Machine
machine = record {
  ip_address = λ s. some s;
  is_version_6 = λ s. false;
  isalnum = λ s. true;
  toml = λ s. s;
  path = λ s. s;
  is_file = λ s. true;
  rstrip = λ s. s;
}

abbrev two_tables : List Endpoint
two_tables =
    record { listen = 443; remote = "192.0.2.1:3080"; wrapping = "" }
    ∷ record { listen = 80; remote = "192.0.2.1:3081"; wrapping = "" }
    ∷ []

writes :
    endpoints sample_py machine prepared edge_side ≡ returned (profile_of 5 15 3 "warn", two_tables)
unfolding prepared endpoints agent_host agent_profile edge_transport endpoint parse_mappings
    raw_mappings read_agent_mappings read_agent_mapping match_full_mapping required_group agent_port
    item_texts text_at get is_truthy prepared_settings group digits after_digits value codes
    any_code seen any_row address decimal ◌>>=◌
writes = refl

endpoints-Once_example : Once sample_py two_tables
endpoints-Once_example =
    endpoints-Once sample_py machine prepared edge_side (profile_of 5 15 3 "warn") two_tables writes
