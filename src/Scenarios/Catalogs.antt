-- ===== src/Scenarios/Catalogs.antt =====
-- The theorem on the plugin catalog at a directory with two manifests.
use dark_noc.Base.{any_row, String, ◌≡◌, refl, true, false, some, List, [], ◌∷◌, map}
use dark_noc.Base.Json.{Json, bool, num, str, arr, obj, nil, cons, Dict, end, field, get, is_truthy}
use dark_noc.Base.Text.{codes, all_codes, any_code}
use dark_noc.Fallible.{returned, raised, ◌>>=◌}
use dark_noc.Python.{Python}
use dark_noc.Realm.Agent.{text_at}
use dark_noc.Realm.Names.{last_is}
use dark_noc.Registry.Catalog.{
  File, refuse_seen, Placed, is_before, insert_placed, sort_placed, load_files, place,
  load_plugin_catalog,
}
use dark_noc.Registry.Manifest.{
  only_sides, any_missing, not_boolean, read_ui, read_runtime, validate_plugin_manifest,
}
use dark_noc.Registry.Sorted.{IsCatalog, load_plugin_catalog-IsCatalog}
use dark_noc.Registry.Text.{
  Read, match_plugin_id, match_inventory_key, all_but_last, match_service_prefix, has_twice,
  read_text, read_texts, count_items, string_list, read_choice, read_match,
}
use dark_noc.Samples.{sample_py}

abbrev reading_py : Python
reading_py = record sample_py { starts = λ a b. true }

abbrev manifest_ui : String → String → Dict
manifest_ui method key = field "icon" (str "D") (
    field "method" (str method)
      (field "inventory_key" (str key) (field "form_profile" (str "standard") end)))

abbrev manifest_runtime : String → Dict
manifest_runtime prefix = field "settings_profile" (str "standard") (
    field "service_prefix" (str prefix) (
      field "pair_codec" (str "generic-v1") (
        field "pair_code" (bool true) (
          field "pair_endpoint_ipv4" (bool false) (
            field "allow_tunnel_port_overlap" (bool false) (
              field "iran_endpoint_must_match_node" (bool false)
                (field "pair_hides_certificate" (bool false) end)))))))

abbrev manifest_json : String → String → String → String → Dict → Json
manifest_json plugin_id method key prefix more = obj (
    field "schema_version" (num 1) (
      field "id" (str plugin_id) (
        field "name" (str method) (
          field "version" (str "1.0") (
            field "publisher" (str "DARK") (
              field "repository" (str "https://github.com/dark/tunnel") (
                field "description" (str "a tunnel") (
                  field "roles"
                    (obj (field "iran" (str "server") (field "kharej" (str "client") end)))
                    (field "transports" (arr (cons (str "tcp") nil)) (
                      field "profiles" (arr (cons (str "balanced") nil)) (
                        field "automated" (bool true) (
                          field "ui" (obj (manifest_ui method key))
                            (field "runtime" (obj (manifest_runtime prefix)) more)))))))))))))

abbrev directory : List File
directory =
    record {
      path_name = "backhaul.json";
      content = some (manifest_json "dark-backhaul" "DARK Backhaul" "backhaul" "backhaul-" end);
    }
    ∷ record {
      path_name = "realm.json";
      content = some (
          manifest_json "dark-realm" "DARK Realm" "realm" "dark-realm@"
            (field "order" (num 10) end));
    }
    ∷ []

-- the ids of a catalog that loaded
abbrev ids : Read (List Placed) → List String
ids (returned ps) = map (λ (p : Placed). p.manifest.plugin_id) ps
ids (raised e) = []

abbrev placed_of : Read (List Placed) → List Placed
placed_of (returned ps) = ps
placed_of (raised e) = []

catalog : List Placed
unfolding load_plugin_catalog load_files validate_plugin_manifest read_ui read_runtime read_text
    read_texts string_list read_choice read_match match_plugin_id match_inventory_key
    match_service_prefix all_but_last last_is all_codes any_code codes get has_twice only_sides
    any_missing not_boolean count_items refuse_seen place sort_placed insert_placed is_before
    text_at is_truthy any_row ◌>>=◌
catalog = placed_of (load_plugin_catalog reading_py (some directory))

loads_two : load_plugin_catalog reading_py (some directory) ≡ returned catalog
unfolding catalog
loads_two = refl

sorted_ids : ids (returned catalog) ≡ "dark-realm" ∷ "dark-backhaul" ∷ []
unfolding catalog
sorted_ids = refl

load_plugin_catalog-IsCatalog_example : IsCatalog catalog
load_plugin_catalog-IsCatalog_example =
    load_plugin_catalog-IsCatalog reading_py (some directory) catalog loads_two
