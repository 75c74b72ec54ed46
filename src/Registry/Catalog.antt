-- ===== src/Registry/Catalog.antt =====
-- The catalog of all plugins: `load_plugin_catalog` of hub/plugin_registry.py, and
-- `managed_tunnel_report` of hub/app.py.
use Prim.Native.String.{compare}
use text.Mathlib.Text.{is_lt}
use dark_noc.Base.{
  ltb, ◌==◌, if◌then◌else◌, length, any_row, ℕ, String, str_append, Bool, not, ◌&&◌, ◌||◌, Option,
  none, some, List, [], ◌∷◌, str_eq,
}
use dark_noc.Base.Json.{Json, get}
use dark_noc.Fallible.{returned, need, ◌>>=◌, ◌>>◌}
use dark_noc.Fleet.Payload.{is_among}
use dark_noc.Python.{Python}
use dark_noc.Registry.Manifest.{Manifest, validate_plugin_manifest}
use dark_noc.Registry.Text.{registry_error, not_a_number, Read, refuse_if}

-- A file of the directory; `content` is `none` if it cannot be read or is no JSON.
pub record File : Type 0 where
  pub path_name : String
  pub content : Option Json

-- What the loop has seen.
pub record Seen : Type 0 where
  pub ids : List String
  pub methods : List String
  pub inventory_keys : List String
  pub service_prefixes : List String

abbrev pub nothing_seen : Seen
nothing_seen = record { ids = []; methods = []; inventory_keys = []; service_prefixes = [] }

abbrev pub see : Manifest → Seen → Seen
see m seen_before = record {
  ids = m.plugin_id ∷ seen_before.ids;
  methods = m.ui.method ∷ seen_before.methods;
  inventory_keys = m.ui.inventory_key ∷ seen_before.inventory_keys;
  service_prefixes = m.runtime.service_prefix ∷ seen_before.service_prefixes;
}

unfoldable pub refuse_seen : Manifest → Seen → Read (Unit {0})
refuse_seen m before = do
  refuse_if (is_among m.plugin_id before.ids) ("Duplicate plugin id: " ∷ m.plugin_id ∷ [])
  refuse_if (is_among m.ui.method before.methods)
      ("Duplicate plugin method label: " ∷ m.ui.method ∷ [])
  refuse_if (is_among m.ui.inventory_key before.inventory_keys)
      ("Duplicate plugin inventory key: " ∷ m.ui.inventory_key ∷ [])
  refuse_if (is_among m.runtime.service_prefix before.service_prefixes)
      ("Duplicate plugin service prefix: " ∷ m.runtime.service_prefix ∷ [])

-- A manifest with its place in the catalog: int(item.get("order", 1000)).
pub record Placed : Type 0 where
  pub order : ℕ
  pub manifest : Manifest

-- (order, id) < (order, id), where texts are compared by code points
unfoldable pub is_before : Placed → Placed → Bool
is_before a b =
    ltb a.order b.order
    || (a.order == b.order && is_lt (compare a.manifest.plugin_id b.manifest.plugin_id))

-- manifests.sort: a stable insertion
unfoldable pub insert_placed : Placed → List Placed → List Placed
insert_placed a [] = a ∷ []
insert_placed a (b ∷ bs) = if is_before b a then b ∷ insert_placed a bs else a ∷ b ∷ bs

unfoldable pub sort_placed : List Placed → List Placed
sort_placed [] = []
sort_placed (a ∷ rest) = insert_placed a (sort_placed rest)

module _ (py : Python) where
  unfoldable pub load_files : Seen → List File → Read (List Manifest)
  load_files before [] = returned []
  load_files before (file ∷ files) = do
    raw ← need file.content (registry_error (str_append file.path_name ": cannot read manifest"))
    manifest ← validate_plugin_manifest py file.path_name raw
    refuse_seen manifest before
    rest ← load_files (see manifest before) files
    returned (manifest ∷ rest)

  abbrev pub order_of : Option Json → Read ℕ
  order_of none = returned 1000
  order_of (some v) = need (py.int v) not_a_number

  unfoldable pub place : List Manifest → Read (List Placed)
  place [] = returned []
  place (m ∷ ms) = do
    order ← order_of (get "order" m.raw)
    rest ← place ms
    returned (record { order = order; manifest = m } ∷ rest)

  -- `directory` holds the JSON files in the order of their paths, `none` if it is no directory
  unfoldable pub load_plugin_catalog : Option (List File) → Read (List Placed)
  load_plugin_catalog directory = do
    files ← need directory (registry_error "Plugin manifest directory is missing")
    refuse_if (length files == 0) ("Plugin manifest directory is empty" ∷ [])
    manifests ← load_files nothing_seen files
    placed ← place manifests
    returned (sort_placed placed)

  abbrev pub reports : String → String → Placed → Bool
  reports method service p =
      str_eq method p.manifest.ui.method && py.starts p.manifest.runtime.service_prefix service

  -- `managed_tunnel_report`: service.startswith is `py.starts`
  unfoldable pub managed_tunnel_report : List Placed → String → String → Bool
  managed_tunnel_report catalog method service =
      any_row (λ p. not (str_eq p.manifest.runtime.service_prefix "") && reports method service p)
        catalog
