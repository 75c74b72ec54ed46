-- ===== src/Registry/Entries.antt =====
-- The catalog as the deployments use it: the parts of a normalised manifest that they read.
use dark_noc.Base.{some}
use dark_noc.Base.Json.{str, Dict, put}
use dark_noc.Deployments.{Plugin}
use dark_noc.Registry.Catalog.{Placed}
use dark_noc.Registry.Manifest.{Manifest}

-- {**runtime, …} of `validate_plugin_manifest`
unfoldable pub normalized_runtime : Manifest → Dict
normalized_runtime m = put "certificate_role" (str m.runtime.certificate_role) (
    put "certificate_side" (str m.runtime.certificate_side) (
      put "managed_endpoint" (str m.runtime.managed_endpoint) (
        put "pair_endpoint" (str m.runtime.pair_endpoint) (
          put "pair_codec" (str m.runtime.pair_codec) (
            put "service_prefix" (str m.runtime.service_prefix)
              (put "settings_profile" (str m.runtime.settings_profile) m.raw_runtime))))))

unfoldable pub catalog_entry : Placed → Plugin
catalog_entry p = record {
  id = p.manifest.plugin_id;
  name = p.manifest.name;
  transports = p.manifest.transports;
  profiles = p.manifest.profiles;
  iran_role = p.manifest.iran_role;
  kharej_role = p.manifest.kharej_role;
  runtime = some (normalized_runtime p.manifest);
}
