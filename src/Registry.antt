-- ===== src/Registry.antt =====
-- The plugin registry: the validation of plugin manifests of hub/plugin_registry.py.
pub mod Text
pub mod Manifest
pub mod Catalog
pub mod Entries
pub mod Unique
pub mod Sorted
