-- ===== src/Realm.antt =====
-- DARK Realm tunnels: the Hub's settings of hub/realm_support.py, and the configuration that
-- agent/realm_plugin.py makes of them.
pub mod Mappings
pub mod Names
pub mod Settings
pub mod Prepare
pub mod Agent
pub mod RoundTrip
pub mod Accepted
pub mod Reread
pub mod Contract
pub mod Config
pub mod Render
pub mod Listening
pub mod Verified
