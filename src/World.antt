-- ===== src/World.antt =====
-- What the Hub's services take as arguments from outside the database.
use dark_noc.Base.{ℕ, String, Bool, Option, List, map}
use dark_noc.Deployments.{Plugin}
use dark_noc.Deployments.Payload.{Encoding}
use dark_noc.Guards.Sessions.{User}
use dark_noc.Python.{Python}
use dark_noc.Registry.Catalog.{Placed}
use dark_noc.Registry.Entries.{catalog_entry}

-- What the program takes from outside: Python, cryptography, DNS, SQLite's LIKE, and settings.
pub record World : Type 0 where
  pub py : Python
  pub encrypt : Option String → Option String
  pub decrypt : Option String → Option (Option String)
  pub token_hash : String → String
  pub canonicalize_host : String → String
  pub validate_host : String → Option String
  pub normalize_ip : Option String → String
  pub getaddrinfo : String → Option (List String)
  pub like : String → String → Bool
  pub token_urlsafe : ℕ → String
  pub version : String
  pub node_stale_after : ℕ
  pub hub_lease_seconds : ℕ
  pub monitor_result_retention_days : ℕ
  -- what `load_plugin_catalog` has returned
  pub manifests : List Placed
  pub encoding : Encoding
  -- ipaddress.ip_address(s).version == 4, false for a ValueError
  pub is_ipv4 : String → Bool
  -- ipaddress.ip_address(text).compressed, `none` for a ValueError
  pub ip_address : String → Option String
  -- ipaddress.ip_address of a peer: `none` for a ValueError, `some none` for a loopback or
  -- unspecified address, and else the address, where an IPv4-mapped one is the IPv4 address
  pub peer_address : String → Option (Option String)
  -- the table of users, which no request changes
  pub users : List User
  -- verify_password(password, password_hash)
  pub verify_password : String → String → Bool

-- PLUGIN_CATALOG
abbrev pub catalog_of : World → List Plugin
catalog_of w = map catalog_entry w.manifests
