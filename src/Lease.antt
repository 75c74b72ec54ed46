-- ===== src/Lease.antt =====
-- The renewable single-controller lease: `acquire_hub_lease` of hub/maintenance_runtime.py, with
-- the arguments that hub/app.py passes.
pub mod Exclusion
use dark_noc.Base.{ltb, leb, ℕ, ◌+◌, String, Bool, false, ◌&&◌, ◌||◌, Option, none, some, str_eq}
use dark_noc.Store.Schema.{Lease}
use dark_noc.Store.Table.{Row}
use dark_noc.Store.Hub.{hub_leases}
use dark_noc.Store.Tx.{Tx, pure, insert, update, fetch_one, ◌>>=◌, ◌>>◌}
use dark_noc.Incident.{time_or_now}

-- INSERT … ON CONFLICT(name) DO UPDATE … WHERE holder=excluded.holder OR expires_at<?
unfoldable pub upsert_lease : Option (Row Lease) → String → String → ℕ → ℕ → Tx ℕ
upsert_lease none name holder expiry current =
    insert hub_leases
      (record { name = name; holder = holder; expires_at = expiry; updated_at = current })
upsert_lease (some _) name holder expiry current =
    update hub_leases
      (λ l.
        str_eq l.cols.name name && (str_eq l.cols.holder holder || ltb l.cols.expires_at current))
      (λ l. record l { holder = holder; expires_at = expiry; updated_at = current })

-- bool(row and row["holder"] == hub_instance_id and int(row["expires_at"]) >= expiry)
abbrev pub is_granted : Option (Row Lease) → String → ℕ → Bool
is_granted none holder expiry = false
is_granted (some l) holder expiry = str_eq l.cols.holder holder && leb expiry l.cols.expires_at

unfoldable pub acquire_hub_lease : ℕ → String → String → Option ℕ → Tx Bool
unfolding upsert_lease
acquire_hub_lease hub_lease_seconds hub_instance_id name now = do
  current ← time_or_now now
  let expiry = current + hub_lease_seconds
  held ← fetch_one hub_leases (λ l. str_eq l.cols.name name)
  upsert_lease held name hub_instance_id expiry current
  row ← fetch_one hub_leases (λ l. str_eq l.cols.name name)
  pure (is_granted row hub_instance_id expiry)
