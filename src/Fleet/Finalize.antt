-- ===== src/Fleet/Finalize.antt =====
-- `finalize_fleet_operation` keeps the database consistent.
use dark_noc.Base.{ℕ}
use dark_noc.Store.Keeps.{Keeps}
use dark_noc.Store.Governed.{keeps_rules}
use dark_noc.Fleet.{finalize_fleet_operation}

pub finalize_fleet_operation-Keeps : (n : ℕ) → Keeps (finalize_fleet_operation n)
unfolding finalize_fleet_operation
finalize_fleet_operation-Keeps n = search keeps_rules depth 14
