-- ===== src/Agents/Alarm.antt =====
-- A tunnel that keeps failing has an active incident.
use dark_noc.Base.{any_row, ℕ, ◌≤◌, String, ◌≡◌, ◌⊎◌, true}
use dark_noc.Store.Schema.{Incident}
use dark_noc.Store.Hub.{Hub}
use dark_noc.Store.Tx.{Result, ok, Tx}
use dark_noc.Agents.Tunnels.{is_active_of}
use dark_noc.Python.{Python}
use dark_noc.Store.Ends.{Ends}

-- The log entry of an incident leaves the incidents as they are.
record Logs (r : Result (Unit {0} × Hub)) (h : Hub) : Type 0 where
  after : Hub
  is_ok : r ≡ ok (tt, after)
  same : after.incident_table ≡ h.incident_table

module _ (tunnel_id : ℕ) where
  abbrev Alarmed : Hub → Type 0
  Alarmed h = any_row (is_active_of tunnel_id) h.incident_table.rows ≡ true

-- A report of a tunnel, after how many failures in a row before it, is due for an alarm.
abbrev pub IsDue : String → ℕ → Type 0
IsDue status failures =
    ((status ≡ "down") × (1 ≤ failures)) ⊎ ((status ≡ "degraded") × (2 ≤ failures))
