-- ===== src/Fleet/Settings.antt =====
-- The settings of an upgrade, whatever the operator sent.
use dark_noc.Base.{ℕ, ◌≤◌, Bool, Option, none, some, arith}
use dark_noc.Base.Json.{Dict}
use dark_noc.Store.Schema.{FleetKind}
use dark_noc.Fleet.Payload.{RolloutSettings, settings_of, rollout_settings}
use dark_noc.Python.{Python}

abbrev pub InBounds : Option RolloutSettings → Type 0
InBounds none = Unit
InBounds (some s) = (1 ≤ s.batch_size) × ((s.batch_size ≤ 10) × (s.pause_seconds ≤ 300))

settings_of-InBounds :
    (py : Python) (b p : Option ℕ) (s : Option Bool) (c : Option (Option ℕ))
    → InBounds (settings_of py b p s c)
settings_of-InBounds py none p s c = tt
settings_of-InBounds py (some b) none s c = tt
settings_of-InBounds py (some b) (some p) none c = tt
settings_of-InBounds py (some b) (some p) (some s) none = tt
settings_of-InBounds py (some b) (some p) (some s) (some c) =
    (omega arith, (omega arith, omega arith))

-- Whatever the payload of a fleet operation says, the rollout that is accepted has batches of 1 to
-- 10 nodes and pauses of at most 300 seconds.
pub rollout_settings-InBounds :
    (py : Python) (kind : FleetKind) (payload : Dict) → InBounds (rollout_settings py kind payload)
unfolding rollout_settings
rollout_settings-InBounds py FleetKind.upgrade_agents payload = settings_of-InBounds py _ _ _ _
rollout_settings-InBounds py _ payload = (omega arith, (omega arith, omega arith))
