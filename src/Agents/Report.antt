-- ===== src/Agents/Report.antt =====
-- What the Hub reads of an agent's report before it touches the database: the inventory flags of
-- `agent_inventory_flags` in hub/app.py, the Auto-Heal policy, the observed address and the
-- resource limits of `agent_heartbeat`.
use dark_noc.Base.{
  if◌then◌else◌, ℕ, min, max, String, Bool, false, not, ◌&&◌, Option, none, some, List, [], ◌∷◌,
  arith,
}
use dark_noc.Base.Json.{Json, null, bool, obj, Dict, end, get}
use dark_noc.Store.Schema.{Node}
use dark_noc.Store.Table.{Row}
use dark_noc.Store.Valid.{IsPolicy}
use dark_noc.Fleet.Payload.{is_among}
use dark_noc.Job.Outcomes.{default}
use dark_noc.Nodes.{is_hub}
use dark_noc.Python.{Python}
use dark_noc.Realm.Agent.{text_at}

-- AgentReport of hub/schemas.py, whose `services` the model leaves out
pub record AgentReport : Type 0 where
  pub metrics : Dict
  pub tunnels : List Dict
  pub agent_version : String
  pub autoheal : Dict
  pub plugins : Dict

pub record Flags : Type 0 where
  pub is_complete : Bool
  pub is_fresh : Bool

pub record Policy : Type 0 where
  pub cooldown : ℕ
  pub max_restarts : ℕ

-- min(max(n, low), high)
abbrev pub clamp : ℕ → ℕ → ℕ → ℕ
clamp low high n = min (max n low) high

-- 127.0.0.1 or ::1 as the address of the Hub's own agent
abbrev pub is_local : Option String → Bool
is_local none = false
is_local (some ip) = is_among ip ("127.0.0.1" ∷ "::1" ∷ [])

unfoldable pub observed_address : Option String → Row Node → Option String
observed_address client node =
    if is_local client && is_hub node.cols.role then some node.cols.host else client

-- `m.get(key) if isinstance(m.get(key), dict) else {}`
abbrev pub dict_or_empty : Option Json → Dict
dict_or_empty (some (obj d)) = d
dict_or_empty _ = end

-- A resource that is watched: its name in a title and in the details, its value and its limit.
pub record Resource : Type 0 where
  pub label : String
  pub word : String
  pub reading : Option Json
  pub limit : ℕ

abbrev pub resource : String → String → Option Json → ℕ → Resource
resource label word reading limit = record {
  label = label;
  word = word;
  reading = reading;
  limit = limit;
}

-- `resource_limits`
unfoldable pub resource_limits : Dict → List Resource
resource_limits m =
    let docker = dict_or_empty (get "docker" (dict_or_empty (get "inventory" m))) in
    resource "CPU" "cpu" (get "cpu" m) 90
    ∷ resource "RAM" "ram" (get "ram" m) 90
    ∷ resource "DISK" "disk" (get "disk" m) 90
    ∷ resource "INODE" "inode" (get "inode_percent" m) 90
    ∷ resource "LOAD" "load" (get "load1" m) 8
    ∷ resource "TEMPERATURE" "temperature" (get "temperature_c" m) 85
    ∷ resource "NETWORK ERRORS" "network errors" (get "network_errors_delta" m) 10
    ∷ resource "NETWORK DROPS" "network drops" (get "network_drops_delta" m) 100
    ∷ resource "DOCKER UNHEALTHY" "docker unhealthy" (get "unhealthy" docker) 1
    ∷ []

module _ (py : Python) where
  abbrev pub marked_complete : String → Option Json → Bool
  marked_complete status none = not (is_among status ("starting" ∷ "collecting" ∷ "stale" ∷ []))
  marked_complete status (some null) =
      not (is_among status ("starting" ∷ "collecting" ∷ "stale" ∷ []))
  marked_complete status (some (bool b)) = b
  marked_complete status (some marker) =
      is_among (py.casefold (py.strip (py.text marker))) ("1" ∷ "true" ∷ "yes" ∷ "on" ∷ [])

  unfoldable pub agent_inventory_flags : Dict → Flags
  agent_inventory_flags metrics =
      let status = py.casefold (py.strip (text_at py "telemetry_status" "" metrics)) in
      let complete = marked_complete status (get "inventory_complete" metrics) in
      record { is_complete = complete; is_fresh = complete && is_among status ("" ∷ "fresh" ∷ []) }

  -- int(d.get(key, default)), `none` for a TypeError or ValueError
  abbrev pub int_get : ℕ → Option Json → Option ℕ
  int_get default none = some default
  int_get default (some v) = py.int v

  abbrev pub policy_of : Option ℕ → Option ℕ → Policy
  policy_of (some cooldown) (some restarts) = record {
    cooldown = clamp 60 86400 cooldown;
    max_restarts = clamp 1 12 restarts;
  }
  policy_of _ _ = record { cooldown = 300; max_restarts = 3 }

  unfoldable pub autoheal_policy : Dict → Policy
  autoheal_policy autoheal =
      policy_of (int_get 300 (get "cooldown_seconds" autoheal))
        (int_get 3 (get "max_restarts_per_hour" autoheal))

  -- str(d.get(key, default))
  unfoldable pub text_get : String → String → Dict → String
  text_get key default d = elim (get key d) [ none ↦ default | some v ↦ py.text v ]

pub policy_of-IsPolicy :
    (py : Python) (cooldown restarts : Option ℕ)
    → IsPolicy
        (policy_of py cooldown restarts).cooldown
        (policy_of py cooldown restarts).max_restarts
policy_of-IsPolicy py none restarts = omega arith
policy_of-IsPolicy py (some c) none = omega arith
policy_of-IsPolicy py (some c) (some r) = omega arith

-- The policy that a heartbeat stores is in the range that the panel allows.
pub autoheal_policy-IsPolicy :
    (py : Python) (autoheal : Dict)
    → IsPolicy (autoheal_policy py autoheal).cooldown (autoheal_policy py autoheal).max_restarts
unfolding autoheal_policy
autoheal_policy-IsPolicy py autoheal = policy_of-IsPolicy py _ _
