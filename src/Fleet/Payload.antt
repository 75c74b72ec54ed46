-- ===== src/Fleet/Payload.antt =====
-- The payload of a fleet operation and the settings of an upgrade, as
-- `create_fleet_operation_mutation` of hub/certificate_fleet_service.py reads and writes them.
use dark_noc.Base.{
  if◌then◌else◌, any_row, ℕ, min, max, String, Bool, true, false, Option, none, some, List, [], ◌∷◌,
  str_eq,
}
use dark_noc.Base.Json.{Json, null, bool, num, str, Dict, end, field, get, put, one}
use dark_noc.Store.Schema.{FleetKind}
use dark_noc.Python.{Python}

pub record RolloutSettings : Type 0 where
  pub batch_size : ℕ
  pub pause_seconds : ℕ
  pub stop_on_failure : Bool
  pub canary_node_id : Option ℕ

abbrev pub default_settings : RolloutSettings
default_settings = record {
  batch_size = 1;
  pause_seconds = 5;
  stop_on_failure = true;
  canary_node_id = none;
}

abbrev pub is_among : String → List String → Bool
is_among s words = any_row (λ w. str_eq s w) words

module _ (py : Python) where
  abbrev pub int_else : Option Json → ℕ → Option ℕ
  int_else none d = some d
  int_else (some v) d = py.int v

  unfoldable pub word_flag : String → Option Bool
  word_flag s =
      if is_among s ("true" ∷ "1" ∷ "yes" ∷ "on" ∷ [])
      then some true
      else if is_among s ("false" ∷ "0" ∷ "no" ∷ "off" ∷ [])
      then some false
      else none

  abbrev pub stop_flag : Option Json → Option Bool
  stop_flag none = some true
  stop_flag (some (bool b)) = some b
  stop_flag (some v) = word_flag (py.casefold (py.strip (py.text v)))

  -- int(raw_canary) if raw_canary not in (None, "") else None; `none` is an exception
  abbrev pub some_int : Option ℕ → Option (Option ℕ)
  some_int none = none
  some_int (some n) = some (some n)

  unfoldable pub read_canary : Option Json → Option (Option ℕ)
  read_canary none = some none
  read_canary (some null) = some none
  read_canary (some (str s)) = if str_eq s "" then some none else some_int (py.int (str s))
  read_canary (some v) = some_int (py.int v)

  abbrev pub settings_of :
      Option ℕ → Option ℕ → Option Bool → Option (Option ℕ) → Option RolloutSettings
  settings_of (some b) (some p) (some s) (some c) = some (record {
    batch_size = min (max b 1) 10;
    pause_seconds = min p 300;
    stop_on_failure = s;
    canary_node_id = c;
  })
  settings_of _ _ _ _ = none

  unfoldable pub rollout_settings : FleetKind → Dict → Option RolloutSettings
  rollout_settings FleetKind.upgrade_agents payload =
      settings_of (int_else (get "batch_size" payload) 1) (int_else (get "pause_seconds" payload) 5)
        (stop_flag (get "stop_on_failure" payload)) (read_canary (get "canary_node_id" payload))
  rollout_settings _ payload = some default_settings

abbrev pub upgrade_payload : String → RolloutSettings → Dict
upgrade_payload version s = field "target_version" (str version) (
    field "batch_size" (num s.batch_size) (
      field "pause_seconds" (num s.pause_seconds) (
        field "stop_on_failure" (bool s.stop_on_failure)
          (field "canary_node_id" (one s.canary_node_id num) end))))

abbrev pub with_service : Option String → Dict → Dict
with_service none payload = payload
with_service (some s) payload = if str_eq s "" then payload else put "service" (str s) payload
