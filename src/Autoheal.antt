-- ===== src/Autoheal.antt =====
-- `maybe_autoheal` of agent/agent.py. The clock gives the time of each reading, with `second` units
-- to a second; `allowed` is `restart_allowed`, and `restarted` says whether systemctl succeeds at
-- a reading.
pub mod Hourly
use dark_noc.Base.{
  ltb, leb, if◌then◌else◌, length, ℕ, suc, ◌+◌, ◌*◌, min, max, String, Bool, not, ◌||◌, Option,
  none, some, List, [], ◌∷◌, ◌++◌, str_eq,
}
use dark_noc.Base.Json.{Dict, get, is_truthy}
use dark_noc.Agents.Report.{int_get}
use dark_noc.Python.{Python}
use dark_noc.Registry.Catalog.{reports}

pub record ServiceReport : Type 0 where
  pub status : String
  pub service : Option String

-- What the agent keeps, and the times of the restarts that succeeded.
pub record Healing : Type 0 where
  pub history : List ℕ
  pub last_restart : String → ℕ
  pub readings : ℕ
  pub log : List ℕ

module _ (clock : ℕ → ℕ) (second : ℕ) (allowed : String → Bool)
    (restarted : ℕ → String → Bool) where
  -- time.time() - float(ts) < 3600
  abbrev pub within_hour : ℕ → ℕ → Bool
  within_hour now t = ltb now (t + 3600 * second)

  -- The stamps of the last hour, each with its own reading, and the next reading.
  unfoldable pub fresh_history : ℕ → List ℕ → List ℕ × ℕ
  fresh_history n [] = ([], n)
  fresh_history n (t ∷ ts) =
      let rest = fresh_history (suc n) ts in
      ((if within_hour (clock n) t then t ∷ rest.0 else rest.0), rest.1)

  abbrev pub set_last : String → ℕ → (String → ℕ) → String → ℕ
  set_last service now last other = if str_eq other service then now else last other

  -- run(["systemctl", "restart", service]), after the reading that let it pass
  unfoldable pub try_restart : String → Healing → Healing
  try_restart service s =
      let n = s.readings in
      if restarted n service
      then record s {
        history = s.history ++ clock (suc n) ∷ [];
        last_restart = set_last service (clock (suc n)) s.last_restart;
        readings = suc (suc n);
        log = s.log ++ clock (suc n) ∷ [];
      }
      else record s { readings = suc n }

  -- time.time() - last < cooldown or len(history) >= maximum
  abbrev pub is_held : ℕ → ℕ → String → Healing → Bool
  is_held cooldown maximum service s =
      ltb (clock s.readings) (s.last_restart service + cooldown * second)
      || leb maximum (length s.history)

  unfoldable pub heal_service : ℕ → ℕ → String → Healing → Healing
  heal_service cooldown maximum service s =
      if not (allowed service)
      then s
      else if is_held cooldown maximum service s
      then record s { readings = suc s.readings }
      else try_restart service s

  -- One round of the loop.
  unfoldable pub heal : ℕ → ℕ → ServiceReport → Healing → Healing
  heal cooldown maximum report s = elim report.service [
    | none ↦ s
    | some service ↦
        if not (str_eq report.status "down") || str_eq service ""
        then s
        else heal_service cooldown maximum service s
  ]

  unfoldable pub heal_all : ℕ → ℕ → List ServiceReport → Healing → Healing
  heal_all cooldown maximum [] s = s
  heal_all cooldown maximum (r ∷ reports) s =
      heal_all cooldown maximum reports (heal cooldown maximum r s)

  unfoldable pub heal_with : Option ℕ → Option ℕ → List ServiceReport → Healing → Healing
  heal_with (some cooldown) (some restarts) reports s =
      let fresh = fresh_history s.readings s.history in
      heal_all (max cooldown 60) (min (max restarts 1) 6) reports
        (record s { history = fresh.0; readings = fresh.1 })
  heal_with _ _ reports s = s

  -- An int() that raises ends the call before anything is done.
  unfoldable pub maybe_autoheal : Python → Dict → List ServiceReport → Healing → Healing
  maybe_autoheal py settings services s =
      if not (is_truthy (get "enabled" settings))
      then s
      else heal_with (int_get py 300 (get "cooldown_seconds" settings))
          (int_get py 3 (get "max_restarts_per_hour" settings)) services s
