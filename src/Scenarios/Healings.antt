-- ===== src/Scenarios/Healings.antt =====
-- The bound on restarts at concrete rounds.
use dark_noc.Base.{ℕ, ◌+◌, ◌≤◌, true, some, List, [], ◌∷◌, arith}
use dark_noc.Base.Json.{bool, num, Dict, end, field, get, is_truthy}
use dark_noc.Autoheal.{
  ServiceReport, fresh_history, try_restart, heal_service, heal, heal_all, heal_with,
  maybe_autoheal,
}
use dark_noc.Autoheal.Hourly.{rounds, in_hour, no_restarts, rounds-hourly}
use dark_noc.Samples.{sample_py}

abbrev settings : Dict
settings = field "enabled" (bool true) (field "max_restarts_per_hour" (num 12) end)

abbrev broken_services : List ServiceReport
broken_services =
    record { status = "down"; service = some "dark-realm@a" }
    ∷ record { status = "down"; service = some "dark-realm@b" }
    ∷ []

abbrev ticks : ℕ → ℕ
ticks n = 1000 + n

abbrev two_rounds : List (Dict × List ServiceReport)
two_rounds = (settings, broken_services) ∷ (settings, broken_services) ∷ []

rounds-hourly_example :
    in_hour 1
      (ticks 50)
      (rounds ticks 1 (λ s. true) (λ n s. true) sample_py two_rounds (no_restarts 0)).log
    ≤ 6
unfolding rounds maybe_autoheal heal_with heal_all heal heal_service try_restart fresh_history get
    is_truthy
rounds-hourly_example =
    rounds-hourly ticks 1 (λ s. true) (λ n s. true) (λ i j h. omega (arith, h)) sample_py two_rounds
      0 50 (omega arith)
