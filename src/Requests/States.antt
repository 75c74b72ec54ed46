-- ===== src/Requests/States.antt =====
-- The states that the Hub reaches from an empty database.
use dark_noc.Base.{ℕ, []}
use dark_noc.Store.Table.{Table}
use dark_noc.Store.Hub.{Hub}
use dark_noc.Requests.{Operation, run}
use dark_noc.World.{World}

abbrev pub fresh : {C : Type 0} → Table C
fresh = record { rows = []; next_id = 1 }

-- The database that `bootstrap` creates, with the clock that the Hub reads.
abbrev pub initial : (ℕ → ℕ) → Hub
initial clock = record {
  clock = clock;
  readings = 0;
  node_table = fresh;
  session_table = fresh;
  tunnel_table = fresh;
  incident_table = fresh;
  event_table = fresh;
  job_table = fresh;
  deployment_table = fresh;
  hybrid_table = fresh;
  certificate_table = fresh;
  monitor_table = fresh;
  result_table = fresh;
  operation_table = fresh;
  item_table = fresh;
  lease_table = fresh;
}

-- One step of the Hub: it serves an operation.
pub data Step (w : World) : Hub → Hub → Type 0 where
  serves : (h : Hub) (o : Operation) → Step w h (run w o h)

-- The states that any number of operations lead to.
pub data Reachable (w : World) : Hub → Type 0 where
  start : (clock : ℕ → ℕ) → Reachable w (initial clock)
  then_step : {h h' : Hub} → Reachable w h → Step w h h' → Reachable w h'

-- The states that any number of operations lead to from a given one.
pub data Later (w : World) (h : Hub) : Hub → Type 0 where
  now_on : Later w h h
  after_step : {h' h'' : Hub} → Later w h h' → Step w h' h'' → Later w h h''
