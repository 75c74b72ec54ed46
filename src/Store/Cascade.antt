-- ===== src/Store/Cascade.antt =====
-- The foreign keys of `SCHEMA` in hub/database.py: ON DELETE CASCADE and ON DELETE SET NULL, which
-- `PRAGMA foreign_keys=ON` in `db` switches on.
use dark_noc.Base.{
  ◌==◌, if◌then◌else◌, any_row, ℕ, Bool, true, false, ◌||◌, Option, none, some, List, map,
}
use dark_noc.Store.Schema.{Node, Tunnel, Job, Monitor}
use dark_noc.Store.Table.{Row}
use dark_noc.Store.Hub.{
  nodes, tunnels, incidents, jobs, plugin_deployments, hybrid_deployments, certificates, monitors,
  monitor_results, fleet_operation_items,
}
use dark_noc.Store.Tx.{Tx, pure, update, delete, fetch_all, ◌>>=◌, ◌>>◌}

abbrev pub among : ℕ → List ℕ → Bool
among n ids = any_row (λ m. n == m) ids

abbrev pub refers : Option ℕ → List ℕ → Bool
refers none ids = false
refers (some n) ids = among n ids

-- ON DELETE SET NULL
abbrev set_null : List ℕ → Option ℕ → Option ℕ
set_null ids ref = if refers ref ids then none else ref

abbrev every : {C : Type 0} → Row C → Bool
every r = true

unfoldable pub delete_jobs : (Row Job → Bool) → Tx (Unit {0})
delete_jobs test = do
  rows ← fetch_all jobs test
  let gone = map (λ (r : Row Job). r.id) rows
  delete jobs test
  update plugin_deployments every (λ d. record d {
    iran_job_id = set_null gone d.iran_job_id;
    kharej_job_id = set_null gone d.kharej_job_id;
  })
  update hybrid_deployments every (λ d. record d { iran_job_id = set_null gone d.iran_job_id })
  update certificates every (λ c. record c { job_id = set_null gone c.job_id })
  update monitors every (λ m. record m { job_id = set_null gone m.job_id })
  update fleet_operation_items every (λ i. record i { job_id = set_null gone i.job_id })
  pure tt

unfoldable pub delete_tunnels : (Row Tunnel → Bool) → Tx (Unit {0})
delete_tunnels test = do
  rows ← fetch_all tunnels test
  let gone = map (λ (r : Row Tunnel). r.id) rows
  delete tunnels test
  update incidents every (λ i. record i { tunnel_id = set_null gone i.tunnel_id })
  pure tt

unfoldable pub delete_monitors : (Row Monitor → Bool) → Tx (Unit {0})
delete_monitors test = do
  rows ← fetch_all monitors test
  let gone = map (λ (r : Row Monitor). r.id) rows
  delete monitors test
  delete monitor_results (λ r. among r.cols.monitor_id gone)
  pure tt

unfoldable pub delete_nodes : (Row Node → Bool) → Tx (Unit {0})
delete_nodes test = do
  rows ← fetch_all nodes test
  let gone = map (λ (r : Row Node). r.id) rows
  delete nodes test
  delete_tunnels (λ t. among t.cols.node_id gone)
  update incidents every (λ i. record i { node_id = set_null gone i.node_id })
  delete_jobs (λ j. among j.cols.node_id gone)
  delete plugin_deployments
      (λ d. among d.cols.iran_node_id gone || among d.cols.kharej_node_id gone)
  delete hybrid_deployments (λ d. among d.cols.iran_node_id gone)
  delete certificates (λ c. among c.cols.node_id gone)
  delete_monitors (λ m. among m.cols.node_id gone)
  delete fleet_operation_items (λ i. among i.cols.node_id gone)
