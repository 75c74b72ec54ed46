-- ===== src/Tunnels/Keeps.antt =====
-- Every operation on tunnels keeps the database consistent.
use dark_noc.Base.{ℕ, String, Option, none, some, List}
use dark_noc.Store.Schema.{Tunnel, Deployment, Hybrid}
use dark_noc.Store.Table.{Row}
use dark_noc.Store.Keeps.{Keeps, Keeps-pure}
use dark_noc.Store.Governed.{keeps_rules}
use dark_noc.Deployments.{Plugin}
use dark_noc.Deployments.Keeps.{queue_plugin_job-Keeps}
use dark_noc.Python.{Python}
use dark_noc.Tunnels.{
  TunnelAction, queue_tunnel_action_mutation, queue_plugin_install_mutation, remove_managed_tunnel,
  mark_hybrid, remove_lone_tunnel, remove_either, remove_tunnel_mutation,
}

pub queue_tunnel_action-Keeps :
    (py : Python) (stale n : ℕ) (action : TunnelAction) (user : ℕ)
    → Keeps (queue_tunnel_action_mutation py stale n action user)
unfolding queue_tunnel_action_mutation
queue_tunnel_action-Keeps py stale n action user =
    search (keeps_rules, queue_plugin_job-Keeps) depth 24

pub queue_plugin_install-Keeps :
    (catalog : List Plugin) (stale n : ℕ) (plugin : String) (user : ℕ)
    → Keeps (queue_plugin_install_mutation catalog stale n plugin user)
unfolding queue_plugin_install_mutation
queue_plugin_install-Keeps catalog stale n plugin user =
    search (keeps_rules, queue_plugin_job-Keeps) depth 24

remove_managed_tunnel-Keeps :
    (t : Row Tunnel) (d : Row Deployment) (user now : ℕ)
    → Keeps (remove_managed_tunnel t d user now)
unfolding remove_managed_tunnel
remove_managed_tunnel-Keeps t d user now = search (keeps_rules, queue_plugin_job-Keeps) depth 16

mark_hybrid-Keeps : (d : Option (Row Hybrid)) (n now : ℕ) → Keeps (mark_hybrid d n now)
unfolding mark_hybrid
mark_hybrid-Keeps none n now = Keeps-pure tt
mark_hybrid-Keeps (some d) n now = search keeps_rules depth 12

remove_lone_tunnel-Keeps :
    (py : Python) (t : Row Tunnel) (d : Option (Row Hybrid)) (user now : ℕ)
    → Keeps (remove_lone_tunnel py t d user now)
unfolding remove_lone_tunnel
remove_lone_tunnel-Keeps py t d user now =
    search (keeps_rules, queue_plugin_job-Keeps, mark_hybrid-Keeps) depth 16

remove_either-Keeps :
    (py : Python) (t : Row Tunnel) (d : Option (Row Deployment)) (x : Option (Row Hybrid))
    (user now : ℕ)
    → Keeps (remove_either py t d x user now)
unfolding remove_either
remove_either-Keeps py t none x user now = remove_lone_tunnel-Keeps py t x user now
remove_either-Keeps py t (some d) x user now = remove_managed_tunnel-Keeps t d user now

pub remove_tunnel-Keeps :
    (py : Python) (n user now : ℕ) → Keeps (remove_tunnel_mutation py n user now)
unfolding remove_tunnel_mutation
remove_tunnel-Keeps py n user now = search (keeps_rules, remove_either-Keeps) depth 16
