-- ===== src/Deployments/Keeps.antt =====
-- Every operation on deployments keeps the database consistent.
use dark_noc.Base.{ℕ, String, Option, List}
use dark_noc.Base.Json.{Dict}
use dark_noc.Fallible.{returned, raised}
use dark_noc.Store.Schema.{JobKind, JobStatus, Deployment}
use dark_noc.Store.Table.{Row}
use dark_noc.Store.Lift.{Checked, lift}
use dark_noc.Store.Valid.{IsDeployment}
use dark_noc.Store.Growth.{Grown-refl}
use dark_noc.Store.Keeps.{Keeps}
use dark_noc.Store.Governed.{keeps_rules}
use dark_noc.Deployments.{
  Plugin, joined_status, queue_plugin_job, recover_pair_code_mutation, retry_hybrid_mutation,
  remove_hybrid_mutation,
}
use dark_noc.Deployments.Retry.{
  set_side_job, retry_side, retry_managed_mutation, remove_managed_mutation,
}
use dark_noc.Job.Keeps.{parsed-Keeps}
use dark_noc.Job.Results.{Side}

pub lift-Keeps : {A : Type 0} (r : Checked A) → Keeps (lift r)
lift-Keeps (returned a) = record { at = λ h c. (c, Grown-refl h) }
lift-Keeps (raised e) = record { at = λ h c. tt }

joined_status-Keeps : (job : Option ℕ) → Keeps (joined_status job)
unfolding joined_status
joined_status-Keeps job = search keeps_rules depth 12

pub queue_plugin_job-Keeps :
    (n : ℕ) (kind : JobKind) (payload : Dict) (user now : ℕ)
    → Keeps (queue_plugin_job n kind payload user now)
unfolding queue_plugin_job
queue_plugin_job-Keeps n kind payload user now = search keeps_rules depth 12

pub recover_pair_code-Keeps :
    (decrypt : Option String → Option (Option String))
    (code : ℕ → Dict → Option String → Checked String) (hash : String → String) (n : ℕ)
    → Keeps (recover_pair_code_mutation decrypt code hash n)
unfolding recover_pair_code_mutation
recover_pair_code-Keeps decrypt code hash n =
    search (keeps_rules, parsed-Keeps, lift-Keeps) depth 24

pub retry_hybrid-Keeps :
    (catalog : List Plugin) (decrypt : Option String → Option (Option String)) (stale n user : ℕ)
    → Keeps (retry_hybrid_mutation catalog decrypt stale n user)
unfolding retry_hybrid_mutation
retry_hybrid-Keeps catalog decrypt stale n user =
    search (keeps_rules, parsed-Keeps, joined_status-Keeps, queue_plugin_job-Keeps) depth 30

pub remove_hybrid-Keeps : (n user : ℕ) → Keeps (remove_hybrid_mutation n user)
unfolding remove_hybrid_mutation
remove_hybrid-Keeps n user =
    search (keeps_rules, joined_status-Keeps, queue_plugin_job-Keeps) depth 24

set_side_job-IsDeployment :
    (side : Side) (job : ℕ) (d : Deployment)
    → IsDeployment d
    → IsDeployment (set_side_job side job d)
set_side_job-IsDeployment Side.iran job d k = k
set_side_job-IsDeployment Side.kharej job d k = k

retry_side-Keeps :
    (row : Row Deployment) (side : Side) (old : Option JobStatus) (payload : Dict) (user now : ℕ)
    → Keeps (retry_side row side old payload user now)
unfolding retry_side
retry_side-Keeps row side old payload user now =
    search (keeps_rules, queue_plugin_job-Keeps, set_side_job-IsDeployment) depth 20

pub retry_managed-Keeps :
    (catalog : List Plugin) (decrypt : Option String → Option (Option String))
    (payload : Dict → Option String → String → Dict) (stale n user : ℕ)
    → Keeps (retry_managed_mutation catalog decrypt payload stale n user)
unfolding retry_managed_mutation
retry_managed-Keeps catalog decrypt payload stale n user =
    search (keeps_rules, parsed-Keeps, joined_status-Keeps, retry_side-Keeps) depth 40

pub remove_managed-Keeps : (n user : ℕ) → Keeps (remove_managed_mutation n user)
unfolding remove_managed_mutation
remove_managed-Keeps n user = search (keeps_rules, queue_plugin_job-Keeps) depth 24
