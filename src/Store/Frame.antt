-- ===== src/Store/Frame.antt =====
-- Transactions that leave one job as it is: rules like those of Store/Keeps.
use dark_noc.Base.{if◌then◌else◌, any_row, ℕ, ◌≡◌, refl, ap, ◌∙◌, Bool, true, false, some}
use dark_noc.Store.Schema.{Job}
use dark_noc.Store.Table.{Row, Table, add, change, find, find-append}
use dark_noc.Store.Hub.{
  Hub, Relation, nodes, incidents, incident_events, jobs, plugin_deployments, certificates,
  monitors, monitor_results, fleet_operations, fleet_operation_items,
}
use dark_noc.Store.Tx.{
  Error, integrity, Result, ok, err, Tx, pure, throw, utc_ts, insert, update, fetch_one,
  fetch_count, refuse_clash, continue, ◌>>=◌,
}

abbrev pub Reads : {A : Type 0} → ℕ → Row Job → Result (A × Hub) → Type 0
Reads n job (ok (a, h)) = find n h.job_table.rows ≡ some job
Reads n job (err e) = Unit

-- If the job is in the database and the transaction commits, the job reads the same afterwards.
pub record Spares (n : ℕ) (job : Row Job) {A : Type 0} (m : Tx A) : Type 0 where
  pub at : (h : Hub) → find n h.job_table.rows ≡ some job → Reads n job (m h)

-- A table other than the jobs.
pub record Aside {C : Type 0} (r : Relation C) : Type 0 where
  pub same : (h : Hub) (t : Table C) → (r.write t h).job_table ≡ h.job_table

module _ (n : ℕ) (job : Row Job) where
  module _ {A : Type 0} where
    pub Spares-pure : (a : A) → Spares n job (pure a)
    unfolding ◌>>=◌
    Spares-pure a = record { at = λ h e. e }

    pub Spares-throw : (e : Error) → Spares n job (throw {A = A} e)
    unfolding ◌>>=◌
    Spares-throw x = record { at = λ h e. tt }

    pub Spares-if :
        (b : Bool) (m k : Tx A)
        → Spares n job m
        → Spares n job k
        → Spares n job (if b then m else k)
    Spares-if true m k sm sk = sm
    Spares-if false m k sm sk = sk

  pub Spares-utc_ts : Spares n job utc_ts
  unfolding ◌>>=◌
  Spares-utc_ts = record { at = λ h e. e }

  pub Spares-insert_job : (c : Job) → Spares n job (insert jobs c)
  unfolding ◌>>=◌
  Spares-insert_job c = record { at = λ h e. find-append n h.job_table.rows _ job e }

  module _ {C : Type 0} (r : Relation C) where
    pub Spares-fetch_one : (test : Row C → Bool) → Spares n job (fetch_one r test)
    unfolding ◌>>=◌
    Spares-fetch_one test = record { at = λ h e. e }

    pub Spares-fetch_count : (test : Row C → Bool) → Spares n job (fetch_count r test)
    unfolding ◌>>=◌
    Spares-fetch_count test = record { at = λ h e. e }

    pub Spares-refuse_clash : (test : Row C → Bool) → Spares n job (refuse_clash r test)
    unfolding ◌>>=◌
    Spares-refuse_clash test = record { at = λ h e. clash (any_row test (r.read h).rows) h e }
      where
        clash :
            (b : Bool) (h : Hub)
            → find n h.job_table.rows ≡ some job
            → Reads n job (if b then err integrity else ok (tt {0}, h))
        clash true h e = tt
        clash false h e = e

    pub Spares-insert : Aside r → (c : C) → Spares n job (insert r c)
    unfolding ◌>>=◌
    Spares-insert aside c = record {
      at = λ h e. ap (λ (t : Table Job). find n t.rows) (aside.same h (add c (r.read h))) ∙ e;
    }

    pub Spares-update : Aside r → (test : Row C → Bool) (f : C → C) → Spares n job (update r test f)
    unfolding ◌>>=◌
    Spares-update aside test f = record {
      at = λ h e.
          ap (λ (t : Table Job). find n t.rows) (aside.same h (change test f (r.read h))) ∙ e;
    }

  module _ {A B : Type 0} where
    Reads-continue :
        (x : Result (A × Hub)) (f : A → Tx B)
        → Reads n job x
        → ((a : A) → Spares n job (f a))
        → Reads n job (continue x f)
    Reads-continue (ok (a, h)) f e sf = (sf a).at h e
    Reads-continue (err x) f e sf = tt

    pub Spares-bind :
        (m : Tx A) (f : A → Tx B)
        → Spares n job m
        → ((a : A) → Spares n job (f a))
        → Spares n job (m >>= f)
    unfolding ◌>>=◌
    Spares-bind m f sm sf = record { at = λ h e. Reads-continue (m h) f (sm.at h e) sf }

pub Aside-nodes : Aside nodes
Aside-nodes = record { same = λ h t. refl }

pub Aside-incidents : Aside incidents
Aside-incidents = record { same = λ h t. refl }

pub Aside-incident_events : Aside incident_events
Aside-incident_events = record { same = λ h t. refl }

pub Aside-certificates : Aside certificates
Aside-certificates = record { same = λ h t. refl }

pub Aside-monitors : Aside monitors
Aside-monitors = record { same = λ h t. refl }

pub Aside-monitor_results : Aside monitor_results
Aside-monitor_results = record { same = λ h t. refl }

pub Aside-fleet_operations : Aside fleet_operations
Aside-fleet_operations = record { same = λ h t. refl }

pub Aside-fleet_operation_items : Aside fleet_operation_items
Aside-fleet_operation_items = record { same = λ h t. refl }

pub Aside-plugin_deployments : Aside plugin_deployments
Aside-plugin_deployments = record { same = λ h t. refl }

pub ruleset spares_rules = (
  Spares-pure, Spares-throw, Spares-if, Spares-utc_ts, Spares-insert_job, Spares-fetch_one,
  Spares-fetch_count, Spares-refuse_clash, Spares-insert, Spares-update, Spares-bind, Aside-nodes,
  Aside-incidents, Aside-incident_events, Aside-certificates, Aside-monitors, Aside-monitor_results,
  Aside-fleet_operations, Aside-fleet_operation_items, Aside-plugin_deployments,
)
