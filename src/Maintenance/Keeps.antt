-- ===== src/Maintenance/Keeps.antt =====
-- A maintenance cycle keeps the database consistent.
use dark_noc.Base.{
  is_some, and_left, and_right, ℕ, ◌+◌, ◌*◌, String, ◌≡◌, refl, Bool, true, Option, none, some,
}
use dark_noc.Store.Schema.{Node, JobStatus, Certificate}
use dark_noc.Store.Table.{Row}
use dark_noc.Store.Valid.{JobShape, undated}
use dark_noc.Store.Keeps.{Keeps, Keeps-pure, Keeps-update, Keeps-bind}
use dark_noc.Store.Governed.{Governed-jobs, Governed-certificates, keeps_rules, delete_jobs-Keeps}
use dark_noc.Fleet.Keeps.{queue_due_fleet_operations-Keeps}
use dark_noc.Incident.Keeps.{create_incident-Keeps, resolve_incident-Keeps}
use dark_noc.Job.{is_running}
use dark_noc.Maintenance.{
  report_stale, report_recovered, watch_nodes, requeue_lost_jobs, tidy_jobs, is_between, is_past,
  age_certificates, renew, renew_certificates, run_maintenance_cycle,
}
use dark_noc.Monitoring.Keeps.{has_live_job-Keeps, queue_due_monitors-Keeps}
use dark_noc.Python.{Python}

report_stale-Keeps : (n : Row Node) → Keeps (report_stale n)
unfolding report_stale
report_stale-Keeps n = search (keeps_rules, create_incident-Keeps) depth 12

report_recovered-Keeps :
    (like : String → String → Bool) (n : Row Node) → Keeps (report_recovered like n)
unfolding report_recovered
report_recovered-Keeps like n = search (keeps_rules, resolve_incident-Keeps) depth 12

watch_nodes-Keeps :
    (like : String → String → Bool) (now stale : ℕ) → Keeps (watch_nodes like now stale)
unfolding watch_nodes
watch_nodes-Keeps like now stale =
    search (keeps_rules, report_stale-Keeps, report_recovered-Keeps) depth 20

requeued :
    (s : JobStatus) (started finished : Option ℕ) (output : Bool)
    → is_running s ≡ true
    → JobShape s started finished output
    → JobShape JobStatus.queued none finished output
requeued JobStatus.queued started finished output e k = cc
requeued JobStatus.running started finished output e k = (refl, k.1, k.2)
requeued JobStatus.completed started finished output e k = cc
requeued JobStatus.failed started finished output e k = cc

requeue_lost_jobs-Keeps : (now : ℕ) → Keeps (requeue_lost_jobs now)
unfolding requeue_lost_jobs
requeue_lost_jobs-Keeps now =
    Keeps-bind _ _ (Keeps-update Governed-jobs _ _ (λ j p e. requeued _ _ _ _ (and_left _ _ e) p))
      (λ changed. Keeps-pure tt)

tidy_jobs-Keeps : (now days : ℕ) → Keeps (tidy_jobs now days)
unfolding tidy_jobs
tidy_jobs-Keeps now days = search (keeps_rules, requeue_lost_jobs-Keeps, delete_jobs-Keeps) depth 12

past_dated : (now : ℕ) (e : Option ℕ) → is_past now e ≡ true → true ≡ true → is_some e ≡ true
past_dated now none k t = k
past_dated now (some e) k t = refl

between_dated :
    (low high : ℕ) (e : Option ℕ) → is_between low high e ≡ true → true ≡ true → is_some e ≡ true
between_dated low high none k t = k
between_dated low high (some e) k t = refl

age_certificates-Keeps : (now : ℕ) → Keeps (age_certificates now)
unfolding age_certificates
age_certificates-Keeps now =
    Keeps-bind _ _
      (Keeps-update Governed-certificates _ _ (λ c p e. past_dated now c.cols.expires_at e))
      (λ _.
        Keeps-bind _ _
          (Keeps-update Governed-certificates _ _
            (λ c p e. between_dated now (now + 14 * 86400) c.cols.expires_at (and_right _ _ e)))
          (λ _. Keeps-pure tt))

renew-Keeps : (now : ℕ) (c : Row Certificate) → Keeps (renew now c)
unfolding renew
renew-Keeps now c = search (keeps_rules, undated, has_live_job-Keeps) depth 16

renew_certificates-Keeps : (now stale : ℕ) → Keeps (renew_certificates now stale)
unfolding renew_certificates
renew_certificates-Keeps now stale = search (keeps_rules, renew-Keeps) depth 12

pub run_maintenance_cycle-Keeps :
    (py : Python) (decrypt : Option String → Option (Option String)) (like : String → String → Bool)
    (stale days : ℕ)
    → Keeps (run_maintenance_cycle py decrypt like stale days)
unfolding run_maintenance_cycle
run_maintenance_cycle-Keeps py decrypt like stale days =
    search
      (
        keeps_rules, watch_nodes-Keeps, tidy_jobs-Keeps, age_certificates-Keeps,
        renew_certificates-Keeps, queue_due_monitors-Keeps, queue_due_fleet_operations-Keeps,
      )
      depth 20
