-- ===== src/Job/Keeps.antt =====
-- Every request of an agent about jobs keeps the database consistent.
use dark_noc.Base.{and_right, ℕ, String, ◌≡◌, refl, Bool, true, Option, none, some}
use dark_noc.Base.Json.{Json, obj, Dict}
use dark_noc.Store.Schema.{Node, JobKind, JobStatus, Job}
use dark_noc.Store.Bodies.{JobResult}
use dark_noc.Store.Table.{Row}
use dark_noc.Store.Tx.{crash}
use dark_noc.Store.Valid.{JobShape, undated}
use dark_noc.Store.Keeps.{
  Keeps, Keeps-pure, Keeps-throw, Keeps-reject_if, Keeps-utc_ts, Keeps-refuse_clash, Keeps-update,
  Keeps-bind,
}
use dark_noc.Store.Governed.{Governed-jobs, keeps_rules}
use dark_noc.Job.{is_queued, is_running, claim, agent_jobs, renew_agent_job_lease}
use dark_noc.Job.Outcomes.{
  parsed, fail_certificate, Metadata, store_certificate, accept_certificate, read_certificate,
  record_certificate,
}
use dark_noc.Python.{Python}

claimed :
    (s : JobStatus) (started finished : Option ℕ) (output : Bool) (now : ℕ)
    → is_queued s ≡ true
    → JobShape s started finished output
    → JobShape JobStatus.running (some now) finished output
claimed JobStatus.queued started finished output now e k = (refl, k.1, k.2)
claimed JobStatus.running started finished output now e k = cc
claimed JobStatus.completed started finished output now e k = cc
claimed JobStatus.failed started finished output now e k = cc

renewed :
    (s : JobStatus) (started finished : Option ℕ) (output : Bool) (now : ℕ)
    → is_running s ≡ true
    → JobShape s started finished output
    → JobShape s (some now) finished output
renewed JobStatus.queued started finished output now e k = cc
renewed JobStatus.running started finished output now e k = (refl, k.1, k.2)
renewed JobStatus.completed started finished output now e k = cc
renewed JobStatus.failed started finished output now e k = cc

claim-Keeps : (job : Option (Row Job)) (now : ℕ) → Keeps (claim job now)
unfolding claim
claim-Keeps none now = Keeps-pure none
claim-Keeps (some job) now =
    Keeps-bind _ _
      (Keeps-update Governed-jobs _ _ (λ j p e. claimed _ _ _ _ now (and_right _ _ e) p))
      (λ n. Keeps-pure (some job))

pub agent_jobs-Keeps : (node : Row Node) → Keeps (agent_jobs node)
unfolding agent_jobs
agent_jobs-Keeps node = search (keeps_rules, claim-Keeps) depth 12

pub renew_agent_job_lease-Keeps : (n : ℕ) (node : Row Node) → Keeps (renew_agent_job_lease n node)
unfolding renew_agent_job_lease
renew_agent_job_lease-Keeps n node = Keeps-bind _ _ Keeps-utc_ts (λ now.
    Keeps-bind _ _
      (Keeps-update Governed-jobs _ _ (λ j p e. renewed _ _ _ _ now (and_right _ _ e) p))
      (λ changed. Keeps-reject_if _ _ _))

fail_certificate-Keeps : (message : String) (n : ℕ) → Keeps (fail_certificate message n)
unfolding fail_certificate
fail_certificate-Keeps message n = search (keeps_rules, undated) depth 12

pub parsed-Keeps : {A : Type 0} (o : Option A) → Keeps (parsed o)
parsed-Keeps none = Keeps-throw crash
parsed-Keeps (some a) = Keeps-pure a

store_certificate-Keeps :
    (issuer cert_path key_path : Option String) (expires now n : ℕ) (node : Row Node)
    → Keeps (store_certificate issuer cert_path key_path expires now n node)
unfolding store_certificate
store_certificate-Keeps none cert_path key_path expires now n node = Keeps-refuse_clash _ _
store_certificate-Keeps (some issuer) cert_path key_path expires now n node =
    search keeps_rules depth 12

module _ (py : Python) where
  accept_certificate-Keeps :
      (m : Option Metadata) (n : ℕ) (node : Row Node) → Keeps (accept_certificate py m n node)
  unfolding accept_certificate
  accept_certificate-Keeps none n node = fail_certificate-Keeps _ n
  accept_certificate-Keeps (some m) n node =
      search (keeps_rules, parsed-Keeps, store_certificate-Keeps) depth 12

  read_certificate-Keeps : (o : Option Json) → Keeps (read_certificate py o)
  read_certificate-Keeps none = Keeps-pure none
  read_certificate-Keeps (some (obj cert)) = Keeps-pure _
  read_certificate-Keeps (some _) = Keeps-throw crash

  pub record_certificate-Keeps :
      (kind : JobKind) (payload : Dict) (result : JobResult) (node : Row Node)
      → Keeps (record_certificate py kind payload result node)
  unfolding record_certificate
  record_certificate-Keeps JobKind.certificate_issue payload result node =
      search
        (
          keeps_rules, parsed-Keeps, read_certificate-Keeps, accept_certificate-Keeps,
          fail_certificate-Keeps,
        )
        depth 14
  record_certificate-Keeps _ payload result node = Keeps-pure tt
