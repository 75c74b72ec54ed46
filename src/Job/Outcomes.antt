-- ===== src/Job/Outcomes.antt =====
-- What a job's result changes besides the job: the branches of `agent_job_result` for a
-- certificate, a monitor, a fleet operation and a deployment, in the order of the source.
use dark_noc.Base.{◌==◌, if◌then◌else◌, clip_end, ℕ, String, ◌&&◌, Option, none, some}
use dark_noc.Base.Json.{Json, num, str, obj, Dict, get}
use dark_noc.Store.Schema.{Node, JobKind, CertificateStatus}
use dark_noc.Store.Bodies.{JobResult}
use dark_noc.Store.Table.{Row}
use dark_noc.Store.Hub.{certificates}
use dark_noc.Store.Tx.{crash, Tx, pure, throw, utc_ts, update, refuse_clash, ◌>>=◌, ◌>>◌}
use dark_noc.Job.{is_completed}
use dark_noc.Python.{Python}

-- json.loads(row["payload"]).get("certificate_id", 0)
abbrev pub requested : Option Json → Json
requested none = num 0
requested (some v) = v

abbrev pub parsed : {A : Type 0} → Option A → Tx A
parsed none = throw crash
parsed (some a) = pure a

unfoldable pub fail_certificate : String → ℕ → Tx (Unit {0})
fail_certificate message cert_id = do
  now ← utc_ts
  update certificates (λ c. c.id == cert_id)
      (λ c. record c {
        status = CertificateStatus.failed;
        last_error = some message;
        updated_at = now;
      })
  pure tt

-- The issuer, the two paths and the expiry date that an agent reports.
pub record Metadata : Type 0 where
  pub issuer : Json
  pub cert_path : Json
  pub key_path : Json
  pub expires_at : ℕ

abbrev pub default : Option Json → Json → Json
default none d = d
default (some v) d = v

-- int(cert["expires_at"]) of a key that may be missing
abbrev pub int_at : Python → Option Json → Option ℕ
int_at py none = none
int_at py (some v) = py.int v

abbrev pub metadata : Json → Option Json → Option Json → Option ℕ → Option Metadata
metadata issuer (some c) (some k) (some e) =
    some (record { issuer = issuer; cert_path = c; key_path = k; expires_at = e })
metadata issuer _ _ _ = none

-- UPDATE certificates SET status='valid', … WHERE id=? AND node_id=?; `issuer` is NOT NULL.
unfoldable pub store_certificate :
    Option String → Option String → Option String → ℕ → ℕ → ℕ → Row Node → Tx (Unit {0})
store_certificate none cert_path key_path expires_at now cert_id node =
    refuse_clash certificates (λ c. c.id == cert_id && c.cols.node_id == node.id)
store_certificate (some issuer) cert_path key_path expires_at now cert_id node = do
  update certificates (λ c. c.id == cert_id && c.cols.node_id == node.id)
      (λ c. record c {
        status = CertificateStatus.valid;
        issuer = issuer;
        cert_path = cert_path;
        key_path = key_path;
        expires_at = some expires_at;
        last_error = none;
        updated_at = now;
      })
  pure tt

module _ (py : Python) where
  -- `none` is one of the exceptions that the source catches
  unfoldable pub accept_certificate : Option Metadata → ℕ → Row Node → Tx (Unit {0})
  accept_certificate none cert_id node =
      fail_certificate "Agent returned invalid certificate metadata" cert_id
  accept_certificate (some m) cert_id node = do
    now ← utc_ts
    issuer ← parsed (py.column m.issuer)
    cert_path ← parsed (py.column m.cert_path)
    key_path ← parsed (py.column m.key_path)
    store_certificate issuer cert_path key_path m.expires_at now cert_id node

  -- A JSON value that is no object has no `get`: an AttributeError, which nothing catches.
  abbrev pub read_certificate : Option Json → Tx (Option Metadata)
  read_certificate none = pure none
  read_certificate (some (obj cert)) = pure (
      metadata (default (get "issuer" cert) (str "letsencrypt")) (get "cert_path" cert)
        (get "key_path" cert) (int_at py (get "expires_at" cert)))
  read_certificate (some _) = throw crash

  -- if row["kind"] == "certificate_issue":
  unfoldable pub record_certificate : JobKind → Dict → JobResult → Row Node → Tx (Unit {0})
  record_certificate JobKind.certificate_issue payload result node = do
    cert_id ← parsed (py.int (requested (get "certificate_id" payload)))
    if is_completed result.status
        then (do
          cert ← read_certificate (py.loads result.output)
          accept_certificate cert cert_id node)
        else fail_certificate (clip_end 2000 result.output) cert_id
  record_certificate _ payload result node = pure tt
