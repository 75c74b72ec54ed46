-- ===== src/Certificates.antt =====
-- TLS certificates: the certificate operations of hub/certificate_fleet_service.py, and
-- `certificate_for_deployment` of hub/app.py.
pub mod Keeps
pub mod Listener
use dark_noc.Base.{
  ltb, ◌==◌, if◌then◌else◌, truthy, concat, is_ref, any_row, ℕ, ◌+◌, String, Bool, true, false, not,
  ◌&&◌, ◌||◌, Option, none, some, List, [], ◌∷◌, map, str_eq,
}
use dark_noc.Base.Json.{bool, num, str, Dict, end, field}
use dark_noc.Store.Schema.{JobKind, JobStatus, Job, CertificateStatus, Certificate}
use dark_noc.Store.Bodies.{CertificateBody}
use dark_noc.Store.Table.{Row}
use dark_noc.Store.Hub.{nodes, jobs, certificates}
use dark_noc.Store.Tx.{Tx, pure, found, reject_if, utc_ts, insert, update, fetch_one, ◌>>=◌, ◌>>◌}
use dark_noc.Nodes.{is_offline}
use dark_noc.Python.{Python}

abbrev pub certificate_job : ℕ → Dict → Option ℕ → ℕ → Job
certificate_job node_id payload created_by now = record {
  node_id = node_id;
  kind = JobKind.certificate_issue;
  payload = payload;
  status = JobStatus.queued;
  output = none;
  created_by = created_by;
  created_at = now;
  started_at = none;
  finished_at = none;
}

abbrev pub issue_payload : ℕ → String → Dict
issue_payload cert_id domain =
    field "certificate_id" (num cert_id) (field "domain" (str domain) end)

abbrev pub renew_payload : ℕ → String → Dict
renew_payload cert_id domain =
    field "certificate_id" (num cert_id)
      (field "domain" (str domain) (field "renew" (bool true) end))

-- resolved.intersection(expected), where the empty text is not expected
abbrev pub meets : List String → List String → Bool
meets resolved expected =
    any_row (λ r. any_row (λ e. str_eq r e && not (str_eq e "")) expected) resolved

-- if existing: UPDATE …, else INSERT …; the answer is the certificate's id.
unfoldable pub upsert_certificate : Option (Row Certificate) → ℕ → String → ℕ → ℕ → Tx ℕ
upsert_certificate (some existing) node_id domain user_id now = do
  update certificates (λ c. c.id == existing.id)
      (λ c. record c { status = CertificateStatus.pending; last_error = none; updated_at = now })
  pure existing.id
upsert_certificate none node_id domain user_id now = insert certificates (record {
  node_id = node_id;
  domain = domain;
  status = CertificateStatus.pending;
  issuer = "letsencrypt";
  cert_path = none;
  key_path = none;
  expires_at = none;
  job_id = none;
  last_error = none;
  created_by = some user_id;
  created_at = now;
  updated_at = now;
})

pub record Issued : Type 0 where
  pub certificate_id : ℕ
  pub job_id : ℕ
  pub domain : String
  pub node_name : String

-- `getaddrinfo` gives the addresses of a domain, or `none` for a gaierror.
unfoldable pub issue_certificate_mutation :
    Python
    → (String → Option (List String))
    → (Option String → String)
    → ℕ
    → CertificateBody
    → ℕ
    → Tx Issued
issue_certificate_mutation py getaddrinfo normalize_ip node_stale_after body user_id = do
  let domain = py.without_dots (py.casefold body.domain)
  row ← fetch_one nodes (λ n. n.id == body.node_id)
  node ← found row 404 "Node not found"
  checked_at ← (if truthy node.cols.last_seen then utc_ts else pure 0)
  reject_if (is_offline node.cols.last_seen checked_at node_stale_after) 409
      "The selected Agent must be online"
  addresses ← found (getaddrinfo domain) 422 "Domain DNS does not resolve yet"
  let resolved = map (λ a. normalize_ip (some a)) addresses
  let expected = normalize_ip (some node.cols.host) ∷ normalize_ip node.cols.observed_ip ∷ []
  reject_if (not (meets resolved expected)) 422 (
      concat
        ("DNS mismatch: domain resolves to " ∷ py.listed resolved ∷ ", not the selected node" ∷ []))
  now ← utc_ts
  existing ←
      fetch_one certificates (λ c. c.cols.node_id == body.node_id && str_eq c.cols.domain domain)
  cert_id ← upsert_certificate existing body.node_id domain user_id now
  job_id ←
      insert jobs (certificate_job body.node_id (issue_payload cert_id domain) (some user_id) now)
  update certificates (λ c. c.id == cert_id) (λ c. record c { job_id = some job_id })
  pure (record {
    certificate_id = cert_id;
    job_id = job_id;
    domain = domain;
    node_name = node.cols.name;
  })

unfoldable pub renew_certificate_mutation : ℕ → ℕ → ℕ → Tx (Row Certificate × ℕ)
renew_certificate_mutation node_stale_after certificate_id user_id = do
  row ← fetch_one certificates (λ c. c.id == certificate_id)
  cert ← found row 404 "Certificate not found"
  joined ← fetch_one nodes (λ n. n.id == cert.cols.node_id)
  node ← found joined 404 "Certificate not found"
  checked_at ← (if truthy node.cols.last_seen then utc_ts else pure 0)
  reject_if (is_offline node.cols.last_seen checked_at node_stale_after) 409 "Agent is offline"
  queued_at ← utc_ts
  job_id ← insert jobs (
      certificate_job cert.cols.node_id (renew_payload cert.id cert.cols.domain) (some user_id)
        queued_at)
  now ← utc_ts
  update certificates (λ c. c.id == certificate_id)
      (λ c. record c {
        status = CertificateStatus.renewing;
        job_id = some job_id;
        last_error = none;
        updated_at = now;
      })
  pure (cert, job_id)

abbrev pub secure_transports : List String
secure_transports =
    "tls" ∷ "wss" ∷ "wssmux" ∷ "h2" ∷ "http2" ∷ "grpc" ∷ "relay+tls" ∷ "relay+wss" ∷ "relay+h2"
    ∷ "relay+grpc" ∷ []

unfoldable pub transport_requires_certificate : Python → String → Bool
transport_requires_certificate py transport =
    any_row (λ t. str_eq (py.casefold transport) t) secure_transports

abbrev pub is_valid : CertificateStatus → Bool
is_valid CertificateStatus.valid = true
is_valid _ = false

-- row["expires_at"] is set and later than a day from now
abbrev pub lasts : ℕ → Option ℕ → Bool
lasts now none = false
lasts now (some e) = not (e == 0) && ltb (now + 86400) e

pub record CertificateSettings : Type 0 where
  pub certificate_id : ℕ
  pub certificate_domain : String
  pub certificate_path : Option String
  pub certificate_key_path : Option String

-- utc_ts is read only for a valid certificate with an expiry date
abbrev pub read_clock : Row Certificate → Tx ℕ
read_clock row = if is_valid row.cols.status && truthy row.cols.expires_at then utc_ts else pure 0

unfoldable pub listener_certificate : Option ℕ → ℕ → Tx CertificateSettings
listener_certificate certificate_id node_id = do
  reject_if (not (truthy certificate_id)) 422 "This transport requires a valid TLS certificate"
  found_row ← fetch_one certificates (λ c. is_ref certificate_id c.id && c.cols.node_id == node_id)
  row ← found found_row 404 "Certificate was not found on the selected transport-listener node"
  now ← read_clock row
  reject_if (not (is_valid row.cols.status) || not (lasts now row.cols.expires_at)) 409
      "Certificate is not valid or expires in less than 24 hours"
  pure (record {
    certificate_id = row.id;
    certificate_domain = row.cols.domain;
    certificate_path = row.cols.cert_path;
    certificate_key_path = row.cols.key_path;
  })

unfoldable pub certificate_for_deployment :
    Python → Option ℕ → ℕ → String → Tx (Option CertificateSettings)
certificate_for_deployment py certificate_id node_id transport =
    if transport_requires_certificate py transport
    then (do settings ← listener_certificate certificate_id node_id; pure (some settings))
    else pure none
