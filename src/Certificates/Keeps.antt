-- ===== src/Certificates/Keeps.antt =====
-- Every operation on certificates keeps the database consistent.
use dark_noc.Base.{ℕ, String, Option, none, some, List}
use dark_noc.Store.Schema.{Certificate}
use dark_noc.Store.Bodies.{CertificateBody}
use dark_noc.Store.Table.{Row}
use dark_noc.Store.Valid.{undated}
use dark_noc.Store.Keeps.{Keeps, Keeps-insert}
use dark_noc.Store.Governed.{Governed-certificates, keeps_rules}
use dark_noc.Certificates.{
  upsert_certificate, issue_certificate_mutation, renew_certificate_mutation, listener_certificate,
  certificate_for_deployment,
}
use dark_noc.Python.{Python}

upsert_certificate-Keeps :
    (existing : Option (Row Certificate)) (node_id : ℕ) (domain : String) (user now : ℕ)
    → Keeps (upsert_certificate existing node_id domain user now)
unfolding upsert_certificate
upsert_certificate-Keeps (some c) node_id domain user now = search (keeps_rules, undated) depth 12
upsert_certificate-Keeps none node_id domain user now =
    Keeps-insert Governed-certificates _ (λ e. cc)

pub issue_certificate-Keeps :
    (py : Python) (getaddrinfo : String → Option (List String))
    (normalize_ip : Option String → String) (stale : ℕ) (body : CertificateBody) (user : ℕ)
    → Keeps (issue_certificate_mutation py getaddrinfo normalize_ip stale body user)
unfolding issue_certificate_mutation
issue_certificate-Keeps py getaddrinfo normalize_ip stale body user =
    search (keeps_rules, upsert_certificate-Keeps) depth 30

pub renew_certificate-Keeps : (stale n user : ℕ) → Keeps (renew_certificate_mutation stale n user)
unfolding renew_certificate_mutation
renew_certificate-Keeps stale n user = search (keeps_rules, undated) depth 30

listener_certificate-Keeps : (c : Option ℕ) (n : ℕ) → Keeps (listener_certificate c n)
unfolding listener_certificate
listener_certificate-Keeps c n = search keeps_rules depth 20

pub certificate_for_deployment-Keeps :
    (py : Python) (c : Option ℕ) (n : ℕ) (transport : String)
    → Keeps (certificate_for_deployment py c n transport)
unfolding certificate_for_deployment
certificate_for_deployment-Keeps py c n transport =
    search (keeps_rules, listener_certificate-Keeps) depth 12
