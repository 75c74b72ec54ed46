-- ===== src/Maintenance/Expiry.antt =====
-- What the statuses of certificates say after a maintenance cycle has aged them.
use dark_noc.Base.{
  leb, if◌then◌else◌, Option-cases, ℕ, ◌+◌, ◌*◌, ◌≡◌, refl, inl, inr, ◌&&◌, Option, none, some,
  arith,
}
use dark_noc.Store.Schema.{CertificateStatus, Certificate}
use dark_noc.Store.Table.{Row, find, amend_if, find-update}
use dark_noc.Store.Hub.{Hub}
use dark_noc.Store.Tx.{◌>>=◌, settle}
use dark_noc.Certificates.{is_valid}
use dark_noc.Maintenance.{is_between, is_past, age_certificates}

-- The status of a certificate as its date says at this time.
abbrev pub dated : ℕ → CertificateStatus → Option ℕ → CertificateStatus
dated now s none = s
dated now CertificateStatus.valid (some e) =
    if leb e now
    then CertificateStatus.expired
    else if leb e (now + 14 * 24 * 60 * 60)
    then CertificateStatus.expiring
    else CertificateStatus.valid
dated now s (some e) = if leb e now then CertificateStatus.expired else s

abbrev pub certificate_status : Option (Row Certificate) → Option CertificateStatus
certificate_status none = none
certificate_status (some c) = some c.cols.status

abbrev pub dated_row : ℕ → Option (Row Certificate) → Option CertificateStatus
dated_row now none = none
dated_row now (some c) = some (dated now c.cols.status c.cols.expires_at)

-- The two statements on one row, with its status and date.
abbrev with_date : Row Certificate → CertificateStatus → Option ℕ → Row Certificate
with_date r s o = record r { cols = record r.cols { status = s; expires_at = o } }

abbrev aged : ℕ → Row Certificate → Option (Row Certificate)
aged now r =
    amend_if (λ c. is_valid c.cols.status && is_between now (now + 14 * 86400) c.cols.expires_at)
      (λ c. record c { status = CertificateStatus.expiring; updated_at = now })
      (amend_if (λ c. is_past now c.cols.expires_at)
        (λ c. record c { status = CertificateStatus.expired; updated_at = now }) (some r))

aged-dated :
    (now : ℕ) (r : Row Certificate) (s : CertificateStatus) (o : Option ℕ)
    → certificate_status (aged now (with_date r s o)) ≡ some (dated now s o)
aged-dated now r CertificateStatus.valid none = refl
aged-dated now r CertificateStatus.valid (some e) = ground arith
aged-dated now r _ none = ground arith
aged-dated now r _ (some e) = ground arith

-- After a maintenance cycle has aged the certificates, each one has the status that its date says:
-- it is expired if its date has come, expiring if it was valid and its date comes within 14 days,
-- and in every other case, no date included, its status is as it was.
pub age_certificates-dated :
    (now n : ℕ) (h : Hub)
    → certificate_status (find n (settle h (age_certificates now h)).certificate_table.rows)
      ≡ dated_row now (find n h.certificate_table.rows)
unfolding age_certificates ◌>>=◌
age_certificates-dated now n h =
    rw (find-update n, find-update n)
      (elim (Option-cases (find n h.certificate_table.rows)) [
        | inl e ↦ rw e refl
        | inr (r, e) ↦ rw e (aged-dated now r r.cols.status r.cols.expires_at)
      ])
