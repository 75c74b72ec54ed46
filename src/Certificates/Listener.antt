-- ===== src/Certificates/Listener.antt =====
-- The certificate that a deployment gets.
use dark_noc.Base.{
  ltb, ◌==◌, if◌then◌else◌, Option-cases, is_ref, first_row, ℕ, zero, suc, ◌+◌, ◌*◌, ◌≡◌, refl, inl,
  inr, Bool, false, ◌&&◌, Option, none, some, List, [], ◌∷◌, arith,
}
use dark_noc.Store.Schema.{Certificate}
use dark_noc.Store.Table.{Row, Rising, find, find_below, keep_if}
use dark_noc.Store.Hub.{Hub}
use dark_noc.Store.Tx.{◌>>=◌}
use dark_noc.Store.Valid.{Consistent}
use dark_noc.Certificates.{is_valid, CertificateSettings, listener_certificate}
use dark_noc.Store.Ends.{answer_of}

-- A query by id with another condition: ids are unique.
first_row-id :
    (lo n : ℕ) (test : Row Certificate → Bool) (rows : List (Row Certificate)) (hi : ℕ)
    → Rising lo rows hi
    → first_row (λ r. is_ref (some n) r.id && test r) rows ≡ keep_if test (find n rows)
unfolding first_row
first_row-id lo n test [] hi k = refl
first_row-id lo n test (x ∷ rows) hi k =
    ground
      (arith, first_row-id (suc x.id) n test rows hi k.1, find_below (suc x.id) n rows hi k.1, k.0)

abbrev settings_of_row : Row Certificate → CertificateSettings
settings_of_row row = record {
  certificate_id = row.id;
  certificate_domain = row.cols.domain;
  certificate_path = row.cols.cert_path;
  certificate_key_path = row.cols.key_path;
}

abbrev lasts_a_day : ℕ → Option ℕ → Bool
lasts_a_day now none = false
lasts_a_day now (some e) = ltb (now + 24 * 60 * 60) e

-- What a deployment gets of the certificate with the id that it names: one that belongs to the
-- listening node, is valid, and lasts more than a day from `now`.
abbrev pub usable : ℕ → ℕ → Option (Row Certificate) → Option CertificateSettings
usable now node_id none = none
usable now node_id (some row) =
    if row.cols.node_id == node_id
      && is_valid row.cols.status
      && lasts_a_day now row.cols.expires_at
    then some (settings_of_row row)
    else none

-- The certificate with the id that a request names; there is none with the id 0.
abbrev pub named : Option ℕ → Hub → Option (Row Certificate)
named none h = none
named (some zero) h = none
named (some (suc n)) h = find (suc n) h.certificate_table.rows

-- In a consistent database, a deployment that needs TLS gets a certificate exactly if the one that
-- it asks for exists, belongs to the listening node, is valid, and lasts more than 24 hours from
-- the time of the request; it gets the id, the domain and the paths of that certificate.
pub listener_certificate-usable :
    (certificate_id : Option ℕ) (node_id : ℕ) (h : Hub)
    → Consistent h
    → answer_of (listener_certificate certificate_id node_id h)
      ≡ usable (h.clock h.readings) node_id (named certificate_id h)
unfolding listener_certificate ◌>>=◌
listener_certificate-usable none node_id h c = refl
listener_certificate-usable (some zero) node_id h c = refl
listener_certificate-usable (some (suc n)) node_id h c =
    let owned : Row Certificate → Bool = λ r. r.cols.node_id == node_id in
    let same = first_row-id 0 (suc n) owned h.certificate_table.rows _ c.certificates.rising in
    let stored = find (suc n) h.certificate_table.rows in
    rw same (elim (Option-cases stored) [
      | inl e ↦ rw e refl
      | inr (row, e) ↦ elim (Option-cases row.cols.expires_at) [
        | inl x ↦ rw (e, x) (ground arith)
        | inr (t, x) ↦ rw (e, x) (ground arith)
      ]
    ])
