-- ===== src/Deployments/DeployKeeps.antt =====
-- A managed deployment keeps the database consistent: its two sides are two nodes.
use dark_noc.Base.{
  Option-cases, ℕ, String, ◌≡◌, refl, sym, ◌∙◌, ◌≢◌, inl, inr, Bool, true, false, Option, none,
  some, arith,
}
use dark_noc.Base.Json.{Dict}
use dark_noc.Store.Schema.{Node}
use dark_noc.Store.Table.{Row, find, find-id}
use dark_noc.Store.Tx.{◌>>=◌, ◌>>◌, Tx, reject_if}
use dark_noc.Store.Lift.{Checked}
use dark_noc.Store.Keeps.{
  Keeps, Keeps-pure, Keeps-throw, Keeps-found, Keeps-reject_if, Keeps-utc_ts, Keeps-bind,
}
use dark_noc.Store.Governed.{keeps_rules}
use dark_noc.Certificates.{CertificateSettings}
use dark_noc.Certificates.Keeps.{certificate_for_deployment-Keeps}
use dark_noc.Deployments.{Plugin}
use dark_noc.Deployments.Deploy.{
  check_nodes, insert_deployment, final_settings, deploy_on, deploy_between,
  deploy_managed_mutation,
}
use dark_noc.Deployments.Keeps.{lift-Keeps, queue_plugin_job-Keeps}
use dark_noc.Deployments.Managed.{
  PluginDeployBody, catalog_item, runtime_settings, validate_catalog_choices, CertificateSide,
  no_side, iran_side, kharej_side, wrong_side, choose_endpoint, add_certificate, side_certificate,
  standard_settings, realm_settings,
}
use dark_noc.Python.{Python}
use dark_noc.Realm.Render.{endpoint}
use dark_noc.World.{World}

module _ (py : Python) where
  choose_endpoint-Keeps :
      (normalize_ip : Option String → String) (is_ipv4 : String → Bool) (catalog : Plugin)
      (managed : String) (side : Row Node) (common : Dict)
      → Keeps (choose_endpoint py normalize_ip is_ipv4 catalog managed side common)
  unfolding choose_endpoint
  choose_endpoint-Keeps normalize_ip is_ipv4 catalog managed side common =
      search keeps_rules depth 16

  add_certificate-Keeps :
      (c : Option CertificateSettings) (b : Bool) (endpoint : String) (common : Dict)
      → Keeps (add_certificate py c b endpoint common)
  unfolding add_certificate
  add_certificate-Keeps none b endpoint common = Keeps-pure common
  add_certificate-Keeps (some c) b endpoint common = search keeps_rules depth 12

  side_certificate-Keeps :
      (s : CertificateSide) (body : PluginDeployBody) (x y : Row Node)
      → Keeps (side_certificate py s body x y)
  unfolding side_certificate
  side_certificate-Keeps no_side body x y = Keeps-pure none
  side_certificate-Keeps iran_side body x y = certificate_for_deployment-Keeps py _ _ _
  side_certificate-Keeps kharej_side body x y = certificate_for_deployment-Keeps py _ _ _
  side_certificate-Keeps wrong_side body x y = Keeps-throw _

  standard_settings-Keeps :
      (runtime : Dict) (body : PluginDeployBody) (x y : Row Node) (common : Dict)
      → Keeps (standard_settings py runtime body x y common)
  unfolding standard_settings
  standard_settings-Keeps runtime body x y common =
      search (keeps_rules, side_certificate-Keeps, add_certificate-Keeps) depth 16

  module _ (prepare : ℕ → Dict → String → Option CertificateSettings → Bool → Checked Dict) where
    realm_settings-Keeps :
        (runtime : Dict) (body : PluginDeployBody) (y : Row Node) (token : String) (common : Dict)
        → Keeps (realm_settings py prepare runtime body y token common)
    unfolding realm_settings
    realm_settings-Keeps runtime body y token common =
        search (keeps_rules, certificate_for_deployment-Keeps, lift-Keeps) depth 16

    final_settings-Keeps :
        (runtime : Dict) (body : PluginDeployBody) (x y : Row Node) (token : String) (common : Dict)
        → Keeps (final_settings py prepare runtime body x y token common)
    unfolding final_settings
    final_settings-Keeps runtime body x y token common =
        search (keeps_rules, realm_settings-Keeps, standard_settings-Keeps) depth 12

check_nodes-Keeps :
    (stale now : ℕ) (name : String) (x y : Row Node) → Keeps (check_nodes stale now name x y)
unfolding check_nodes
check_nodes-Keeps stale now name x y = search keeps_rules depth 16

insert_deployment-Keeps :
    (payload : Dict → Option String → String → Dict) (encrypt : Option String → Option String)
    (catalog : Plugin) (body : PluginDeployBody) (x y : Row Node) (token : String) (common : Dict)
    (user now : ℕ)
    → x.id ≢ y.id
    → Keeps (insert_deployment payload encrypt catalog body x y token common user now)
unfolding insert_deployment
insert_deployment-Keeps payload encrypt catalog body x y token common user now differ =
    search (keeps_rules, queue_plugin_job-Keeps) depth 16

module _ (w : World) (catalog : Plugin) (runtime : Dict) (body : PluginDeployBody) (token : String)
    (user now : ℕ) where
  deploy_on-Keeps :
      (x y : Row Node) → x.id ≢ y.id → Keeps (deploy_on w catalog runtime body token user now x y)
  unfolding deploy_on
  deploy_on-Keeps x y differ =
      search
        (
          keeps_rules, choose_endpoint-Keeps, final_settings-Keeps, check_nodes-Keeps,
          insert_deployment-Keeps,
        )
        depth 24

  deploy_between-Keeps :
      body.iran_node_id ≢ body.kharej_node_id
      → Keeps (deploy_between w catalog runtime body token user now)
  unfolding deploy_between ◌>>=◌
  deploy_between-Keeps differ = record {
    at = λ h c. elim (Option-cases (find body.iran_node_id h.node_table.rows)) [
      | inl e ↦ rw e tt
      | inr (x, e) ↦ elim (Option-cases (find body.kharej_node_id h.node_table.rows)) [
        | inl f ↦ rw (e, f) tt
        | inr (y, f) ↦
            rw (e, f)
              ((deploy_on-Keeps x y
                  (λ same. differ (sym (find-id _ _ x e) ∙ same ∙ find-id _ _ y f))).at
                h c)
      ]
    ];
  }

reject_then-Keeps :
    {A : Type 0} (b : Bool) (s : ℕ) (d : String) (m : Tx A)
    → (b ≡ false → Keeps m)
    → Keeps (reject_if b s d >> m)
unfolding ◌>>=◌
reject_then-Keeps true s d m k = record { at = λ h c. tt }
reject_then-Keeps false s d m k = record { at = λ h c. (k refl).at h c }

validate-Keeps : (catalog : Plugin) (t p : String) → Keeps (validate_catalog_choices catalog t p)
unfolding validate_catalog_choices
validate-Keeps catalog t p = search keeps_rules depth 12

pub deploy_managed-Keeps :
    (w : World) (plugin_id : String) (body : PluginDeployBody) (token : String) (user : ℕ)
    → Keeps (deploy_managed_mutation w plugin_id body token user)
unfolding deploy_managed_mutation catalog_item runtime_settings
deploy_managed-Keeps w plugin_id body token user = Keeps-bind _ _ (Keeps-found _ _ _) (λ catalog.
    Keeps-bind _ _ (Keeps-found _ _ _) (λ runtime.
      Keeps-bind _ _ (validate-Keeps catalog _ _) (λ valid. reject_then-Keeps _ _ _ _ (λ differ.
        Keeps-bind _ _ (Keeps-reject_if _ _ _) (λ ports. Keeps-bind _ _ Keeps-utc_ts (λ now.
          deploy_between-Keeps w catalog runtime body token user now (ground (arith, differ))))))))
