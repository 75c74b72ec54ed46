-- ===== src/Realm/Verified.antt =====
-- When the settings of a Realm tunnel give up the verification of the TLS certificate.
use dark_noc.Base.{ℕ, String, ◌≡◌, refl, ap, ◌∙◌, false, Option, none, some}
use dark_noc.Base.Json.{bool, Dict, get, put, merge}
use dark_noc.Fallible.{returned, Yields, Yields-returned, Yields-raise_if, Yields-bind, Yields-if}
use dark_noc.Certificates.{CertificateSettings}
use dark_noc.Python.{Python}
use dark_noc.Realm.Prepare.{Prepared, prepared_settings, prepare_parts, prepare_realm_settings}
use dark_noc.Realm.Settings.{uses_tls, Tls, certified, tls_source, tls_of}

module _ (py : Python) where
  IsVerified : Tls → Type 0
  IsVerified t = t.tls_insecure ≡ false

  tls_source-IsVerified :
      (c : CertificateSettings) (values : Dict) (gateway : String)
      → Yields IsVerified (tls_source py (some c) values gateway)
  unfolding IsVerified
  tls_source-IsVerified c values gateway = Yields-bind _ _ _ (λ d e. Yields-returned _ _ refl)

  tls_of-IsVerified :
      (certificate : Option CertificateSettings) (transport : String) (values : Dict)
      (gateway : String)
      → Yields IsVerified (tls_of py certificate false transport values gateway)
  unfolding tls_of IsVerified
  tls_of-IsVerified none transport values gateway =
      Yields-if _ (uses_tls transport) _ _
        (Yields-bind _ _ _
          (λ s e. Yields-bind _ _ _ (λ sni es. Yields-raise_if _ _ _ _ (λ k. absurd (cc k)))))
        (Yields-returned _ _ refl)
  tls_of-IsVerified (some c) transport values gateway =
      Yields-if _ (uses_tls transport) _ _
        (Yields-bind _ _ _ (λ s e. Yields-bind _ _ _ (λ sni es.
          Yields-raise_if _ _ _ _
            (λ k. Yields-returned _ _ ((tls_source-IsVerified c values gateway).at s e)))))
        (Yields-returned _ _ refl)

  get-insecure :
      (values : Dict) (p : Prepared) (certificate : Option CertificateSettings)
      → get "tls_insecure" (certified certificate (prepared_settings py values p))
        ≡ some (bool p.tls.tls_insecure)
  unfolding prepared_settings get merge put
  get-insecure values p none = refl
  get-insecure values p (some c) = refl

  module _ (ip_address : String → Option String) (time : ℕ) (values : Dict) (gateway_host : String)
      (certificate : Option CertificateSettings) where
    parts-IsVerified :
        Yields
          (λ p. IsVerified p.tls)
          (prepare_parts py ip_address time values gateway_host certificate false)
    unfolding prepare_parts
    parts-IsVerified = Yields-raise_if _ _ _ _ (λ t. Yields-raise_if _ _ _ _ (λ f.
        Yields-bind _ _ _ (λ mappings e. Yields-bind _ _ _ (λ g eg. Yields-bind _ _ _ (λ h eh.
          Yields-raise_if _ _ _ _ (λ alpn. Yields-bind _ _ _ (λ s et. Yields-bind _ _ _ (λ ws ew.
            Yields-bind _ _ _ (λ port ep. Yields-bind _ _ _ (λ created ec.
              Yields-returned _ _ ((tls_of-IsVerified certificate _ values g).at s et)))))))))))

    -- Whatever is asked for, the settings that the Hub prepares for a managed deployment (not for a
    -- Pair Code) do not switch off the verification of TLS certificates.
    pub prepare_realm_settings-verified :
        (settings : Dict)
        → prepare_realm_settings py ip_address time values gateway_host certificate false
          ≡ returned settings
        → get "tls_insecure" settings ≡ some (bool false)
    unfolding prepare_realm_settings IsVerified
    prepare_realm_settings-verified settings e =
        Yields.at
          (Yields-bind (λ (s : Dict). get "tls_insecure" s ≡ some (bool false))
            (prepare_parts py ip_address time values gateway_host certificate false)
            (λ p. returned (certified certificate (prepared_settings py values p)))
            (λ p ep. Yields-returned _ _ (
              get-insecure values p certificate
              ∙ ap (λ b. some (bool b)) (parts-IsVerified.at p ep))))
          settings e
