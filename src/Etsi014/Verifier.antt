-- ===== src/Etsi014/Verifier.antt =====
-- The certificates that daisyway/src/internal/etsi014.rs takes, and the verifier that it sets.
use daisyway.Base.{
  ◌≡◌, ◌⊎◌, ◌≢◌, refl, inl, inr, List, Option, none, some, Bool, true, false, ok, arith,
  and_then-eq-ok, unwrap, unwrap-eq-ok, is_ok, Result-cases, ap, ◌∙◌, String, context,
  context-eq-ok,
}
use daisyway.Crypto.Key.{Bytes}
use daisyway.Etsi014.{
  Verdict, verified, refused, invalid_certificate, other_tls_error, not_valid_for_name,
  not_valid_for_name_context, other_certificate_error, tolerate, verify_server_cert, Etsi014Config,
  ClientAuth, ClientConfig, Rustls, configure_rustls, load_roots, load_verifier, load_client_auth,
}

-- A refusal that is only about the server's name.
abbrev pub AboutName : Verdict → Type 0
AboutName v =
    (v ≡ refused (invalid_certificate not_valid_for_name))
    ⊎ ((names : List Bytes) × (v
          ≡ refused (invalid_certificate (not_valid_for_name_context names))))

tolerate_lem :
    (v : Verdict)
    → ((tolerate v ≡ verified) × ((v ≡ verified) ⊎ AboutName v))
      ⊎ ((tolerate v ≢ verified) × (tolerate v ≡ v))
tolerate_lem verified = inl (refl, inl refl)
tolerate_lem (refused (invalid_certificate not_valid_for_name)) = inl (refl, inr (inl refl))
tolerate_lem (refused (invalid_certificate (not_valid_for_name_context names))) =
    inl (refl, inr (inr (names, refl)))
tolerate_lem (refused (invalid_certificate (other_certificate_error x))) =
    inr (λ f. ground arith, refl)
tolerate_lem (refused (other_tls_error x)) = inr (λ f. ground arith, refl)

-- A certificate is taken if the inner verifier takes it or refuses it only for its name; in all
-- other cases it is refused, as the inner verifier refuses it.
pub verify_server_cert_lem :
    {Cert : Type 0} (inner : Cert → Verdict) (cert : Cert)
    → ((verify_server_cert inner cert ≡ verified)
        × ((inner cert ≡ verified) ⊎ AboutName (inner cert)))
      ⊎ ((verify_server_cert inner cert ≢ verified) × (verify_server_cert inner cert ≡ inner cert))
unfolding verify_server_cert
verify_server_cert_lem inner cert = tolerate_lem (inner cert)

module _ {FilePath Cert PrivateKey Roots Verifier : Type 0}
    (rustls : Rustls FilePath Cert PrivateKey Roots Verifier) where
  open rustls use {
    install_default, certificate_from_pem_file, key_from_pem_file, no_roots, add,
    check_client_auth_cert, web_pki,
  }

  -- The roots are the certificate of the file, if there is one, and else there are none.
  abbrev pub TrustsOnly : Option FilePath → Roots → Type 0
  TrustsOnly none roots = roots ≡ no_roots
  TrustsOnly (some cacert_path) roots =
      (cacert : Cert) × (certificate_from_pem_file cacert_path ≡ ok cacert)
      × (add no_roots cacert ≡ ok roots)

  -- The client presents the certificate of the one file, with the key of the other, which fit, if
  -- the settings name them, and else nothing.
  abbrev pub Presents : Option (ClientAuth FilePath) → Option (Cert × PrivateKey) → Type 0
  Presents none presented = presented ≡ none
  Presents (some auth) presented =
      (cert : Cert) × (key : PrivateKey) × (certificate_from_pem_file auth.tls_cert ≡ ok cert)
      × (key_from_pem_file auth.tls_key ≡ ok key)
      × (check_client_auth_cert cert key ≡ ok tt)
      × (presented ≡ some (cert, key))

  -- A server's name is ignored if and only if the settings say so.
  abbrev pub Ignores : Bool → Roots → Option Verifier → Type 0
  Ignores false roots verifier = verifier ≡ none
  Ignores true roots verifier = (v : Verifier) × (web_pki roots ≡ ok v) × (verifier ≡ some v)

  load_roots-TrustsOnly :
      (path : Option FilePath) (roots : Roots)
      → load_roots rustls path ≡ ok roots
      → TrustsOnly path roots
  load_roots-TrustsOnly none roots e = ground arith
  load_roots-TrustsOnly (some path) roots e =
      let (cacert, f, g) =
        and_then-eq-ok
          (context "Failed to read TLS CA certificate from file" (certificate_from_pem_file path)) _
          e in
      (
        cacert,
        context-eq-ok "Failed to read TLS CA certificate from file" (certificate_from_pem_file path)
            f,
        context-eq-ok "Failed to add TLS CA certificate to RootCertStore" (add no_roots cacert) g,
      )

  load_client_auth-Presents :
      (auth : Option (ClientAuth FilePath)) (presented : Option (Cert × PrivateKey))
      → load_client_auth rustls auth ≡ ok presented
      → Presents auth presented
  load_client_auth-Presents none presented e = ground arith
  load_client_auth-Presents (some auth) presented e =
      let (cert, f1, g1) =
        and_then-eq-ok
          (context "Failed to read TLS client certificate from file"
            (certificate_from_pem_file auth.tls_cert))
          _ e in
      let (key, f2, g2) =
        and_then-eq-ok
          (context "Failed to read TLS client key from file" (key_from_pem_file auth.tls_key)) _
          g1 in
      let (_, f3, g3) = and_then-eq-ok (check_client_auth_cert cert key) _ g2 in
      (
        cert,
        key,
        context-eq-ok "Failed to read TLS client certificate from file"
            (certificate_from_pem_file auth.tls_cert) f1,
        context-eq-ok "Failed to read TLS client key from file" (key_from_pem_file auth.tls_key) f2,
        f3,
        ground arith,
      )

  load_verifier-Ignores :
      (danger : Bool) (roots : Roots) (verifier : Option Verifier)
      → load_verifier rustls danger roots ≡ ok verifier
      → Ignores danger roots verifier
  load_verifier-Ignores false roots verifier e = ground arith
  load_verifier-Ignores true roots verifier e =
      let (v, f, g) = and_then-eq-ok (web_pki roots) _ e in (v, f, ground arith)

  -- The TLS configuration is the one of the settings, and the provider was installed.
  abbrev pub Matches : Etsi014Config FilePath → ClientConfig Cert PrivateKey Roots Verifier → Type 0
  Matches config made =
      (install_default ≡ ok tt)
      × TrustsOnly config.tls_cacert made.roots
      × Presents config.client_auth made.client_auth
      × Ignores config.danger_allow_insecure_no_server_name_certificates made.roots
          made.no_server_name_verification

  configure_rustls-Matches :
      (config : Etsi014Config FilePath) (c : Option (ClientConfig Cert PrivateKey Roots Verifier))
      → configure_rustls rustls config ≡ ok c
      → (made : ClientConfig Cert PrivateKey Roots Verifier) × (c ≡ some made) × Matches config made
  unfolding configure_rustls
  configure_rustls-Matches config c e =
      let provider : String = "Failed to install rustls crypto provider" in
      let (_, d, e1) = and_then-eq-ok (unwrap provider install_default) _ e in
      let (roots, f, e2) = and_then-eq-ok (load_roots rustls config.tls_cacert) _ e1 in
      let (auth, g, e3) = and_then-eq-ok (load_client_auth rustls config.client_auth) _ e2 in
      let (verifier, h, e4) =
        and_then-eq-ok
          (load_verifier rustls config.danger_allow_insecure_no_server_name_certificates roots) _
          e3 in
      (
        record { roots = roots; client_auth = auth; no_server_name_verification = verifier },
        ground arith,
        (
          unwrap-eq-ok provider install_default d,
          load_roots-TrustsOnly config.tls_cacert roots f,
          load_client_auth-Presents config.client_auth auth g,
          load_verifier-Ignores config.danger_allow_insecure_no_server_name_certificates roots
              verifier h,
        ),
      )

  load_roots_ok :
      (path : Option FilePath) (roots : Roots)
      → TrustsOnly path roots
      → load_roots rustls path ≡ ok roots
  load_roots_ok none roots e = rw e refl
  load_roots_ok (some path) roots (cacert, e, f) = rw (e, f) refl

  load_client_auth_ok :
      (auth : Option (ClientAuth FilePath)) (presented : Option (Cert × PrivateKey))
      → Presents auth presented
      → load_client_auth rustls auth ≡ ok presented
  load_client_auth_ok none presented e = rw e refl
  load_client_auth_ok (some auth) presented (cert, key, e, f, g, h) = rw (e, f, g, h) refl

  load_verifier_ok :
      (danger : Bool) (roots : Roots) (verifier : Option Verifier)
      → Ignores danger roots verifier
      → load_verifier rustls danger roots ≡ ok verifier
  load_verifier_ok false roots verifier e = rw e refl
  load_verifier_ok true roots verifier (v, e, f) = rw (e, f) refl

  configure_rustls_ok :
      (config : Etsi014Config FilePath) (made : ClientConfig Cert PrivateKey Roots Verifier)
      → Matches config made
      → configure_rustls rustls config ≡ ok (some made)
  unfolding configure_rustls
  configure_rustls_ok config made (installed, trusts, presents, ignores) =
      rw
        (
          installed,
          load_roots_ok config.tls_cacert made.roots trusts,
          load_client_auth_ok config.client_auth made.client_auth presents,
          load_verifier_ok config.danger_allow_insecure_no_server_name_certificates made.roots
              made.no_server_name_verification ignores,
        )
        refl

  -- The set-up of TLS makes a configuration that matches the settings, or it fails, and then the
  -- provider is not installed or no configuration matches them. One that matches trusts only the
  -- certificate of the configured file, if one is named, and else no certificate; it presents the
  -- client certificate and key of the two configured files, which were checked to fit each other,
  -- if these are named, and else none; and the server's name is ignored if and only if the
  -- settings say so, by a verifier for the same roots.
  pub configure_rustls_lem :
      (config : Etsi014Config FilePath)
      → ((made : ClientConfig Cert PrivateKey Roots Verifier) × (configure_rustls rustls config
            ≡ ok (some made))
          × Matches config made)
        ⊎ ((is_ok (configure_rustls rustls config) ≡ false)
            × (¬ ((made : ClientConfig Cert PrivateKey Roots Verifier) × Matches config made)))
  configure_rustls_lem config = elim (Result-cases (configure_rustls rustls config)) [
    | inl (c, e) ↦
        let (made, same, m) = configure_rustls-Matches config c e in inl (made, (e ∙ ap ok same), m)
    | inr e ↦ inr (e, λ (made, m). ground (arith, configure_rustls_ok config made m))
  ]
