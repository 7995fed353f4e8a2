-- ===== src/Etsi014/Wrapper.antt =====
-- `NoServerNameVerification` of daisyway/src/internal/etsi014.rs as a verifier of `rustls`.
use daisyway.Base.{◌≡◌, refl, List, Result, ok, arith, and_then, and_then-eq-ok}
use daisyway.Etsi014.{Verdict, verified, verify_server_cert}

-- The trait `ServerCertVerifier`: what is checked of a certificate, and of the signatures of a
-- handshake.
pub record ServerCertVerifier (Cert Handshake Scheme : Type 0) : Type 0 where
  pub check_cert : Cert → Verdict
  pub verify_tls12_signature : Handshake → Verdict
  pub verify_tls13_signature : Handshake → Verdict
  pub supported_verify_schemes : List Scheme

module _ {Cert Handshake Scheme : Type 0} where
  unfoldable pub no_server_name_verification :
      ServerCertVerifier Cert Handshake Scheme → ServerCertVerifier Cert Handshake Scheme
  unfolding verify_server_cert
  no_server_name_verification inner = record {
    check_cert = verify_server_cert inner.check_cert;
    verify_tls12_signature = inner.verify_tls12_signature;
    verify_tls13_signature = inner.verify_tls13_signature;
    supported_verify_schemes = inner.supported_verify_schemes;
  }

  -- `build` makes the verifier of `WebPkiServerVerifier` for some roots.
  unfoldable pub from_roots :
      {Roots : Type 0}
      → (Roots → Result (ServerCertVerifier Cert Handshake Scheme))
      → Roots
      → Result (ServerCertVerifier Cert Handshake Scheme)
  unfolding no_server_name_verification
  from_roots build roots = and_then (build roots) λ inner. ok (no_server_name_verification inner)

  -- A verifier made from roots is never stricter than the verifier for these roots, and checks
  -- signatures as that one does.
  pub from_roots_lem :
      {Roots : Type 0} (build : Roots → Result (ServerCertVerifier Cert Handshake Scheme))
      (roots : Roots) (v : ServerCertVerifier Cert Handshake Scheme)
      → from_roots build roots ≡ ok v
      → (inner : ServerCertVerifier Cert Handshake Scheme) × (build roots ≡ ok inner)
        × ((c : Cert) → inner.check_cert c ≡ verified → v.check_cert c ≡ verified)
        × ((h : Handshake) → v.verify_tls12_signature h ≡ inner.verify_tls12_signature h)
        × ((h : Handshake) → v.verify_tls13_signature h ≡ inner.verify_tls13_signature h)
  unfolding from_roots no_server_name_verification verify_server_cert
  from_roots_lem build roots v e =
      let (inner, f, g) =
        and_then-eq-ok (build roots) (λ inner. ok (no_server_name_verification inner)) e in
      let wrapped : no_server_name_verification inner ≡ v = ground arith in
      (inner, f, λ c h. rw (← wrapped, h) refl, λ h. rw (← wrapped) refl, λ h. rw (← wrapped) refl)
