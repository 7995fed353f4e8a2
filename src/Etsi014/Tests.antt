-- ===== src/Etsi014/Tests.antt =====
-- Responses and certificates for daisyway/src/internal/etsi014.rs, with a decoder that copies.
use daisyway.Base.{
  ℕ, ◌≡◌, ◌≢◌, ◌≤◌, ◌<◌, ◌⊎◌, refl, List, [], ◌∷◌, none, some, true, ok, is_ok, false, is_panic,
  replicate, arith,
}
use daisyway.Crypto.Key.{IsKey, key_length}
use daisyway.Util.Tests.{copying, copied, ones}
use daisyway.Etsi014.{
  Verdict, verified, refused, invalid_certificate, not_valid_for_name_context, verify_server_cert,
  Rustls, Etsi014Config, ClientConfig, configure_rustls, Response, ResponseKey, read_response,
  key_of_responses, key_of_response,
}
use daisyway.Etsi014.Verifier.{AboutName, verify_server_cert_lem, Matches, configure_rustls_lem}
use daisyway.Etsi014.Outcomes.{IsRead, read_response-IsRead}
use daisyway.Etsi014.Responses.{read_response_sound, read_response-malformed}

abbrev wrong_name : ℕ → Verdict
wrong_name cert = refused (invalid_certificate (not_valid_for_name_context []))

tolerates_wrong_name :
    ((verify_server_cert wrong_name 3 ≡ verified)
      × ((wrong_name 3 ≡ verified) ⊎ AboutName (wrong_name 3)))
    ⊎ ((verify_server_cert wrong_name 3 ≢ verified)
        × (verify_server_cert wrong_name 3 ≡ wrong_name 3))
tolerates_wrong_name = verify_server_cert_lem wrong_name 3

-- Certificates and stores are numbers.
abbrev numbers : Rustls ℕ ℕ ℕ (List ℕ) (List ℕ)
numbers = record {
  install_default = ok tt;
  certificate_from_pem_file = λ p. ok p;
  key_from_pem_file = λ p. ok p;
  no_roots = [];
  add = λ roots c. ok (c ∷ roots);
  check_client_auth_cert = λ c k. ok tt;
  web_pki = λ roots. ok roots;
}

-- The client's certificate and key are in the files 6 and 7.
abbrev insecure : Etsi014Config ℕ
insecure = record {
  url = [];
  remote_sae_id = [];
  interval_secs = none;
  tls_cacert = some 5;
  client_auth = some (record { tls_cert = 6; tls_key = 7 });
  danger_allow_insecure_no_server_name_certificates = true;
}

configure_rustls_lem_example :
    ((made : ClientConfig ℕ ℕ (List ℕ) (List ℕ)) × (configure_rustls numbers insecure
        ≡ ok (some made))
      × Matches numbers insecure made)
    ⊎ ((is_ok (configure_rustls numbers insecure) ≡ false)
        × (¬ ((made : ClientConfig ℕ ℕ (List ℕ) (List ℕ)) × Matches numbers insecure made)))
configure_rustls_lem_example = configure_rustls_lem numbers insecure

insecure_made :
    configure_rustls numbers insecure
    ≡ ok (
        some (record {
          roots = 5 ∷ [];
          client_auth = some (6, 7);
          no_server_name_verification = some (5 ∷ []);
        }))
unfolding configure_rustls
insecure_made = refl

abbrev one_key : Response
one_key = record {
  status = 200;
  text = ok [];
  json = ok (record { id = replicate 16 4; key = ones } ∷ []);
}

abbrev long_key : ResponseKey
long_key = record { id = replicate 16 4; key = replicate 40 1 }

abbrev too_long : Response
too_long = record { status = 200; text = ok []; json = ok (long_key ∷ []) }

one_key_read : read_response copying one_key ≡ ok (record { id = replicate 16 4; key = ones })
unfolding read_response key_of_responses key_of_response
one_key_read = refl

sound_reading :
    (200 ≤ 200)
    × (200 < 300)
    × ((r : ResponseKey) × (one_key.json ≡ ok (r ∷ []))
        × (r.id ≡ replicate 16 4)
        × (copied r.key key_length ≡ ok ones)
        × IsKey ones)
sound_reading =
    read_response_sound copying one_key (record { id = replicate 16 4; key = ones }) one_key_read

malformed_panics : is_panic (read_response copying too_long) ≡ true
malformed_panics =
    read_response-malformed copying too_long long_key (omega arith) (omega arith) refl refl

read_response-IsRead_example : IsRead copying too_long (read_response copying too_long)
read_response-IsRead_example = read_response-IsRead copying too_long refl refl
