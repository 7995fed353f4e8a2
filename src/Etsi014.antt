-- ===== src/Etsi014.antt =====
-- daisyway/src/internal/etsi014.rs: keys from a key management entity over HTTP. The crates `rustls`,
-- `reqwest`, `serde_json` and `uuid` are parameters. The log lines are left out.
pub mod Verifier
pub mod Responses
pub mod Outcomes
pub mod Wrapper
mod Tests
use daisyway.Base.{
  ℕ, ◌&&◌, List, [], ◌∷◌, ◌++◌, Option, none, some, Bool, true, false, Result, ok, err, panic,
  Error, message, foreign, context, ensure, unwrap, and_then, Action, ◌>>=◌, lift, within, leb, ltb,
  ◌==◌, if◌then◌else◌, length, String,
}
use daisyway.Crypto.Key.{Bytes, Key, Uuid, key_length}
use daisyway.Crypto.Basics.{Etsi014Key, bytes_of}
use daisyway.Util.{Base64}

-- `rustls::Error`, and `CertificateError` by the two cases that the code tells apart.
pub data CertificateError : Type 0 where
  not_valid_for_name : CertificateError
  not_valid_for_name_context : List Bytes → CertificateError
  other_certificate_error : String → CertificateError

pub data TlsError : Type 0 where
  invalid_certificate : CertificateError → TlsError
  other_tls_error : String → TlsError

-- The outcome of a verification.
pub data Verdict : Type 0 where
  verified : Verdict
  refused : TlsError → Verdict

-- What `NoServerNameVerification` makes of the inner verifier's outcome.
abbrev pub tolerate : Verdict → Verdict
tolerate verified = verified
tolerate (refused (invalid_certificate not_valid_for_name)) = verified
tolerate (refused (invalid_certificate (not_valid_for_name_context _))) = verified
tolerate (refused (invalid_certificate (other_certificate_error e))) =
    refused (invalid_certificate (other_certificate_error e))
tolerate (refused (other_tls_error e)) = refused (other_tls_error e)

-- `Cert` is all that a verification is given.
unfoldable pub verify_server_cert : {Cert : Type 0} → (Cert → Verdict) → Cert → Verdict
verify_server_cert inner cert = tolerate (inner cert)

pub record ClientAuth (FilePath : Type 0) : Type 0 where
  pub tls_cert : FilePath
  pub tls_key : FilePath

pub record Etsi014Config (FilePath : Type 0) : Type 0 where
  pub url : Bytes
  pub remote_sae_id : Bytes
  pub interval_secs : Option ℕ
  pub tls_cacert : Option FilePath
  pub client_auth : Option (ClientAuth FilePath)
  pub danger_allow_insecure_no_server_name_certificates : Bool

-- `rustls` as the code uses it: certificates and keys from files, a root store, and the verifiers of
-- `WebPkiServerVerifier`.
pub record Rustls (FilePath Cert PrivateKey Roots Verifier : Type 0) : Type 0 where
  pub install_default : Result (Unit {0})
  pub certificate_from_pem_file : FilePath → Result Cert
  pub key_from_pem_file : FilePath → Result PrivateKey
  pub no_roots : Roots
  pub add : Roots → Cert → Result Roots
  pub check_client_auth_cert : Cert → PrivateKey → Result (Unit {0})
  pub web_pki : Roots → Result Verifier

-- What a `ClientConfig` was built from. The last field is the verifier under
-- `NoServerNameVerification`, where that replaces the default one.
pub record ClientConfig (Cert PrivateKey Roots Verifier : Type 0) : Type 0 where
  pub roots : Roots
  pub client_auth : Option (Cert × PrivateKey)
  pub no_server_name_verification : Option Verifier

module _ {FilePath Cert PrivateKey Roots Verifier : Type 0}
    (rustls : Rustls FilePath Cert PrivateKey Roots Verifier) where
  open rustls use {
    install_default, certificate_from_pem_file, key_from_pem_file, no_roots, add,
    check_client_auth_cert, web_pki,
  }

  abbrev pub load_roots : Option FilePath → Result Roots
  load_roots none = ok no_roots
  load_roots (some cacert_path) =
      and_then
        (context "Failed to read TLS CA certificate from file"
          (certificate_from_pem_file cacert_path))
        λ cacert. context "Failed to add TLS CA certificate to RootCertStore" (add no_roots cacert)

  abbrev pub load_client_auth : Option (ClientAuth FilePath) → Result (Option (Cert × PrivateKey))
  load_client_auth none = ok none
  load_client_auth (some auth) =
      and_then
        (context "Failed to read TLS client certificate from file"
          (certificate_from_pem_file auth.tls_cert))
        λ cert.
          and_then
            (context "Failed to read TLS client key from file" (key_from_pem_file auth.tls_key))
            λ key. and_then (check_client_auth_cert cert key) λ _. ok (some (cert, key))

  abbrev pub load_verifier : Bool → Roots → Result (Option Verifier)
  load_verifier true roots = and_then (web_pki roots) λ v. ok (some v)
  load_verifier false roots = ok none

  unfoldable pub configure_rustls :
      Etsi014Config FilePath → Result (Option (ClientConfig Cert PrivateKey Roots Verifier))
  configure_rustls config =
      and_then (unwrap "Failed to install rustls crypto provider" install_default) λ _.
        and_then (load_roots config.tls_cacert) λ roots.
          and_then (load_client_auth config.client_auth) λ auth.
            and_then (load_verifier config.danger_allow_insecure_no_server_name_certificates roots)
              λ verifier. ok (
                some (record {
                  roots = roots;
                  client_auth = auth;
                  no_server_name_verification = verifier;
                }))

pub record ResponseKey : Type 0 where
  pub id : Uuid
  pub key : Bytes

-- A response: its status, its text, and the `keys` that its text is read as.
pub record Response : Type 0 where
  pub status : ℕ
  pub text : Result Bytes
  pub json : Result (List ResponseKey)

pub record Etsi014Connection (Client : Type 0) : Type 0 where
  pub url : Bytes
  pub remote_sae_id : Bytes
  pub client : Client

-- `build` is that of `reqwest::ClientBuilder`, with the TLS configuration if there is one.
unfoldable pub from_config :
    {FilePath Cert PrivateKey Roots Verifier Client : Type 0}
    → Rustls FilePath Cert PrivateKey Roots Verifier
    → (Option (ClientConfig Cert PrivateKey Roots Verifier) → Result Client)
    → Etsi014Config FilePath
    → Result (Etsi014Connection Client)
unfolding configure_rustls
from_config rustls build config = and_then (configure_rustls rustls config) λ tls.
    and_then (build tls) λ client.
      ok (record { url = config.url; remote_sae_id = config.remote_sae_id; client = client })

module _ (base64 : Base64) where
  open base64 use {decode, encoded_len}

  -- `try_into` to an array of 32 bytes.
  abbrev pub to_array : Bytes → Result Key
  to_array d =
      if length d == key_length then ok d else err (foreign "could not convert slice to array")

  unfoldable pub key_of_response : ResponseKey → Result Etsi014Key
  key_of_response value =
      if encoded_len value.key == key_length
      then panic "assertion failed"
      else and_then (unwrap "invalid Base64" (decode value.key key_length))
          λ decoded. and_then (to_array decoded) λ key. ok (record { id = value.id; key = key })

  unfoldable pub key_of_responses : List ResponseKey → Result Etsi014Key
  unfolding key_of_response
  key_of_responses [] = err (message "Expected exactly one key")
  key_of_responses (k ∷ []) = key_of_response k
  key_of_responses (k ∷ l ∷ ks) = err (message "Expected exactly one key")

  abbrev pub is_success : ℕ → Bool
  is_success status = leb 200 status && ltb status 300

  -- What `fetch_key_internal` makes of a response.
  unfoldable pub read_response : Response → Result Etsi014Key
  unfolding key_of_responses
  read_response response =
      if is_success response.status
      then and_then response.json key_of_responses
      else and_then response.text λ _. err (message "ETSI 014 URL returned status code")

  -- `get` sends a request with the connection's client; `to_string` prints a UUID.
  module _ {W : Type 0} (get : Bytes → Action W Response) (to_string : Uuid → Bytes)
      {Client : Type 0} (self : Etsi014Connection Client) where
    unfoldable pub fetch_key_internal : Bytes → Action W Etsi014Key
    unfolding read_response
    fetch_key_internal uri = do response ← get uri; lift (read_response response)

    unfoldable pub fetch_any_key : Action W Etsi014Key
    unfolding fetch_key_internal
    fetch_any_key = within "Error Fetching unspecific key from ETSI014 URL." (
        fetch_key_internal (
          self.url
          ++ bytes_of "/api/v1/keys/"
          ++ self.remote_sae_id
          ++ bytes_of "/enc_keys?number=1&key_length=256"))

    unfoldable pub fetch_specific_key : Uuid → Action W Etsi014Key
    unfolding fetch_key_internal
    fetch_specific_key id = within "Error Fetching specific key from ETSI014 URL. (key id={id})" (
        fetch_key_internal (
          self.url
          ++ bytes_of "/api/v1/keys/"
          ++ self.remote_sae_id
          ++ bytes_of "/dec_keys?key_ID="
          ++ to_string id))
