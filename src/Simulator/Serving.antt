-- ===== src/Simulator/Serving.antt =====
-- simulator/src/main.rs: its start, and the connections that it serves. The crates `rustls`, `hyper` and
-- `tokio` are parameters; what they yield are lists, in the order in which it arrives.
pub mod Starting
pub mod Counting
use daisyway.Base.{
  ℕ, List, [], ◌∷◌, ◌++◌, Option, none, some, Bool, true, false, not, String, Result, ok, err,
  panic, message, Action, ◌>>=◌, pure, unwrap, and_then, lift, is_ok, if◌then◌else◌,
}
use daisyway.Crypto.Key.{Bytes}
use daisyway.Util.{Base64}
use daisyway.Simulator.{UuidText, Response, handle_request, is_some}

-- `rustls` on the side of the server.
pub record ServerTls (FilePath Cert PrivateKey Roots Verifier ServerConfig : Type 0) : Type 0 where
  pub certificate_from_pem_file : FilePath → Result Cert
  pub key_from_pem_file : FilePath → Result PrivateKey
  pub no_roots : Roots
  pub add : Roots → Cert → Result Roots
  pub client_verifier : Roots → Result Verifier
  pub single_cert : Option Verifier → Cert → PrivateKey → Result ServerConfig

pub record Args (FilePath Addr : Type 0) : Type 0 where
  pub addr : Addr
  pub cert_path : Option FilePath
  pub key_path : Option FilePath
  pub ca_path : Option FilePath
  pub danger_allow_insecure_no_server_name_certificates : Bool

module _ {FilePath Cert PrivateKey Roots Verifier ServerConfig : Type 0}
    (tls : ServerTls FilePath Cert PrivateKey Roots Verifier ServerConfig) where
  open tls use {
    certificate_from_pem_file, key_from_pem_file, no_roots, add, client_verifier, single_cert,
  }

  abbrev pub load_client_verifier : Option FilePath → Result (Option Verifier)
  load_client_verifier none = ok none
  load_client_verifier (some ca_path) =
      and_then (unwrap "Failed to read CA certificate file" (certificate_from_pem_file ca_path))
        λ ca_cert. and_then (add no_roots ca_cert) λ roots.
          and_then (unwrap "Failed to create client certificate verifier" (client_verifier roots))
            λ verifier. ok (some verifier)

  -- `expect` with a verifier, `unwrap` without.
  abbrev pub not_created : Option FilePath → String
  not_created none = "called `Result::unwrap()` on an `Err` value"
  not_created (some ca_path) = "Failed to create server config"

  unfoldable pub load_tls_config : FilePath → FilePath → Option FilePath → Result ServerConfig
  load_tls_config cert_path key_path ca_path =
      and_then (unwrap "Failed to read certificate file" (certificate_from_pem_file cert_path))
        λ cert.
          and_then (unwrap "Failed to read private key file" (key_from_pem_file key_path)) λ key.
            and_then (load_client_verifier ca_path)
              λ verifier. unwrap (not_created ca_path) (single_cert verifier cert key)

  abbrev pub acceptor_of :
      Option FilePath → Option FilePath → Option FilePath → Result (Option ServerConfig)
  acceptor_of (some cert_path) (some key_path) ca_path =
      and_then (load_tls_config cert_path key_path ca_path) λ config. ok (some config)
  acceptor_of _ _ ca_path = ok none

  abbrev pub same_bool : Bool → Bool → Bool
  same_bool true b = b
  same_bool false b = not b

  -- `main` up to the TLS acceptor.
  unfoldable pub tls_acceptor : {Addr : Type 0} → Args FilePath Addr → Result (Option ServerConfig)
  unfolding load_tls_config
  tls_acceptor args =
      if same_bool (is_some args.cert_path) (is_some args.key_path)
      then acceptor_of args.cert_path args.key_path args.ca_path
      else err (message "Both --cert-path and --key-path must be provided")

  -- A task that `main` spawned: a connection, and the acceptor that it is given.
  pub record Connection (Stream : Type 0) : Type 0 where
    pub stream : Stream
    pub acceptor : Option ServerConfig

  -- The requests that a task serves: none where the TLS handshake fails.
  unfoldable pub served :
      {Stream Request : Type 0}
      → (ServerConfig → Stream → Result Stream)
      → (Stream → List Request)
      → Connection Stream
      → List Request
  served handshake requests c = elim c.acceptor [
    | none ↦ requests c.stream
    | some config ↦ elim (handshake config c.stream) [
      | ok tls_stream ↦ requests tls_stream
      | err e ↦ []
      | panic s ↦ []
    ]
  ]

  -- The loop of `main`, over what `accept` yields; the state is the tasks, newest first.
  unfoldable pub accept_loop :
      {Stream : Type 0}
      → Option ServerConfig
      → List (Result Stream)
      → Action (List (Connection Stream)) (Unit {0})
  accept_loop acceptor [] w = (ok tt, w)
  accept_loop acceptor (ok stream ∷ rest) w =
      accept_loop acceptor rest (record { stream = stream; acceptor = acceptor } ∷ w)
  accept_loop acceptor (err e ∷ rest) w = (err e, w)
  accept_loop acceptor (panic s ∷ rest) w = (panic s, w)

  -- `bind` yields what `accept` does then.
  unfoldable pub main :
      {Addr Stream : Type 0}
      → (Addr → Result (List (Result Stream)))
      → Args FilePath Addr
      → Action (List (Connection Stream)) (Unit {0})
  unfolding tls_acceptor accept_loop
  main bind args = do
    acceptor ← lift (tls_acceptor args)
    accepts ← lift (bind args.addr)
    accept_loop acceptor accepts

-- The counter that all tasks share, at the start.
abbrev pub first_count : ℕ
first_count = 1

-- A request, by its path and query.
pub record Request : Type 0 where
  pub path : Bytes
  pub query : Option Bytes

module _ (base64 : Base64) (uuid : UuidText) where
  -- The answers to requests, over all connections, in the order in which they are handled.
  unfoldable pub serve_requests : List Request → ℕ → List (Result Response) × ℕ
  serve_requests [] counter = ([], counter)
  serve_requests (req ∷ reqs) counter =
      let (r, counter') = handle_request base64 uuid req.path req.query counter in
      let (rs, counter'') = serve_requests reqs counter' in (r ∷ rs, counter'')
