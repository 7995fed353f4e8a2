-- ===== src/Simulator/Serving/Starting.antt =====
-- Whether the connections of simulator/src/main.rs are under TLS.
use daisyway.Base.{
  ◌≡◌, ◌⊎◌, map, inl, inr, refl, List, [], ◌∷◌, Option, none, some, false, Result, ok, err, panic,
  is_ok, Result-cases, arith, and_then, and_then-eq-ok, unwrap, unwrap-eq-ok, resume, Action,
}
use daisyway.Simulator.Serving.{
  ServerTls, Args, Connection, load_tls_config, load_client_verifier, not_created, tls_acceptor,
  accept_loop, main, served,
}

-- Nothing happens after a failure.
stopped :
    {W A B C : Type 0} (r : Result A) (g : A → B) (f : B → Action W C) (w : W)
    → is_ok r ≡ false
    → (is_ok (resume f (and_then r (λ a. ok (g a)), w)).0 ≡ false)
      × ((resume f (and_then r (λ a. ok (g a)), w)).1 ≡ w)
stopped (ok a) g f w e = ground arith
stopped (err x) g f w e = (refl, refl)
stopped (panic x) g f w e = (refl, refl)

module _ {FilePath Cert PrivateKey Roots Verifier ServerConfig : Type 0}
    (tls : ServerTls FilePath Cert PrivateKey Roots Verifier ServerConfig) where
  open tls use {
    certificate_from_pem_file, key_from_pem_file, no_roots, add, client_verifier, single_cert,
  }

  -- Clients are verified by the certificate of the file, if there is one, and else not at all.
  abbrev pub VerifiesBy : Option FilePath → Option Verifier → Type 0
  VerifiesBy none v = v ≡ none
  VerifiesBy (some ca_path) v =
      (ca : Cert) × (roots : Roots) × (w : Verifier) × (certificate_from_pem_file ca_path ≡ ok ca)
      × (add no_roots ca ≡ ok roots)
      × (client_verifier roots ≡ ok w)
      × (v ≡ some w)

  -- A configuration with the certificate and the key of these files.
  pub record IsConfigured (cert_path key_path : FilePath) (ca_path : Option FilePath)
      (config : ServerConfig) : Type 0 where
    pub cert : Cert
    pub key : PrivateKey
    pub verifier : Option Verifier
    pub cert_read : certificate_from_pem_file cert_path ≡ ok cert
    pub key_read : key_from_pem_file key_path ≡ ok key
    pub verifies : VerifiesBy ca_path verifier
    pub built : single_cert verifier cert key ≡ ok config

  load_client_verifier-VerifiesBy :
      (ca_path : Option FilePath) (v : Option Verifier)
      → load_client_verifier tls ca_path ≡ ok v
      → VerifiesBy ca_path v
  load_client_verifier-VerifiesBy none v e = ground arith
  load_client_verifier-VerifiesBy (some ca_path) v e =
      let (ca, e1, f1) =
        and_then-eq-ok
          (unwrap "Failed to read CA certificate file" (certificate_from_pem_file ca_path)) _ e in
      let (roots, e2, f2) = and_then-eq-ok (add no_roots ca) _ f1 in
      let (w, e3, f3) =
        and_then-eq-ok
          (unwrap "Failed to create client certificate verifier" (client_verifier roots)) _ f2 in
      (
        ca,
        roots,
        w,
        unwrap-eq-ok "Failed to read CA certificate file" (certificate_from_pem_file ca_path) e1,
        e2,
        unwrap-eq-ok "Failed to create client certificate verifier" (client_verifier roots) e3,
        ground arith,
      )

  load_tls_config-IsConfigured :
      (cert_path key_path : FilePath) (ca_path : Option FilePath) (config : ServerConfig)
      → load_tls_config tls cert_path key_path ca_path ≡ ok config
      → IsConfigured cert_path key_path ca_path config
  unfolding load_tls_config
  load_tls_config-IsConfigured cert_path key_path ca_path config e =
      let (cert, e1, f1) =
        and_then-eq-ok
          (unwrap "Failed to read certificate file" (certificate_from_pem_file cert_path)) _ e in
      let (key, e2, f2) =
        and_then-eq-ok (unwrap "Failed to read private key file" (key_from_pem_file key_path)) _
          f1 in
      let (v, e3, f3) = and_then-eq-ok (load_client_verifier tls ca_path) _ f2 in
      record {
        cert = cert;
        key = key;
        verifier = v;
        cert_read =
            unwrap-eq-ok "Failed to read certificate file" (certificate_from_pem_file cert_path) e1;
        key_read = unwrap-eq-ok "Failed to read private key file" (key_from_pem_file key_path) e2;
        verifies = load_client_verifier-VerifiesBy ca_path v e3;
        built = unwrap-eq-ok (not_created tls ca_path) (single_cert v cert key) f3;
      }

  load_client_verifier_ok :
      (ca_path : Option FilePath) (v : Option Verifier)
      → VerifiesBy ca_path v
      → load_client_verifier tls ca_path ≡ ok v
  load_client_verifier_ok none v e = rw e refl
  load_client_verifier_ok (some ca_path) v (ca, roots, w, e1, e2, e3, e4) = rw (e1, e2, e3, e4) refl

  load_tls_config_ok :
      (cert_path key_path : FilePath) (ca_path : Option FilePath) (config : ServerConfig)
      → IsConfigured cert_path key_path ca_path config
      → load_tls_config tls cert_path key_path ca_path ≡ ok config
  unfolding load_tls_config
  load_tls_config_ok cert_path key_path ca_path config c =
      rw (c.cert_read, c.key_read, load_client_verifier_ok ca_path c.verifier c.verifies, c.built)
        refl

  -- What a listener yields before it first fails.
  abbrev pub arrived : {Stream : Type 0} → List (Result Stream) → List Stream
  arrived [] = []
  arrived (ok stream ∷ rest) = stream ∷ arrived rest
  arrived (err e ∷ rest) = []
  arrived (panic s ∷ rest) = []

  abbrev pub newest_first : {Stream : Type 0} → List Stream → List Stream → List Stream
  newest_first [] later = later
  newest_first (s ∷ ss) later = newest_first ss (s ∷ later)

  module _ {Stream Request : Type 0} (handshake : ServerConfig → Stream → Result Stream)
      (requests : Stream → List Request) where
    -- Without TLS, the requests are those of the stream; under TLS, those of the stream that the
    -- handshake yields, and none where it fails.
    abbrev pub Serves : Option ServerConfig → Connection tls Stream → Type 0
    Serves none c = served tls handshake requests c ≡ requests c.stream
    Serves (some config) c =
        ((tls_stream : Stream) × (handshake config c.stream ≡ ok tls_stream)
          × (served tls handshake requests c ≡ requests tls_stream))
        ⊎ ((is_ok (handshake config c.stream) ≡ false) × (served tls handshake requests c ≡ []))

    abbrev pub AllServe : Option ServerConfig → List (Connection tls Stream) → Type 0
    AllServe under [] = Unit
    AllServe under (c ∷ cs) = Serves under c × AllServe under cs

    served-Serves :
        (acceptor : Option ServerConfig) (stream : Stream)
        → Serves acceptor (record { stream = stream; acceptor = acceptor })
    unfolding served
    served-Serves none stream = refl
    served-Serves (some config) stream = elim (Result-cases (handshake config stream)) [
      | inl (tls_stream, e) ↦ inl (tls_stream, e, rw (served, e) refl)
      | inr e ↦ inr (e, ground arith)
    ]

    -- All connections are served so, and there is one for each stream.
    abbrev ServesAll :
        Option ServerConfig → List (Result Stream) → List (Connection tls Stream) → Type 0
    ServesAll under accepts cs =
        (map (λ c. c.stream) cs ≡ newest_first (arrived accepts) []) × AllServe under cs

    accept_loop-streams :
        (acceptor : Option ServerConfig) (accepts : List (Result Stream))
        (w : List (Connection tls Stream))
        → map (λ c. c.stream) (accept_loop tls acceptor accepts w).1
          ≡ newest_first (arrived accepts) (map (λ c. c.stream) w)
    unfolding accept_loop
    accept_loop-streams acceptor [] w = refl
    accept_loop-streams acceptor (ok stream ∷ rest) w =
        accept_loop-streams acceptor rest (record { stream = stream; acceptor = acceptor } ∷ w)
    accept_loop-streams acceptor (err e ∷ rest) w = refl
    accept_loop-streams acceptor (panic s ∷ rest) w = refl

    accept_loop-AllServe :
        (acceptor : Option ServerConfig) (accepts : List (Result Stream))
        (w : List (Connection tls Stream))
        → AllServe acceptor w
        → AllServe acceptor (accept_loop tls acceptor accepts w).1
    unfolding accept_loop
    accept_loop-AllServe acceptor [] w a = a
    accept_loop-AllServe acceptor (ok stream ∷ rest) w a =
        accept_loop-AllServe acceptor rest (record { stream = stream; acceptor = acceptor } ∷ w)
          (served-Serves acceptor stream, a)
    accept_loop-AllServe acceptor (err e ∷ rest) w a = a
    accept_loop-AllServe acceptor (panic s ∷ rest) w a = a

    -- Whether the simulator was bound to its address, and then what it serves.
    abbrev pub ServesBound :
        Option ServerConfig
        → Result (List (Result Stream))
        → Result (Unit {0}) × List (Connection tls Stream)
        → Type 0
    ServesBound under bound (r, cs) =
        ((accepts : List (Result Stream)) × (bound ≡ ok accepts) × ServesAll under accepts cs)
        ⊎ ((is_ok bound ≡ false) × (is_ok r ≡ false) × (cs ≡ []))

    bound-ServesBound :
        (acceptor : Option ServerConfig) (bound : Result (List (Result Stream)))
        → ServesBound acceptor bound (resume (accept_loop tls acceptor) (bound, []))
    bound-ServesBound acceptor (ok accepts) = inl (
      accepts,
      refl,
      (accept_loop-streams acceptor accepts [], accept_loop-AllServe acceptor accepts [] tt),
    )
    bound-ServesBound acceptor (err e) = inr (refl, refl, refl)
    bound-ServesBound acceptor (panic s) = inr (refl, refl, refl)

    -- How the options and what is served fit.
    abbrev pub Protects :
        Option FilePath
        → Option FilePath
        → Option FilePath
        → Result (List (Result Stream))
        → Result (Unit {0}) × List (Connection tls Stream)
        → Type 0
    Protects (some cert_path) (some key_path) ca_path bound (r, cs) =
        ((¬ ((config : ServerConfig) × IsConfigured cert_path key_path ca_path config))
          × (is_ok r ≡ false)
          × (cs ≡ []))
        ⊎ ((config : ServerConfig) × IsConfigured cert_path key_path ca_path config
            × ServesBound (some config) bound (r, cs))
    Protects none none ca_path bound (r, cs) = ServesBound none bound (r, cs)
    Protects (some cert_path) none ca_path bound (r, cs) = (is_ok r ≡ false) × (cs ≡ [])
    Protects none (some key_path) ca_path bound (r, cs) = (is_ok r ≡ false) × (cs ≡ [])

    module _ {Addr : Type 0} (bind : Addr → Result (List (Result Stream))) where
      with_both :
          (args : Args FilePath Addr) (c k : FilePath)
          → Protects
              (some c)
              (some k)
              args.ca_path
              (bind args.addr)
              (main tls bind (record args { cert_path = some c; key_path = some k }) [])
      unfolding main tls_acceptor
      with_both args c k = elim (Result-cases (load_tls_config tls c k args.ca_path)) [
        | inl (config, e) ↦ inr (
          config,
          load_tls_config-IsConfigured c k args.ca_path config e,
          rw e (bound-ServesBound (some config) (bind args.addr)),
        )
        | inr e ↦
            let (fails, nothing) =
              stopped (load_tls_config tls c k args.ca_path) some
                (λ acceptor w.
                  resume (accept_loop tls {Stream = Stream} acceptor) (bind args.addr, w))
                [] e in
            inl (
              λ (config, made). ground (arith, load_tls_config_ok c k args.ca_path config made),
              fails,
              nothing,
            )
      ]

      -- If both a certificate and a key are given, the simulator either fails before it accepts
      -- anything, and then no TLS configuration can be made of these files, or it serves each
      -- accepted connection under TLS, with this certificate and key and verifying clients by the
      -- given authority, if one is given: only the requests of the stream that the handshake
      -- yields, and none where it fails. With neither, each accepted connection is served as it
      -- is; with only one of both, the simulator stops with an error before it accepts anything,
      -- as it does where its address is not bound.
      pub main-Protects :
          (args : Args FilePath Addr)
          → Protects args.cert_path args.key_path args.ca_path
              (bind args.addr)
              (main tls bind args [])
      unfolding main tls_acceptor
      main-Protects args = with_paths args.cert_path args.key_path
        where
          with_paths :
              (cert_path key_path : Option FilePath)
              → Protects cert_path key_path args.ca_path
                  (bind args.addr)
                  (main tls bind (record args { cert_path = cert_path; key_path = key_path }) [])
          with_paths none none = bound-ServesBound none (bind args.addr)
          with_paths (some c) none = (refl, refl)
          with_paths none (some k) = (refl, refl)
          with_paths (some c) (some k) = with_both args c k
