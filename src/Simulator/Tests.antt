-- ===== src/Simulator/Tests.antt =====
-- Two requests to the handler of simulator/src/main.rs, with ids that are printed as their own bytes.
use daisyway.Base.{
  ◌+◌, ◌≡◌, List, [], ◌∷◌, ℕ, map, false, arith, none, some, Result, ok, err, io, other_kind, ◌==◌,
  if◌then◌else◌, replicate,
}
use daisyway.Crypto.Key.{Bytes}
use daisyway.Crypto.Basics.{bytes_of}
use daisyway.Util.Tests.{copying}
use daisyway.Simulator.{UuidText}
use daisyway.Simulator.Serving.{ServerTls, Args, Request, serve_requests, main}
use daisyway.Simulator.Serving.Starting.{Protects, main-Protects}
use daisyway.Simulator.Serving.Counting.{Rises, key_of, keys_for, serve_requests-Rises}

abbrev pub plain : UuidText
plain = record { parse_str = λ s. some s; to_string = λ u. u; from_u128 = λ n. replicate 16 n }

abbrev pub enc_path : Bytes
enc_path = bytes_of "/api/v1/keys/SAE/enc_keys"

abbrev pub dec_path : Bytes
dec_path = bytes_of "/api/v1/keys/SAE/dec_keys"

abbrev requests : List Request
requests =
    record { path = enc_path; query = none }
    ∷ record { path = dec_path; query = none }
    ∷ record { path = enc_path; query = none }
    ∷ []

serve_requests-Rises_example :
    (ns : List ℕ) × Rises 1 4 ns
    × (keys_for requests (serve_requests copying plain requests 1).0
        ≡ map (key_of copying plain) ns)
serve_requests-Rises_example = serve_requests-Rises copying plain requests 1 (omega arith)

-- Certificates, keys and configurations are the numbers of their files.
abbrev tls : ServerTls ℕ ℕ ℕ ℕ ℕ ℕ
tls = record {
  certificate_from_pem_file = λ p. ok p;
  key_from_pem_file = λ p. ok p;
  no_roots = 0;
  add = λ roots c. ok c;
  client_verifier = λ roots. ok roots;
  single_cert = λ v c k. ok (c + k);
}

abbrev args : Args ℕ ℕ
args = record {
  addr = 80;
  cert_path = some 2;
  key_path = some 3;
  ca_path = some 4;
  danger_allow_insecure_no_server_name_certificates = false;
}

abbrev accepting : ℕ → Result (List (Result ℕ))
accepting addr = ok (ok 70 ∷ ok 71 ∷ [])

-- A handshake adds a thousand, and fails with the stream 71.
abbrev shaking : ℕ → ℕ → Result ℕ
shaking config stream = if stream == 71 then err (io other_kind) else ok (1000 + stream)

main-Protects_example :
    Protects tls shaking
      (λ s. s ∷ [])
      (some 2)
      (some 3)
      (some 4)
      (accepting 80)
      (main tls accepting args [])
main-Protects_example = main-Protects tls shaking (λ s. s ∷ []) accepting args
