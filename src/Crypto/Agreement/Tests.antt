-- ===== src/Crypto/Agreement/Tests.antt =====
-- Both sides of daisyway/src/internal/daisyway/crypto over sockets in memory, with a toy hash function
-- and a QKD device that knows one key.
use daisyway.Base.{
  ◌≤◌, ◌∙◌, ap, take, length-append, append-injective, ℕ, ◌≡◌, refl, List, [], ◌∷◌, ◌++◌, ok,
  length, length-take, take-append-drop, arith, sym,
}
use mathlib.Core.List.{append-nil}
use daisyway.Crypto.Key.{Bytes, Key}
use daisyway.Crypto.Basics.{rekey_req_bytes, rekey_req_of, rekey_ack_bytes, derive_daisyway_key}
use daisyway.Crypto.Basics.Derivation.{mirror, IsParameters, IsEtsi014Key}
use daisyway.Crypto.World.{World, Parts}
use daisyway.Crypto.Server
use daisyway.Crypto.Server.{negotiate_key, receive_ack}
use daisyway.Crypto.Server.Rounds.{request}
use daisyway.Crypto.Client
use daisyway.Crypto.Client.{wait_for_key_negotiation}
use daisyway.Crypto.Agreement.{Wire, SameCrates, IsDelivered, agreement, negotiation_completes}
use daisyway.Crypto.Agreement.Sessions.{Duplex, IsLogging, event_loops_agree}
use daisyway.Crypto.Agreement.Completing.{IsOpen, IsServing, IsAnswering, sessions_complete}
use daisyway.Osk.{SetOskReason}
use daisyway.Crypto.Toys.{
  parts_with, toy_shake, toy_uuid, Socket, read_exact, qkd_key, toy_nonce, params,
}

abbrev pub Log : Type 0
Log = List (Key × SetOskReason)

abbrev pub parts : Parts Socket (Unit {0}) ℕ Log
parts = parts_with (record { set_osk = λ key reason log. (ok tt, (key, reason) ∷ log) })

abbrev pub Node : Type 0
Node = World Socket (Unit {0}) ℕ Log

-- The server, to which `incoming` is sent.
abbrev pub server : Bytes → Node
server incoming = record {
  stream = record { sent = []; incoming = incoming };
  etsi = tt;
  runtime = 0;
  osk = [];
}

pub read_takes_lem :
    (n : ℕ) (s : Socket) (b : Bytes)
    → (read_exact n s).0 ≡ ok b
    → (length b ≡ n) × (s.incoming ≡ b ++ (read_exact n s).1.incoming)
read_takes_lem n s b h = ground (arith, length-take n s.incoming, take-append-drop n s.incoming)

pub read_sends_lem : (n : ℕ) (s : Socket) → (read_exact n s).1.sent ≡ s.sent
read_sends_lem n s = ground arith

abbrev wire : Wire parts
wire = record {
  sent = λ s. s.sent;
  incoming = λ s. s.incoming;
  write_sends = λ b s h. refl;
  read_sends = read_sends_lem;
  read_takes = read_takes_lem;
}

crates : SameCrates parts parts
crates = record { uuid_eq = refl; shake256_eq = refl }

pub params-IsParameters : IsParameters params
params-IsParameters = omega arith

pub qkd_key-IsEtsi014Key : IsEtsi014Key qkd_key
qkd_key-IsEtsi014Key = omega arith

abbrev pub talking : Node
talking = server (1 ∷ [])

abbrev listening : Node
listening = server (request qkd_key toy_nonce)

delivered : IsDelivered parts parts talking listening
delivered = record {
  sized = λ q h. ground (arith, qkd_key-IsEtsi014Key);
  nonce_sized = λ n h. ground arith;
  same = λ q q' h k. ground arith;
}

abbrev pub agreed_key : Key
agreed_key = derive_daisyway_key toy_uuid toy_shake params toy_nonce qkd_key

abbrev pub client_key : Key
client_key = derive_daisyway_key toy_uuid toy_shake (mirror params) toy_nonce qkd_key

server_ends :
    negotiate_key parts params talking ≡ (ok agreed_key, (negotiate_key parts params talking).1)
unfolding negotiate_key
server_ends = refl

client_ends :
    wait_for_key_negotiation parts (mirror params) listening
    ≡ (ok client_key, (wait_for_key_negotiation parts (mirror params) listening).1)
unfolding wait_for_key_negotiation rekey_req_of rekey_req_bytes
client_ends = refl

server_wrote : (negotiate_key parts params talking).1.stream.sent ≡ request qkd_key toy_nonce
unfolding negotiate_key
server_wrote = refl

agreed_at : client_key ≡ agreed_key
agreed_at =
    agreement parts parts crates wire wire params talking (negotiate_key parts params talking).1
      listening (wait_for_key_negotiation parts (mirror params) listening).1 agreed_key client_key
      (request qkd_key toy_nonce) [] delivered server_ends client_ends server_wrote
      (sym (append-nil (request qkd_key toy_nonce)))

both_negotiate : (negotiate_key parts params talking).0 ≡ ok agreed_key
both_negotiate =
    (negotiation_completes parts parts crates params talking listening qkd_key toy_nonce
      qkd_key-IsEtsi014Key refl refl refl refl (unfold rekey_req_bytes in refl) refl refl
      (unfold rekey_ack_bytes in refl)).0

abbrev duplex : Duplex parts
duplex = record { wire = wire; write_takes = λ b s. refl }

abbrev logging : IsLogging parts
logging = record { log = keys_of; logs = λ k o h. refl }
  where
    keys_of : Log → List Key
    keys_of [] = []
    keys_of ((k, r) ∷ l) = k ∷ keys_of l

delivers : (s c : Node) → IsDelivered parts parts s c
delivers s c = record {
  sized = λ q h. ground (arith, qkd_key-IsEtsi014Key);
  nonce_sized = λ n h. ground arith;
  same = λ q q' h k. ground arith;
}

abbrev two_requests : Bytes
two_requests = request qkd_key toy_nonce ++ request qkd_key toy_nonce

abbrev server_end : Node
server_end = (Server.event_loop parts params 120 2 (server (1 ∷ 1 ∷ []))).1

abbrev client_end : Node
client_end = (Client.event_loop parts (mirror params) 2 (server two_requests)).1

event_loops_agree_example :
    (keys : List Key) × (length keys ≡ 2)
    × (logging.log server_end.osk ≡ keys ++ [])
    × (logging.log client_end.osk ≡ keys ++ [])
unfolding Server.event_loop Client.event_loop negotiate_key wait_for_key_negotiation rekey_req_of
    rekey_req_bytes
event_loops_agree_example =
    event_loops_agree parts parts crates wire duplex logging logging params 120 delivers 2
      (server (1 ∷ 1 ∷ [])) server_end (server two_requests) client_end two_requests [] refl refl
      refl (sym (append-nil two_requests))

read_ok : (n : ℕ) (s : Socket) → n ≤ length s.incoming → (read_exact n s).0 ≡ ok (take n s.incoming)
read_ok n s h = ground arith

open_socket : IsOpen parts duplex
open_socket = record {
  writes = λ b s. refl;
  reads = λ n b rest s size came.
      let read =
        read_ok n s (omega (arith, ap (λ (l : Bytes). length l) came, length-append b rest)) in
      let (size', taken) = read_takes_lem n s (take n s.incoming) read in
      let (first, later) =
        append-injective (take n s.incoming) b _ rest (size' ∙ sym size) (sym taken ∙ came) in
      (read ∙ ap ok first, later);
}

serving : IsServing parts duplex 120
serving = record {
  fetches = λ d. (qkd_key, refl);
  draws = λ r. (toy_nonce, refl);
  sleeps = λ r. refl;
  sets = λ k o. refl;
}

answering : IsAnswering parts duplex
answering = record { finds = λ id d u. (record qkd_key { id = id }, refl); sets = λ k o. refl }

sessions_complete_example :
    ((Server.event_loop parts params 120 2 (server (1 ∷ 1 ∷ []))).0 ≡ ok tt)
    × ((Client.event_loop parts (mirror params) 2 (server two_requests)).0 ≡ ok tt)
    × ((keys : List Key) × (length keys ≡ 2)
        × (logging.log server_end.osk ≡ keys ++ [])
        × (logging.log client_end.osk ≡ keys ++ []))
unfolding Server.event_loop negotiate_key rekey_req_bytes
sessions_complete_example =
    sessions_complete parts parts crates duplex duplex logging logging params 120 delivers 2
      (server (1 ∷ 1 ∷ [])) (server two_requests) two_requests [] [] open_socket open_socket serving
      answering refl refl (sym (append-nil two_requests))
