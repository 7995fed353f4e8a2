-- ===== src/Simulator/Device/Tests.antt =====
-- Two daemons of daisyway/src/internal with the simulator of simulator/src/main.rs as their devices.
use daisyway.Base.{
  ℕ, ◌≡◌, sym, length, replicate, refl, List, [], ◌∷◌, ◌++◌, Option, none, some, arith, ok,
  length-append, length-replicate, if◌then◌else◌, ◌==◌,
}
use daisyway.Crypto.Key.{Bytes, Key, IsKey}
use daisyway.Crypto.Basics.{bytes_of}
use daisyway.Crypto.World.{World, Parts}
use daisyway.Crypto.Agreement.{IsDelivered}
use daisyway.Simulator.Device.Sessions.{at_alice, sessions_agree}
use mathlib.Core.List.{append-nil}
use daisyway.Crypto.Basics.{rekey_req_bytes, rekey_req_of}
use daisyway.Crypto.Basics.Derivation.{mirror}
use daisyway.Crypto.Server
use daisyway.Crypto.Server.{negotiate_key}
use daisyway.Crypto.Server.Rounds.{request}
use daisyway.Crypto.Client
use daisyway.Crypto.Client.{wait_for_key_negotiation}
use daisyway.Crypto.Agreement.Sessions.{Duplex, IsLogging}
use daisyway.Crypto.Agreement.Tests.{read_takes_lem, read_sends_lem}
use daisyway.Etsi014
use daisyway.Crypto.Toys.{params, toy_nonce, Socket, parts_with}
use daisyway.Etsi014.{Etsi014Connection}
use daisyway.Util.Tests.{copying}
use daisyway.Simulator.{
  contains, starts_with, find, handle_request, handle_keys, dec_keys, key_response, bad_request,
}
use daisyway.Simulator.Tests.{plain}
use daisyway.Simulator.Device.{IsReadable, IsRouted, get}
use daisyway.Simulator.Device.Delivery.{with_simulator, simulator-IsDelivered}
use daisyway.Crypto.Agreement.{SameCrates}

-- What stands before and behind the first question mark.
abbrev pub before : ℕ → Bytes × Option Bytes → Bytes → Bytes × Option Bytes
before b (path, query) rest = if b == b'?' then ([], some rest) else (b ∷ path, query)

abbrev pub split_uri : Bytes → Bytes × Option Bytes
split_uri [] = ([], none)
split_uri (b ∷ s) = let rest = split_uri s in before b rest s

abbrev pub connection : Etsi014Connection (Unit {0})
connection = record { url = []; remote_sae_id = bytes_of "bob"; client = tt }

pub routed : IsRouted copying plain split_uri connection
unfolding starts_with contains find
routed = record {
  any_path = refl;
  any_enc = refl;
  any_dec = refl;
  specific_path = λ id. refl;
  specific_dec = λ id. refl;
  specific_query = λ id. refl;
}

pub readable : IsReadable copying plain
readable = record {
  sized = λ n. length-replicate 16 n;
  parses = λ id u. refl;
  encodes =
      λ id u. (id ++ id, ground (arith, length-append id id), ground (arith, length-append id id));
}

abbrev pub parts : Parts Socket (Unit {0}) ℕ (List Key)
parts = parts_with (record { set_osk = λ key reason log. (ok tt, key ∷ log) })

abbrev node : ℕ → World Socket ℕ ℕ (List Key)
node counter = record {
  stream = record { sent = []; incoming = [] };
  etsi = counter;
  runtime = 0;
  osk = [];
}

pub random_sized : (now : ℕ) (n : Key) → (parts.random now).0 ≡ ok n → IsKey n
random_sized now n e = ground arith

simulators_deliver :
    IsDelivered
      (with_simulator copying plain split_uri parts connection)
      (with_simulator copying plain split_uri parts connection)
      (node 1)
      (node 5)
simulators_deliver =
    simulator-IsDelivered copying plain split_uri parts parts connection connection readable routed
      routed random_sized (node 1) (node 5)

abbrev one : Parts Socket ℕ ℕ (List Key)
one = at_alice copying plain split_uri parts parts connection connection

crates : SameCrates one one
crates = record { uuid_eq = refl; shake256_eq = refl }

unfoldable duplex : Duplex one
unfolding with_simulator
duplex = record {
  wire = record {
    sent = λ s. s.sent;
    incoming = λ s. s.incoming;
    write_sends = λ b s h. refl;
    read_sends = read_sends_lem;
    read_takes = read_takes_lem;
  };
  write_takes = λ b s. refl;
}

unfoldable logging : IsLogging one
unfolding with_simulator
logging = record { log = λ l. l; logs = λ k o h. refl }

abbrev pub sent_by : ℕ → Bytes
sent_by n = request (record { id = replicate 16 n; key = [] }) toy_nonce

abbrev alice : World Socket ℕ ℕ (List Key)
alice = record (node 1) { stream = record { sent = []; incoming = 1 ∷ 1 ∷ [] } }

abbrev bob : World Socket ℕ ℕ (List Key)
bob = record (node 5) { stream = record { sent = []; incoming = sent_by 1 ++ sent_by 2 } }

abbrev alice_end : World Socket ℕ ℕ (List Key)
alice_end = (Server.event_loop one params 120 2 alice).1

abbrev bob_end : World Socket ℕ ℕ (List Key)
bob_end = (Client.event_loop one (mirror params) 2 bob).1

sessions_agree_example :
    (keys : List Key) × (length keys ≡ 2)
    × (alice_end.osk ≡ keys ++ [])
    × (bob_end.osk ≡ keys ++ [])
unfolding logging duplex with_simulator Server.event_loop Client.event_loop negotiate_key
    wait_for_key_negotiation rekey_req_of rekey_req_bytes Etsi014.fetch_any_key
    Etsi014.fetch_specific_key Etsi014.fetch_key_internal Etsi014.read_response
    Etsi014.key_of_responses Etsi014.key_of_response get handle_request handle_keys dec_keys
    key_response starts_with contains find bad_request
sessions_agree_example =
    sessions_agree copying plain split_uri parts parts connection connection crates duplex.wire
      duplex logging logging params 120 2 alice alice_end bob bob_end (sent_by 1 ++ sent_by 2) []
      readable routed routed random_sized refl refl refl (sym (append-nil (sent_by 1 ++ sent_by 2)))
