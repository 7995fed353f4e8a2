-- ===== src/Daemon/Nodes.antt =====
-- Two machines for runs of the daemons of daisyway/src/internal: their configurations name output files, and
-- their devices are simulators.
use daisyway.Base.{
  ◌+◌, ℕ, ◌≡◌, refl, List, [], ◌∷◌, ◌++◌, none, some, Result, ok, false, length-append,
  length-replicate, arith,
}
use daisyway.Crypto.Key.{Bytes, Key, IsKey, new_zeroed}
use daisyway.Crypto.Basics.{DaisywayProtocolParameters, bytes_of}
use daisyway.Crypto.Agreement.{Wire, IsDelivered}
use daisyway.Crypto.Agreement.Sessions.{Duplex, IsLogging}
use daisyway.Crypto.Agreement.Tests.{read_takes_lem, read_sends_lem}
use daisyway.Crypto.Toys.{Socket, read_exact, write_all, parts_with, toy_nonce, toy_uuid, toy_shake}
use daisyway.Crypto.World.{World, Parts}
use daisyway.Etsi014.{Etsi014Config, Etsi014Connection}
use daisyway.Osk.{OskHandler}
use daisyway.Osk.Deadman
use daisyway.Osk.Deadman.{Runtime, DeadmanRequest, rounds}
use daisyway.Osk.Recording.{logbook}
use daisyway.Setup.{
  DaisywayConfig, DaisywayTcpClient, DaisywayTcpServer, DaisywayTcpParticipantConfig, client_config,
  server_config, client, server, outfile_handler, OskDeadman, from_config, load_psk, choose_output,
  start_deadman, participant_from_config,
}
use daisyway.Simulator.{contains, starts_with, find}
use daisyway.Simulator.Tests.{plain}
use daisyway.Simulator.Device.{IsReadable, IsRouted, get}
use daisyway.Simulator.Device.Delivery.{with_simulator, simulator-IsDelivered}
use daisyway.Simulator.Device.Tests.{split_uri, connection, sent_by}
use daisyway.Util.{base64_to_key, fill}
use daisyway.Util.Tests.{ones}
use daisyway.Daemon.{Host, parts_for, serve, answer, new_server_protocol, new_client_protocol}
use daisyway.Daemon.Session.{Machine, AreAlike}
use daisyway.Daemon.Disk.{Disk, open_file, no_socket, padded, padding}

unfoldable pub host : Host Socket ℕ ℕ (Unit {0})
host = record {
  read_exact = read_exact;
  write_all = write_all;
  random = λ now. (ok toy_nonce, now);
  sleep = λ seconds now. (ok tt, now + seconds);
  get = λ c. get padding plain split_uri;
  to_string = plain.to_string;
  base64 = padding;
  uuid = toy_uuid;
  shake256 = toy_shake;
}

abbrev pub connect : Etsi014Config ℕ → Result (Etsi014Connection (Unit {0}))
connect cfg = ok (record { url = cfg.url; remote_sae_id = cfg.remote_sae_id; client = tt })

abbrev pub machine : Machine Socket ℕ ℕ (Unit {0}) ℕ Disk
machine = record {
  host = host;
  socket = no_socket;
  open_file = open_file;
  etsi_from_config = connect;
}

pub alike : AreAlike machine machine
alike = record { base64_eq = refl; uuid_eq = refl; shake256_eq = refl }

abbrev pub three : Bytes
three = 3 ∷ []

abbrev pub cfg : DaisywayTcpParticipantConfig → Bytes → Bytes → DaisywayConfig ℕ
cfg role own other = record {
  etsi014 = record {
    url = [];
    remote_sae_id = bytes_of "bob";
    interval_secs = some 90;
    tls_cacert = none;
    client_auth = none;
    danger_allow_insecure_no_server_name_certificates = false;
  };
  wireguard = record {
    local_peer_id = padded own;
    remote_peer_id = padded other;
    interface = none;
  };
  outfile = some (record { path = 1 });
  peer = record { participant = role; psk_file = none };
}

abbrev pub server_cfg : DaisywayConfig ℕ
server_cfg = cfg (server_config (1 ∷ [])) ones three

abbrev pub client_cfg : DaisywayConfig ℕ
client_cfg = cfg (client_config (1 ∷ [])) three ones

abbrev pub deadman : OskDeadman ℕ
deadman = record { erase_after = 120; broker = outfile_handler 1 }

abbrev pub params_of : Key → Key → DaisywayProtocolParameters
params_of own other = record { psk = new_zeroed 32; local_peer_id = own; remote_peer_id = other }

abbrev pub at_server : DaisywayTcpServer ℕ (Unit {0})
at_server = record {
  protocol_params = params_of ones (fill 32 three);
  listen_addr = 1 ∷ [];
  etsi_client = connection;
  osk_handler = deadman;
  rekey_interval = 90;
}

abbrev pub at_client : DaisywayTcpClient ℕ (Unit {0})
at_client = record {
  protocol_params = params_of (fill 32 three) ones;
  endpoint = 1 ∷ [];
  etsi_client = connection;
  osk_handler = deadman;
}

abbrev pub empty_disk : Disk
empty_disk = record { received = 0; text = []; written = [] }

pub made_server :
    from_config padding no_socket open_file connect server_cfg empty_disk
    ≡ (ok (server at_server), empty_disk)
unfolding from_config participant_from_config choose_output start_deadman load_psk base64_to_key
made_server = refl

pub made_client :
    from_config padding no_socket open_file connect client_cfg empty_disk
    ≡ (ok (client at_client), empty_disk)
unfolding from_config participant_from_config choose_output start_deadman load_psk base64_to_key
made_client = refl

-- The channel to the worker of the client, as the requests that were sent into it.
unfoldable pub channel : OskHandler (List DeadmanRequest)
unfolding Deadman.client
channel = Deadman.client (λ req sent. (ok tt, req ∷ sent))

abbrev pub server_parts : Parts Socket ℕ ℕ (List Key)
server_parts = parts_for host connection logbook

abbrev pub client_parts : Parts Socket ℕ ℕ (List DeadmanRequest)
client_parts = parts_for host connection channel

unfoldable pub wire : Wire server_parts
unfolding parts_for host
wire = record {
  sent = λ s. s.sent;
  incoming = λ s. s.incoming;
  write_sends = λ b s h. refl;
  read_sends = read_sends_lem;
  read_takes = read_takes_lem;
}

unfoldable pub duplex : Duplex client_parts
unfolding parts_for host
duplex = record {
  wire = record {
    sent = λ s. s.sent;
    incoming = λ s. s.incoming;
    write_sends = λ b s h. refl;
    read_sends = read_sends_lem;
    read_takes = read_takes_lem;
  };
  write_takes = λ b s. refl;
}

unfoldable pub logging : IsLogging server_parts
unfolding parts_for host
logging = record { log = λ l. l; logs = λ k o h. refl }

abbrev pub keys_of : List DeadmanRequest → List Key
keys_of [] = []
keys_of (req ∷ reqs) = req.key ∷ keys_of reqs

unfoldable pub logging' : IsLogging client_parts
unfolding parts_for host channel
logging' = record { log = keys_of; logs = λ k o h. refl }

pub readable : IsReadable padding plain
readable = record {
  sized = λ n. length-replicate 16 n;
  parses = λ id u. refl;
  encodes = λ id u. (
    padded (id ++ id),
    ground (arith, length-append id id, length-append (id ++ id) (61 ∷ [])),
    ground (arith, length-append id id, length-append (id ++ id) (61 ∷ [])),
  );
}

pub routed : IsRouted padding plain split_uri connection
unfolding starts_with contains find
routed = record {
  any_path = refl;
  any_enc = refl;
  any_dec = refl;
  specific_path = λ id. refl;
  specific_dec = λ id. refl;
  specific_query = λ id. refl;
}

pub nonces : (now : ℕ) (n : Key) → ((parts_with logbook).random now).0 ≡ ok n → IsKey n
nonces now n e = ground arith

pub delivered :
    (x : World Socket ℕ ℕ (List Key)) (y : World Socket ℕ ℕ (List DeadmanRequest))
    → IsDelivered server_parts client_parts x y
unfolding parts_for host with_simulator
delivered x y =
    simulator-IsDelivered padding plain split_uri (parts_with logbook) (parts_with channel)
      connection connection readable routed routed nonces x y

abbrev pub alice : World Socket ℕ ℕ (List Key)
alice = record {
  stream = record { sent = []; incoming = 1 ∷ 1 ∷ [] };
  etsi = 1;
  runtime = 0;
  osk = [];
}

abbrev pub requests : Bytes
requests = sent_by 1 ++ sent_by 2

abbrev pub bob : World Socket ℕ ℕ (List DeadmanRequest)
bob = record { stream = record { sent = []; incoming = requests }; etsi = 5; runtime = 0; osk = [] }

abbrev pub alice_end : World Socket ℕ ℕ (List Key)
alice_end =
    (serve host (new_server_protocol at_server.protocol_params alice.stream connection logbook 90) 2
      alice).1

abbrev pub bob_end : World Socket ℕ ℕ (List DeadmanRequest)
bob_end =
    (answer host (new_client_protocol at_client.protocol_params bob.stream connection channel) 2
      bob).1
