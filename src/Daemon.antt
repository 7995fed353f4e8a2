-- ===== src/Daemon.antt =====
-- A whole daemon: which connection to the key management entity and which key handler the protocols of
-- daisyway/src/internal/daisyway/crypto are given, in net/tcp_server and net/tcp_client.rs, and what a
-- participant of net/tcp_participant.rs runs.
pub mod Tasks
pub mod Session
pub mod Outputs
pub mod Disk
pub mod Nodes
use daisyway.Base.{ℕ, List, Result, Action}
use daisyway.Crypto.Key.{Bytes, Key, Uuid}
use daisyway.Crypto.Basics.{DaisywayProtocolParameters, UuidCrate}
use daisyway.Crypto.HashDomain.{Xof}
use daisyway.Crypto.World.{World, Parts}
use daisyway.Crypto.Server
use daisyway.Crypto.Client
use daisyway.Etsi014
use daisyway.Etsi014.{Etsi014Connection, Response}
use daisyway.Osk.{OskHandler}
use daisyway.Osk.Deadman
use daisyway.Osk.Deadman.{DeadmanRequest}
use daisyway.Setup
use daisyway.Setup.{DaisywayTcpClient, DaisywayTcpServer, DaisywayTcpParticipant}
use daisyway.TcpClient
use daisyway.TcpClient.{ClientWorld}
use daisyway.TcpServer.Fanout.{Sender, TaskState, fanout_osk_handler, after_loop}
use daisyway.TcpServer.Listener
use daisyway.TcpServer.Manager.{Poll}
use daisyway.Util.{Base64}

-- Sockets, the thread's random numbers and its clock, requests of an HTTP client, and the crates.
pub record Host (N K R HttpClient : Type 0) : Type 0 where
  pub read_exact : ℕ → Action N Bytes
  pub write_all : Bytes → Action N (Unit {0})
  pub random : Action R Key
  pub sleep : ℕ → Action R (Unit {0})
  pub get : HttpClient → Bytes → Action K Response
  pub to_string : Uuid → Bytes
  pub base64 : Base64
  pub uuid : UuidCrate
  pub shake256 : Xof

-- The two protocols: what they own, beside the state of what they own.
pub record DaisywayServerProtocol (N O HttpClient : Type 0) : Type 0 where
  pub protocol_params : DaisywayProtocolParameters
  pub stream : N
  pub etsi_client : Etsi014Connection HttpClient
  pub osk_handler : OskHandler O
  pub rekey_interval : ℕ

pub record DaisywayClientProtocol (N O HttpClient : Type 0) : Type 0 where
  pub protocol_params : DaisywayProtocolParameters
  pub stream : N
  pub etsi_client : Etsi014Connection HttpClient
  pub osk_handler : OskHandler O

module _ {N O HttpClient : Type 0} where
  unfoldable pub new_server_protocol :
      DaisywayProtocolParameters
      → N
      → Etsi014Connection HttpClient
      → OskHandler O
      → ℕ
      → DaisywayServerProtocol N O HttpClient
  new_server_protocol protocol_params stream etsi_client osk_handler rekey_interval = record {
    protocol_params = protocol_params;
    stream = stream;
    etsi_client = etsi_client;
    osk_handler = osk_handler;
    rekey_interval = rekey_interval;
  }

  unfoldable pub new_client_protocol :
      DaisywayProtocolParameters
      → N
      → Etsi014Connection HttpClient
      → OskHandler O
      → DaisywayClientProtocol N O HttpClient
  new_client_protocol protocol_params stream etsi_client osk_handler = record {
    protocol_params = protocol_params;
    stream = stream;
    etsi_client = etsi_client;
    osk_handler = osk_handler;
  }

-- What the task of a connection is made from.
pub record FanoutConnectionHandler (Q HttpClient : Type 0) : Type 0 where
  pub protocol_params : DaisywayProtocolParameters
  pub etsi_client : Etsi014Connection HttpClient
  pub manager_notification_tx : Sender Q
  pub rekey_interval : ℕ

unfoldable pub new_fanout :
    {Q HttpClient : Type 0}
    → DaisywayProtocolParameters
    → Etsi014Connection HttpClient
    → Sender Q
    → ℕ
    → FanoutConnectionHandler Q HttpClient
new_fanout protocol_params etsi_client manager_notification_tx rekey_interval = record {
  protocol_params = protocol_params;
  etsi_client = etsi_client;
  manager_notification_tx = manager_notification_tx;
  rekey_interval = rekey_interval;
}

-- What `Daisyway::from_config` makes.
pub record Daisyway (FilePath HttpClient : Type 0) : Type 0 where
  pub participant : DaisywayTcpParticipant FilePath HttpClient

module _ {N K R HttpClient : Type 0} (host : Host N K R HttpClient) where
  open host use {read_exact, write_all, random, sleep, get, to_string, base64, uuid, shake256}

  -- What a protocol with this connection and this key handler works with.
  unfoldable pub parts_for :
      {O : Type 0} → Etsi014Connection HttpClient → OskHandler O → Parts N K R O
  parts_for etsi_client osk_handler = record {
    read_exact = read_exact;
    write_all = write_all;
    fetch_any_key = Etsi014.fetch_any_key base64 (get etsi_client.client) to_string etsi_client;
    fetch_specific_key =
        Etsi014.fetch_specific_key base64 (get etsi_client.client) to_string etsi_client;
    random = random;
    sleep = sleep;
    handler = osk_handler;
    uuid = uuid;
    shake256 = shake256;
  }

  module _ {O : Type 0} where
    unfoldable pub serve :
        DaisywayServerProtocol N O HttpClient → ℕ → Action (World N K R O) (Unit {0})
    unfolding parts_for
    serve self rounds w =
        Server.event_loop (parts_for self.etsi_client self.osk_handler) self.protocol_params
          self.rekey_interval rounds (record w { stream = self.stream })

    unfoldable pub answer :
        DaisywayClientProtocol N O HttpClient → ℕ → Action (World N K R O) (Unit {0})
    unfolding parts_for
    answer self rounds w =
        Client.event_loop (parts_for self.etsi_client self.osk_handler) self.protocol_params rounds
          (record w { stream = self.stream })

  -- `FanoutConnectionHandler::event_loop` and `init_task`, over the socket of the connection.
  module _ {Q : Type 0} (self : FanoutConnectionHandler Q HttpClient) (connection_id : ℕ)
      (stream : N) where
    open self use {protocol_params, etsi_client, manager_notification_tx, rekey_interval}

    unfoldable pub fanout_event_loop : ℕ → Action (World N K R Q) (Unit {0})
    unfolding serve new_server_protocol
    fanout_event_loop = serve (
        new_server_protocol protocol_params stream etsi_client
          (fanout_osk_handler manager_notification_tx connection_id) rekey_interval)

    unfoldable pub spawned_task : ℕ → Action (World N K R Q) TaskState
    unfolding fanout_event_loop
    spawned_task rounds w =
        after_loop
          (parts_for etsi_client (fanout_osk_handler manager_notification_tx connection_id))
          protocol_params manager_notification_tx connection_id (fanout_event_loop rounds w)

  -- A participant. The state of its key handler is that of the channel to the deadman's worker, into
  -- which `send` puts a request.
  module _ {M C FilePath Stream Peer Sockets : Type 0} (connect : Bytes → Action M N)
      (bind : Bytes → Result Sockets) (polls : Sockets → List (Poll Stream Peer))
      (send : DeadmanRequest → Action C (Unit {0})) where
    unfoldable pub run_client :
        ℕ → ℕ → DaisywayTcpClient FilePath HttpClient → Action (ClientWorld M K R C) (Unit {0})
    unfolding parts_for
    run_client rounds attempts c =
        TcpClient.event_loop (parts_for c.etsi_client (Deadman.client send)) connect
          c.protocol_params c.endpoint rounds attempts

    unfoldable pub run_server :
        DaisywayTcpServer FilePath HttpClient → Action (ClientWorld M K R C) (Unit {0})
    run_server s w =
        let (r, c) = Listener.event_loop (Deadman.client send) bind polls s.listen_addr w.osk in
        (r, record w { osk = c })

    unfoldable pub run :
        ℕ → ℕ → DaisywayTcpParticipant FilePath HttpClient → Action (ClientWorld M K R C) (Unit {0})
    unfolding run_client run_server Setup.event_loop
    run rounds attempts = Setup.event_loop (run_client rounds attempts) run_server

    -- The whole program, once it was set up.
    unfoldable pub event_loop :
        ℕ → ℕ → Daisyway FilePath HttpClient → Action (ClientWorld M K R C) (Unit {0})
    unfolding run
    event_loop rounds attempts self = run rounds attempts self.participant
