-- ===== src/Setup.antt =====
-- daisyway/src/internal/daisyway/setup.rs and net/tcp_participant.rs: from a configuration to the
-- participant that runs. The log lines are left out.
pub mod Choice
pub mod Panics
pub mod Worker
pub mod Renewals
pub mod Tests
use daisyway.Base.{
  ℕ, ◌+◌, ◌%◌, ◌^◌, Option, none, some, Result, ok, err, panic, Error, message, Action, ◌>>=◌, pure,
  lift, within, context, and_then,
}
use daisyway.Crypto.Key.{Bytes, Key, key_length, new_zeroed}
use daisyway.Crypto.Basics.{DaisywayProtocolParameters, rekey_interval_default}
use daisyway.Util.{Base64, Reader, base64_to_key, load_base64_key_file}
use daisyway.Etsi014.{Etsi014Config, Etsi014Connection}
use daisyway.Osk.WireGuard.{WgSocket, WireGuardOskHandler, setup}

pub record WireGuardConfig : Type 0 where
  pub local_peer_id : Bytes
  pub remote_peer_id : Bytes
  pub interface : Option Bytes

pub record OutfileConfig (FilePath : Type 0) : Type 0 where
  pub path : FilePath

pub data DaisywayTcpParticipantConfig : Type 0 where
  client_config : (endpoint : Bytes) → DaisywayTcpParticipantConfig
  server_config : (listen : Bytes) → DaisywayTcpParticipantConfig

pub record PeerConfig (FilePath : Type 0) : Type 0 where
  pub participant : DaisywayTcpParticipantConfig
  pub psk_file : Option FilePath

pub record DaisywayConfig (FilePath : Type 0) : Type 0 where
  pub etsi014 : Etsi014Config FilePath
  pub wireguard : WireGuardConfig
  pub outfile : Option (OutfileConfig FilePath)
  pub peer : PeerConfig FilePath

-- The handler under the deadman's worker.
pub data Output (FilePath : Type 0) : Type 0 where
  outfile_handler : FilePath → Output FilePath
  wireguard_handler : WireGuardOskHandler → Output FilePath

-- `OskDeadman::start`: the worker's interval, in seconds, and its handler.
pub record OskDeadman (FilePath : Type 0) : Type 0 where
  pub erase_after : ℕ
  pub broker : Output FilePath

pub record DaisywayTcpClient (FilePath Client : Type 0) : Type 0 where
  pub protocol_params : DaisywayProtocolParameters
  pub endpoint : Bytes
  pub etsi_client : Etsi014Connection Client
  pub osk_handler : OskDeadman FilePath

pub record DaisywayTcpServer (FilePath Client : Type 0) : Type 0 where
  pub protocol_params : DaisywayProtocolParameters
  pub listen_addr : Bytes
  pub etsi_client : Etsi014Connection Client
  pub osk_handler : OskDeadman FilePath
  pub rekey_interval : ℕ

pub data DaisywayTcpParticipant (FilePath Client : Type 0) : Type 0 where
  client : DaisywayTcpClient FilePath Client → DaisywayTcpParticipant FilePath Client
  server : DaisywayTcpServer FilePath Client → DaisywayTcpParticipant FilePath Client

-- `DaisywayTcpClient::new` and `DaisywayTcpServer::new`.
unfoldable pub new_client :
    {FilePath Client : Type 0}
    → DaisywayProtocolParameters
    → Bytes
    → Etsi014Connection Client
    → OskDeadman FilePath
    → DaisywayTcpClient FilePath Client
new_client protocol_params endpoint etsi_client osk_handler = record {
  protocol_params = protocol_params;
  endpoint = endpoint;
  etsi_client = etsi_client;
  osk_handler = osk_handler;
}

unfoldable pub new_server :
    {FilePath Client : Type 0}
    → DaisywayProtocolParameters
    → Bytes
    → Etsi014Connection Client
    → OskDeadman FilePath
    → ℕ
    → DaisywayTcpServer FilePath Client
new_server protocol_params listen_addr etsi_client osk_handler rekey_interval = record {
  protocol_params = protocol_params;
  listen_addr = listen_addr;
  etsi_client = etsi_client;
  osk_handler = osk_handler;
  rekey_interval = rekey_interval;
}

-- `rekey_interval + 30` of 64 bits, which wraps around in a release build.
unfoldable pub start_deadman : {FilePath : Type 0} → Output FilePath → ℕ → OskDeadman FilePath
start_deadman o rekey_interval = record { erase_after = (rekey_interval + 30) % 2 ^ 64; broker = o }

abbrev pub rekey_interval_of : Option ℕ → ℕ
rekey_interval_of none = rekey_interval_default
rekey_interval_of (some secs) = secs

module _ {FilePath Client : Type 0} where
  unfoldable pub participant_from_config :
      DaisywayProtocolParameters
      → DaisywayTcpParticipantConfig
      → Etsi014Connection Client
      → OskDeadman FilePath
      → ℕ
      → DaisywayTcpParticipant FilePath Client
  unfolding new_client new_server
  participant_from_config protocol_params (client_config endpoint) etsi_client osk_handler
        rekey_interval =
      client (new_client protocol_params endpoint etsi_client osk_handler)
  participant_from_config protocol_params (server_config listen) etsi_client osk_handler
        rekey_interval =
      server (new_server protocol_params listen etsi_client osk_handler rekey_interval)

module _ {FilePath Client W : Type 0} (base64 : Base64) (socket : WgSocket W)
    (open_file : FilePath → W → Result Reader)
    (etsi_from_config : Etsi014Config FilePath → Result (Etsi014Connection Client)) where
  unfoldable pub load_psk : Option FilePath → Action W Key
  load_psk none w = (ok (new_zeroed key_length), w)
  load_psk (some file) w = (
    context "Could not load PSK file from {file:?}"
        (load_base64_key_file base64 (open_file file w)),
    w,
  )

  -- The output, on Linux.
  unfoldable pub choose_output :
      Bytes → Option Bytes → Option (OutfileConfig FilePath) → ℕ → Action W (OskDeadman FilePath)
  unfolding start_deadman
  choose_output peer none none rekey_interval = lift (
      err (
        message
          "You need to specify either the wireguard.interface or outfile.path configuration option"))
  choose_output peer (some interface) (some outfile) rekey_interval = lift (
      err (
        message
          "You can not specify both the wireguard.interface and outfile.path configuration options"))
  choose_output peer none (some outfile) rekey_interval =
      pure (start_deadman (outfile_handler outfile.path) rekey_interval)
  choose_output peer (some interface) none rekey_interval = do
    o ← within "Could start WireGuard key handler" (setup base64 socket peer interface)
    pure (start_deadman (wireguard_handler o) rekey_interval)

  unfoldable pub from_config :
      DaisywayConfig FilePath → Action W (DaisywayTcpParticipant FilePath Client)
  unfolding load_psk choose_output
  from_config cfg = do
    let rekey_interval = rekey_interval_of cfg.etsi014.interval_secs
    psk ← load_psk cfg.peer.psk_file
    local_peer_id ← lift (
        context "Could not decode WireGuard local peer id"
          (base64_to_key base64 cfg.wireguard.local_peer_id))
    remote_peer_id ← lift (
        context "Could not decode WireGuard remote peer id"
          (base64_to_key base64 cfg.wireguard.remote_peer_id))
    let protocol_params : DaisywayProtocolParameters = record {
      psk = psk;
      local_peer_id = local_peer_id;
      remote_peer_id = remote_peer_id;
    }
    etsi_client ← lift (etsi_from_config cfg.etsi014)
    osk_handler ←
        choose_output cfg.wireguard.remote_peer_id cfg.wireguard.interface cfg.outfile
          rekey_interval
    pure (
        participant_from_config protocol_params cfg.peer.participant etsi_client osk_handler
          rekey_interval)

-- `DaisywayConfig::load_from_file`: reading the file, and then TOML.
unfoldable pub load_from_file :
    {FilePath W : Type 0}
    → (FilePath → W → Result Bytes)
    → (Bytes → Result (DaisywayConfig FilePath))
    → FilePath
    → Action W (DaisywayConfig FilePath)
load_from_file read_to_string from_str file_path w =
    (and_then (context "Failed to read config file" (read_to_string file_path w)) from_str, w)

-- The loop of a participant, and of `Daisyway`, which only has a participant.
unfoldable pub event_loop :
    {FilePath Client W : Type 0}
    → (DaisywayTcpClient FilePath Client → Action W (Unit {0}))
    → (DaisywayTcpServer FilePath Client → Action W (Unit {0}))
    → DaisywayTcpParticipant FilePath Client
    → Action W (Unit {0})
event_loop client_loop server_loop (client c) = client_loop c
event_loop client_loop server_loop (server s) = server_loop s
