-- ===== src/Cli/Client.antt =====
-- The command `exchange` of daisyway/src/main.rs on a machine that is configured as a client: from its
-- configuration file to the keys of daisyway/src/internal/daisyway/net/tcp_client.rs.
mod Tests
use daisyway.Base.{
  ℕ, ◌≡◌, refl, sym, subst, ap, ◌∙◌, List, [], some, Result, ok, false, Action, is_err,
}
use daisyway.Crypto.Key.{Bytes}
use daisyway.Crypto.World.{Parts}
use daisyway.Crypto.Client.Answered.{IsAnswered}
use daisyway.Util.{Reader, base64_to_key}
use daisyway.Etsi014.{Etsi014Config, Etsi014Connection}
use daisyway.Osk.Deadman
use daisyway.Osk.Deadman.{DeadmanRequest}
use daisyway.Osk.Recording.{AllHave, IsRecording}
use daisyway.Osk.WireGuard.{WgSocket}
use daisyway.Setup
use daisyway.Setup.{
  DaisywayConfig, DaisywayTcpParticipant, DaisywayTcpParticipantConfig, DaisywayTcpClient, client,
  server, client_config, load_from_file, rekey_interval_of, load_psk,
}
use daisyway.Setup.Choice.{HasRole, HasOutput, from_config_sound}
use daisyway.TcpClient
use daisyway.TcpClient.{ClientWorld}
use daisyway.TcpClient.Answered.{event_loop-IsAnswered}
use daisyway.TcpClient.Retries.{event_loop-err}
use daisyway.TcpServer.Manager.{Poll}
use daisyway.Daemon.{Host, parts_for, run_client, run}
use daisyway.Cli
use daisyway.Cli.{
  Cli, ExchangeCommand, exchange_command, Logger, Terminal, init_logging, main, run_command,
  run_exchange,
}

-- A client's configuration only makes clients.
client-HasRole :
    {FilePath HttpClient : Type 0} (config : DaisywayTcpParticipantConfig) (endpoint : Bytes)
    (interval : ℕ) (p : DaisywayTcpParticipant FilePath HttpClient)
    → config ≡ client_config endpoint
    → HasRole config interval p
    → (c : DaisywayTcpClient FilePath HttpClient) × (p ≡ client c) × (c.endpoint ≡ endpoint)
client-HasRole config endpoint interval (client c) e role =
    (c, refl, subst (λ x. HasRole x interval (client c)) e role)
client-HasRole config endpoint interval (server s) e role =
    absurd (subst (λ x. HasRole x interval (server s)) e role)

module _ {FilePath Shell Command Process Builder HttpClient M N K R C Stream Peer Sockets : Type 0}
    (host : Host N K R HttpClient) (connect : Bytes → Action M N) (bind : Bytes → Result Sockets)
    (polls : Sockets → List (Poll Stream Peer)) (send : DeadmanRequest → Action C (Unit {0}))
    (terminal : Terminal Command Process FilePath Shell (ClientWorld M K R C))
    (logger : Logger Builder (ClientWorld M K R C))
    (read_to_string : FilePath → ClientWorld M K R C → Result Bytes)
    (from_str : Bytes → Result (DaisywayConfig FilePath)) (socket : WgSocket (ClientWorld M K R C))
    (open_file : FilePath → ClientWorld M K R C → Result Reader)
    (etsi_from_config : Etsi014Config FilePath → Result (Etsi014Connection HttpClient)) where
  abbrev setup :
      DaisywayConfig FilePath
      → Action (ClientWorld M K R C) (DaisywayTcpParticipant FilePath HttpClient)
  setup = Setup.from_config host.base64 socket open_file etsi_from_config

  abbrev load : FilePath → Action (ClientWorld M K R C) (DaisywayConfig FilePath)
  load = load_from_file read_to_string from_str

  -- The program, over so many attempts to connect and so many exchanges in each.
  abbrev pub program : ℕ → ℕ → Cli FilePath Shell → Action (ClientWorld M K R C) (Unit {0})
  program rounds attempts =
      main terminal load setup (run host connect bind polls send rounds attempts) logger

  program-run :
      (rounds attempts : ℕ) (cli : Cli FilePath Shell) (cmd : ExchangeCommand FilePath)
      (w u after : ClientWorld M K R C) (text : Bytes) (config : DaisywayConfig FilePath)
      (p : DaisywayTcpParticipant FilePath HttpClient)
      → cli.command ≡ some (exchange_command cmd)
      → init_logging logger cli w ≡ (ok tt, u)
      → read_to_string cmd.config u ≡ ok text
      → from_str text ≡ ok config
      → setup config u ≡ (ok p, after)
      → program rounds attempts cli w ≡ run host connect bind polls send rounds attempts p after
  unfolding main Cli.run run_command run_exchange load_from_file
  program-run rounds attempts cli cmd w u after text config p is_exchange logs reads parses made =
      rw (logs, is_exchange, reads, parses, made) refl

  -- The participant `p` is a client that connects to the endpoint, for the configured peers, with the
  -- pre-shared key of the file and the configured output, and `end` is the outcome of its loop: no error,
  -- and all keys that were handed to the worker of the output were answered requests.
  pub record IsClient (recording : IsRecording (Deadman.client send)) (rounds attempts : ℕ)
      (config : DaisywayConfig FilePath) (endpoint : Bytes) (before after : ClientWorld M K R C)
      (p : DaisywayTcpParticipant FilePath HttpClient)
      (end : Result (Unit {0}) × ClientWorld M K R C) : Type 0 where
    pub c : DaisywayTcpClient FilePath HttpClient
    pub is_client : p ≡ client c
    pub connects : c.endpoint ≡ endpoint
    pub output : HasOutput host.base64 config c.osk_handler
    pub local_peer :
        base64_to_key host.base64 config.wireguard.local_peer_id
        ≡ ok c.protocol_params.local_peer_id
    pub remote_peer :
        base64_to_key host.base64 config.wireguard.remote_peer_id
        ≡ ok c.protocol_params.remote_peer_id
    pub psk :
        (load_psk host.base64 socket open_file etsi_from_config config.peer.psk_file before).0
        ≡ ok c.protocol_params.psk
    pub loops :
        end
        ≡ TcpClient.event_loop
            (parts_for host c.etsi_client (Deadman.client send))
            connect
            c.protocol_params
            c.endpoint
            rounds
            attempts
            after
    pub goes_on : is_err end.0 ≡ false
    pub answered :
        AllHave
          (IsAnswered (parts_for host c.etsi_client (Deadman.client send)) c.protocol_params)
          (recording.log end.1.osk)

  made-IsClient :
      (recording : IsRecording (Deadman.client send)) (rounds attempts : ℕ)
      (config : DaisywayConfig FilePath) (endpoint : Bytes) (u after : ClientWorld M K R C)
      (c : DaisywayTcpClient FilePath HttpClient) (end : Result (Unit {0}) × ClientWorld M K R C)
      → ((s : R) → (host.sleep 2 s).0 ≡ ok tt)
      → setup config u ≡ (ok (client c), after)
      → c.endpoint ≡ endpoint
      → recording.log after.osk ≡ []
      → end
        ≡ TcpClient.event_loop
            (parts_for host c.etsi_client (Deadman.client send))
            connect
            c.protocol_params
            c.endpoint
            rounds
            attempts
            after
      → IsClient recording rounds attempts config endpoint u after (client c) end
  unfolding parts_for
  made-IsClient recording rounds attempts config endpoint u after c end slept made connects empty
        e =
      let sound =
        from_config_sound host.base64 socket open_file etsi_from_config config u after (client c)
          made in
      let parts : Parts N K R C = parts_for host c.etsi_client (Deadman.client send) in
      record {
        c = c;
        is_client = refl;
        connects = connects;
        output = sound.1;
        local_peer = sound.3;
        remote_peer = sound.4;
        psk = sound.5;
        loops = e;
        goes_on =
            subst (λ x. is_err x.0 ≡ false) (sym e)
              (event_loop-err parts connect c.protocol_params c.endpoint rounds attempts after
                slept);
        answered =
            subst (λ x. AllHave (IsAnswered parts c.protocol_params) (recording.log x.1.osk))
              (sym e)
              (event_loop-IsAnswered parts connect c.protocol_params c.endpoint recording rounds
                attempts after empty);
      }

  -- If the command is `exchange`, the log starts, the configuration file is read and parsed, it
  -- configures a client, the set-up succeeds, sleeping succeeds, and no key was handed over
  -- before, then a client was set up for the configured endpoint, peers, pre-shared key and
  -- output, and the program has the outcome of its loop, after any number of attempts and of
  -- exchanges in each: it has returned no error, and each key that was handed to the worker of the
  -- output was derived from a request that was read and acknowledged and from the QKD key that the
  -- device returned for its id.
  pub main-IsClient :
      (recording : IsRecording (Deadman.client send)) (rounds attempts : ℕ)
      (cli : Cli FilePath Shell) (cmd : ExchangeCommand FilePath) (w u after : ClientWorld M K R C)
      (text : Bytes) (config : DaisywayConfig FilePath) (endpoint : Bytes)
      (p : DaisywayTcpParticipant FilePath HttpClient)
      → ((s : R) → (host.sleep 2 s).0 ≡ ok tt)
      → cli.command ≡ some (exchange_command cmd)
      → init_logging logger cli w ≡ (ok tt, u)
      → read_to_string cmd.config u ≡ ok text
      → from_str text ≡ ok config
      → config.peer.participant ≡ client_config endpoint
      → setup config u ≡ (ok p, after)
      → recording.log after.osk ≡ []
      → IsClient recording rounds attempts config endpoint u after p (program rounds attempts cli w)
  unfolding run run_client parts_for
  main-IsClient recording rounds attempts cli cmd w u after text config endpoint p slept is_exchange
        logs reads parses role made fresh_log =
      let interval = rekey_interval_of config.etsi014.interval_secs in
      let sound =
        from_config_sound host.base64 socket open_file etsi_from_config config u after p made in
      let (c, is_c, connects) =
        client-HasRole config.peer.participant endpoint interval p role sound.0 in
      let runs =
        program-run rounds attempts cli cmd w u after text config p is_exchange logs reads parses
          made in
      subst
        (λ q.
          IsClient recording rounds attempts config endpoint u after q
            (program rounds attempts cli w))
        (sym is_c)
        (made-IsClient recording rounds attempts config endpoint u after c
          (program rounds attempts cli w) slept (made ∙ ap (λ q. (ok q, after)) is_c) connects
          fresh_log
          (runs ∙ ap (λ q. run host connect bind polls send rounds attempts q after) is_c))
