-- ===== src/Cli/Client/Tests.antt =====
-- A run of daisyway/src/main.rs on the machine of the client: two keys, over one connection.
use daisyway.Base.{
  ℕ, suc, refl, List, [], ◌∷◌, inr, none, some, false, Result, ok, err, foreign, Action,
}
use daisyway.Crypto.Key.{Bytes}
use daisyway.Crypto.Toys.{Socket}
use daisyway.Daemon.Nodes.{host, connect, client_cfg, at_client, requests, keys_of}
use daisyway.Osk.Deadman
use daisyway.Osk.Deadman.{DeadmanRequest}
use daisyway.Osk.Recording.{IsRecording}
use daisyway.Osk.WireGuard.{WgSocket}
use daisyway.Setup.{
  DaisywayConfig, client, from_config, choose_output, load_psk, start_deadman,
  participant_from_config,
}
use daisyway.TcpClient.{ClientWorld}
use daisyway.TcpServer.Manager.{Poll}
use daisyway.Util.{Reader, base64_to_key}
use daisyway.Cli.{
  LevelFilter, off, Cli, ExchangeCommand, exchange_command, Logger, Terminal, init_logging,
}
use daisyway.Cli.Client.{IsClient, program, main-IsClient}

-- The network counts connections.
abbrev Machine : Type 0
Machine = ClientWorld ℕ ℕ ℕ (List DeadmanRequest)

abbrev connect_to : Bytes → Action ℕ Socket
connect_to endpoint n = (ok (record { sent = []; incoming = requests }), suc n)

abbrev bind : Bytes → Result ℕ
bind addr = err (foreign "in use")

abbrev polls : ℕ → List (Poll ℕ ℕ)
polls n = []

abbrev send : DeadmanRequest → Action (List DeadmanRequest) (Unit {0})
send req sent = (ok tt, req ∷ sent)

unfoldable recording : IsRecording (Deadman.client send)
unfolding Deadman.client Deadman.set_osk_impl
recording = record { log = keys_of; logs = λ k r o. inr refl }

abbrev no_socket : WgSocket Machine
no_socket = record {
  connect = λ w. (err (foreign "no such family"), w);
  get_device = λ interface w. (err (foreign "no such device"), w);
  lock = λ w. (ok tt, w);
  set_device = λ dev w. (err (foreign "no such device"), w);
}

abbrev logger : Logger LevelFilter Machine
logger = record {
  from_default_env = λ w. off;
  rust_log = λ w. none;
  filter_level = λ l b. l;
  try_init = λ b w. (ok tt, w);
}

-- Only the command `exchange` is run here, which leaves the terminal alone.
abbrev terminal : Terminal ℕ ℕ ℕ ℕ Machine
terminal = record {
  command = 0;
  find_subcommand = λ name c. none;
  render = λ c. ok [];
  render_to_stdout = λ c w. (ok tt, w);
  spawn_man = λ w. (err (foreign "no man"), w);
  stdin = λ p. none;
  write_all = λ b p w. (ok tt, w);
  wait = λ p w. (ok false, w);
  kill_on_drop = λ p w. w;
  generate_to = λ c p w. (ok tt, w);
  current_exe = λ w. ok 3;
  to_str = λ p. none;
  generate = λ s c b w. w;
}

abbrev command : ExchangeCommand ℕ
command = record { config = 7 }

abbrev cli : Cli ℕ ℕ
cli = record {
  command = some (exchange_command command);
  log_level = none;
  verbose = false;
  quiet = false;
}

abbrev read_config : ℕ → Machine → Result Bytes
read_config p w = ok (p ∷ [])

abbrev parse : Bytes → Result (DaisywayConfig ℕ)
parse text = ok client_cfg

abbrev open_nothing : ℕ → Machine → Result Reader
open_nothing p w = ok []

abbrev booted : Machine
booted = record { network = 0; etsi = 5; runtime = 0; osk = [] }

main-IsClient_example :
    IsClient host connect_to bind polls send terminal logger read_config parse no_socket
      open_nothing connect recording 2 1 client_cfg
      (1 ∷ [])
      booted
      booted
      (client at_client)
      (program host connect_to bind polls send terminal logger read_config parse no_socket
        open_nothing connect 2 1 cli booted)
unfolding host recording init_logging from_config participant_from_config choose_output
    start_deadman load_psk base64_to_key
main-IsClient_example =
    main-IsClient host connect_to bind polls send terminal logger read_config parse no_socket
      open_nothing connect recording 2 1 cli command booted booted booted (7 ∷ []) client_cfg
      (1 ∷ []) (client at_client) (λ s. refl) refl refl refl refl refl refl refl
