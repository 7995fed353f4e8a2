-- ===== src/Cli/Exchange.antt =====
-- The command `exchange` of daisyway/src/main.rs, with the set-up of
-- daisyway/src/internal/daisyway/setup.rs: what runs in the end.
use daisyway.Base.{◌≡◌, ◌⊎◌, Result, ok, false, is_ok, Action}
use daisyway.Crypto.Key.{Bytes}
use daisyway.Util.{Base64, Reader}
use daisyway.Etsi014.{Etsi014Config, Etsi014Connection}
use daisyway.Osk.WireGuard.{WgSocket}
use daisyway.Setup
use daisyway.Setup.{
  DaisywayConfig, DaisywayTcpParticipant, DaisywayTcpClient, DaisywayTcpServer, load_from_file,
  rekey_interval_of,
}
use daisyway.Setup.Choice.{HasRole, HasOutput, deadman_of}
use daisyway.Cli.{Cli, Logger, Terminal}

-- The run ends in this state without success.
abbrev pub Fails : {W A : Type 0} → Result A × W → W → Type 0
Fails (r, w) v = (is_ok r ≡ false) × (w ≡ v)

module _ {FilePath Shell W Command Process Builder Client : Type 0}
    (terminal : Terminal Command Process FilePath Shell W) (logger : Logger Builder W)
    (read_to_string : FilePath → W → Result Bytes)
    (from_str : Bytes → Result (DaisywayConfig FilePath)) (base64 : Base64) (socket : WgSocket W)
    (open_file : FilePath → W → Result Reader)
    (etsi_from_config : Etsi014Config FilePath → Result (Etsi014Connection Client))
    (client_loop : DaisywayTcpClient FilePath Client → Action W (Unit {0}))
    (server_loop : DaisywayTcpServer FilePath Client → Action W (Unit {0})) where
  abbrev loop : DaisywayTcpParticipant FilePath Client → Action W (Unit {0})
  loop = Setup.event_loop client_loop server_loop

  abbrev setup : DaisywayConfig FilePath → Action W (DaisywayTcpParticipant FilePath Client)
  setup = Setup.from_config base64 socket open_file etsi_from_config

  abbrev load : FilePath → Action W (DaisywayConfig FilePath)
  load = load_from_file read_to_string from_str

  -- `end` is that of the loop of a participant that was set up from the configuration file, in the
  -- state `before`, and has the configured role and output.
  pub record RunsAs (file : FilePath) (before : W) (end : Result (Unit {0}) × W) : Type 0 where
    pub after : W
    pub text : Bytes
    pub config : DaisywayConfig FilePath
    pub participant : DaisywayTcpParticipant FilePath Client
    pub reads : read_to_string file before ≡ ok text
    pub parses : from_str text ≡ ok config
    pub sets_up : setup config before ≡ (ok participant, after)
    pub role :
        HasRole config.peer.participant (rekey_interval_of config.etsi014.interval_secs) participant
    pub output : HasOutput base64 config (deadman_of participant)
    pub loops : end ≡ loop participant after

  -- What stopped the command before the loop, if anything did: reading the file, its text, or the
  -- set-up.
  abbrev pub RunsOrFails : FilePath → W → Result (Unit {0}) × W → Type 0
  RunsOrFails file w end =
      ((is_ok (read_to_string file w) ≡ false) × Fails end w)
      ⊎ ((text : Bytes) × (read_to_string file w ≡ ok text)
          × (is_ok (from_str text) ≡ false)
          × Fails end w)
      ⊎ ((text : Bytes) × (config : DaisywayConfig FilePath) × (read_to_string file w ≡ ok text)
          × (from_str text ≡ ok config)
          × (is_ok (setup config w).0 ≡ false)
          × Fails end (setup config w).1)
      ⊎ RunsAs file w end
