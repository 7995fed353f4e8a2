-- ===== src/Setup/Worker.antt =====
-- The worker behind a participant that daisyway/src/internal/daisyway/setup.rs has set up.
pub mod Written
mod Tests
use daisyway.Base.{
  Action, ℕ, ◌≡◌, ◌<◌, ◌⊎◌, inl, inr, refl, ap, ◌∙◌, Option, some, Result, ok, err, panic, length,
  arith,
}
use daisyway.Crypto.Key.{Bytes, Key, IsKey, key_length_b64}
use daisyway.Util.{Base64, Reader, base64_to_key, load_base64_key_file, trim_newline}
use daisyway.Etsi014.{Etsi014Config, Etsi014Connection}
use daisyway.Osk.{OskHandler}
use daisyway.Osk.Deadman.{Runtime, Progress, start, returned}
use daisyway.Osk.Deadman.Erased.{IsEncodable, start-returned, event_loop-load}
use daisyway.Osk.Outfile
use daisyway.Osk.Outfile.Written.{IsReadBack}
use daisyway.Osk.WireGuard
use daisyway.Osk.WireGuard.{WgSocket, WireGuardOskHandler}
use daisyway.Osk.WireGuard.Kernel.{IsKernel, replaced}
use daisyway.Osk.WireGuard.Kernel.Erased.{event_loop-psk}
use daisyway.Setup.{
  DaisywayConfig, DaisywayTcpParticipant, OskDeadman, OutfileConfig, Output, outfile_handler,
  wireguard_handler, from_config,
}
use daisyway.Setup.Choice.{deadman_of, HasOutput, from_config_sound}

-- What the closure gives to the worker's thread.
unfoldable pub broker_of :
    {FilePath W : Type 0}
    → Base64
    → Outfile.Output FilePath W
    → WgSocket W
    → Output FilePath
    → OskHandler W
unfolding Outfile.handler WireGuard.handler
broker_of base64 files socket (outfile_handler path) = Outfile.handler base64 files path
broker_of base64 files socket (wireguard_handler o) = WireGuard.handler base64 socket o

-- The worker's thread; `o` is moved into it.
unfoldable pub run_deadman :
    {FilePath W : Type 0}
    → Base64
    → Outfile.Output FilePath W
    → WgSocket W
    → Runtime W
    → OskDeadman FilePath
    → ℕ
    → Action W Progress
unfolding broker_of start
run_deadman base64 files socket rt d =
    start rt d.erase_after (λ w. (broker_of base64 files socket d.broker, w))

module _ {FilePath Client W : Type 0} (base64 : Base64) (files : Outfile.Output FilePath W)
    (socket : WgSocket W) (open_file : FilePath → W → Result Reader)
    (etsi_from_config : Etsi014Config FilePath → Result (Etsi014Connection Client))
    (rt : Runtime W) where
  -- The configured output holds the key, unless it is WireGuard and the peer was not there.
  abbrev pub Holds : IsKernel socket → DaisywayConfig FilePath → Key → W → W → Type 0
  Holds kernel cfg key before w =
      ((o : OutfileConfig FilePath) × (cfg.outfile ≡ some o)
        × (load_base64_key_file base64 (open_file o.path w) ≡ ok key))
      ⊎ ((interface : Bytes) × (id : Key) × (cfg.wireguard.interface ≡ some interface)
          × (base64_to_key base64 cfg.wireguard.remote_peer_id ≡ ok id)
          × (kernel.psk interface id w ≡ replaced key (kernel.psk interface id before)))

  output-Holds :
      (kernel : IsKernel socket) (cfg : DaisywayConfig FilePath) (d : OskDeadman FilePath)
      (fuel : ℕ) (w w' : W)
      → IsReadBack files open_file
      → IsEncodable base64 rt
      → HasOutput base64 cfg d
      → run_deadman base64 files socket rt d fuel w ≡ (ok returned, w')
      → (v : W) × (key : Key) × ((rt.random v).0 ≡ ok key) × Holds kernel cfg key (rt.random v).1 w'
  unfolding run_deadman broker_of
  output-Holds kernel cfg d fuel w w' back encodable (inl (_, (o, configured, broker_eq))) e =
      let broker = broker_of base64 files socket d.broker in
      let worker = record rt { broker = broker } in
      let ended = start-returned rt d.erase_after (λ w. (broker, w)) fuel w w' e in
      let (v, key, drawn, load) =
        event_loop-load base64 files open_file o.path worker d.erase_after fuel w w' back
          (ap (broker_of base64 files socket) broker_eq) encodable ended in
      (v, key, drawn, inl (o, configured, load))
  output-Holds kernel cfg d fuel w w' back encodable (inr (_, (h, configured, decoded, broker_eq)))
        e =
      let broker = broker_of base64 files socket d.broker in
      let worker = record rt { broker = broker } in
      let ended = start-returned rt d.erase_after (λ w. (broker, w)) fuel w w' e in
      let (v, key, drawn, psk) =
        event_loop-psk socket kernel base64 h worker d.erase_after fuel w w'
          (ap (broker_of base64 files socket) broker_eq) ended in
      (v, key, drawn, inr (h.interface, h.peer_id, configured, decoded, psk))

  -- If a participant was set up from a configuration, and the thread of its deadman's worker
  -- returns, then the configured output holds a random key that the worker drew for its last
  -- write: the file is read back as this key, or the configured peer of the configured interface
  -- has it as its pre-shared key, if it was there at that write. This is over a file system that
  -- reads back what was written, encodings of random keys that fit the buffer and end in no
  -- newline, and a kernel that sets what it is told peer by peer.
  pub run_deadman-Holds :
      (kernel : IsKernel socket) (cfg : DaisywayConfig FilePath)
      (p : DaisywayTcpParticipant FilePath Client) (fuel : ℕ) (w0 w1 w w' : W)
      → IsReadBack files open_file
      → IsEncodable base64 rt
      → from_config base64 socket open_file etsi_from_config cfg w0 ≡ (ok p, w1)
      → run_deadman base64 files socket rt (deadman_of p) fuel w ≡ (ok returned, w')
      → (v : W) × (key : Key) × ((rt.random v).0 ≡ ok key) × Holds kernel cfg key (rt.random v).1 w'
  run_deadman-Holds kernel cfg p fuel w0 w1 w w' back encodable made e =
      let sound = from_config_sound base64 socket open_file etsi_from_config cfg w0 w1 p made in
      output-Holds kernel cfg (deadman_of p) fuel w w' back encodable sound.1 e
