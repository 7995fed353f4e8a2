-- ===== src/Setup/Worker/Written.antt =====
-- What a write of the worker leaves in the output that daisyway/src/internal/daisyway/setup.rs has chosen.
use daisyway.Base.{◌≡◌, sym, ap, ◌∙◌, Result, ok, inl, inr}
use daisyway.Crypto.Key.{Key, IsKey}
use daisyway.Util.{Base64, Reader, load_base64_key_file}
use daisyway.Etsi014.{Etsi014Config, Etsi014Connection}
use daisyway.Osk.{SetOskReason}
use daisyway.Osk.Deadman.{Runtime}
use daisyway.Osk.Deadman.Erased.{HasText}
use daisyway.Osk.Outfile
use daisyway.Osk.Outfile.Written.{IsReadBack, set_osk_impl-load}
use daisyway.Osk.WireGuard
use daisyway.Osk.WireGuard.{WgSocket}
use daisyway.Osk.WireGuard.Kernel.{IsKernel, set_osk_impl-own}
use daisyway.Setup.{DaisywayConfig, OskDeadman, Output}
use daisyway.Setup.Choice.{HasOutput}
use daisyway.Setup.Worker.{broker_of, Holds}

module _ {FilePath Client W : Type 0} (base64 : Base64) (files : Outfile.Output FilePath W)
    (socket : WgSocket W) (open_file : FilePath → W → Result Reader)
    (etsi_from_config : Etsi014Config FilePath → Result (Etsi014Connection Client))
    (rt : Runtime W) where
  pub set_osk-Holds :
      (kernel : IsKernel socket) (cfg : DaisywayConfig FilePath) (d : OskDeadman FilePath)
      (key : Key) (reason : SetOskReason) (v : W)
      → IsReadBack files open_file
      → HasText base64 key
      → IsKey key
      → HasOutput base64 cfg d
      → ((broker_of base64 files socket d.broker).set_osk key reason v).0 ≡ ok tt
      → Holds base64 files socket open_file etsi_from_config rt kernel cfg key v
          ((broker_of base64 files socket d.broker).set_osk key reason v).1
  unfolding broker_of Outfile.handler WireGuard.handler
  set_osk-Holds kernel cfg d key reason v back (s, encoded, short, trimmed) k
        (inl (_, (o, configured, broker_eq))) e =
      let set = λ (b : Output FilePath). (broker_of base64 files socket b).set_osk key reason v in
      inl (
        o,
        configured,
        ap (λ b. load_base64_key_file base64 (open_file o.path (set b).1)) broker_eq
            ∙ set_osk_impl-load base64 files open_file back o.path key reason s v k encoded short
                trimmed (ap (λ b. (set b).0) (sym broker_eq) ∙ e),
      )
  set_osk-Holds kernel cfg d key reason v back text k (inr (_, (h, configured, decoded, broker_eq)))
        e =
      let set = λ (b : Output FilePath). (broker_of base64 files socket b).set_osk key reason v in
      inr (
        h.interface,
        h.peer_id,
        configured,
        decoded,
        ap (λ b. kernel.psk h.interface h.peer_id (set b).1) broker_eq
            ∙ set_osk_impl-own socket kernel base64 h key reason v
                (ap (λ b. (set b).0) (sym broker_eq) ∙ e),
      )
