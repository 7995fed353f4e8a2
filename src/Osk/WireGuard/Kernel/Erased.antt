-- ===== src/Osk/WireGuard/Kernel/Erased.antt =====
-- What the worker of daisyway/src/internal/osk/deadman.rs leaves behind in the kernel when it ends, over the
-- handler of wireguard.rs.
use daisyway.Base.{ℕ, ◌≡◌, sym, ap, ◌∙◌, ok}
use daisyway.Crypto.Key.{Key}
use daisyway.Util.{Base64}
use daisyway.Osk.{stale}
use daisyway.Osk.Deadman.{Runtime, returned, event_loop}
use daisyway.Osk.Deadman.Erased.{event_loop-Erased}
use daisyway.Osk.WireGuard
use daisyway.Osk.WireGuard.{WgSocket, WireGuardOskHandler}
use daisyway.Osk.WireGuard.Kernel.{IsKernel, replaced, set_osk_impl-own}

module _ {W : Type 0} (socket : WgSocket W) (kernel : IsKernel socket) where
  open kernel use {psk}

  -- If the worker over a WireGuard output returns, then the pre-shared key of the handler's peer
  -- is a random key that the worker drew for its last write, or the peer was not there at that
  -- write and still is not. This is over a kernel that sets what it is told peer by peer.
  pub event_loop-psk :
      (base64 : Base64) (self : WireGuardOskHandler) (rt : Runtime W) (erase_after fuel : ℕ)
      (w w' : W)
      → rt.broker ≡ WireGuard.handler base64 socket self
      → event_loop rt erase_after fuel w ≡ (ok returned, w')
      → (v : W) × (key : Key) × ((rt.random v).0 ≡ ok key)
        × (psk self.interface self.peer_id w'
            ≡ replaced key (psk self.interface self.peer_id (rt.random v).1))
  unfolding WireGuard.handler
  event_loop-psk base64 self rt erase_after fuel w w' broker_eq e =
      let erased = event_loop-Erased rt erase_after fuel w w' e in
      let v = (rt.random erased.before).1 in
      (
        erased.before,
        erased.key,
        erased.drawn,
        ap (psk self.interface self.peer_id)
              (erased.after ∙ ap (λ b. (b.set_osk erased.key stale v).1) broker_eq)
            ∙ set_osk_impl-own socket kernel base64 self erased.key stale v
                (ap (λ b. (b.set_osk erased.key stale v).0) (sym broker_eq) ∙ erased.written),
      )
