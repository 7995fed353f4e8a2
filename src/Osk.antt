-- ===== src/Osk.antt =====
-- daisyway/src/internal/osk/mod.rs: what takes the output shared keys (OSK).
pub mod Deadman
pub mod Outfile
pub mod WireGuard
pub mod Recording
mod Tests
use daisyway.Base.{Action, ◌>>=◌}
use daisyway.Crypto.Key.{Key}

pub data SetOskReason : Type 0 where
  fresh stale : SetOskReason

-- The trait, over the world that its methods change.
pub record OskHandler {ℓ} (W : Type ℓ) : Type ℓ where
  pub set_osk : Key → SetOskReason → Action W (Unit {0})

module _ {ℓ} {W : Type ℓ} (handler : OskHandler W) where
  unfoldable pub set_fresh_osk : Key → Action W (Unit {0})
  set_fresh_osk key = handler.set_osk key fresh

  -- `random` is the thread's random number generator.
  unfoldable pub erase_stale_osk : Action W Key → Action W (Unit {0})
  erase_stale_osk random = do key ← random; handler.set_osk key stale
