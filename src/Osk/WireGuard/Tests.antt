-- ===== src/Osk/WireGuard/Tests.antt =====
-- A run of daisyway/src/internal/osk/wireguard.rs on an interface with two peers.
use daisyway.Base.{◌≡◌, refl, List, [], ◌∷◌, ok, replicate}
use daisyway.Crypto.Key.{Bytes}
use daisyway.Util.{base64_to_key}
use daisyway.Util.Tests.{copying, ones}
use daisyway.Osk.WireGuard.{WgSocket, Device, WireGuardOskHandler, setup}

-- The socket records what is set.
abbrev pub socket : WgSocket (List Device)
socket = record {
  connect = λ w. (ok tt, w);
  get_device = λ interface w. (ok (replicate 32 2 ∷ ones ∷ []), w);
  lock = λ w. (ok tt, w);
  set_device = λ dev w. (ok tt, dev ∷ w);
}

abbrev pub wg0 : Bytes
wg0 = 119 ∷ 103 ∷ 48 ∷ []

abbrev handler_of_wg0 : WireGuardOskHandler
handler_of_wg0 = record { interface = wg0; peer_id = ones }

set_up : (setup copying socket ones wg0 []).0 ≡ ok handler_of_wg0
unfolding setup base64_to_key
set_up = refl
