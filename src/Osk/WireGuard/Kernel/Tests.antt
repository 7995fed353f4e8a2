-- ===== src/Osk/WireGuard/Kernel/Tests.antt =====
-- Runs of daisyway/src/internal/osk/wireguard.rs over an interface with one peer, kept in memory.
use daisyway.Base.{
  ◌≡◌, ◌≢◌, refl, sym, ap, ◌∙◌, List, [], ◌∷◌, Option, none, some, ok, arith, replicate, ◌&&◌,
  if◌then◌else◌,
}
use mathlib.Core.List.{Mem, not-mem-nil, eq-or-mem_of_mem-cons}
use mathlib.Core.HLevel.{⊥_prop}
use mathlib.Core.Logic.Or
use daisyway.Crypto.Key.{Bytes, Key}
use daisyway.Util.{base64_to_key}
use daisyway.Util.Tests.{copying, ones}
use daisyway.Osk.{fresh}
use daisyway.Osk.Deadman.{Runtime, returned, event_loop, rounds, on_request}
use daisyway.Osk.WireGuard.{
  WgSocket, WireGuardOskHandler, equal_bytes, handler, setup, set_osk_impl,
}
use daisyway.Osk.WireGuard.Tests.{wg0}
use daisyway.Osk.WireGuard.Kernel.{IsKernel, after_peers, replaced, setup-psk}
use daisyway.Osk.WireGuard.Kernel.Erased.{event_loop-psk}

abbrev pub Interfaces : Type 0
Interfaces = Bytes → Key → Option Key

abbrev pub peers_of : Option Key → List Key
peers_of none = []
peers_of (some _) = ones ∷ []

abbrev pub socket : WgSocket Interfaces
socket = record {
  connect = λ w. (ok tt, w);
  get_device = λ interface w. (ok (peers_of (w interface ones)), w);
  lock = λ w. (ok tt, w);
  set_device = λ dev w. (
    ok tt,
    λ interface public_key.
        if equal_bytes dev.interface interface
        then after_peers dev.peers public_key (w interface public_key)
        else w interface public_key,
  );
}

none-ne-some : (k : Key) → none ≢ some k
none-ne-some k e = ground arith

listed :
    (public_key : Key) (psks : Key → Option Key) (own : Option Key)
    → psks ones ≡ own
    → Mem public_key (peers_of own)
    → psks public_key ≢ none
listed public_key psks none e m h = not-mem-nil m
listed public_key psks (some k) e m h =
    Or.elim ⊥_prop (eq-or-mem_of_mem-cons m)
      (λ same. absurd (none-ne-some k (sym h ∙ ap psks same ∙ e))) not-mem-nil

pub all_listed :
    (interface : Bytes) (public_key : Key) (peers : List Key) (w : Interfaces)
    → (socket.get_device interface w).0 ≡ ok peers
    → Mem public_key peers
    → w interface public_key ≢ none
all_listed interface public_key peers w e m =
    let same : peers_of (w interface ones) ≡ peers = ground arith in
    listed public_key (w interface) (w interface ones) refl (rw same m)

unfoldable socket-IsKernel : IsKernel socket
socket-IsKernel = record {
  psk = λ interface public_key w. w interface public_key;
  lists = all_listed;
  locks = λ interface public_key w. refl;
  sets = λ dev interface public_key w e. refl;
}

abbrev pub one_peer : Interfaces
one_peer = λ interface public_key.
    if equal_bytes wg0 interface && equal_bytes ones public_key then some (replicate 32 0) else none

abbrev handler_of_wg0 : WireGuardOskHandler
handler_of_wg0 = record { interface = wg0; peer_id = ones }

set_up : (setup copying socket ones wg0 one_peer).0 ≡ ok handler_of_wg0
unfolding setup base64_to_key
set_up = refl

abbrev key_of_twos : Key
key_of_twos = replicate 32 2

written : (set_osk_impl copying socket handler_of_wg0 key_of_twos fresh one_peer).0 ≡ ok tt
unfolding set_osk_impl
written = refl

abbrev after : Interfaces
after = (set_osk_impl copying socket handler_of_wg0 key_of_twos fresh one_peer).1

setup-psk_example :
    (id : Key) × (base64_to_key copying ones ≡ ok id)
    × (after wg0 ones ≡ (
        if equal_bytes wg0 wg0 && equal_bytes id ones then some key_of_twos else one_peer wg0 ones))
unfolding setup base64_to_key socket-IsKernel
setup-psk_example =
    setup-psk socket socket-IsKernel copying ones wg0 handler_of_wg0 key_of_twos fresh wg0 ones
      one_peer set_up written

unfoldable runtime : Runtime Interfaces
runtime = record {
  now = λ w. 0;
  latest = 1000000;
  timeout_at = λ d w. (ok (some none), w);
  random = λ w. (ok key_of_twos, w);
  broker = handler copying socket handler_of_wg0;
}

abbrev erased : Interfaces
erased = (event_loop runtime 10 3 one_peer).1

ends : event_loop runtime 10 3 one_peer ≡ (ok returned, erased)
unfolding event_loop runtime handler set_osk_impl rounds on_request
ends = refl

erased_psk :
    (v : Interfaces) × (key : Key) × ((runtime.random v).0 ≡ ok key)
    × (erased wg0 ones ≡ replaced key ((runtime.random v).1 wg0 ones))
unfolding socket-IsKernel
erased_psk =
    event_loop-psk socket socket-IsKernel copying handler_of_wg0 runtime 10 3 one_peer erased
      (unfold runtime in refl) ends
