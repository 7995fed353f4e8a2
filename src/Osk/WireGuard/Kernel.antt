-- ===== src/Osk/WireGuard/Kernel.antt =====
-- What daisyway/src/internal/osk/wireguard.rs changes in the kernel, over the settings of WireGuard's
-- interfaces.
pub mod Erased
pub mod Tests
use daisyway.Base.{
  ◌≡◌, ◌≢◌, ◌⊎◌, inl, inr, refl, sym, ap, subst, ◌∙◌, List, [], ◌∷◌, Option, none, some,
  Option-cases, Bool, true, false, ◌&&◌, if◌then◌else◌, Bool-cases, Result, Result-cases, ok,
  resume-eq-ok, final, arith, ℕ,
}
use mathlib.Core.List.{Mem}
use daisyway.Crypto.Key.{Bytes, Key, key_length, new_zeroed}
use daisyway.Util.{Base64, base64_to_key}
use daisyway.Osk.{SetOskReason, stale}
use daisyway.Osk.WireGuard
use daisyway.Osk.WireGuard.{
  WgPeerF, remove_me, replace_allowed_ips, update_only, Peer, Device, WgSocket, WireGuardOskHandler,
  equal_bytes, setup, set_osk_impl,
}
use daisyway.Osk.WireGuard.Peers.{equal_bytes_sound, setup-Mem}

abbrev pub removes : List WgPeerF → Bool
removes [] = false
removes (remove_me ∷ fs) = true
removes (replace_allowed_ips ∷ fs) = removes fs
removes (update_only ∷ fs) = removes fs

abbrev pub only_updates : List WgPeerF → Bool
only_updates [] = false
only_updates (remove_me ∷ fs) = only_updates fs
only_updates (replace_allowed_ips ∷ fs) = only_updates fs
only_updates (update_only ∷ fs) = true

abbrev pub given_or : Option Key → Key → Key
given_or none k = k
given_or (some k) _ = k

-- What becomes of a peer that is there with a pre-shared key, or not there, by what is set of it.
abbrev pub after_peer : Peer → Option Key → Option Key
after_peer p none =
    if removes p.flags
    then none
    else if only_updates p.flags
    then none
    else some (given_or p.preshared_key (new_zeroed key_length))
after_peer p (some k) = if removes p.flags then none else some (given_or p.preshared_key k)

abbrev pub after_peers : List Peer → Key → Option Key → Option Key
after_peers [] public_key s = s
after_peers (p ∷ ps) public_key s =
    after_peers ps public_key (if equal_bytes p.public_key public_key then after_peer p s else s)

-- The kernel: the pre-shared key of a peer, if it is one of the interface. The socket's lock is no
-- part of it, those peers that are listed are there, and what is set is set peer by peer.
pub record IsKernel {W : Type 0} (socket : WgSocket W) : Type 0 where
  pub psk : Bytes → Key → W → Option Key
  pub lists :
      (interface : Bytes) (public_key : Key) (peers : List Key) (w : W)
      → (socket.get_device interface w).0 ≡ ok peers
      → Mem public_key peers
      → psk interface public_key (socket.get_device interface w).1 ≢ none
  pub locks :
      (interface : Bytes) (public_key : Key) (w : W)
      → psk interface public_key (socket.lock w).1 ≡ psk interface public_key w
  pub sets :
      (dev : Device) (interface : Bytes) (public_key : Key) (w : W)
      → (socket.set_device dev w).0 ≡ ok tt
      → psk interface public_key (socket.set_device dev w).1 ≡ (
          if equal_bytes dev.interface interface
          then after_peers dev.peers public_key (psk interface public_key w)
          else psk interface public_key w)

-- A peer that is there has the key now.
abbrev pub replaced : Key → Option Key → Option Key
replaced key none = none
replaced key (some k) = some key

pub equal_bytes_same : (a : Bytes) → equal_bytes a a ≡ true
equal_bytes_same [] = refl
equal_bytes_same (x ∷ a) = ground (arith, equal_bytes_same a)

module _ {W : Type 0} (socket : WgSocket W) (kernel : IsKernel socket) where
  open kernel use {psk, lists, locks, sets}

  abbrev pub is_peer : WireGuardOskHandler → Bytes → Key → Bool
  is_peer self interface public_key =
      equal_bytes self.interface interface && equal_bytes self.peer_id public_key

  -- What is set for a key.
  abbrev setting : WireGuardOskHandler → Key → Device
  setting self key = record {
    interface = self.interface;
    peers =
        record { public_key = self.peer_id; flags = update_only ∷ []; preshared_key = some key }
        ∷ [];
  }

  set_osk_impl-state :
      (base64 : Base64) (self : WireGuardOskHandler) (key : Key) (reason : SetOskReason) (w : W)
      → (set_osk_impl base64 socket self key reason w).0 ≡ ok tt
      → ((socket.set_device (setting self key) (socket.lock w).1).0 ≡ ok tt)
        × ((set_osk_impl base64 socket self key reason w).1
            ≡ (socket.set_device (setting self key) (socket.lock w).1).1)
  unfolding set_osk_impl
  set_osk_impl-state base64 self key reason w e = elim (Result-cases (socket.lock w).0) [
    | inr f ↦ absurd (ground arith)
    | inl (_, f) ↦ elim (Result-cases (socket.set_device (setting self key) (socket.lock w).1).0) [
      | inr g ↦ absurd (ground arith)
      | inl (_, g) ↦ (g, ground arith)
    ]
  ]

  after-setting :
      (self : WireGuardOskHandler) (key public_key : Key) (s : Option Key)
      → after_peers (setting self key).peers public_key s
        ≡ (if equal_bytes self.peer_id public_key then replaced key s else s)
  after-setting self key public_key none = ground arith
  after-setting self key public_key (some k) = ground arith

  -- If writing a key succeeds, the peer of the handler has it, if it is there; every other peer and
  -- interface is as it was.
  pub set_osk_impl-psk :
      (base64 : Base64) (self : WireGuardOskHandler) (key : Key) (reason : SetOskReason)
      (interface : Bytes) (public_key : Key) (w : W)
      → (set_osk_impl base64 socket self key reason w).0 ≡ ok tt
      → psk interface public_key (set_osk_impl base64 socket self key reason w).1 ≡ (
          if is_peer self interface public_key
          then replaced key (psk interface public_key w)
          else psk interface public_key w)
  set_osk_impl-psk base64 self key reason interface public_key w e =
      let (done, state_eq) = set_osk_impl-state base64 self key reason w e in
      let locked = locks interface public_key w in
      let set_eq = sets (setting self key) interface public_key (socket.lock w).1 done in
      ap (psk interface public_key) state_eq
      ∙ ground (
        arith,
        set_eq,
        locked,
        after-setting self key public_key (psk interface public_key (socket.lock w).1),
      )

  pub set_osk_impl-own :
      (base64 : Base64) (self : WireGuardOskHandler) (key : Key) (reason : SetOskReason) (w : W)
      → (set_osk_impl base64 socket self key reason w).0 ≡ ok tt
      → psk self.interface self.peer_id (set_osk_impl base64 socket self key reason w).1
        ≡ replaced key (psk self.interface self.peer_id w)
  set_osk_impl-own base64 self key reason w e = ground (
    arith,
    set_osk_impl-psk base64 self key reason self.interface self.peer_id w e,
    equal_bytes_same self.interface,
    equal_bytes_same self.peer_id,
  )

  replaced-some : (key : Key) (s : Option Key) → s ≢ none → replaced key s ≡ some key
  replaced-some key none h = absurd (h refl)
  replaced-some key (some k) h = refl

  -- If a WireGuard handler was set up and then writes a key with success, then the peer with the
  -- decoded id has this key on the given interface; every other peer and interface has the pre-
  -- shared key that it had, or is still not there. This is over a kernel that has the peers that
  -- it lists, and sets what it is told peer by peer.
  pub setup-psk :
      (base64 : Base64) (peer_id interface : Bytes) (self : WireGuardOskHandler) (key : Key)
      (reason : SetOskReason) (any_interface : Bytes) (any_key : Key) (w : W)
      → (setup base64 socket peer_id interface w).0 ≡ ok self
      → let w1 = (setup base64 socket peer_id interface w).1 in
        (set_osk_impl base64 socket self key reason w1).0 ≡ ok tt
        → (id : Key) × (base64_to_key base64 peer_id ≡ ok id)
          × (psk any_interface any_key (set_osk_impl base64 socket self key reason w1).1 ≡ (
              if equal_bytes interface any_interface && equal_bytes id any_key
              then some key
              else psk any_interface any_key w1))
  setup-psk base64 peer_id interface self key reason any_interface any_key w e f =
      let (decoded, same, (peers, listed, member), state_eq) =
        setup-Mem base64 socket peer_id interface w self e in
      let w1 = (setup base64 socket peer_id interface w).1 in
      let there : psk self.interface self.peer_id w1 ≢ none =
        rw (state_eq, same)
          (lists interface self.peer_id peers (socket.connect w).1 listed member) in
      let wrote = set_osk_impl-psk base64 self key reason any_interface any_key w1 f in
      (
        self.peer_id,
        decoded,
        elim (Bool-cases (is_peer self any_interface any_key)) [
          | inr other ↦ ground (arith, wrote, same)
          | inl own ↦
              let i = equal_bytes_sound self.interface any_interface (ground arith) in
              let k = equal_bytes_sound self.peer_id any_key (ground arith) in
              ground (
                arith,
                wrote,
                same,
                replaced-some key (psk any_interface any_key w1) (rw (sym i, sym k) there),
              )
        ],
      )
