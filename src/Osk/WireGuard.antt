-- ===== src/Osk/WireGuard.antt =====
-- daisyway/src/internal/osk/wireguard.rs: the output key as the pre-shared key of a WireGuard peer. The
-- crate `wireguard_uapi` is a parameter. The log lines are left out.
pub mod Peers
pub mod Kernel
pub mod Tests
use daisyway.Base.{
  ℕ, List, [], ◌∷◌, ◌++◌, Option, none, some, Bool, true, false, String, Result, ok, err, panic,
  Action, ◌>>=◌, pure, lift, within, unwrap, context, ensure, if◌then◌else◌, ◌==◌, ◌&&◌, ◌||◌,
}
use daisyway.Crypto.Key.{Bytes, Key}
use daisyway.Util.{Base64, base64_to_key}
use daisyway.Osk.{SetOskReason, OskHandler}

-- `wireguard_uapi::set`.
pub data WgPeerF : Type 0 where
  remove_me replace_allowed_ips update_only : WgPeerF

pub record Peer : Type 0 where
  pub public_key : Key
  pub flags : List WgPeerF
  pub preshared_key : Option Key

pub record Device : Type 0 where
  pub interface : Bytes
  pub peers : List Peer

abbrev pub from_public_key : Key → Peer
from_public_key public_key = record { public_key = public_key; flags = []; preshared_key = none }

abbrev pub from_ifname : Bytes → Device
from_ifname interface = record { interface = interface; peers = [] }

-- The socket: `connect`, the public keys of the peers in `get_device`, `lock` of its mutex, and
-- `set_device`.
pub record WgSocket (W : Type 0) : Type 0 where
  pub connect : Action W (Unit {0})
  pub get_device : Bytes → Action W (List Key)
  pub lock : Action W (Unit {0})
  pub set_device : Device → Action W (Unit {0})

-- `==` of byte arrays, and `peers.iter().any(…)`.
abbrev pub equal_bytes : Bytes → Bytes → Bool
equal_bytes [] [] = true
equal_bytes [] (y ∷ b) = false
equal_bytes (x ∷ a) [] = false
equal_bytes (x ∷ a) (y ∷ b) = (x == y) && equal_bytes a b

abbrev pub has_peer : Key → List Key → Bool
has_peer key [] = false
has_peer key (p ∷ ps) = equal_bytes p key || has_peer key ps

pub record WireGuardOskHandler : Type 0 where
  pub interface : Bytes
  pub peer_id : Key

module _ {W : Type 0} (base64 : Base64) (socket : WgSocket W) where
  open socket use {connect, get_device, lock, set_device}

  unfoldable pub setup : Bytes → Bytes → Action W WireGuardOskHandler
  setup peer_id interface = do
    peer_id_u8 ← lift (unwrap "Invalid peer_id" (base64_to_key base64 peer_id))
    _ ← within "Failed to connect to WireGuard control socket." connect
    peers ← within "Failed to access WireGuard interface" (get_device interface)
    _ ← lift (ensure (has_peer peer_id_u8 peers) "Could not find WireGuard peer")
    pure (record { interface = interface; peer_id = peer_id_u8 })

  unfoldable pub set_osk_impl : WireGuardOskHandler → Key → SetOskReason → Action W (Unit {0})
  set_osk_impl self key reason = do
    let peer = from_public_key self.peer_id
    let set_peer = record peer { flags = peer.flags ++ update_only ∷ []; preshared_key = some key }
    let dev = from_ifname self.interface
    let set_dev = record dev { peers = dev.peers ++ set_peer ∷ [] }
    _ ← λ w. let (r, w') = lock w in (unwrap "called `Result::unwrap()` on an `Err` value" r, w')
    _ ← set_device set_dev
    pure tt

  unfoldable pub handler : WireGuardOskHandler → OskHandler W
  unfolding set_osk_impl
  handler self = record { set_osk = set_osk_impl self }
