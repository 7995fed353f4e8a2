-- ===== src/Crypto/Basics.antt =====
-- daisyway/src/internal/daisyway/crypto/basics.rs: the messages and the key derivation.
pub mod Order
pub mod Layout
pub mod Derivation
use Prim.Native.String.{String}
use Prim.Native.Char.{code}
use daisyway.Base.{
  ℕ, ◌+◌, ◌≡◌, List, [], ◌∷◌, ◌++◌, Bool, true, false, Result, ok, err, ensure, ltb, ◌==◌,
  if◌then◌else◌, take, drop, Action, ◌>>=◌,
}
use daisyway.Crypto.Key.{Bytes, Key, Uuid, IsUuid, key_length, uuid_length}
use daisyway.Crypto.HashDomain.{Xof, HashDomain, zero, mix, into_key}

abbrev pub rekey_interval_default : ℕ
rekey_interval_default = 120

-- The bytes of an ASCII literal.
abbrev pub bytes_of : String → Bytes
bytes_of String.[] = []
bytes_of (String.◌∷◌ c s) = code c ∷ bytes_of s

abbrev pub protocol_domain : Bytes
protocol_domain = bytes_of "Daisyway v1 by Paul Spooren & Karolin Varner, Feb-2025 with Shake256"

module _ (shake256 : Xof) where
  unfoldable pub root : HashDomain
  root = mix shake256 zero protocol_domain

  unfoldable pub derive_key : HashDomain
  unfolding root
  derive_key = mix shake256 root (bytes_of "derive key")

pub record DaisywayProtocolParameters : Type 0 where
  pub psk : Key
  pub local_peer_id : Key
  pub remote_peer_id : Key

pub record WireGuardConnectionId : Type 0 where
  pub first_peer : Key
  pub second_peer : Key

-- The order of byte arrays: is `b` before `a`?
unfoldable pub is_before : Bytes → Bytes → Bool
is_before [] [] = false
is_before [] (y ∷ b) = true
is_before (x ∷ a) [] = false
is_before (x ∷ a) (y ∷ b) = if ltb x y then true else if x == y then is_before a b else false

-- `WireGuardConnectionId::new`: `sort` of an array of two exchanges them if they are out of order.
unfoldable pub new_connection_id : Key → Key → WireGuardConnectionId
unfolding is_before
new_connection_id self_public_key peer_public_key =
    if is_before peer_public_key self_public_key
    then record { first_peer = peer_public_key; second_peer = self_public_key }
    else record { first_peer = self_public_key; second_peer = peer_public_key }

-- The key of daisyway/src/internal/etsi014.rs: its id and its bytes.
pub record Etsi014Key : Type 0 where
  pub id : Uuid
  pub key : Key

pub record KdfInput : Type 0 where
  pub psk : Key
  pub nonce : Key
  pub qkd_key : Key
  pub qkd_key_id : Bytes
  pub wireguard_connection_id : WireGuardConnectionId

-- `as_bytes` of the packed structs.
unfoldable pub connection_id_bytes : WireGuardConnectionId → Bytes
connection_id_bytes c = c.first_peer ++ c.second_peer

unfoldable pub kdf_bytes : KdfInput → Bytes
unfolding connection_id_bytes
kdf_bytes i =
    i.psk
    ++ (i.nonce ++ (i.qkd_key ++ (i.qkd_key_id ++ connection_id_bytes i.wireguard_connection_id)))

-- The little-endian view of the crate `uuid`: a rearrangement of the 16 bytes.
pub record UuidCrate : Type 0 where
  pub to_bytes_le : Uuid → Bytes
  pub from_bytes_le : Bytes → Uuid
  pub to_bytes_le_length : (u : Uuid) → IsUuid u → IsUuid (to_bytes_le u)
  pub from-to : (u : Uuid) → IsUuid u → from_bytes_le (to_bytes_le u) ≡ u

module _ (uuid : UuidCrate) where
  open uuid use {to_bytes_le}

  unfoldable pub new_kdf_input : Key → Key → Etsi014Key → WireGuardConnectionId → KdfInput
  new_kdf_input psk nonce qkd_key wireguard_connection_id = record {
    psk = psk;
    nonce = nonce;
    qkd_key = qkd_key.key;
    qkd_key_id = to_bytes_le qkd_key.id;
    wireguard_connection_id = wireguard_connection_id;
  }

  unfoldable pub derive_daisyway_key : Xof → DaisywayProtocolParameters → Key → Etsi014Key → Key
  unfolding new_kdf_input
  derive_daisyway_key shake256 params nonce key =
      let conn_id = new_connection_id params.local_peer_id params.remote_peer_id in
      let kdf_input = new_kdf_input params.psk nonce key conn_id in
      into_key (mix shake256 (derive_key shake256) (kdf_bytes kdf_input))

pub record RekeyReq : Type 0 where
  pub qkd_key_id : Bytes
  pub nonce : Key

-- `random` is the thread's random number generator.
unfoldable pub new_rekey_req {ℓ} : {W : Type ℓ} → Action W Key → Bytes → Action W RekeyReq
new_rekey_req random qkd_key_id = do
  nonce ← random
  λ w. (ok (record { qkd_key_id = qkd_key_id; nonce = nonce }), w)

unfoldable pub rekey_req_bytes : RekeyReq → Bytes
rekey_req_bytes r = r.qkd_key_id ++ r.nonce

-- Reading a `RekeyReq` through `as_mut_bytes`.
unfoldable pub rekey_req_of : Bytes → RekeyReq
rekey_req_of b = record {
  qkd_key_id = take uuid_length b;
  nonce = take key_length (drop uuid_length b);
}

abbrev pub rekey_req_length : ℕ
rekey_req_length = uuid_length + key_length

pub record RekeyAck : Type 0 where
  pub dummy_data : ℕ

abbrev pub rekey_ack : RekeyAck
rekey_ack = record { dummy_data = 1 }

unfoldable pub rekey_ack_bytes : RekeyAck → Bytes
rekey_ack_bytes a = a.dummy_data ∷ []

unfoldable pub validate : RekeyAck → Result (Unit {0})
validate a = ensure (a.dummy_data == rekey_ack.dummy_data) "Rekey acknowledgement is invalid"
