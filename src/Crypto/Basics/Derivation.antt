-- ===== src/Crypto/Basics/Derivation.antt =====
-- What the key of daisyway/src/internal/daisyway/crypto/basics.rs depends on.
use daisyway.Base.{
  arith, length, length-append, ◌≡◌, ◌≢◌, refl, ap, ◌⊎◌, inl, inr, ◌++◌, sym, ◌∙◌, ℕ_discrete,
  append-injective,
}
use daisyway.Crypto.Key.{Bytes, Key, IsKey, IsUuid}
use daisyway.Crypto.HashDomain.{Xof, mix, into_key}
use daisyway.Crypto.Basics.{
  root, bytes_of, UuidCrate, DaisywayProtocolParameters, Etsi014Key, KdfInput, new_connection_id,
  new_kdf_input, kdf_bytes, derive_key, derive_daisyway_key,
}
use daisyway.Crypto.Basics.Order.{connection_id_comm, connection_id-injective, connection_id-IsKey}
use daisyway.Crypto.Basics.Layout.{length-kdf_bytes, IsKdfInput, kdf_bytes-injective}

-- The parameters of the other peer.
abbrev pub mirror : DaisywayProtocolParameters → DaisywayProtocolParameters
mirror p = record {
  psk = p.psk;
  local_peer_id = p.remote_peer_id;
  remote_peer_id = p.local_peer_id;
}

pub record IsParameters (p : DaisywayProtocolParameters) : Type 0 where
  pub psk_key : IsKey p.psk
  pub local_key : IsKey p.local_peer_id
  pub remote_key : IsKey p.remote_peer_id

pub record IsEtsi014Key (k : Etsi014Key) : Type 0 where
  pub id_uuid : IsUuid k.id
  pub key_key : IsKey k.key

Bytes-discrete : Discrete Bytes
Bytes-discrete = hlevel ℕ_discrete

module _ (uuid : UuidCrate) (shake256 : Xof) where
  open uuid use {to_bytes_le, from_bytes_le, to_bytes_le_length, from-to}
  open shake256 use {xof}

  -- The two peers derive the same key from the same pre-shared key, nonce and QKD key.
  pub derive-mirror :
      (p : DaisywayProtocolParameters) (nonce : Key) (k : Etsi014Key)
      → derive_daisyway_key uuid shake256 (mirror p) nonce k
        ≡ derive_daisyway_key uuid shake256 p nonce k
  unfolding derive_daisyway_key
  derive-mirror p nonce k =
      ap
        (λ c.
          into_key
            (mix shake256 (derive_key shake256) (kdf_bytes (new_kdf_input uuid p.psk nonce k c))))
        (connection_id_comm p.remote_peer_id p.local_peer_id).0

  -- Two different inputs of the hash function with the same key.
  abbrev pub Collides : Bytes → Bytes → Type 0
  Collides x y = (x ≢ y) × (xof x 32 ≡ xof y 32)

  -- The input of a derivation.
  abbrev pub input_of : DaisywayProtocolParameters → Key → Etsi014Key → KdfInput
  input_of p nonce k =
      new_kdf_input uuid p.psk nonce k (new_connection_id p.local_peer_id p.remote_peer_id)

  -- What SHAKE256 absorbs for it.
  abbrev pub hashed : DaisywayProtocolParameters → Key → Etsi014Key → Bytes
  hashed p nonce k = (derive_key shake256).key ++ kdf_bytes (input_of p nonce k)

  input_of-IsKdfInput :
      (p : DaisywayProtocolParameters) (nonce : Key) (k : Etsi014Key)
      → IsParameters p
      → IsKey nonce
      → IsEtsi014Key k
      → IsKdfInput (input_of p nonce k)
  unfolding new_kdf_input
  input_of-IsKdfInput p nonce k v n w =
      let (first, second) =
        connection_id-IsKey p.local_peer_id p.remote_peer_id v.local_key v.remote_key in
      record {
        psk_key = v.psk_key;
        nonce_key = n;
        qkd_key_key = w.key_key;
        id_uuid = to_bytes_le_length k.id w.id_uuid;
        first_key = first;
        second_key = second;
      }

  -- Where the fields have their sizes, SHAKE256 absorbs 208 bytes for a derivation, the key of the
  -- domain included, as the offsets noted in the code say.
  pub length-hashed :
      (p : DaisywayProtocolParameters) (nonce : Key) (k : Etsi014Key)
      → IsParameters p
      → IsKey nonce
      → IsEtsi014Key k
      → length (hashed p nonce k) ≡ 208
  unfolding mix derive_key
  length-hashed p nonce k v n w = omega (
    arith,
    length-append (derive_key shake256).key (kdf_bytes (input_of p nonce k)),
    length-kdf_bytes (input_of p nonce k) (input_of-IsKdfInput p nonce k v n w),
    shake256.xof_length ((root shake256).key ++ bytes_of "derive key") 32,
  )

  module _ (p q : DaisywayProtocolParameters) (n m : Key) (k j : Etsi014Key) where
    -- Whether two derivations have the same inputs, up to which peer is the local one.
    abbrev pub SameInputs : Type 0
    SameInputs =
        (p.psk ≡ q.psk)
        × (n ≡ m)
        × (k ≡ j)
        × (((p.local_peer_id ≡ q.local_peer_id) × (p.remote_peer_id ≡ q.remote_peer_id))
            ⊎ ((p.local_peer_id ≡ q.remote_peer_id) × (p.remote_peer_id ≡ q.local_peer_id)))

    input_of-injective :
        IsEtsi014Key k → IsEtsi014Key j → input_of p n k ≡ input_of q m j → SameInputs
    unfolding new_kdf_input
    input_of-injective v w e = (
      ap (λ (i : KdfInput). i.psk) e,
      ap (λ (i : KdfInput). i.nonce) e,
      λ t. record { id = same_id t; key = ap (λ (i : KdfInput). i.qkd_key) e t },
      connection_id-injective p.local_peer_id p.remote_peer_id q.local_peer_id q.remote_peer_id
          (ap (λ (i : KdfInput). i.wireguard_connection_id) e),
    )
      where
        same_id : k.id ≡ j.id
        same_id =
            sym (from-to k.id v.id_uuid)
            ∙ ap (λ (i : KdfInput). from_bytes_le i.qkd_key_id) e
            ∙ from-to j.id w.id_uuid

    -- If two derivations, with fields of the right sizes, give the same key, then they agree in
    -- the pre-shared key, the nonce, the QKD key and its id and the pair of peers, or SHAKE256
    -- collides on the inputs that they hash.
    pub derive-binds :
        IsParameters p
        → IsParameters q
        → IsKey n
        → IsKey m
        → IsEtsi014Key k
        → IsEtsi014Key j
        → derive_daisyway_key uuid shake256 p n k ≡ derive_daisyway_key uuid shake256 q m j
        → SameInputs ⊎ Collides (hashed p n k) (hashed q m j)
    unfolding derive_daisyway_key into_key mix
    derive-binds vp vq vn vm vk vj e =
        let x = kdf_bytes (input_of p n k) in
        let y = kdf_bytes (input_of q m j) in
        let d = (derive_key shake256).key in
        elim (Bytes-discrete x y) [
          | yes same ↦ inl (
              input_of-injective vk vj (
                kdf_bytes-injective _ _ (input_of-IsKdfInput p n k vp vn vk)
                  (input_of-IsKdfInput q m j vq vm vj) same))
          | no differ ↦ inr ((λ h. differ (append-injective d d x y refl h).1), e)
        ]
