-- ===== src/Crypto/Basics/Layout.antt =====
-- The bytes of the packed structs of daisyway/src/internal/daisyway/crypto/basics.rs.
use daisyway.Base.{
  ◌≡◌, ap, ◌++◌, arith, length, take, drop, length-append, append-injective, take-append,
  drop-append, take-append-drop, take-all, length-drop, ◌∙◌,
}
use daisyway.Crypto.Key.{Bytes, IsKey, IsUuid}
use daisyway.Crypto.Basics.{
  KdfInput, kdf_bytes, connection_id_bytes, RekeyReq, rekey_req_bytes, rekey_req_of,
  rekey_req_length,
}

-- The fields of a `KdfInput` have their sizes.
pub record IsKdfInput (i : KdfInput) : Type 0 where
  pub psk_key : IsKey i.psk
  pub nonce_key : IsKey i.nonce
  pub qkd_key_key : IsKey i.qkd_key
  pub id_uuid : IsUuid i.qkd_key_id
  pub first_key : IsKey i.wireguard_connection_id.first_peer
  pub second_key : IsKey i.wireguard_connection_id.second_peer

-- The hashed bytes determine each field.
pub kdf_bytes-injective :
    (i j : KdfInput) → IsKdfInput i → IsKdfInput j → kdf_bytes i ≡ kdf_bytes j → i ≡ j
unfolding kdf_bytes
kdf_bytes-injective i j v w e =
    let (psk, e₁) = append-injective i.psk j.psk _ _ (omega arith) e in
    let (nonce, e₂) = append-injective i.nonce j.nonce _ _ (omega arith) e₁ in
    let (key, e₃) = append-injective i.qkd_key j.qkd_key _ _ (omega arith) e₂ in
    let (id, e₄) = append-injective i.qkd_key_id j.qkd_key_id _ _ (omega arith) e₃ in
    let (first, second) =
      append-injective i.wireguard_connection_id.first_peer j.wireguard_connection_id.first_peer _ _
        (omega arith) e₄ in
    λ k. record {
      psk = psk k;
      nonce = nonce k;
      qkd_key = key k;
      qkd_key_id = id k;
      wireguard_connection_id = record { first_peer = first k; second_peer = second k };
    }

-- The packed fields, with their sizes, have 176 bytes.
pub length-kdf_bytes : (i : KdfInput) → IsKdfInput i → length (kdf_bytes i) ≡ 176
unfolding kdf_bytes connection_id_bytes
length-kdf_bytes i v = omega (arith, length-append {0})

-- A request whose id has 16 bytes and whose nonce has 32 is written as 48 bytes, and is read back
-- from them.
pub rekey_req_roundtrip :
    (r : RekeyReq)
    → IsUuid r.qkd_key_id
    → IsKey r.nonce
    → (rekey_req_of (rekey_req_bytes r) ≡ r) × (length (rekey_req_bytes r) ≡ rekey_req_length)
unfolding rekey_req_of rekey_req_bytes
rekey_req_roundtrip r u n = (
  λ k. record {
    qkd_key_id = take-append 16 r.qkd_key_id r.nonce u k;
    nonce =
        (ap (take 32) (drop-append 16 r.qkd_key_id r.nonce u) ∙ take-all 32 r.nonce (omega arith))
          k;
  },
  omega (arith, length-append r.qkd_key_id r.nonce),
)

-- Any 48 bytes are a request, whose bytes they are.
pub rekey_req_bytes-of :
    (b : Bytes) → length b ≡ rekey_req_length → rekey_req_bytes (rekey_req_of b) ≡ b
unfolding rekey_req_of rekey_req_bytes
rekey_req_bytes-of b h =
    ap (◌++◌ (take 16 b)) (take-all 32 (drop 16 b) (omega (arith, length-drop 16 b)))
    ∙ take-append-drop 16 b
