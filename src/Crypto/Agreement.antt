-- ===== src/Crypto/Agreement.antt =====
-- The two sides of a key exchange, daisyway/src/internal/daisyway/crypto/server.rs and client.rs, together.
pub mod Sessions
pub mod Completing
pub mod Tests
use daisyway.Base.{ℕ, ◌≡◌, refl, sym, ap, ◌∙◌, ok, ◌++◌, length, append-injective, ap₂}
use daisyway.Crypto.Key.{Bytes, Key, IsKey}
use daisyway.Crypto.Basics.{
  DaisywayProtocolParameters, Etsi014Key, RekeyReq, rekey_req_of, rekey_req_length, rekey_ack,
  rekey_ack_bytes, derive_daisyway_key,
}
use daisyway.Crypto.Basics.Layout.{rekey_req_roundtrip}
use daisyway.Crypto.Basics.Derivation.{mirror, IsEtsi014Key, derive-mirror}
use daisyway.Crypto.World.{World, Parts}
use daisyway.Crypto.Server.{negotiate_key}
use daisyway.Crypto.Server.Rounds.{request, negotiate_key_steps}
use daisyway.Crypto.Client.{wait_for_key_negotiation}
use daisyway.Crypto.Client.Rounds.{wait_for_key_negotiation_steps}

pub roundtrip :
    (q : Etsi014Key) (n : Key)
    → IsEtsi014Key q
    → IsKey n
    → (rekey_req_of (request q n) ≡ record { qkd_key_id = q.id; nonce = n })
      × (length (request q n) ≡ rekey_req_length)
roundtrip q n v w = rekey_req_roundtrip (record { qkd_key_id = q.id; nonce = n }) v.id_uuid w

module _ {N K R O : Type 0} (parts : Parts N K R O) where
  open parts use {read_exact, write_all}

  -- What tokio documents of a stream, in terms of the bytes sent and those still to be read: a
  -- successful `write_all` sends all its bytes, and a successful `read_exact` takes as many as asked.
  pub record Wire : Type 0 where
    pub sent : N → Bytes
    pub incoming : N → Bytes
    pub write_sends :
        (b : Bytes) (s : N) → (write_all b s).0 ≡ ok tt → sent (write_all b s).1 ≡ sent s ++ b
    pub read_sends : (n : ℕ) (s : N) → sent (read_exact n s).1 ≡ sent s
    pub read_takes :
        (n : ℕ) (s : N) (b : Bytes)
        → (read_exact n s).0 ≡ ok b
        → (length b ≡ n) × (incoming s ≡ b ++ incoming (read_exact n s).1)

  module _ (wire : Wire) where
    written-eq :
        (s s' : World N K R O) (b req : Bytes)
        → (write_all req s.stream).0 ≡ ok tt
        → s'.stream ≡ (read_exact 1 (write_all req s.stream).1).1
        → wire.sent s'.stream ≡ wire.sent s.stream ++ b
        → b ≡ req
    written-eq s s' b req written after wrote =
        (append-injective (wire.sent s.stream) (wire.sent s.stream) b req refl (
          sym wrote
          ∙ ap wire.sent after
          ∙ wire.read_sends 1 (write_all req s.stream).1
          ∙ wire.write_sends req s.stream written)).1

    received-eq :
        (c : World N K R O) (b b' rest : Bytes)
        → length b ≡ rekey_req_length
        → (read_exact rekey_req_length c.stream).0 ≡ ok b'
        → wire.incoming c.stream ≡ b ++ rest
        → b' ≡ b
    received-eq c b b' rest size read reads =
        let (size', taken) = wire.read_takes rekey_req_length c.stream b' read in
        (append-injective b' b _ rest (size' ∙ sym size) (sym taken ∙ reads)).0

-- The parts of the server and those of the client, each on a machine of its own.
module _ {N K R O N' K' R' O' : Type 0} (here : Parts N K R O) (there : Parts N' K' R' O') where
  -- Both were built with the same crates.
  pub record SameCrates : Type 0 where
    pub uuid_eq : there.uuid ≡ here.uuid
    pub shake256_eq : there.shake256 ≡ here.shake256

  -- What ETSI GS QKD 014 promises: the device of the other side returns the key of an id as it was
  -- delivered, and the types of an id, a key and a nonce fix their sizes.
  pub record IsDelivered (server : World N K R O) (client : World N' K' R' O') : Type 0 where
    pub sized : (q : Etsi014Key) → (here.fetch_any_key server.etsi).0 ≡ ok q → IsEtsi014Key q
    pub nonce_sized : (n : Key) → (here.random server.runtime).0 ≡ ok n → IsKey n
    pub same :
        (q q' : Etsi014Key)
        → (here.fetch_any_key server.etsi).0 ≡ ok q
        → (there.fetch_specific_key q.id client.etsi).0 ≡ ok q'
        → q' ≡ q

  module _ (crates : SameCrates) where
    derive-same :
        (params : DaisywayProtocolParameters) (n : Key) (q : Etsi014Key)
        → derive_daisyway_key there.uuid there.shake256 (mirror params) n q
          ≡ derive_daisyway_key here.uuid here.shake256 params n q
    derive-same params n q =
        ap₂ (λ uuid shake256. derive_daisyway_key uuid shake256 (mirror params) n q) crates.uuid_eq
          crates.shake256_eq
        ∙ derive-mirror here.uuid here.shake256 params n q

    -- If a negotiation succeeds on both sides, with the peers' parameters mirrored, over streams
    -- that deliver what was written, the client is sent what the server wrote, the QKD device of
    -- the client returns the key of an id as that of the server delivered it, and ids, keys and
    -- nonces have their sizes, then both sides have derived the same key.
    pub agreement :
        (wire : Wire here) (wire' : Wire there) (params : DaisywayProtocolParameters)
        (s s' : World N K R O) (c c' : World N' K' R' O') (k k' : Key) (b rest : Bytes)
        → IsDelivered s c
        → negotiate_key here params s ≡ (ok k, s')
        → wait_for_key_negotiation there (mirror params) c ≡ (ok k', c')
        → wire.sent s'.stream ≡ wire.sent s.stream ++ b
        → wire'.incoming c.stream ≡ b ++ rest
        → k' ≡ k
    agreement wire wire' params s s' c c' k k' b rest delivered hs hc wrote reads =
        let (q, n, fetched, drawn, written, acked, after, derived) =
          negotiate_key_steps here params s s' k hs in
        let (b', q', read, found, answered, derived') =
          wait_for_key_negotiation_steps there (mirror params) c c' k' hc in
        let (reads_back, size) =
          roundtrip q n (delivered.sized q fetched) (delivered.nonce_sized n drawn) in
        let b-eq = written-eq here wire s s' b (request q n) written after wrote in
        let b'-eq = received-eq there wire' c b b' rest (ap length b-eq ∙ size) read reads ∙ b-eq in
        let req-eq = ap rekey_req_of b'-eq ∙ reads_back in
        let q'-eq = delivered.same q q' fetched (
          ap (λ (r : RekeyReq). (there.fetch_specific_key r.qkd_key_id c.etsi).0) (sym req-eq)
          ∙ found) in
        derived'
        ∙ ap₂
            (λ (r : RekeyReq) (x : Etsi014Key).
              derive_daisyway_key there.uuid there.shake256 (mirror params) r.nonce x)
            req-eq q'-eq
        ∙ derive-same params n q
        ∙ sym derived

    -- If every step of both sides succeeds, with the peers' parameters mirrored and the same
    -- crates on both sides, the client reading what the server wrote and the server reading the
    -- client's acknowledgement, and the id, the QKD key and the nonce have their sizes, then both
    -- negotiations return a key, and it is the same.
    pub negotiation_completes :
        (params : DaisywayProtocolParameters) (s : World N K R O) (c : World N' K' R' O')
        (q : Etsi014Key) (n : Key)
        → IsEtsi014Key q
        → IsKey n
        → (here.fetch_any_key s.etsi).0 ≡ ok q
        → (here.random s.runtime).0 ≡ ok n
        → (here.write_all (request q n) s.stream).0 ≡ ok tt
        → (there.read_exact rekey_req_length c.stream).0 ≡ ok (request q n)
        → (there.fetch_specific_key q.id c.etsi).0 ≡ ok q
        → (there.write_all
            (rekey_ack_bytes rekey_ack)
            (there.read_exact rekey_req_length c.stream).1).0
          ≡ ok tt
        → (here.read_exact 1 (here.write_all (request q n) s.stream).1).0
          ≡ ok (rekey_ack_bytes rekey_ack)
        → let k = derive_daisyway_key here.uuid here.shake256 params n q in
          ((negotiate_key here params s).0 ≡ ok k)
          × ((wait_for_key_negotiation there (mirror params) c).0 ≡ ok k)
    unfolding negotiate_key wait_for_key_negotiation rekey_ack_bytes
    negotiation_completes params s c q n v w fetched drawn written read found answered acked = (
      rw (fetched, drawn, written, acked),
      rw (read, (roundtrip q n v w).0, found, answered) (ap ok (derive-same params n q)),
    )
