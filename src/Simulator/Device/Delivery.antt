-- ===== src/Simulator/Device/Delivery.antt =====
-- The simulator of simulator/src/main.rs as what the key exchange of daisyway/src/internal/daisyway/crypto
-- expects of QKD devices.
use daisyway.Base.{ℕ, ◌≡◌, ap, sym, subst, ◌∙◌, Option, ok}
use daisyway.Crypto.Key.{Bytes, Key, IsKey}
use daisyway.Crypto.Basics.{Etsi014Key}
use daisyway.Crypto.Basics.Derivation.{IsEtsi014Key}
use daisyway.Crypto.World.{World, Parts}
use daisyway.Crypto.Agreement.{IsDelivered}
use daisyway.Util.{Base64}
use daisyway.Etsi014
use daisyway.Etsi014.{Etsi014Connection}
use daisyway.Simulator.{UuidText}
use daisyway.Simulator.Device.{
  IsReadable, IsRouted, get, ok-injective, double, fetch_any_key-simulated,
  fetch_specific_key-simulated,
}

module _ (base64 : Base64) (uuid : UuidText) (split : Bytes → Bytes × Option Bytes) where
  open uuid use {to_string, from_u128}

  -- A daemon with a simulator as its device, whatever else it works with.
  unfoldable pub with_simulator :
      {N K R O Client : Type 0} → Parts N K R O → Etsi014Connection Client → Parts N ℕ R O
  with_simulator parts self = record {
    read_exact = parts.read_exact;
    write_all = parts.write_all;
    fetch_any_key = Etsi014.fetch_any_key base64 (get base64 uuid split) to_string self;
    fetch_specific_key = Etsi014.fetch_specific_key base64 (get base64 uuid split) to_string self;
    random = parts.random;
    sleep = parts.sleep;
    handler = parts.handler;
    uuid = parts.uuid;
    shake256 = parts.shake256;
  }

  -- The simulator does what the key exchange expects of QKD devices, at any count of the simulator
  -- that each side asks: the client is given the key of an id as the server was, if ids are
  -- printed and encoded so that they are read back, and URIs are taken apart as they were put
  -- together.
  pub simulator-IsDelivered :
      {N K R O N' K' R' O' Client Client' : Type 0} (here : Parts N K R O)
      (there : Parts N' K' R' O') (server : Etsi014Connection Client)
      (client : Etsi014Connection Client')
      → IsReadable base64 uuid
      → IsRouted base64 uuid split server
      → IsRouted base64 uuid split client
      → ((w : R) (n : Key) → (here.random w).0 ≡ ok n → IsKey n)
      → (s : World N ℕ R O) (c : World N' ℕ R' O')
      → IsDelivered (with_simulator here server) (with_simulator there client) s c
  unfolding with_simulator
  simulator-IsDelivered here there server client readable rs rc random s c = record {
    sized = λ q e.
        let q_eq =
          ok-injective
            (sym (fetch_any_key-simulated base64 uuid split readable server rs s.etsi) ∙ e) in
        subst IsEtsi014Key q_eq (record {
          id_uuid = readable.sized s.etsi;
          key_key = double (from_u128 s.etsi) (readable.sized s.etsi);
        });
    nonce_sized = λ n e. random s.runtime n e;
    same = λ q q' e e'.
        let id = from_u128 s.etsi in
        let q_eq =
          ok-injective
            (sym (fetch_any_key-simulated base64 uuid split readable server rs s.etsi) ∙ e) in
        let q'_eq = ok-injective (
          sym (
            fetch_specific_key-simulated base64 uuid split readable client rc id c.etsi
              (readable.sized s.etsi))
          ∙ ap
              (λ (k : Etsi014Key).
                (Etsi014.fetch_specific_key base64 (get base64 uuid split) to_string client k.id
                  c.etsi).0)
              q_eq
          ∙ e') in
        sym q'_eq ∙ q_eq;
  }
