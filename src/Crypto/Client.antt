-- ===== src/Crypto/Client.antt =====
-- daisyway/src/internal/daisyway/crypto/client.rs: the side that answers a key exchange. A loop that
-- does not end is cut after a number of rounds; `ok` then says that it is still running.
pub mod Rounds
pub mod Answered
use daisyway.Base.{ℕ, zero, suc, Action, ◌>>=◌, ◌>>◌, pure, within}
use daisyway.Crypto.Key.{Key}
use daisyway.Crypto.Basics.{
  DaisywayProtocolParameters, rekey_req_of, rekey_req_length, rekey_ack, rekey_ack_bytes,
  derive_daisyway_key,
}
use daisyway.Crypto.World.{World, Parts, on_stream, on_etsi, on_osk}
use daisyway.Osk.{set_fresh_osk}

module _ {N K R O : Type 0} (parts : Parts N K R O) (params : DaisywayProtocolParameters) where
  open parts use {read_exact, write_all, fetch_specific_key, handler, uuid, shake256}

  unfoldable pub wait_for_key_negotiation : Action (World N K R O) Key
  wait_for_key_negotiation = do
    bytes ← within "Failed to read rekey request message" (on_stream (read_exact rekey_req_length))
    let rekey_req = rekey_req_of bytes
    key ←
        within "Failed to fetch key from QKD device"
          (on_etsi (fetch_specific_key rekey_req.qkd_key_id))
    _ ←
        within "Failed to send rekey acknowledgement message"
          (on_stream (write_all (rekey_ack_bytes rekey_ack)))
    pure (derive_daisyway_key uuid shake256 params rekey_req.nonce key)

  unfoldable pub event_loop : ℕ → Action (World N K R O) (Unit {0})
  unfolding set_fresh_osk
  event_loop zero = pure tt
  event_loop (suc rounds) = do
    key ← wait_for_key_negotiation
    _ ← on_osk (set_fresh_osk handler key)
    event_loop rounds
