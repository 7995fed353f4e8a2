-- ===== src/Crypto/Server.antt =====
-- daisyway/src/internal/daisyway/crypto/server.rs: the side that starts a key exchange. A loop that
-- does not end is cut after a number of rounds; `ok` then says that it is still running.
pub mod Rounds
pub mod Renewals
pub mod Sizes
use daisyway.Base.{
  ℕ, zero, suc, [], ◌∷◌, List, Result, ok, Action, ◌>>=◌, ◌>>◌, pure, lift, within, and_then,
}
use daisyway.Crypto.Key.{Bytes, Key}
use daisyway.Crypto.Basics.{
  DaisywayProtocolParameters, RekeyReq, RekeyAck, new_rekey_req, rekey_req_bytes, validate,
  derive_daisyway_key,
}
use daisyway.Crypto.World.{World, Parts, on_stream, on_etsi, on_runtime, on_osk}
use daisyway.Osk.{set_fresh_osk}

-- `RekeyAck::new_zeroed()`, filled through `as_mut_bytes`.
abbrev pub rekey_ack_of : Bytes → RekeyAck
rekey_ack_of [] = record { dummy_data = 0 }
rekey_ack_of (b ∷ _) = record { dummy_data = b }

module _ {N K R O : Type 0} (parts : Parts N K R O) (params : DaisywayProtocolParameters) where
  open parts use {read_exact, write_all, fetch_any_key, random, sleep, handler, uuid, shake256}

  -- The last step of `negotiate_key`: read the acknowledgement and check it.
  unfoldable pub receive_ack : Action (World N K R O) (Unit {0})
  unfolding validate
  receive_ack = do ack ← on_stream (read_exact 1); lift (validate (rekey_ack_of ack))

  unfoldable pub negotiate_key : Action (World N K R O) Key
  unfolding new_rekey_req receive_ack
  negotiate_key = do
    key ← within "Failed to fetch a QKD key." (on_etsi fetch_any_key)
    rekey_req ← on_runtime (new_rekey_req random key.id)
    _ ←
        within "Could not send QKD key and nonce to server"
          (on_stream (write_all (rekey_req_bytes rekey_req)))
    _ ← within "Failed to receive rekey acknowledgement message" receive_ack
    pure (derive_daisyway_key uuid shake256 params rekey_req.nonce key)

  unfoldable pub event_loop : ℕ → ℕ → Action (World N K R O) (Unit {0})
  unfolding set_fresh_osk
  event_loop rekey_interval zero = pure tt
  event_loop rekey_interval (suc rounds) = do
    key ← negotiate_key
    _ ← on_osk (set_fresh_osk handler key)
    _ ← on_runtime (sleep rekey_interval)
    event_loop rekey_interval rounds
