-- ===== src/Crypto/Tests.antt =====
-- A key exchange of daisyway/src/internal/daisyway/crypto over sockets in memory, with a toy hash function
-- and a QKD device that knows one key.
use daisyway.Base.{◌≡◌, refl, [], ◌∷◌, replicate, arith, ◌⊎◌, sym}
use daisyway.Crypto.Key.{Key}
use daisyway.Crypto.Basics.{KdfInput, RekeyReq, new_connection_id}
use daisyway.Crypto.Basics.Derivation.{
  mirror, derive-mirror, derive-binds, SameInputs, Collides, hashed, input_of,
}
use daisyway.Crypto.Server
use daisyway.Crypto.Server.{negotiate_key, receive_ack}
use daisyway.Crypto.Server.Rounds.{unacknowledged}
use daisyway.Crypto.Agreement.Tests.{
  parts, server, agreed_key, client_key, params-IsParameters, qkd_key-IsEtsi014Key,
}
use daisyway.Crypto.Toys.{toy_shake, toy_uuid, qkd_key, toy_nonce, params}

unacknowledged_example : (Server.event_loop parts params 120 3 (server (2 ∷ []))).1.osk ≡ []
unacknowledged_example =
    (unacknowledged parts params 120 2 (server (2 ∷ [])) qkd_key toy_nonce refl refl refl refl).1

mirrored : client_key ≡ agreed_key
mirrored = derive-mirror toy_uuid toy_shake params toy_nonce qkd_key

derive-binds_example :
    SameInputs toy_uuid toy_shake params (mirror params) toy_nonce toy_nonce qkd_key qkd_key
    ⊎ Collides toy_uuid toy_shake
        (hashed toy_uuid toy_shake params toy_nonce qkd_key)
        (hashed toy_uuid toy_shake (mirror params) toy_nonce qkd_key)
derive-binds_example =
    derive-binds toy_uuid toy_shake params (mirror params) toy_nonce toy_nonce qkd_key qkd_key
      params-IsParameters (omega arith) refl refl qkd_key-IsEtsi014Key qkd_key-IsEtsi014Key
      (sym mirrored)

abbrev input : KdfInput
input = input_of toy_uuid toy_shake params toy_nonce qkd_key

abbrev ada : Key
ada = 1 ∷ []

abbrev bob : Key
bob = 2 ∷ []

two_orders : new_connection_id bob ada ≡ new_connection_id ada bob
unfolding new_connection_id
two_orders = refl

abbrev some_request : RekeyReq
some_request = record { qkd_key_id = replicate 16 5; nonce = replicate 32 9 }
