-- ===== src/Simulator/Keys.antt =====
-- What a client of daisyway/src/internal/etsi014.rs reads from the responses of simulator/src/main.rs.
use daisyway.Base.{
  ap, ◌∙◌, ℕ, ◌+◌, ◌%◌, ◌^◌, ◌≡◌, ◌⊎◌, refl, List, [], ◌∷◌, ◌++◌, Option, none, some, true, false,
  Result, ok, err, foreign, and_then, length, ◌==◌, arith, length-append,
}
use daisyway.Crypto.Key.{Bytes, Uuid, IsUuid, IsKey, key_length}
use daisyway.Crypto.Basics.{Etsi014Key, bytes_of}
use daisyway.Util.{Base64}
use daisyway.Etsi014
use daisyway.Simulator.{
  Response, Body, empty, full, keys, UuidText, handle_request, handle_keys, dec_keys, key_response,
  contains, starts_with, find, respond, id_at, key_id_parameter,
}

-- What the client reads: the fields of a JSON body.
abbrev pub keys_of : UuidText → Body → Result (List Etsi014.ResponseKey)
keys_of uuid empty = err (foreign "expected value")
keys_of uuid (full s) = err (foreign "expected value")
keys_of uuid (keys key key_id) = id_of (uuid.parse_str key_id)
  where
    id_of : Option Uuid → Result (List Etsi014.ResponseKey)
    id_of none = err (foreign "invalid UUID")
    id_of (some id) = ok (record { id = id; key = key } ∷ [])

abbrev pub as_response : UuidText → Response → Etsi014.Response
as_response uuid r = record { status = r.status; text = ok []; json = keys_of uuid r.body }

-- The key that a client of `Etsi014Connection` takes from the response.
abbrev pub fetched : Base64 → UuidText → Result Response → Result Etsi014Key
fetched base64 uuid r = and_then r (λ x. Etsi014.read_response base64 (as_response uuid x))

find-parameter : (t : Bytes) → find key_id_parameter (key_id_parameter ++ t) ≡ some 0
unfolding find
find-parameter t = refl

module _ (base64 : Base64) (uuid : UuidText) where
  open base64 use {encode, encoded_len, decode-encode}
  open uuid use {parse_str, to_string, from_u128}

  -- The response with the key of an id is read as this key.
  pub key_response-fetched :
      (id : Uuid) (s : Bytes)
      → IsUuid id
      → encode (id ++ id) 128 ≡ ok s
      → (encoded_len s == key_length) ≡ false
      → parse_str (to_string id) ≡ some id
      → fetched base64 uuid (key_response base64 uuid id) ≡ ok (record { id = id; key = id ++ id })
  unfolding key_response Etsi014.read_response Etsi014.key_of_responses Etsi014.key_of_response
  key_response-fetched id s u e long parsed =
      let full_key : length (id ++ id) ≡ 32 = omega (arith, length-append id id) in
      let decoded = decode-encode (id ++ id) s 128 key_length e (omega arith) in
      rw (e, parsed, long, decoded, full_key) refl

  pub dec_keys-parameter :
      (id : Uuid)
      → parse_str (to_string id) ≡ some id
      → dec_keys base64 uuid (some (key_id_parameter ++ to_string id)) ≡ key_response base64 uuid id
  unfolding dec_keys
  dec_keys-parameter id parsed =
      let q = key_id_parameter ++ to_string id in
      ap (λ pos. respond base64 uuid (id_at base64 uuid q pos)) (find-parameter (to_string id))
      ∙ ap (respond base64 uuid) parsed

  -- A request to the simulator for any key and a later one for the key with its id are answered so
  -- that the client reads the same key of 32 bytes from both, for paths of these two requests and
  -- ids that are printed and encoded so that they are read back.
  pub handle_request-fetched :
      (enc dec : Bytes) (query : Option Bytes) (counter counter' : ℕ) (s : Bytes)
      → starts_with (bytes_of "/api/v1/keys/") enc ≡ true
      → contains (bytes_of "dec_keys") enc ≡ false
      → contains (bytes_of "enc_keys") enc ≡ true
      → starts_with (bytes_of "/api/v1/keys/") dec ≡ true
      → contains (bytes_of "dec_keys") dec ≡ true
      → IsUuid (from_u128 counter)
      → encode (from_u128 counter ++ from_u128 counter) 128 ≡ ok s
      → (encoded_len s == key_length) ≡ false
      → parse_str (to_string (from_u128 counter)) ≡ some (from_u128 counter)
      → (k : Etsi014Key) × (fetched base64 uuid (handle_request base64 uuid enc query counter).0
          ≡ ok k)
        × (fetched base64 uuid
              (handle_request base64 uuid dec
                (some (key_id_parameter ++ to_string k.id))
                counter').0
            ≡ ok k)
        × (k.id ≡ from_u128 counter)
        × IsKey k.key
  unfolding handle_request handle_keys
  handle_request-fetched enc dec query counter counter' s p1 p2 p3 p4 p5 u e long parsed =
      let id = from_u128 counter in
      (
        record { id = id; key = id ++ id },
        rw (p1, p2, p3) (key_response-fetched id s u e long parsed),
        rw (p4, p5, dec_keys-parameter id parsed) (key_response-fetched id s u e long parsed),
        refl,
        omega (arith, length-append id id),
      )

  -- A request either leaves the simulator's counter, or is answered with the key of the counter,
  -- which then advances by one in 64 bits.
  pub handle_request-counter :
      (path : Bytes) (query : Option Bytes) (counter : ℕ)
      → let (r, counter') = handle_request base64 uuid path query counter in
        (counter' ≡ counter)
        ⊎ ((r ≡ key_response base64 uuid (from_u128 counter)) × (counter' ≡ (counter + 1) % 2 ^ 64))
  unfolding handle_request handle_keys
  handle_request-counter path query counter = ground arith
