-- ===== src/Simulator.antt =====
-- simulator/src/main.rs: the simulated key management entity, by its handler of requests. The crates
-- `base64ct` and `uuid` are parameters; HTTP and TLS are left out, and a JSON body stands as its fields.
pub mod Keys
pub mod Serving
pub mod Device
pub mod Tests
use daisyway.Base.{
  ℕ, zero, suc, ◌+◌, ◌%◌, ◌^◌, List, [], ◌∷◌, ◌++◌, Option, none, some, Bool, true, false, not,
  ◌&&◌, String, Result, ok, err, panic, Action, unwrap, and_then, ◌==◌, if◌then◌else◌, drop, length,
}
use daisyway.Crypto.Key.{Bytes, Key, Uuid}
use daisyway.Crypto.Basics.{bytes_of}
use daisyway.Util.{Base64}

-- `str::starts_with`, `str::find` and `str::contains`.
unfoldable pub starts_with : Bytes → Bytes → Bool
starts_with [] s = true
starts_with (b ∷ p) [] = false
starts_with (b ∷ p) (c ∷ s) = (b == c) && starts_with p s

abbrev pub further : Option ℕ → Option ℕ
further none = none
further (some pos) = some (suc pos)

unfoldable pub find : Bytes → Bytes → Option ℕ
unfolding starts_with
find p [] = if starts_with p [] then some 0 else none
find p (c ∷ s) = let rest = find p s in if starts_with p (c ∷ s) then some 0 else further rest

abbrev pub is_some {ℓ} : {A : Type ℓ} → Option A → Bool
is_some none = false
is_some (some a) = true

unfoldable pub contains : Bytes → Bytes → Bool
unfolding find
contains p s = is_some (find p s)

-- The crate `uuid`: `parse_str`, `to_string` and `from_u128`.
pub record UuidText : Type 0 where
  pub parse_str : Bytes → Option Uuid
  pub to_string : Uuid → Bytes
  pub from_u128 : ℕ → Uuid

pub data Body : Type 0 where
  empty : Body
  full : String → Body
  keys : (key key_id : Bytes) → Body

pub record Response : Type 0 where
  pub status : ℕ
  pub body : Body

unfoldable pub bad_request : String → Response
bad_request msg = record { status = 400; body = full msg }

abbrev pub key_id_parameter : Bytes
key_id_parameter = bytes_of "key_ID="

module _ (base64 : Base64) (uuid : UuidText) where
  open base64 use {encode}
  open uuid use {parse_str, to_string, from_u128}

  -- The key of an id is the id twice; the buffer has 128 bytes.
  unfoldable pub key_response : Uuid → Result Response
  key_response key_id =
      and_then
        (unwrap "called `Result::unwrap()` on an `Err` value" (encode (key_id ++ key_id) 128))
        λ encoded_key. ok (record { status = 200; body = keys encoded_key (to_string key_id) })

  -- The response to a request for the key of an id: the id is what stands behind `key_ID=`.
  abbrev pub respond : Option Uuid → Result Response
  respond none = ok (bad_request "Invalid key_ID format")
  respond (some id) = key_response id

  abbrev pub id_at : Bytes → Option ℕ → Option Uuid
  id_at q none = none
  id_at q (some pos) = parse_str (drop (pos + 7) q)

  unfoldable pub dec_keys : Option Bytes → Result Response
  unfolding bad_request find
  dec_keys none = ok (bad_request "key_ID parameter is required")
  dec_keys (some q) = respond (id_at q (find key_id_parameter q))

  -- The state is the counter, of 64 bits.
  unfoldable pub handle_keys : Bytes → Option Bytes → Action ℕ Response
  unfolding contains dec_keys key_response
  handle_keys path query counter =
      if not (contains (bytes_of "dec_keys") path) && not (contains (bytes_of "enc_keys") path)
      then (ok (bad_request "Only one of /dec_keys or /enc_keys is allowed"), counter)
      else if contains (bytes_of "dec_keys") path
      then (dec_keys query, counter)
      else (key_response (from_u128 counter), (counter + 1) % 2 ^ 64)

  unfoldable pub handle_request : Bytes → Option Bytes → Action ℕ Response
  unfolding handle_keys
  handle_request path query counter =
      if starts_with (bytes_of "/api/v1/keys/") path
      then handle_keys path query counter
      else (ok (record { status = 404; body = empty }), counter)
