-- ===== src/Simulator/Device.antt =====
-- The simulator of simulator/src/main.rs as the QKD devices of both daemons: what
-- daisyway/src/internal/etsi014.rs fetches from it.
pub mod Delivery
pub mod Sessions
pub mod Tests
use daisyway.Base.{
  ℕ, ◌≡◌, refl, ap, sym, subst, String, resume, lift, ◌∙◌, ◌++◌, Option, some, true, false, Result,
  ok, err, panic, foreign, Action, arith, ◌==◌, context, and_then, length, length-append,
}
use daisyway.Crypto.Key.{Bytes, Key, Uuid, IsUuid, IsKey, key_length}
use daisyway.Crypto.Basics.{Etsi014Key, bytes_of}
use daisyway.Crypto.Basics.Derivation.{IsEtsi014Key}
use daisyway.Crypto.World.{World, Parts}
use daisyway.Crypto.Agreement.{IsDelivered}
use daisyway.Util.{Base64}
use daisyway.Etsi014
use daisyway.Etsi014.{Etsi014Connection}
use daisyway.Simulator.{
  UuidText, Response, keys, handle_request, handle_keys, dec_keys, key_response, contains,
  starts_with, key_id_parameter,
}
use daisyway.Simulator.Keys.{as_response, fetched, key_response-fetched, dec_keys-parameter}

resume-lift :
    {A B W : Type 0} (f : A → Result B) (r : Result A) (w : W)
    → (resume (λ a. lift (f a)) (r, w)).0 ≡ and_then r f
resume-lift f (ok a) w = refl
resume-lift f (err e) w = refl
resume-lift f (panic s) w = refl

pub ok-injective : {A : Type 0} {a b : A} → ok a ≡ ok b → a ≡ b
ok-injective e = ground arith

pub double : (id : Uuid) → IsUuid id → IsKey (id ++ id)
double id u = omega (arith, length-append id id)

-- Where the simulator panics or fails, its client loses the connection.
abbrev answered : UuidText → Result Response → Result Etsi014.Response
answered uuid (ok r) = ok (as_response uuid r)
answered uuid (err e) = err (foreign "connection closed")
answered uuid (panic s) = err (foreign "connection closed")

-- The crates: ids are printed and encoded so that they are read back.
pub record IsReadable (base64 : Base64) (uuid : UuidText) : Type 0 where
  pub sized : (n : ℕ) → IsUuid (uuid.from_u128 n)
  pub parses : (id : Uuid) → IsUuid id → uuid.parse_str (uuid.to_string id) ≡ some id
  pub encodes :
      (id : Uuid)
      → IsUuid id
      → (s : Bytes) × (base64.encode (id ++ id) 128 ≡ ok s)
        × ((base64.encoded_len s == key_length) ≡ false)

-- `split` takes the path and the query out of an URI.
module _ (base64 : Base64) (uuid : UuidText) (split : Bytes → Bytes × Option Bytes) where
  open uuid use {to_string, from_u128}

  unfoldable pub get : Bytes → Action ℕ Etsi014.Response
  get uri counter =
      let (path, query) = split uri in
      let (r, counter') = handle_request base64 uuid path query counter in
      (answered uuid r, counter')

  module _ {Client : Type 0} (self : Etsi014Connection Client) where
    abbrev pub any_key_uri : Bytes
    any_key_uri =
        self.url
        ++ bytes_of "/api/v1/keys/"
        ++ self.remote_sae_id
        ++ bytes_of "/enc_keys?number=1&key_length=256"

    abbrev pub specific_key_uri : Uuid → Bytes
    specific_key_uri id =
        self.url
        ++ bytes_of "/api/v1/keys/"
        ++ self.remote_sae_id
        ++ bytes_of "/dec_keys?key_ID="
        ++ to_string id

    -- The URIs of the connection are taken apart as they were put together, and neither the address
    -- nor the id of the other side looks like a request for a specific key.
    pub record IsRouted : Type 0 where
      pub any_path : starts_with (bytes_of "/api/v1/keys/") (split any_key_uri).0 ≡ true
      pub any_enc : contains (bytes_of "enc_keys") (split any_key_uri).0 ≡ true
      pub any_dec : contains (bytes_of "dec_keys") (split any_key_uri).0 ≡ false
      pub specific_path :
          (id : Uuid)
          → starts_with (bytes_of "/api/v1/keys/") (split (specific_key_uri id)).0 ≡ true
      pub specific_dec :
          (id : Uuid) → contains (bytes_of "dec_keys") (split (specific_key_uri id)).0 ≡ true
      pub specific_query :
          (id : Uuid) → (split (specific_key_uri id)).1 ≡ some (key_id_parameter ++ to_string id)

  module _ (readable : IsReadable base64 uuid) {Client : Type 0} (self : Etsi014Connection Client)
      (routed : IsRouted self) where
    abbrev pub simulated : Uuid → Etsi014Key
    simulated id = record { id = id; key = id ++ id }

    -- What becomes of an answer with the key of an id.
    read_answer :
        (id : Uuid) (r : Result Response)
        → IsUuid id
        → r ≡ key_response base64 uuid id
        → and_then (answered uuid r) (Etsi014.read_response base64) ≡ ok (simulated id)
    read_answer id (ok x) u e =
        let (s, encoded, long) = readable.encodes id u in
        ap (fetched base64 uuid) e
        ∙ key_response-fetched base64 uuid id s u encoded long (readable.parses id u)
    read_answer id (err x) u e =
        let (s, encoded, long) = readable.encodes id u in
        absurd (
          ground (
            arith,
            ap (fetched base64 uuid) e
                ∙ key_response-fetched base64 uuid id s u encoded long (readable.parses id u),
          ))
    read_answer id (panic x) u e =
        let (s, encoded, long) = readable.encodes id u in
        absurd (
          ground (
            arith,
            ap (fetched base64 uuid) e
                ∙ key_response-fetched base64 uuid id s u encoded long (readable.parses id u),
          ))

    any_answer :
        (counter : ℕ)
        → (handle_request base64 uuid
            (split (any_key_uri self)).0
            (split (any_key_uri self)).1
            counter).0
          ≡ key_response base64 uuid (from_u128 counter)
    unfolding handle_request handle_keys
    any_answer counter = rw (routed.any_path, routed.any_dec, routed.any_enc) refl

    specific_answer :
        (id : Uuid) (counter : ℕ)
        → IsUuid id
        → let uri = specific_key_uri self id in
          (handle_request base64 uuid (split uri).0 (split uri).1 counter).0
          ≡ key_response base64 uuid id
    unfolding handle_request handle_keys
    specific_answer id counter u =
        rw (routed.specific_path id, routed.specific_dec id, routed.specific_query id)
          (dec_keys-parameter base64 uuid id (readable.parses id u))

    -- What a connection reads from an answer of the simulator.
    read_key :
        (id : Uuid) (s : String) (p : Result Response × ℕ)
        → IsUuid id
        → p.0 ≡ key_response base64 uuid id
        → context s
            (resume
              (λ response. lift (Etsi014.read_response base64 response))
              (answered uuid p.0, p.1)).0
          ≡ ok (simulated id)
    read_key id s p u e = ap (context s) (
        resume-lift (Etsi014.read_response base64) (answered uuid p.0) p.1 ∙ read_answer id p.0 u e)

    pub fetch_any_key-simulated :
        (counter : ℕ)
        → (Etsi014.fetch_any_key base64 get to_string self counter).0
          ≡ ok (simulated (from_u128 counter))
    unfolding Etsi014.fetch_any_key Etsi014.fetch_key_internal get
    fetch_any_key-simulated counter =
        let (path, query) = split (any_key_uri self) in
        read_key (from_u128 counter) "Error Fetching unspecific key from ETSI014 URL."
          (handle_request base64 uuid path query counter) (readable.sized counter)
          (any_answer counter)

    pub fetch_specific_key-simulated :
        (id : Uuid) (counter : ℕ)
        → IsUuid id
        → (Etsi014.fetch_specific_key base64 get to_string self id counter).0 ≡ ok (simulated id)
    unfolding Etsi014.fetch_specific_key Etsi014.fetch_key_internal get
    fetch_specific_key-simulated id counter u =
        let (path, query) = split (specific_key_uri self id) in
        read_key id "Error Fetching specific key from ETSI014 URL. (key id={id})"
          (handle_request base64 uuid path query counter) u (specific_answer id counter u)
