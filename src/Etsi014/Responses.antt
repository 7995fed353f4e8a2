-- ===== src/Etsi014/Responses.antt =====
-- The responses that daisyway/src/internal/etsi014.rs reads a key from.
use daisyway.Base.{
  ℕ, ◌≡◌, refl, List, [], ◌∷◌, true, ok, Result-cases, is_ok, is_panic, false, inl, inr, Bool-cases,
  ap, ◌∙◌, and_then-eq-ok, arith, ◌≤◌, ◌<◌,
}
use daisyway.Crypto.Key.{IsKey, key_length}
use daisyway.Crypto.Basics.{Etsi014Key}
use daisyway.Util.{Base64}
use daisyway.Etsi014.{
  Response, ResponseKey, read_response, key_of_responses, key_of_response, is_success,
}

module _ (base64 : Base64) where
  open base64 use {decode, encoded_len}

  key_of_response_sound :
      (r : ResponseKey) (k : Etsi014Key)
      → key_of_response base64 r ≡ ok k
      → (r.id ≡ k.id) × (decode r.key key_length ≡ ok k.key) × IsKey k.key
  unfolding key_of_response
  key_of_response_sound r k e = elim (Result-cases (decode r.key key_length)) [
    | inl (d, f) ↦ ground arith
    | inr f ↦ absurd (ground arith)
  ]

  is_success-bounds :
      (status : ℕ) → is_success base64 status ≡ true → (200 ≤ status) × (status < 300)
  is_success-bounds status e = (ground arith, ground arith)

  one_key :
      (rs : List ResponseKey) (k : Etsi014Key)
      → key_of_responses base64 rs ≡ ok k
      → (r : ResponseKey) × (rs ≡ r ∷ []) × (key_of_response base64 r ≡ ok k)
  unfolding key_of_responses
  one_key [] k e = ground arith
  one_key (r ∷ []) k e = (r, refl, e)
  one_key (r ∷ q ∷ rs) k e = ground arith

  -- If a key is taken from a response, then the status is one of success, and the response holds
  -- exactly one key, with this id, whose text decodes to the 32 bytes of the key.
  pub read_response_sound :
      (response : Response) (k : Etsi014Key)
      → read_response base64 response ≡ ok k
      → (200 ≤ response.status)
        × (response.status < 300)
        × ((r : ResponseKey) × (response.json ≡ ok (r ∷ []))
            × (r.id ≡ k.id)
            × (decode r.key key_length ≡ ok k.key)
            × IsKey k.key)
  unfolding read_response
  read_response_sound response k e = elim (Bool-cases (is_success base64 response.status)) [
    | inr f ↦ absurd (ground arith)
    | inl f ↦
        let (rs, json, g) = and_then-eq-ok response.json (key_of_responses base64) (ground arith) in
        let (r, h, x) = one_key rs k g in
        let (same, decoded, full) = key_of_response_sound r k x in
        let (low, high) = is_success-bounds response.status f in
        (low, high, (r, json ∙ ap ok h, same, decoded, full))
  ]

  malformed :
      (r : ResponseKey)
      → is_ok (decode r.key key_length) ≡ false
      → is_panic (key_of_response base64 r) ≡ true
  unfolding key_of_response
  malformed r e = ground arith

  -- A successful response with one key whose text the decoder refuses is a panic.
  pub read_response-malformed :
      (response : Response) (r : ResponseKey)
      → 200 ≤ response.status
      → response.status < 300
      → response.json ≡ ok (r ∷ [])
      → is_ok (decode r.key key_length) ≡ false
      → is_panic (read_response base64 response) ≡ true
  unfolding read_response key_of_responses key_of_response
  read_response-malformed response r low high json e =
      elim (Result-cases (decode r.key key_length)) [
        | inl (d, f) ↦ absurd (ground arith)
        | inr f ↦ ground (arith, malformed r e)
      ]
