-- ===== src/Etsi014/Outcomes.antt =====
-- What daisyway/src/internal/etsi014.rs makes of each response.
use daisyway.Base.{
  ◌≡◌, ◌≢◌, ◌⊎◌, inl, inr, refl, List, [], ◌∷◌, true, false, Bool-cases, Result, Result-cases, ok,
  err, panic, is_ok, is_panic, ◌==◌, length, arith, subst, String, Error, and_then, unwrap,
}
use daisyway.Crypto.Key.{Bytes, Key, IsKey, key_length}
use daisyway.Crypto.Basics.{Etsi014Key}
use daisyway.Util.{Base64}
use daisyway.Etsi014.{
  Response, ResponseKey, read_response, key_of_responses, key_of_response, is_success,
}

abbrev pub IsError {ℓ} : {A : Type ℓ} → Result A → Type 0
IsError r = (is_ok r ≡ false) × (is_panic r ≡ false)

unwrap_panics :
    {A B : Type 0} (s : String) (f : A → Result B) (r : Result A)
    → is_ok r ≡ false
    → is_panic (and_then (unwrap s r) f) ≡ true
unwrap_panics s f (ok a) h = ground arith
unwrap_panics s f (err e) h = refl
unwrap_panics s f (panic p) h = refl

-- A chain that stops with an error: after a step that fails, or after one that succeeds.
IsError-stopped :
    {A B : Type 0} (f : A → Result B) (r : Result A)
    → is_ok r ≡ false
    → is_panic r ≡ false
    → IsError (and_then r f)
IsError-stopped f (ok a) h k = ground arith
IsError-stopped f (err e) h k = (refl, refl)
IsError-stopped f (panic p) h k = ground arith

IsError-after :
    {A : Type 0} (B : Type 0) (e : Error) (r : Result A)
    → is_panic r ≡ false
    → IsError (and_then {B = B} r (λ _. err e))
IsError-after B e (ok a) k = (refl, refl)
IsError-after B e (err x) k = (refl, refl)
IsError-after B e (panic p) k = ground arith

module _ (base64 : Base64) where
  open base64 use {decode, encoded_len}

  -- What is made of one key; no two of these cases hold of the same key. It is taken, or its text
  -- has 32 bytes of encoding or is refused by the decoder, or something else than 32 bytes was
  -- decoded.
  abbrev pub IsConverted : ResponseKey → Result Etsi014Key → Type 0
  IsConverted value r =
      ((key : Key) × ((encoded_len value.key == key_length) ≡ false)
        × (decode value.key key_length ≡ ok key)
        × IsKey key
        × (r ≡ ok (record { id = value.id; key = key })))
      ⊎ ((((encoded_len value.key == key_length) ≡ true)
            ⊎ (is_ok (decode value.key key_length) ≡ false))
          × (is_panic r ≡ true))
      ⊎ ((d : Bytes) × ((encoded_len value.key == key_length) ≡ false)
          × (decode value.key key_length ≡ ok d)
          × (length d ≢ key_length)
          × IsError r)

  -- What is made of a response.
  abbrev pub IsRead : Response → Result Etsi014Key → Type 0
  IsRead response r =
      ((is_success base64 response.status ≡ false) × IsError r)
      ⊎ ((is_success base64 response.status ≡ true) × (is_ok response.json ≡ false) × IsError r)
      ⊎ ((values : List ResponseKey) × (is_success base64 response.status ≡ true)
          × (response.json ≡ ok values)
          × (length values ≢ 1)
          × IsError r)
      ⊎ ((value : ResponseKey) × (is_success base64 response.status ≡ true)
          × (response.json ≡ ok (value ∷ []))
          × IsConverted value r)

  key_of_response-IsConverted :
      (value : ResponseKey) → IsConverted value (key_of_response base64 value)
  unfolding key_of_response
  key_of_response-IsConverted value = elim (Bool-cases (encoded_len value.key == key_length)) [
    | inl short ↦ inr (inl (inl short, ground arith))
    | inr long ↦ elim (Result-cases (decode value.key key_length)) [
      | inr failed ↦
          inr (inl (inr failed, rw long (unwrap_panics _ _ (decode value.key key_length) failed)))
      | inl (d, e) ↦ elim (Bool-cases (length d == key_length)) [
        | inl full ↦ inl (d, long, e, ground arith, rw (long, e, full) refl)
        | inr other ↦ inr (inr (d, long, e, ground arith, ground arith))
      ]
    ]
  ]

  -- Where the text was read as so many keys.
  listed-IsRead :
      (response : Response) (values : List ResponseKey)
      → is_success base64 response.status ≡ true
      → response.json ≡ ok values
      → IsRead response (key_of_responses base64 values)
  unfolding key_of_responses
  listed-IsRead response [] success e = inr (inr (inl ([], success, e, omega arith, (refl, refl))))
  listed-IsRead response (value ∷ []) success e =
      inr (inr (inr (value, success, e, key_of_response-IsConverted value)))
  listed-IsRead response (value ∷ other ∷ values) success e =
      inr (inr (inl (value ∷ other ∷ values, success, e, omega arith, (refl, refl))))

  -- Each response, if reading its text does not panic, has one of these outcomes: it is an error
  -- where the status is not one of success, where the text is not read as keys, or where the keys
  -- are not exactly one; and of one key, it is a panic where the encoding of the text has 32 bytes
  -- or the decoder refuses it, and otherwise the key with its id where 32 bytes were decoded, and
  -- an error where anything else was.
  pub read_response-IsRead :
      (response : Response)
      → is_panic response.json ≡ false
      → is_panic response.text ≡ false
      → IsRead response (read_response base64 response)
  unfolding read_response
  read_response-IsRead response json text = elim (Bool-cases (is_success base64 response.status)) [
    | inr failed ↦ inl (failed, rw failed (IsError-after _ _ response.text text))
    | inl success ↦ elim (Result-cases response.json) [
      | inr unread ↦
          inr (inl (success, unread, rw success (IsError-stopped _ response.json unread json)))
      | inl (values, e) ↦
          subst (IsRead response) (rw (success, e)) (listed-IsRead response values success e)
    ]
  ]
