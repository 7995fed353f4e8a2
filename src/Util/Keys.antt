-- ===== src/Util/Keys.antt =====
-- Keys that daisyway/src/internal/util.rs reads from Base64 and from files.
use daisyway.Base.{
  ℕ, ◌-◌, ◌≤◌, ◌<◌, ◌≡◌, refl, ap, ◌∙◌, ◌⊎◌, inl, inr, [], ◌∷◌, ◌++◌, none, some, Option, Result,
  ok, length, replicate, arith, length-append, length-replicate, take-all, Result-cases, is_ok,
  false,
}
use mathlib.Core.List.{append-nil}
use daisyway.Crypto.Key.{Bytes, IsKey, key_length, key_length_b64, new_zeroed}
use daisyway.Util.{
  Reader, outcome, read_to_end_up_to, Base64, fill, base64_to_key, trim_newline,
  load_base64_key_file,
}
use daisyway.Util.Reading.{contents, fault_of, up_to, result_of, read_to_end_up_to_lem}

-- A newline that is put at the end is what is cut off.
trim_newline-append : (s : Bytes) → trim_newline (s ++ b'\n' ∷ []) ≡ s
unfolding trim_newline
trim_newline-append [] = refl
trim_newline-append (b ∷ []) = refl
trim_newline-append (b ∷ c ∷ s) = ap (◌∷◌ b) (trim_newline-append (c ∷ s))

minus_self : (n m : ℕ) → m ≡ n → n - m ≡ 0
minus_self n m h = omega arith

fill-full : (n : ℕ) (d : Bytes) → length d ≡ n → fill n d ≡ d
fill-full n d h = rw (minus_self n (length d) h) (append-nil d)

length-fill : (n : ℕ) (d : Bytes) → length d ≤ n → length (fill n d) ≡ n
length-fill n d h =
    omega (
      arith,
      length-append d (replicate (n - length d) 0),
      length-replicate {A = ℕ} (n - length d) 0,
    )

outcome_of :
    (x : Option (Result Bytes × Reader)) (b : Result Bytes) → result_of x ≡ some b → outcome x ≡ b
outcome_of none b e = ground arith
outcome_of (some (x, r)) b e = ground arith

-- All that a short file holds.
outcome_short :
    (n : ℕ) (r : Reader)
    → fault_of r ≡ none
    → length (contents r) ≤ n
    → outcome (read_to_end_up_to n r) ≡ ok (contents r)
outcome_short n r sound short =
    outcome_of (read_to_end_up_to n r) (up_to n r) (read_to_end_up_to_lem n r)
    ∙ ground (arith, take-all n (contents r))

-- The two forms of a key file, cut at its newline.
trimmed_contents :
    (s c : Bytes) → trim_newline s ≡ s → (c ≡ s) ⊎ (c ≡ s ++ b'\n' ∷ []) → trim_newline c ≡ s
trimmed_contents s c trimmed (inl e) = rw e trimmed
trimmed_contents s c trimmed (inr e) = rw e (trim_newline-append s)

contents_fit : (n : ℕ) (s c : Bytes) → length s < n → (c ≡ s) ⊎ (c ≡ s ++ b'\n' ∷ []) → length c ≤ n
contents_fit n s c h (inl e) = rw e (omega arith)
contents_fit n s c h (inr e) = rw e (omega (arith, length-append s (b'\n' ∷ [])))

module _ (base64 : Base64) where
  open base64 use {decode, encode, decode_fits, decode-encode}

  -- A text is a key exactly if the decoder takes it, and the key then has 32 bytes, the decoded
  -- ones and then zeros.
  pub base64_to_key_lem :
      (s : Bytes)
      → ((d : Bytes) × (decode s key_length ≡ ok d)
          × (base64_to_key base64 s ≡ ok (fill key_length d))
          × IsKey (fill key_length d))
        ⊎ ((is_ok (base64_to_key base64 s) ≡ false) × (is_ok (decode s key_length) ≡ false))
  unfolding base64_to_key
  base64_to_key_lem s = elim (Result-cases (decode s key_length)) [
    | inl (d, e) ↦ inl (
      d,
      e,
      rw e,
      omega (
        arith,
        length-append d (replicate (key_length - length d) 0),
        length-replicate {A = ℕ} (key_length - length d) 0,
        decode_fits s key_length d e,
      ),
    )
    | inr e ↦ inr (ground arith, e)
  ]

  -- A text that decodes to fewer than 32 bytes is read as the same key as a text that decodes to
  -- these bytes and then zeros.
  pub base64_to_key_short :
      (s t d : Bytes)
      → decode s key_length ≡ ok d
      → length d < key_length
      → decode t key_length ≡ ok (fill key_length d)
      → base64_to_key base64 s ≡ base64_to_key base64 t
  unfolding base64_to_key
  base64_to_key_short s t d e short f =
      rw (e, f, fill-full key_length (fill key_length d) (length-fill key_length d (omega arith)))

  -- A key file that can be read and holds the encoding of a key, of at most 45 bytes and without a
  -- newline at its end, or the same with one newline behind it, is read as this key, in whatever
  -- pieces the reader delivers it.
  pub load_encoded_key :
      (k s : Bytes) (n : ℕ) (r : Reader)
      → IsKey k
      → encode k n ≡ ok s
      → length s < key_length_b64
      → trim_newline s ≡ s
      → fault_of r ≡ none
      → (contents r ≡ s) ⊎ (contents r ≡ s ++ b'\n' ∷ [])
      → load_base64_key_file base64 (ok r) ≡ ok k
  unfolding load_base64_key_file base64_to_key
  load_encoded_key k s n r key encoded short trimmed sound c =
      rw
        (
          outcome_short key_length_b64 r sound (contents_fit key_length_b64 s (contents r) short c),
          trimmed_contents s (contents r) trimmed c,
          decode-encode k s n key_length encoded (omega arith),
        )
        (ap ok (fill-full key_length k key))

  -- An empty key file is read as the key of zeros, if the decoder takes the empty text.
  pub load_empty_file :
      (r : Reader)
      → contents r ≡ []
      → fault_of r ≡ none
      → decode [] key_length ≡ ok []
      → load_base64_key_file base64 (ok r) ≡ ok (new_zeroed key_length)
  unfolding load_base64_key_file base64_to_key trim_newline
  load_empty_file r c sound e = rw (outcome_short key_length_b64 r sound (rw c (omega arith)), c, e)
