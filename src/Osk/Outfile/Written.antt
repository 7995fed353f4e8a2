-- ===== src/Osk/Outfile/Written.antt =====
-- What stands in the file that daisyway/src/internal/osk/outfile.rs writes.
use daisyway.Base.{
  ◌≡◌, ◌<◌, ◌⊎◌, refl, inl, inr, none, Result, ok, err, panic, is_ok, is_panic, true, String,
  resume, pure, false, Result-cases, arith, ◌∙◌, ap, length,
}
use daisyway.Crypto.Key.{Bytes, Key, IsKey, key_length_b64}
use daisyway.Util.{Base64, Reader, load_base64_key_file, trim_newline}
use daisyway.Util.Reading.{contents, fault_of}
use daisyway.Util.Keys.{load_encoded_key}
use daisyway.Osk.{SetOskReason}
use daisyway.Osk.Outfile.{Output, set_osk_impl, why}

-- A file that was created and written is read back, also after a line was printed.
pub record IsReadBack {FilePath W : Type 0} (output : Output FilePath W)
    (open_file : FilePath → W → Result Reader) : Type 0 where
  pub reads :
      (p : FilePath) (b : Bytes) (w : W)
      → (output.create p w).0 ≡ ok tt
      → (output.write_all p b (output.create p w).1).0 ≡ ok tt
      → (r : Reader) × (open_file p (output.write_all p b (output.create p w).1).1 ≡ ok r)
        × (contents r ≡ b)
        × (fault_of r ≡ none)
  pub prints :
      (p : FilePath) (s : String) (w : W) → open_file p (output.println p s w).1 ≡ open_file p w

-- The last step changes nothing more.
done-state : {W : Type 0} (p : Result (Unit {0}) × W) → (resume {0, 0, 0} (λ _. pure tt) p).1 ≡ p.1
done-state (ok a, w) = refl
done-state (err e, w) = refl
done-state (panic s, w) = refl

module _ {FilePath W : Type 0} (base64 : Base64) (output : Output FilePath W)
    (open_file : FilePath → W → Result Reader) (back : IsReadBack output open_file) where
  open base64 use {encode}
  open output use {create, write_all, println}

  -- If writing the output key to a file succeeds, the file is read back as this key, on a file
  -- system that reads back what was written and for an encoding that fits the buffer and ends in
  -- no newline.
  pub set_osk_impl-load :
      (path : FilePath) (key : Key) (reason : SetOskReason) (s : Bytes) (w : W)
      → IsKey key
      → encode key key_length_b64 ≡ ok s
      → length s < key_length_b64
      → trim_newline s ≡ s
      → (set_osk_impl base64 output path key reason w).0 ≡ ok tt
      → load_base64_key_file base64
          (open_file path (set_osk_impl base64 output path key reason w).1)
        ≡ ok key
  unfolding set_osk_impl
  set_osk_impl-load path key reason s w k e short trimmed done =
      elim (Result-cases (create path w).0) [
        | inr f ↦ absurd (ground arith)
        | inl (_, f) ↦ elim (Result-cases (write_all path s (create path w).1).0) [
          | inr g ↦ absurd (ground arith)
          | inl (_, g) ↦
              let (r, h, c, sound) = back.reads path s w f g in
              ap (load_base64_key_file base64) (
                rw (e, f, g)
                  (ap (open_file path) (
                      done-state (println path (why reason) (write_all path s (create path w).1).1))
                    ∙ back.prints path (why reason) _)
                ∙ h)
              ∙ load_encoded_key base64 key s key_length_b64 r k e short trimmed sound (inl c)
        ]
      ]

-- With a key that encodes, an output file that cannot be created or written is a panic.
pub set_osk_impl-panics :
    {FilePath W : Type 0} (base64 : Base64) (output : Output FilePath W) (path : FilePath)
    (key : Key) (reason : SetOskReason) (s : Bytes) (w : W)
    → base64.encode key key_length_b64 ≡ ok s
    → (is_ok (output.create path w).0 ≡ false)
      ⊎ (is_ok (output.write_all path s (output.create path w).1).0 ≡ false)
    → is_panic (set_osk_impl base64 output path key reason w).0 ≡ true
unfolding set_osk_impl
set_osk_impl-panics base64 output path key reason s w e (inl failed) = ground arith
set_osk_impl-panics base64 output path key reason s w e (inr failed) =
    elim (Result-cases (output.create path w).0) [
      | inl (_, f) ↦ ground arith
      | inr f ↦ ground arith
    ]
