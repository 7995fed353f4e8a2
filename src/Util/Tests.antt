-- ===== src/Util/Tests.antt =====
-- Readings of small files by daisyway/src/internal/util.rs, with a decoder that copies.
use daisyway.Base.{
  ℕ, ◌+◌, ◌≤◌, ◌≡◌, refl, inr, [], ◌∷◌, some, Result, ok, err, foreign, interrupted, other_kind,
  leb, if◌then◌else◌, length, replicate, arith,
}
use daisyway.Crypto.Key.{Bytes, Key, key_length, new_zeroed}
use daisyway.Util.{
  Reader, chunk, fault, Base64, base64_to_key, load_base64_key_file, read_to_end_up_to, fill,
  trim_newline,
}
use daisyway.Util.Reading.{result_of, up_to, read_to_end_up_to_lem}
use daisyway.Util.Keys.{base64_to_key_short, load_encoded_key, load_empty_file}

abbrev pub copied : Bytes → ℕ → Result Bytes
copied s n = if leb (length s) n then ok s else err (foreign "invalid length")

pub copied_fits : (s : Bytes) (n : ℕ) (d : Bytes) → copied s n ≡ ok d → length d ≤ n
copied_fits s n d e = ground arith

pub copied_back : (b s : Bytes) (n m : ℕ) → copied b n ≡ ok s → length b ≤ m → copied s m ≡ ok b
copied_back b s n m e h = ground arith

abbrev pub copying : Base64
copying = record {
  decode = copied;
  encode = copied;
  encoded_len = λ s. length s + length s;
  decode_fits = copied_fits;
  decode-encode = copied_back;
}

abbrev pieces : Reader
pieces = chunk (1 ∷ 2 ∷ []) ∷ fault interrupted ∷ chunk (3 ∷ 4 ∷ 5 ∷ []) ∷ []

reads_four : result_of (read_to_end_up_to 4 pieces) ≡ some (ok (1 ∷ 2 ∷ 3 ∷ 4 ∷ []))
unfolding read_to_end_up_to
reads_four = refl

reads_all : result_of (read_to_end_up_to 9 pieces) ≡ some (ok (1 ∷ 2 ∷ 3 ∷ 4 ∷ 5 ∷ []))
unfolding read_to_end_up_to
reads_all = refl

reads_fault :
    result_of (read_to_end_up_to 9 (chunk (1 ∷ []) ∷ fault other_kind ∷ []))
    ≡ result_of (some (up_to 9 (fault other_kind ∷ []), []))
unfolding read_to_end_up_to
reads_fault = refl

read_to_end_up_to_example : result_of (read_to_end_up_to 4 pieces) ≡ some (up_to 4 pieces)
read_to_end_up_to_example = read_to_end_up_to_lem 4 pieces

abbrev pub ones : Key
ones = replicate 32 1

short_text_filled :
    base64_to_key copying (5 ∷ []) ≡ base64_to_key copying (fill key_length (5 ∷ []))
short_text_filled =
    base64_to_key_short copying (5 ∷ []) (fill key_length (5 ∷ [])) (5 ∷ []) refl (omega arith) refl

trimmed_ones : trim_newline ones ≡ ones
unfolding trim_newline
trimmed_ones = refl

load_encoded_key_example :
    load_base64_key_file copying (ok (chunk ones ∷ chunk (b'\n' ∷ []) ∷ [])) ≡ ok ones
load_encoded_key_example =
    load_encoded_key copying ones ones 46 (chunk ones ∷ chunk (b'\n' ∷ []) ∷ []) refl refl
      (omega arith) trimmed_ones refl (inr refl)

empty_file_zeros : load_base64_key_file copying (ok []) ≡ ok (new_zeroed key_length)
empty_file_zeros = load_empty_file copying [] refl refl refl
