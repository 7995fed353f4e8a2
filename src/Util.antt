-- ===== src/Util.antt =====
-- daisyway/src/internal/util.rs: bounded reading, and keys from Base64. The crate `base64ct` and the
-- file system are parameters.
pub mod Reading
pub mod Keys
pub mod Values
pub mod Tests
use daisyway.Base.{
  ℕ, zero, suc, ◌+◌, ◌-◌, List, [], ◌∷◌, ◌++◌, Option, none, some, Bool, true, false, Result, ok,
  err, panic, Error, io, message, with_context, IoErrorKind, interrupted, unexpected_eof,
  other_kind, foreign, leb, ◌==◌, if◌then◌else◌, length, take, drop, replicate, and_then, ◌≡◌, ◌≤◌,
}
use daisyway.Crypto.Key.{Bytes, Key, key_length, key_length_b64}

-- What a reader of the standard library has to give: pieces of its contents, an empty one for its
-- end, and errors.
pub data Piece : Type 0 where
  chunk : Bytes → Piece
  fault : IoErrorKind → Piece

abbrev pub Reader : Type 0
Reader = List Piece

-- `Read::read` with a buffer of `n` bytes.
unfoldable pub read : ℕ → Reader → Result Bytes × Reader
read n [] = (ok [], [])
read n (chunk c ∷ r) = if leb (length c) n then (ok c, r) else (ok (take n c), chunk (drop n c) ∷ r)
read n (fault k ∷ r) = (err (io k), r)

-- `e.kind() == Interrupted`.
abbrev pub is_interrupted : Error → Bool
is_interrupted (io interrupted) = true
is_interrupted _ = false

-- The kind of an I/O error, also under lines of context, which `downcast_ref` of anyhow looks through.
unfoldable pub io_error_kind : Error → Option IoErrorKind
io_error_kind (io kind) = some kind
io_error_kind (with_context s e) = io_error_kind e
io_error_kind (message s) = none
io_error_kind (foreign s) = none

-- What follows a read, in a buffer that holds `red` and has room for `left` more bytes. The calls of
-- the loop are `again`, with what has been read and the room that is left.
abbrev pub after_read :
    (Bytes → ℕ → Reader → Option (Result Bytes × Reader))
    → Bytes
    → ℕ
    → Result Bytes × Reader
    → Option (Result Bytes × Reader)
after_read again red left (ok [], r) = some (ok red, r)
after_read again red left (ok (b ∷ c), r) = again (red ++ (b ∷ c)) (left - length (b ∷ c)) r
after_read again red left (err e, r) = elim (is_interrupted e) [
  | true ↦ again red left r
  | false ↦ some (err e, r)
]
after_read again red left (panic p, r) = some (panic p, r)

-- The loop of `read_to_end_up_to`, on fuel: `none` means that the fuel ran out.
unfoldable pub read_loop : ℕ → Bytes → ℕ → Reader → Option (Result Bytes × Reader)
unfolding read
read_loop zero red left r = none
read_loop (suc fuel) red zero r = some (ok red, r)
read_loop (suc fuel) red (suc left) r =
    after_read (read_loop fuel) red (suc left) (read (suc left) r)

-- Each round uses up a piece or fills the buffer.
unfoldable pub read_to_end_up_to : ℕ → Reader → Option (Result Bytes × Reader)
unfolding read_loop
read_to_end_up_to size r = read_loop (suc (suc (length r))) [] size r

-- The crate `base64ct`: `decode` with a buffer of so many bytes, of which it returns the part that it
-- wrote, and `encode` likewise.
pub record Base64 : Type 0 where
  pub decode : Bytes → ℕ → Result Bytes
  pub encode : Bytes → ℕ → Result Bytes
  pub encoded_len : Bytes → ℕ
  pub decode_fits : (s : Bytes) (n : ℕ) (d : Bytes) → decode s n ≡ ok d → length d ≤ n
  pub decode-encode : (b s : Bytes) (n m : ℕ) → encode b n ≡ ok s → length b ≤ m → decode s m ≡ ok b

-- A buffer of `n` zeroed bytes, of which the first were written.
abbrev pub fill : ℕ → Bytes → Bytes
fill n d = d ++ replicate (n - length d) 0

-- One newline at the end is cut off.
unfoldable pub trim_newline : Bytes → Bytes
trim_newline [] = []
trim_newline (b ∷ []) = if b == b'\n' then [] else b ∷ []
trim_newline (b ∷ c ∷ s) = b ∷ trim_newline (c ∷ s)

-- What the loop read, or why it could not; it does not run out of fuel.
abbrev pub outcome : Option (Result Bytes × Reader) → Result Bytes
outcome none = panic "out of fuel"
outcome (some (r, _)) = r

module _ (base64 : Base64) where
  open base64 use {decode}

  unfoldable pub base64_to_key : Bytes → Result Key
  base64_to_key encoded_key = and_then (decode encoded_key key_length) (λ d. ok (fill key_length d))

  -- `file` is what `File::open` gives.
  unfoldable pub load_base64_key_file : Result Reader → Result Key
  load_base64_key_file file = and_then file λ reader.
      and_then (outcome (read_to_end_up_to key_length_b64 reader))
        λ psk_b64. base64_to_key (trim_newline psk_b64)
