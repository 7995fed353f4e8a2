-- ===== src/Crypto/HashDomain.antt =====
-- daisyway/src/internal/daisyway/crypto/hash_domain.rs: keys derived by SHAKE256.
pub mod Forks
use daisyway.Base.{ℕ, ◌+◌, ◌*◌, ◌≡◌, ◌≤◌, List, ◌++◌, length, take, drop}
use daisyway.Crypto.Key.{Bytes, Key, IsKey, key_length, new_zeroed}

-- The hash function of the crates `shake` and `sha3`: the first `n` bytes of the output stream for
-- an input. A longer reading of a stream extends a shorter one.
pub record Xof : Type 0 where
  pub xof : Bytes → ℕ → Bytes
  pub xof_length : (input : Bytes) (n : ℕ) → length (xof input n) ≡ n
  pub xof_prefix : (input : Bytes) (m n : ℕ) → m ≤ n → take m (xof input n) ≡ xof input m

pub record HashDomain : Type 0 where
  pub key : Key

unfoldable pub new : Key → HashDomain
new key = record { key = key }

unfoldable pub zero : HashDomain
unfolding new
zero = new (new_zeroed key_length)

unfoldable pub into_key : HashDomain → Key
into_key d = d.key

module _ (shake256 : Xof) where
  open shake256 use {xof}

  -- A reader is its input: what was absorbed is the key, then the data.
  unfoldable pub mix_begin_reader : HashDomain → Bytes → Bytes
  mix_begin_reader d bytes = d.key ++ bytes

  -- Reading into a value of `size` bytes; `mix_read` returns what it reads.
  unfoldable pub mix_read_into : HashDomain → Bytes → ℕ → Bytes
  unfolding mix_begin_reader
  mix_read_into d bytes size = xof (mix_begin_reader d bytes) size

  unfoldable pub mix_read : HashDomain → Bytes → ℕ → Bytes
  unfolding mix_read_into
  mix_read d bytes size = mix_read_into d bytes size

  unfoldable pub mix : HashDomain → Bytes → HashDomain
  unfolding mix_read
  mix d bytes = record { key = mix_read d bytes key_length }

  -- `TwoKeys` and `ThreeKeys` are packed: the keys stand one after the other.
  unfoldable pub mix_fork : HashDomain → Bytes → HashDomain × HashDomain
  unfolding mix_read new
  mix_fork d bytes =
      let out = mix_read d bytes (2 * key_length) in
      (new (take key_length out), new (take key_length (drop key_length out)))

  unfoldable pub mix_trifork : HashDomain → Bytes → HashDomain × HashDomain × HashDomain
  unfolding mix_read new
  mix_trifork d bytes =
      let out = mix_read d bytes (3 * key_length) in
      (
        new (take key_length out),
        new (take key_length (drop key_length out)),
        new (take key_length (drop (2 * key_length) out)),
      )
