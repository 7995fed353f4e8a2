-- ===== src/Crypto/HashDomain/Forks.antt =====
-- How `mix`, `mix_fork` and `mix_trifork` of daisyway/src/internal/daisyway/crypto/hash_domain.rs relate.
use daisyway.Base.{
  ℕ, ◌+◌, ◌≡◌, ap, ◌++◌, ◌∙◌, sym, take, drop, take-drop, length-take, length-drop, arith,
}
use daisyway.Crypto.Key.{Bytes, IsKey}
use daisyway.Crypto.HashDomain.{Xof, HashDomain, new, mix, mix_fork, mix_trifork}

module _ (shake256 : Xof) where
  open shake256 use {xof, xof_length, xof_prefix}

  -- The second key of the stream does not depend on how far it is read.
  second_key :
      (input : Bytes) (n : ℕ) → take 32 (drop 32 (xof input (64 + n))) ≡ drop 32 (xof input 64)
  second_key input n =
      take-drop 32 32 (xof input (64 + n))
      ∙ ap (drop 32) (xof_prefix input 64 (64 + n) (omega arith))

  -- Forking and triforking derive the key that mix derives and then further ones, the same in
  -- both, and all of them have the length of a key.
  pub mix_fork-mix_trifork :
      (d : HashDomain) (bytes : Bytes)
      → let a = mix shake256 d bytes in
        let b = mix_fork shake256 d bytes in
        let c = mix_trifork shake256 d bytes in
        ((b.0 ≡ a) × (c.0 ≡ a) × (c.1 ≡ b.1)) × (IsKey a.key × IsKey b.1.key × IsKey c.2.key)
  unfolding new mix mix_fork mix_trifork
  mix_fork-mix_trifork d bytes =
      let input = d.key ++ bytes in
      (
        (
          ap new (xof_prefix input 32 64 (omega arith)),
          ap new (xof_prefix input 32 96 (omega arith)),
          ap new (second_key input 32 ∙ sym (second_key input 0)),
        ),
        (
          xof_length input 32,
          omega (
            arith,
            length-take 32 (drop 32 (xof input 64)),
            length-drop 32 (xof input 64),
            xof_length input 64,
          ),
          omega (
            arith,
            length-take 32 (drop 64 (xof input 96)),
            length-drop 64 (xof input 96),
            xof_length input 96,
          ),
        ),
      )
