-- ===== src/Crypto/Key.antt =====
-- The byte strings of daisyway/src/internal/daisyway/crypto/basics.rs and of internal/util.rs.
use daisyway.Base.{ℕ, ◌+◌, ◌*◌, ◌/◌, ◌≡◌, List, length, replicate}

abbrev pub Bytes : Type 0
Bytes = List ℕ

abbrev pub key_length : ℕ
key_length = 32

abbrev pub key_length_b64 : ℕ
key_length_b64 = key_length * 4 / 3 + 4

abbrev pub uuid_length : ℕ
uuid_length = 16

-- `[u8; 32]` is a list of that length: where the code relies on it, `IsKey` is a hypothesis.
abbrev pub Key : Type 0
Key = Bytes

abbrev pub IsKey : Key → Type 0
IsKey k = length k ≡ key_length

-- `Key::new_zeroed()`.
abbrev pub new_zeroed : ℕ → Bytes
new_zeroed n = replicate n 0

-- `UuidBytes`, and a `Uuid` by its bytes in the order of `as_bytes`.
abbrev pub Uuid : Type 0
Uuid = Bytes

abbrev pub IsUuid : Uuid → Type 0
IsUuid u = length u ≡ uuid_length
