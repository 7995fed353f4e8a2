-- ===== src/Crypto/Toys.antt =====
-- Sockets in memory, a toy hash function and a QKD device that knows one key, for runs of
-- daisyway/src/internal/daisyway/crypto.
use daisyway.Base.{
  ℕ, zero, suc, ◌+◌, ◌≤◌, ◌≡◌, refl, [], ◌∷◌, ◌++◌, ok, err, io, unexpected_eof, Action, leb,
  if◌then◌else◌, length, take, drop, replicate, length-replicate, arith, ap,
}
use daisyway.Crypto.Key.{Bytes, Key, Uuid, IsUuid}
use daisyway.Crypto.HashDomain.{Xof}
use daisyway.Crypto.Basics.{UuidCrate, DaisywayProtocolParameters, Etsi014Key}
use daisyway.Crypto.World.{Parts}
use daisyway.Osk.{OskHandler}

abbrev pub checksum : Bytes → ℕ
checksum [] = 0
checksum (x ∷ xs) = x + checksum xs

pub take-replicate : (m n a : ℕ) → m ≤ n → take m (replicate n a) ≡ replicate m a
take-replicate zero n a h = refl
take-replicate (suc m) zero a h = absurd (omega arith)
take-replicate (suc m) (suc n) a h = ap (◌∷◌ a) (take-replicate m n a (omega arith))

abbrev pub toy_shake : Xof
toy_shake = record {
  xof = λ input n. replicate n (checksum input);
  xof_length = λ input n. length-replicate n (checksum input);
  xof_prefix = λ input m n h. take-replicate m n (checksum input) h;
}

-- The fields of a UUID in little-endian order.
abbrev pub swap_fields : Uuid → Bytes
swap_fields (a ∷ b ∷ c ∷ d ∷ e ∷ f ∷ g ∷ h ∷ rest) = d ∷ c ∷ b ∷ a ∷ f ∷ e ∷ h ∷ g ∷ rest
swap_fields u = u

pub swap_fields_length : (u : Uuid) → IsUuid u → IsUuid (swap_fields u)
swap_fields_length (a ∷ b ∷ c ∷ d ∷ e ∷ f ∷ g ∷ h ∷ rest) v = v
swap_fields_length _ v = v

pub swap_fields_twice : (u : Uuid) → IsUuid u → swap_fields (swap_fields u) ≡ u
swap_fields_twice (a ∷ b ∷ c ∷ d ∷ e ∷ f ∷ g ∷ h ∷ rest) v = refl
swap_fields_twice _ v = refl

abbrev pub toy_uuid : UuidCrate
toy_uuid = record {
  to_bytes_le = swap_fields;
  from_bytes_le = swap_fields;
  to_bytes_le_length = swap_fields_length;
  from-to = swap_fields_twice;
}

pub record Socket : Type 0 where
  pub sent : Bytes
  pub incoming : Bytes

abbrev pub read_exact : ℕ → Action Socket Bytes
read_exact n s =
    if leb n (length s.incoming)
    then (ok (take n s.incoming), record s { incoming = drop n s.incoming })
    else (err (io unexpected_eof), s)

abbrev pub write_all : Bytes → Action Socket (Unit {0})
write_all b s = (ok tt, record s { sent = s.sent ++ b })

abbrev pub qkd_key : Etsi014Key
qkd_key = record { id = replicate 16 5; key = replicate 32 7 }

abbrev pub toy_nonce : Key
toy_nonce = replicate 32 9

abbrev pub parts_with : {O : Type 0} → OskHandler O → Parts Socket (Unit {0}) ℕ O
parts_with handler = record {
  read_exact = read_exact;
  write_all = write_all;
  fetch_any_key = λ d. (ok qkd_key, d);
  fetch_specific_key = λ id d. (ok (record qkd_key { id = id }), d);
  random = λ now. (ok toy_nonce, now);
  sleep = λ seconds now. (ok tt, now + seconds);
  handler = handler;
  uuid = toy_uuid;
  shake256 = toy_shake;
}

abbrev pub params : DaisywayProtocolParameters
params = record {
  psk = replicate 32 0;
  local_peer_id = replicate 32 200;
  remote_peer_id = replicate 32 100;
}
