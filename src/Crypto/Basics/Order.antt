-- ===== src/Crypto/Basics/Order.antt =====
-- The order of the peers in a connection id of daisyway/src/internal/daisyway/crypto/basics.rs.
use daisyway.Base.{◌≡◌, refl, ◌⊎◌, [], ◌∷◌, true, false, arith}
use daisyway.Crypto.Key.{Bytes, Key, IsKey}
use daisyway.Crypto.Basics.{is_before, new_connection_id}

is_before-asymm : (a b : Bytes) → is_before a b ≡ true → is_before b a ≡ false
unfolding is_before
is_before-asymm [] [] h = refl
is_before-asymm [] (y ∷ b) h = refl
is_before-asymm (x ∷ a) [] h = ground arith
is_before-asymm (x ∷ a) (y ∷ b) h = ground (arith, is_before-asymm a b)

is_before-total : (a b : Bytes) → is_before a b ≡ false → is_before b a ≡ false → a ≡ b
unfolding is_before
is_before-total [] [] h k = refl
is_before-total [] (y ∷ b) h k = ground arith
is_before-total (x ∷ a) [] h k = ground arith
is_before-total (x ∷ a) (y ∷ b) h k = ground (arith, is_before-total a b)

-- Both peers compute the same connection id, whichever of them is the local one, and its first
-- peer is never after the second.
pub connection_id_comm :
    (a b : Key)
    → let c = new_connection_id a b in
      (c ≡ new_connection_id b a) × (is_before c.second_peer c.first_peer ≡ false)
unfolding new_connection_id
connection_id_comm a b =
    (ground (arith, is_before-asymm a b, is_before-total a b), ground (arith, is_before-asymm b a))

-- Two pairs of peers with the same connection id are the same, up to the order.
pub connection_id-injective :
    (a b c d : Key)
    → new_connection_id a b ≡ new_connection_id c d
    → ((a ≡ c) × (b ≡ d)) ⊎ ((a ≡ d) × (b ≡ c))
unfolding new_connection_id
connection_id-injective a b c d e = ground arith

-- The id holds the two keys, so it has their lengths.
pub connection_id-IsKey :
    (a b : Key)
    → IsKey a
    → IsKey b
    → IsKey (new_connection_id a b).first_peer × IsKey (new_connection_id a b).second_peer
unfolding new_connection_id
connection_id-IsKey a b p q = ground arith
