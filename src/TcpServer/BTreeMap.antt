-- ===== src/TcpServer/BTreeMap.antt =====
-- The operations of `std::collections::BTreeMap` that `connection_manager.rs` uses, on association
-- lists in the order of their keys.
pub mod Order
pub mod Lookup
pub mod Values
use daisyway.Base.{ℕ, List, [], ◌∷◌, Option, none, some, ltb, ◌==◌, if◌then◌else◌}

abbrev pub BTreeMap {ℓ} : Type ℓ → Type ℓ
BTreeMap V = List (ℕ × V)

module _ {ℓ} {V : Type ℓ} where
  unfoldable pub get : ℕ → BTreeMap V → Option V
  get k [] = none
  get k ((j, v) ∷ m) = if k == j then some v else get k m

  -- The map after `insert`; the value that it returns is `get k` of the map before.
  unfoldable pub insert : ℕ → V → BTreeMap V → BTreeMap V
  insert k v [] = (k, v) ∷ []
  insert k v ((j, w) ∷ m) =
      if k == j then (k, v) ∷ m else if ltb k j then (k, v) ∷ (j, w) ∷ m else (j, w) ∷ insert k v m

  -- The map after `remove`; the value that it returns is `get k` of the map before.
  unfoldable pub erase : ℕ → BTreeMap V → BTreeMap V
  erase k [] = []
  erase k ((j, v) ∷ m) = if k == j then m else (j, v) ∷ erase k m

  unfoldable pub pop_first : BTreeMap V → Option ((ℕ × V) × BTreeMap V)
  pop_first [] = none
  pop_first (e ∷ m) = some (e, m)

  -- What `split_off k` leaves in the map, and what it returns.
  unfoldable pub keep_below : ℕ → BTreeMap V → BTreeMap V
  keep_below k [] = []
  keep_below k ((j, v) ∷ m) = let rest = keep_below k m in if ltb j k then (j, v) ∷ rest else rest

  unfoldable pub split_off : ℕ → BTreeMap V → BTreeMap V
  split_off k [] = []
  split_off k ((j, v) ∷ m) = let rest = split_off k m in if ltb j k then rest else (j, v) ∷ rest
