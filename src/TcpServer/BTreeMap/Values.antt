-- ===== src/TcpServer/BTreeMap/Values.antt =====
-- Where the values go that an operation takes out of the maps of `connection_manager.rs`.
use daisyway.Base.{
  ℕ, refl, ◌+◌, ◌≡◌, List, [], ◌∷◌, Option, none, some, arith, length, ◌==◌, if◌then◌else◌,
}
use daisyway.TcpServer.BTreeMap.{BTreeMap, get, insert, erase, split_off, keep_below}

-- The weight of a list.
abbrev pub weigh : (ℕ → ℕ) → List ℕ → ℕ
weigh f [] = 0
weigh f (x ∷ xs) = f x + weigh f xs

-- How often `t` stands in a list, and how long it is.
abbrev pub only : ℕ → ℕ → ℕ
only t x = if t == x then 1 else 0

abbrev pub each : ℕ → ℕ
each x = 1

abbrev pub count : ℕ → List ℕ → ℕ
count t = weigh (only t)

module _ {ℓ} {V : Type ℓ} (name : V → ℕ) where
  abbrev pub names : BTreeMap V → List ℕ
  names [] = []
  names ((_, v) ∷ m) = name v ∷ names m

  abbrev pub names? : Option V → List ℕ
  names? none = []
  names? (some v) = name v ∷ []

  pub each-names : (m : BTreeMap V) → weigh each (names m) ≡ length m
  each-names [] = refl
  each-names (e ∷ m) = omega (arith, each-names m)

  pub names-insert :
      (f : ℕ → ℕ) (k : ℕ) (v : V) (m : BTreeMap V)
      → get k m ≡ none
      → weigh f (names (insert k v m)) ≡ weigh f (name v ∷ names m)
  unfolding get insert
  names-insert f k v [] h = refl
  names-insert f k v ((j, w) ∷ m) h = ground (arith, names-insert f k v m)

  pub names-erase :
      (f : ℕ → ℕ) (k : ℕ) (m : BTreeMap V)
      → weigh f (names (erase k m)) + weigh f (names? (get k m)) ≡ weigh f (names m)
  unfolding get erase
  names-erase f k [] = omega arith
  names-erase f k ((j, w) ∷ m) = ground (arith, names-erase f k m)

  pub names-split_off :
      (f : ℕ → ℕ) (k : ℕ) (m : BTreeMap V)
      → weigh f (names (split_off k m)) + weigh f (names (keep_below k m)) ≡ weigh f (names m)
  unfolding split_off keep_below
  names-split_off f k [] = omega arith
  names-split_off f k ((j, w) ∷ m) = ground (arith, names-split_off f k m)
