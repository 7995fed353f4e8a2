-- ===== src/TcpServer/BTreeMap/Lookup.antt =====
-- What a lookup finds after each operation on the maps of `connection_manager.rs`.
use daisyway.Base.{ℕ, suc, ◌≤◌, ◌<◌, ◌≡◌, ◌≢◌, refl, [], ◌∷◌, none, some, arith, ltb, if◌then◌else◌}
use daisyway.TcpServer.BTreeMap.{BTreeMap, get, insert, erase, split_off}
use daisyway.TcpServer.BTreeMap.Order.{Ascends}

module _ {ℓ} {V : Type ℓ} where
  pub get-insert_ne : (c k : ℕ) (v : V) (m : BTreeMap V) → c ≢ k → get c (insert k v m) ≡ get c m
  unfolding get insert
  get-insert_ne c k v [] h = ground arith
  get-insert_ne c k v ((j, w) ∷ m) h = ground (arith, get-insert_ne c k v m)

  pub get-erase_ne : (c k : ℕ) (m : BTreeMap V) → c ≢ k → get c (erase k m) ≡ get c m
  unfolding get erase
  get-erase_ne c k [] h = refl
  get-erase_ne c k ((j, w) ∷ m) h = ground (arith, get-erase_ne c k m)

  -- An erased or skipped entry is not found again.
  pub get-erase-none : (c k : ℕ) (m : BTreeMap V) → get c m ≡ none → get c (erase k m) ≡ none
  unfolding get erase
  get-erase-none c k [] h = refl
  get-erase-none c k ((j, w) ∷ m) h = ground (arith, get-erase-none c k m)

  pub get-split_off :
      (c k : ℕ) (m : BTreeMap V) → get c (split_off k m) ≡ (if ltb c k then none else get c m)
  unfolding get split_off
  get-split_off c k [] = ground arith
  get-split_off c k ((j, w) ∷ m) = ground (arith, get-split_off c k m)

  -- A key outside the bounds is not there.
  pub get-below : (c lo hi : ℕ) (m : BTreeMap V) → Ascends lo hi m → c < lo → get c m ≡ none
  unfolding get
  get-below c lo hi [] a h = refl
  get-below c lo hi ((j, w) ∷ m) a h = ground (arith, get-below c (suc j) hi m a.2)

  pub get-above : (c lo hi : ℕ) (m : BTreeMap V) → Ascends lo hi m → hi ≤ c → get c m ≡ none
  unfolding get
  get-above c lo hi [] a h = refl
  get-above c lo hi ((j, w) ∷ m) a h = ground (arith, get-above c (suc j) hi m a.2)

  pub get-bounds :
      (c lo hi : ℕ) (v : V) (m : BTreeMap V)
      → Ascends lo hi m
      → get c m ≡ some v
      → (lo ≤ c) × (c < hi)
  unfolding get
  get-bounds c lo hi v [] a h = ground arith
  get-bounds c lo hi v ((j, w) ∷ m) a h = ground (arith, get-bounds c (suc j) hi v m a.2)

  pub get-erase_self : (k lo hi : ℕ) (m : BTreeMap V) → Ascends lo hi m → get k (erase k m) ≡ none
  unfolding get erase
  get-erase_self k lo hi [] a = refl
  get-erase_self k lo hi ((j, w) ∷ m) a =
      ground (arith, get-below k (suc j) hi m a.2, get-erase_self k (suc j) hi m a.2)

  pub erase-absent : (k : ℕ) (m : BTreeMap V) → get k m ≡ none → erase k m ≡ m
  unfolding get erase
  erase-absent k [] h = refl
  erase-absent k ((j, w) ∷ m) h = ground (arith, erase-absent k m)
