-- ===== src/TcpServer/BTreeMap/Order.antt =====
-- The order and the bounds of the keys in the maps of `connection_manager.rs`.
use daisyway.Base.{
  ◌++◌, ◌≡◌, refl, ℕ, suc, ◌+◌, ◌≤◌, ◌<◌, [], ◌∷◌, arith, length, Bool-cases, ltb, inl, inr, ◌==◌,
}
use Prim.Native.Nat.{max}
use daisyway.TcpServer.BTreeMap.{BTreeMap, insert, erase, split_off}

module _ {ℓ} {V : Type ℓ} where
  -- The keys ascend, from `lo` on and below `hi`.
  abbrev pub Ascends : ℕ → ℕ → BTreeMap V → Type 0
  Ascends lo hi [] = Unit
  Ascends lo hi ((k, _) ∷ m) = (lo ≤ k) × (k < hi) × Ascends (suc k) hi m

  pub Ascends-widen :
      (lo lo' hi hi' : ℕ) (m : BTreeMap V)
      → lo' ≤ lo
      → hi ≤ hi'
      → Ascends lo hi m
      → Ascends lo' hi' m
  Ascends-widen lo lo' hi hi' [] p q a = tt
  Ascends-widen lo lo' hi hi' ((k, v) ∷ m) p q a =
      (omega arith, omega arith, Ascends-widen (suc k) (suc k) hi hi' m (omega arith) q a.2)

  pub insert-Ascends :
      (lo hi k : ℕ) (v : V) (m : BTreeMap V)
      → Ascends lo hi m
      → lo ≤ k
      → k < hi
      → Ascends lo hi (insert k v m)
  unfolding insert
  insert-Ascends lo hi k v [] a p q = (p, q, tt)
  insert-Ascends lo hi k v ((j, w) ∷ m) a p q =
      ground (arith, insert-Ascends (suc j) hi k v m a.2, Ascends-widen (suc j) (suc k) hi hi m)

  pub erase-Ascends : (lo hi k : ℕ) (m : BTreeMap V) → Ascends lo hi m → Ascends lo hi (erase k m)
  unfolding erase
  erase-Ascends lo hi k [] a = tt
  erase-Ascends lo hi k ((j, w) ∷ m) a =
      ground (arith, erase-Ascends (suc j) hi k m a.2, Ascends-widen (suc j) lo hi hi m)

  split_off-Ascends :
      (lo hi k : ℕ) (m : BTreeMap V) → Ascends lo hi m → Ascends (max lo k) hi (split_off k m)
  unfolding split_off
  split_off-Ascends lo hi k [] a = tt
  split_off-Ascends lo hi k ((j, w) ∷ m) a = elim (Bool-cases (ltb j k)) [
    | inl p ↦
        rw (p, split_off)
          (Ascends-widen (max (suc j) k) (max lo k) hi hi _ (ground arith) (omega arith)
            (split_off-Ascends (suc j) hi k m a.2))
    | inr p ↦
        rw (p, split_off)
          (
            ground arith,
            a.1,
            Ascends-widen (max (suc j) k) (suc j) hi hi _ (ground arith) (omega arith)
                (split_off-Ascends (suc j) hi k m a.2),
          )
  ]

  -- After `remove k` and `split_off k` only larger keys are left.
  pub split_off-erase-Ascends :
      (lo hi k : ℕ) (m : BTreeMap V)
      → Ascends lo hi m
      → Ascends (max lo (suc k)) hi (split_off k (erase k m))
  unfolding erase split_off
  split_off-erase-Ascends lo hi k [] a = tt
  split_off-erase-Ascends lo hi k ((j, w) ∷ m) a = elim (Bool-cases (k == j)) [
    | inl p ↦
        rw (p, split_off)
          (Ascends-widen (max (suc j) k) (max lo (suc k)) hi hi _ (ground arith) (omega arith)
            (split_off-Ascends (suc j) hi k m a.2))
    | inr p ↦ rw p (elim (Bool-cases (ltb j k)) [
      | inl q ↦
          rw (q, split_off)
            (Ascends-widen (max (suc j) (suc k)) (max lo (suc k)) hi hi _ (ground arith)
              (omega arith) (split_off-erase-Ascends (suc j) hi k m a.2))
      | inr q ↦
          rw (q, split_off)
            (
              ground arith,
              a.1,
              Ascends-widen (max (suc j) (suc k)) (suc j) hi hi _ (ground arith) (omega arith)
                  (split_off-erase-Ascends (suc j) hi k m a.2),
            )
    ])
  ]

  pub length-insert : (k : ℕ) (v : V) (m : BTreeMap V) → length (insert k v m) ≤ length m + 1
  unfolding insert
  length-insert k v [] = omega arith
  length-insert k v ((j, w) ∷ m) = ground (arith, length-insert k v m)

  pub length-erase : (k : ℕ) (m : BTreeMap V) → length (erase k m) ≤ length m
  unfolding erase
  length-erase k [] = omega arith
  length-erase k ((j, w) ∷ m) = ground (arith, length-erase k m)

  pub length-split_off : (k : ℕ) (m : BTreeMap V) → length (split_off k m) ≤ length m
  unfolding split_off
  length-split_off k [] = omega arith
  length-split_off k ((j, w) ∷ m) = ground (arith, length-split_off k m)

  -- A key above all others goes to the end.
  pub insert-append :
      (lo k : ℕ) (v : V) (m : BTreeMap V) → Ascends lo k m → insert k v m ≡ m ++ (k, v) ∷ []
  unfolding insert
  insert-append lo k v [] a = refl
  insert-append lo k v ((j, w) ∷ m) a = ground (arith, insert-append (suc j) k v m a.2)
