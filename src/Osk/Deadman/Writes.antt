-- ===== src/Osk/Deadman/Writes.antt =====
-- What a write of daisyway/src/internal/osk/deadman.rs leaves, and when it may come.
use daisyway.Base.{
  ℕ, ◌+◌, ◌≤◌, ◌≡◌, refl, sym, ap, ◌∙◌, resume, ◌⊎◌, err, panic, List, [], ◌∷◌, Option, none, some,
  Result, ok, is_ok, false, arith, Result-cases, inl, inr,
}
use Prim.Native.Nat.{max}
use daisyway.Crypto.Key.{Key}
use daisyway.Osk.{SetOskReason, stale}
use daisyway.Osk.Deadman.{Runtime, erase}

-- The writes, newest first, with the times at which they ended: the first write is an erasure, and
-- from then on at most `gap` passes from one write to the next.
abbrev pub Paced : ℕ → List (ℕ × SetOskReason) → Type 0
Paced gap [] = Unit
Paced gap ((t, r) ∷ []) = r ≡ stale
Paced gap ((t, r) ∷ (s, q) ∷ log) = (s ≤ t) × (t ≤ s + gap) × Paced gap ((s, q) ∷ log)

-- The last write.
abbrev pub newest : List (ℕ × SetOskReason) → Option (ℕ × SetOskReason)
newest [] = none
newest (x ∷ log) = some x

Paced-cons :
    (gap s t : ℕ) (q r : SetOskReason) (log : List (ℕ × SetOskReason))
    → Paced gap log
    → newest log ≡ some (s, q)
    → s ≤ t
    → t ≤ s + gap
    → Paced gap ((t, r) ∷ log)
Paced-cons gap s t q r [] p e a b = ground arith
Paced-cons gap s t q r ((s', q') ∷ log) p e a b = (ground arith, ground arith, p)

module _ {ℓ} {W : Type ℓ} (rt : Runtime W) where
  open rt use {now, timeout_at, random, broker}

  -- What the worker relies on. A wait ends by its deadline; a write takes at most `delay`; `writes` is
  -- the record of the writes that succeeded.
  pub record IsTimely (delay : ℕ) : Type ℓ where
    pub writes : W → List (ℕ × SetOskReason)
    pub waits :
        (d : ℕ) (w : W)
        → (now w ≤ now (timeout_at d w).1) × (now (timeout_at d w).1 ≤ max d (now w))
    pub waits_writes : (d : ℕ) (w : W) → writes (timeout_at d w).1 ≡ writes w
    pub draws : (w : W) → (now (random w).1 ≡ now w) × (writes (random w).1 ≡ writes w)
    pub sets :
        (key : Key) (reason : SetOskReason) (w : W)
        → (now w ≤ now (broker.set_osk key reason w).1)
          × (now (broker.set_osk key reason w).1 ≤ now w + delay)
    pub records :
        (key : Key) (reason : SetOskReason) (w : W)
        → (broker.set_osk key reason w).0 ≡ ok tt
        → writes (broker.set_osk key reason w).1
          ≡ (now (broker.set_osk key reason w).1, reason) ∷ writes w
    pub fails :
        (key : Key) (reason : SetOskReason) (w : W)
        → is_ok (broker.set_osk key reason w).0 ≡ false
        → writes (broker.set_osk key reason w).1 ≡ writes w

  module _ {delay : ℕ} (timely : IsTimely delay) (erase_after : ℕ) where
    open timely use {writes, waits, waits_writes, draws, sets, records, fails}

    abbrev pub gap : ℕ
    gap = erase_after + delay

    -- The log is paced, and its last write ended just now, for the reason `r`.
    pub record Settled (r : SetOskReason) (w : W) : Type 0 where
      pub paced : Paced gap (writes w)
      pub settled : newest (writes w) ≡ some (now w, r)

    -- A write may come next: it is the first one and erases, or it is in time.
    abbrev pub Due : SetOskReason → W → Type 0
    Due r w =
        ((writes w ≡ []) × (r ≡ stale))
        ⊎ ((s : ℕ) × (q : SetOskReason) × (newest (writes w) ≡ some (s, q))
            × (s ≤ now w)
            × (now w ≤ s + erase_after)
            × Paced gap (writes w))

    -- What a step leaves: a paced log, and a settled one after a success.
    abbrev pub Keeps {κ} : {A : Type κ} → SetOskReason → Result A × W → Type 0
    Keeps r (ok a, w) = Settled r w
    Keeps r (err e, w) = Paced gap (writes w)
    Keeps r (panic p, w) = Paced gap (writes w)

    pub Due-Paced : (r : SetOskReason) (w : W) → Due r w → Paced gap (writes w)
    Due-Paced r w (inl (e, _)) = rw e tt
    Due-Paced r w (inr d) = d.5

    Paced-write :
        (r : SetOskReason) (t : ℕ) (w : W)
        → Due r w
        → now w ≤ t
        → t ≤ now w + delay
        → Paced gap ((t, r) ∷ writes w)
    Paced-write r t w (inl (e, h)) p q = rw e h
    Paced-write r t w (inr (s, x, e, b, c, h)) p q =
        Paced-cons gap s t x r (writes w) h e (omega arith) (omega arith)

    -- Nothing is written in between, and no time passes.
    Due-later :
        (r : SetOskReason) (w v : W) → now v ≡ now w → writes v ≡ writes w → Due r w → Due r v
    Due-later r w v t e (inl (h, k)) = inl (e ∙ h, k)
    Due-later r w v t e (inr (s, q, h, a, b, p)) =
        inr (s, q, ap newest e ∙ h, rw t a, rw t b, rw e p)

    Keeps-ok :
        (r : SetOskReason) (p : Result (Unit {0}) × W) → p.0 ≡ ok tt → Settled r p.1 → Keeps r p
    Keeps-ok r (ok a, w) e h = h
    Keeps-ok r (err x, w) e h = h.paced
    Keeps-ok r (panic x, w) e h = h.paced

    Keeps-failed :
        (r : SetOskReason) (p : Result (Unit {0}) × W)
        → is_ok p.0 ≡ false
        → Paced gap (writes p.1)
        → Keeps r p
    Keeps-failed r (ok a, w) e h = cc
    Keeps-failed r (err x, w) e h = h
    Keeps-failed r (panic x, w) e h = h

    pub set_osk-Keeps :
        (key : Key) (r : SetOskReason) (w : W) → Due r w → Keeps r (broker.set_osk key r w)
    set_osk-Keeps key r w d =
        let w' = (broker.set_osk key r w).1 in
        elim (Result-cases (broker.set_osk key r w).0) [
          | inl (_, e) ↦
              let log : writes w' ≡ (now w', r) ∷ writes w = records key r w e in
              Keeps-ok r (broker.set_osk key r w) e (record {
                paced = rw log (Paced-write r (now w') w d (sets key r w).0 (sets key r w).1);
                settled = rw log;
              })
          | inr e ↦
              Keeps-failed r (broker.set_osk key r w) e (rw (fails key r w e) (Due-Paced r w d))
        ]

    -- A random key is drawn first, which takes no time.
    pub erase-Keeps : (w : W) → Due stale w → Keeps stale (erase rt erase_after w)
    unfolding erase
    erase-Keeps w d = drawn (random w) refl
      where
        now-eq : {r : Result Key} {v : W} → random w ≡ (r, v) → now v ≡ now w
        now-eq e = ap (λ (p : Result Key × W). now p.1) (sym e) ∙ (draws w).0

        writes-eq : {r : Result Key} {v : W} → random w ≡ (r, v) → writes v ≡ writes w
        writes-eq e = ap (λ (p : Result Key × W). writes p.1) (sym e) ∙ (draws w).1

        drawn :
            (p : Result Key × W)
            → random w ≡ p
            → Keeps stale (resume (λ key. broker.set_osk key stale) p)
        drawn (ok key, v) e =
            set_osk-Keeps key stale v (Due-later stale w v (now-eq e) (writes-eq e) d)
        drawn (err x, v) e = rw (writes-eq e) (Due-Paced stale w d)
        drawn (panic x, v) e = rw (writes-eq e) (Due-Paced stale w d)
