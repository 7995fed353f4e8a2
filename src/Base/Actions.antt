-- ===== src/Base/Actions.antt =====
-- A method of a mutable object, or code with effects on a world: what it changed stays changed
-- when it fails.
use Prim.Native.String.{String}
use mathlib.Core.Bool.{false}
use mathlib.Core.Path.{◌≡◌, refl, ap, sym}
use native.Mathlib.Omega.{arith}
use daisyway.Base.Results.{Result, ok, err, panic, context, is_panic}

abbrev pub Action {ℓ κ} : Type ℓ → Type κ → Type (ℓ ⊔ κ)
Action W A = W → Result A × W

-- What follows a step that has ended: the rest, or nothing after a failure.
abbrev pub resume {ℓ κ μ} :
    {W : Type ℓ} {A : Type κ} {B : Type μ} → (A → Action W B) → Result A × W → Result B × W
resume f (ok a, w) = f a w
resume f (err e, w) = (err e, w)
resume f (panic p, w) = (panic p, w)

infixl 5 ◌>>=◌ ◌>>◌
abbrev pub ◌>>=◌ {ℓ κ μ} :
    {W : Type ℓ} {A : Type κ} {B : Type μ} → Action W A → (A → Action W B) → Action W B
◌>>=◌ m f w = resume f (m w)

abbrev pub ◌>>◌ {ℓ κ μ} :
    {W : Type ℓ} {A : Type κ} {B : Type μ} → Action W A → Action W B → Action W B
m >> k = m >>= λ _. k

abbrev pub pure {ℓ κ} : {W : Type ℓ} {A : Type κ} → A → Action W A
pure a w = (ok a, w)

-- A computed result: the step fails where it is an error.
abbrev pub lift {ℓ κ} : {W : Type ℓ} {A : Type κ} → Result A → Action W A
lift r w = (r, w)

-- `.context(…)` on the result of a step.
abbrev pub within {ℓ κ} : {W : Type ℓ} {A : Type κ} → String → Action W A → Action W A
within s m w = let (r, w') = m w in (context s r, w')

-- Inversion of a success.
pub resume-eq-ok {ℓ κ μ} :
    {W : Type ℓ} {A : Type κ} {B : Type μ} (f : A → Action W B) (p : Result A × W) {b : B} {v : W}
    → resume f p ≡ (ok b, v)
    → (a : A) × (u : W) × (p ≡ (ok a, u)) × (f a u ≡ (ok b, v))
resume-eq-ok f (ok a, u) h = (a, u, refl, h)
resume-eq-ok f (err e, u) h = ground arith
resume-eq-ok f (panic s, u) h = ground arith

-- What holds after the first step, and after the rest of each success, holds at the end.
pub resume_keeps {ℓ κ μ ν} :
    {W : Type ℓ} {A : Type κ} {B : Type μ} (P : W → Type ν) (f : A → Action W B) (p : Result A × W)
    → P p.1
    → ((a : A) → P p.1 → P (f a p.1).1)
    → P (resume f p).1
resume_keeps P f (ok a, w) h k = k a h
resume_keeps P f (err e, w) h k = h
resume_keeps P f (panic s, w) h k = h

-- The same, where the rest may use what the first step has returned.
pub resume_after {ℓ κ μ ν} :
    {W : Type ℓ} {A : Type κ} {B : Type μ} (P : W → Type ν) (f : A → Action W B) (p : Result A × W)
    → P p.1
    → ((a : A) → p ≡ (ok a, p.1) → P p.1 → P (f a p.1).1)
    → P (resume f p).1
resume_after P f (ok a, w) h k = k a refl h
resume_after P f (err e, w) h k = h
resume_after P f (panic s, w) h k = h

-- A part of the state after a step that has succeeded.
pub final :
    {W A X : Type 0} (part : W → X) {p : Result A × W} {a : A} {w : W}
    → p ≡ (ok a, w)
    → part w ≡ part p.1
final {W} {A} part e = ap (λ (p : Result A × W). part p.1) (sym e)

-- What follows does not panic where the step has succeeded.
pub resume-is_panic :
    {W A B : Type 0} (f : A → Action W B) (p : Result A × W)
    → is_panic p.0 ≡ false
    → ((a : A) (w : W) → p.0 ≡ ok a → is_panic (f a w).0 ≡ false)
    → is_panic (resume f p).0 ≡ false
resume-is_panic f (ok a, w) e k = k a w refl
resume-is_panic f (err x, w) e k = refl
resume-is_panic f (panic s, w) e k = e
