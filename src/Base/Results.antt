-- ===== src/Base/Results.antt =====
-- `anyhow::Result`, with a panic as a third outcome.
use Prim.Native.String.{String}
use mathlib.Core.Path.{◌≡◌, refl}
use mathlib.Core.Logic.{◌⊎◌, inl, inr}
use mathlib.Core.Bool.{Bool, true, false}
use native.Mathlib.Omega.{arith}

-- `anyhow::Error`: an I/O error by its kind, a message, an error of a library, or a cause with
-- a line of context.
pub data IoErrorKind : Type 0 where
  interrupted unexpected_eof other_kind : IoErrorKind

pub data Error : Type 0 where
  io : IoErrorKind → Error
  message : String → Error
  foreign : String → Error
  with_context : String → Error → Error

pub data Result {ℓ} (A : Type ℓ) : Type ℓ where
  ok : A → Result A
  err : Error → Result A
  panic : String → Result A

-- `.context(…)` of anyhow.
abbrev pub context {ℓ} : {A : Type ℓ} → String → Result A → Result A
context s (ok a) = ok a
context s (err e) = err (with_context s e)
context s (panic p) = panic p

-- `ensure!(…)` of anyhow.
abbrev pub ensure : Bool → String → Result (Unit {0})
ensure true s = ok tt
ensure false s = err (message s)

-- `.unwrap()` and `.expect(…)`.
abbrev pub unwrap {ℓ} : {A : Type ℓ} → String → Result A → Result A
unwrap s (ok a) = ok a
unwrap s (err e) = panic s
unwrap s (panic p) = panic p

-- The `?` operator.
abbrev pub and_then {ℓ κ} : {A : Type ℓ} {B : Type κ} → Result A → (A → Result B) → Result B
and_then (ok a) f = f a
and_then (err e) f = err e
and_then (panic p) f = panic p

abbrev pub is_ok {ℓ} : {A : Type ℓ} → Result A → Bool
is_ok (ok a) = true
is_ok (err e) = false
is_ok (panic p) = false

pub Result-cases {ℓ} : {A : Type ℓ} (r : Result A) → ((a : A) × (r ≡ ok a)) ⊎ (is_ok r ≡ false)
Result-cases (ok a) = inl (a, refl)
Result-cases (err e) = inr refl
Result-cases (panic p) = inr refl

-- Inversion of a success.
pub and_then-eq-ok {ℓ κ} :
    {A : Type ℓ} {B : Type κ} (r : Result A) (f : A → Result B) {b : B}
    → and_then r f ≡ ok b
    → (a : A) × (r ≡ ok a) × (f a ≡ ok b)
and_then-eq-ok (ok a) f e = (a, refl, e)
and_then-eq-ok (err x) f e = ground arith
and_then-eq-ok (panic s) f e = ground arith

pub context-eq-ok {ℓ} :
    {A : Type ℓ} (s : String) (r : Result A) {a : A} → context s r ≡ ok a → r ≡ ok a
context-eq-ok s (ok a) e = e
context-eq-ok s (err x) e = ground arith
context-eq-ok s (panic p) e = ground arith

pub unwrap-eq-ok {ℓ} :
    {A : Type ℓ} (s : String) (r : Result A) {a : A} → unwrap s r ≡ ok a → r ≡ ok a
unwrap-eq-ok s (ok a) e = e
unwrap-eq-ok s (err x) e = ground arith
unwrap-eq-ok s (panic p) e = ground arith

abbrev pub is_panic {ℓ} : {A : Type ℓ} → Result A → Bool
is_panic (ok a) = false
is_panic (err e) = false
is_panic (panic p) = true

abbrev pub is_err {ℓ} : {A : Type ℓ} → Result A → Bool
is_err (ok a) = false
is_err (err e) = true
is_err (panic p) = false

-- No panic comes from these, if none comes from what they are applied to.
pub and_then-is_panic :
    {A B : Type 0} (r : Result A) (f : A → Result B)
    → is_panic r ≡ false
    → ((a : A) → is_panic (f a) ≡ false)
    → is_panic (and_then r f) ≡ false
and_then-is_panic (ok a) f e k = k a
and_then-is_panic (err x) f e k = refl
and_then-is_panic (panic s) f e k = e

pub context-is_panic :
    {A : Type 0} (s : String) (r : Result A) → is_panic r ≡ false → is_panic (context s r) ≡ false
context-is_panic s (ok a) e = refl
context-is_panic s (err x) e = refl
context-is_panic s (panic p) e = e
