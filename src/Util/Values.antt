-- ===== src/Util/Values.antt =====
-- The helpers of daisyway/src/internal/util.rs that pass values on.
use daisyway.Base.{Option, some, Result, ok, Action}

-- `run` and `run_async`.
abbrev pub run {ℓ} : {R : Type ℓ} → (Unit {0} → R) → R
run f = f tt

abbrev pub run_async {ℓ κ} : {R : Type ℓ} {W : Type κ} → (Unit {0} → Action W R) → Action W R
run_async f = f tt

-- `OkExt::ok`, `SomeExt::some`, `CascadeExt::cas` and `DiscardResultExt::discard_result`.
abbrev pub into_ok {ℓ} : {A : Type ℓ} → A → Result A
into_ok value = ok value

abbrev pub into_some {ℓ} : {A : Type ℓ} → A → Option A
into_some value = some value

abbrev pub cas {ℓ} : {A : Type ℓ} → A → (A → A) → A
cas self f = f self

abbrev pub discard_result {ℓ} : {A : Type ℓ} → A → Unit {0}
discard_result value = tt
