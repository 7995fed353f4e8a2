-- ===== src/Osk/Recording.antt =====
-- Key handlers of daisyway/src/internal/osk/mod.rs whose keys can be told.
use daisyway.Base.{◌≡◌, ◌⊎◌, inl, inr, refl, List, [], ◌∷◌, ok}
use daisyway.Crypto.Key.{Key}
use daisyway.Osk.{SetOskReason, OskHandler}

abbrev pub AllHave : (Key → Type 0) → List Key → Type 0
AllHave P [] = Unit
AllHave P (k ∷ ks) = P k × AllHave P ks

-- A key handler that keeps a log of its keys, newest first; a write that failed may be missing.
pub record IsRecording {O : Type 0} (handler : OskHandler O) : Type 0 where
  pub log : O → List Key
  pub logs :
      (k : Key) (r : SetOskReason) (o : O)
      → (log (handler.set_osk k r o).1 ≡ log o) ⊎ (log (handler.set_osk k r o).1 ≡ k ∷ log o)

pub set_osk-AllHave :
    {O : Type 0} (handler : OskHandler O) (recording : IsRecording handler) (P : Key → Type 0)
    (k : Key) (r : SetOskReason) (o : O)
    → P k
    → AllHave P (recording.log o)
    → AllHave P (recording.log (handler.set_osk k r o).1)
set_osk-AllHave handler recording P k r o p h = elim (recording.logs k r o) [
  | inl e ↦ rw e h
  | inr e ↦ rw e (p, h)
]

-- The log itself as a handler.
abbrev pub logbook : OskHandler (List Key)
logbook = record { set_osk = λ key reason keys. (ok tt, key ∷ keys) }

unfoldable pub logbook-IsRecording : IsRecording logbook
logbook-IsRecording = record { log = λ keys. keys; logs = λ k r keys. inr refl }
