-- ===== src/Osk/Deadman/Latest.antt =====
-- Which key the worker of daisyway/src/internal/osk/deadman.rs has written last.
use daisyway.Base.{ℕ, suc, ◌≤◌, ◌≡◌, refl, sym, subst, ◌∙◌, List, [], ◌∷◌, ◌++◌, ok, length, arith}
use mathlib.Core.List.{append_cancel_right, head-eq_of_cons-eq, nil≢cons}
use daisyway.Crypto.Key.{Key}
use daisyway.Osk.{SetOskReason}
use daisyway.Osk.Deadman.{Runtime, DeadmanRequest, rounds}
use daisyway.Osk.Deadman.Renewals.{Requests, AreInTime, IsServed, round}

-- The keys of the requests, newest first, in front of those before.
abbrev pub handed : Requests → List Key → List Key
handed [] log = log
handed ((t, req) ∷ reqs) log = handed reqs (req.key ∷ log)

pub handed-append : (reqs : Requests) (a b : List Key) → handed reqs (a ++ b) ≡ handed reqs a ++ b
handed-append [] a b = refl
handed-append ((t, req) ∷ reqs) a b = handed-append reqs (req.key ∷ a) b

-- The key of the last request, if there is one.
abbrev pub latest_key : Key → Requests → Key
latest_key key [] = key
latest_key key ((t, req) ∷ reqs) = latest_key req.key reqs

pub latest_key-handed :
    (reqs : Requests) (key : Key) (log : List Key)
    → (older : List Key) × (handed reqs (key ∷ log) ≡ latest_key key reqs ∷ older)
latest_key-handed [] key log = (log, refl)
latest_key-handed ((t, req) ∷ reqs) key log = latest_key-handed reqs req.key (key ∷ log)

-- Where the keys that were handed over are those of the requests, and there are any, there is a last
-- request, with the newest key.
pub handed-newest :
    (reqs : Requests) (key : Key) (older log : List Key)
    → (key ∷ older) ++ log ≡ handed reqs log
    → (t : ℕ) × (req : DeadmanRequest) × (later : Requests) × (reqs ≡ (t, req) ∷ later)
      × (latest_key req.key later ≡ key)
handed-newest [] key older log e =
    absurd (nil≢cons (sym (append_cancel_right (key ∷ older) [] log e)))
handed-newest ((t, req) ∷ later) key older log e =
    let (before, newest) = latest_key-handed later req.key [] in
    let all : key ∷ older ≡ handed later (req.key ∷ []) =
      append_cancel_right (key ∷ older) _ log (e ∙ handed-append later (req.key ∷ []) log) in
    (t, req, later, refl, head-eq_of_cons-eq (sym newest ∙ sym all))

module _ {W : Type 0} (rt : Runtime W) (erase_after : ℕ) (served : IsServed rt erase_after)
    (Holds : Key → W → Type 0)
    (sets : (key : Key) (reason : SetOskReason) (v : W)
      → (rt.broker.set_osk key reason v).0 ≡ ok tt
      → Holds key (rt.broker.set_osk key reason v).1) where
  -- What a write leaves is there of the last request's key, after all requests have been received.
  pub latest-Holds :
      (t : ℕ) (req : DeadmanRequest) (reqs : Requests) (from : ℕ) (w : W)
      → served.coming w ≡ (t, req) ∷ reqs
      → from ≤ rt.now w
      → AreInTime erase_after from ((t, req) ∷ reqs)
      → Holds (latest_key req.key reqs) (rounds rt erase_after (suc (length reqs)) w).1
  unfolding rounds
  latest-Holds t req [] from w e le (first, later) =
      let (v, set, (step, left, log, after)) =
        round rt erase_after served t req [] 0 w e (omega arith) in
      subst (λ p. Holds req.key p.1) (sym step) (sets req.key req.reason v set)
  latest-Holds t req ((t', req') ∷ reqs) from w e le (first, later) =
      let (v, set, (step, left, log, after)) =
        round rt erase_after served t req ((t', req') ∷ reqs) (suc (length reqs)) w e
          (omega arith) in
      subst (λ p. Holds (latest_key req'.key reqs) p.1) (sym step)
        (latest-Holds t' req' reqs t (rt.broker.set_osk req.key req.reason v).1 left after later)
