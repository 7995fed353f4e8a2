-- ===== src/Osk/Deadman/Failing.antt =====
-- What the worker of daisyway/src/internal/osk/deadman.rs does after a write that failed.
mod Tests
use daisyway.Base.{
  ℕ, zero, suc, ◌≡◌, refl, sym, ap, ◌∙◌, List, [], ◌∷◌, Bool, true, false, Option, none, some,
  Result, ok, err, panic, is_ok, Action, resume, pure, ◌>>=◌, ◌⊎◌, inl, inr, leb, Bool-cases,
  is_panic, ◌+◌, arith,
}
use daisyway.Crypto.Key.{Key}
use daisyway.Osk.{SetOskReason, stale}
use daisyway.Osk.Deadman.{
  Runtime, DeadmanRequest, Progress, returned, running, erase, on_request, continue, next_request,
  rounds, event_loop, thread_run, or_panic,
}

-- Of writes, newest first, whether they succeeded.
abbrev pub AllDone : List Bool → Type 0
AllDone [] = Unit
AllDone (done ∷ log) = (done ≡ true) × AllDone log

-- None failed, or only the last one.
abbrev pub IsLastFailed : List Bool → Type 0
IsLastFailed [] = Unit
IsLastFailed (done ∷ log) = AllDone log

AllDone-IsLastFailed : (log : List Bool) → AllDone log → IsLastFailed log
AllDone-IsLastFailed [] h = tt
AllDone-IsLastFailed (done ∷ log) h = h.1

module _ {W : Type 0} (rt : Runtime W) where
  open rt use {now, latest, timeout_at, random, broker}

  -- A log of the writes; waiting and drawing a key are none.
  pub record IsLogged : Type 0 where
    pub writes : W → List Bool
    pub sets :
        (key : Key) (reason : SetOskReason) (w : W)
        → let (r, v) = broker.set_osk key reason w in writes v ≡ is_ok r ∷ writes w
    pub waits : (d : ℕ) (w : W) → writes (timeout_at d w).1 ≡ writes w
    pub draws : (w : W) → writes (random w).1 ≡ writes w

  module _ (logged : IsLogged) (erase_after : ℕ) where
    open logged use {writes, sets, waits, draws}

    -- After a success all writes were done.
    abbrev pub Ends : {A : Type 0} → Result A × W → Type 0
    Ends (ok a, w) = AllDone (writes w)
    Ends (err e, w) = IsLastFailed (writes w)
    Ends (panic p, w) = IsLastFailed (writes w)

    Ends-quiet :
        {A : Type 0} (p : Result A × W) (w : W)
        → writes p.1 ≡ writes w
        → AllDone (writes w)
        → Ends p
    Ends-quiet (ok a, v) w e h = rw e h
    Ends-quiet (err x, v) w e h = rw e (AllDone-IsLastFailed (writes w) h)
    Ends-quiet (panic x, v) w e h = rw e (AllDone-IsLastFailed (writes w) h)

    Ends-write :
        {A : Type 0} (p : Result A × W) (w : W)
        → writes p.1 ≡ is_ok p.0 ∷ writes w
        → AllDone (writes w)
        → Ends p
    Ends-write (ok a, v) w e h = rw e (refl, h)
    Ends-write (err x, v) w e h = rw e h
    Ends-write (panic x, v) w e h = rw e h

    -- One step after another.
    Ends-resume :
        {A B : Type 0} (f : A → Action W B) (p : Result A × W)
        → Ends p
        → ((a : A) (w : W) → AllDone (writes w) → Ends (f a w))
        → Ends (resume f p)
    Ends-resume f (ok a, w) h k = k a w h
    Ends-resume f (err x, w) h k = h
    Ends-resume f (panic x, w) h k = h

    set_osk-Ends :
        (key : Key) (reason : SetOskReason) (w : W)
        → AllDone (writes w)
        → Ends (broker.set_osk key reason w)
    set_osk-Ends key reason w h = Ends-write (broker.set_osk key reason w) w (sets key reason w) h

    erase-Ends : (w : W) → AllDone (writes w) → Ends (erase rt erase_after w)
    unfolding erase
    erase-Ends w h =
        Ends-resume _ (random w) (Ends-quiet (random w) w (draws w) h)
          (λ key v k. set_osk-Ends key stale v k)

    next_request-Ends : (w : W) → AllDone (writes w) → Ends (next_request rt erase_after w)
    unfolding next_request
    next_request-Ends w h =
        let d = now w + erase_after in
        Ends-quiet (next_request rt erase_after w) w
          (elim (Bool-cases (leb d latest)) [ inl e ↦ rw e (waits d w) | inr e ↦ rw e refl ]) h

    on_request-Ends :
        (req : Option (Option DeadmanRequest)) (w : W)
        → AllDone (writes w)
        → Ends (on_request rt erase_after req w)
    unfolding on_request
    on_request-Ends (some (some req)) w h =
        Ends-resume _ (broker.set_osk req.key req.reason w) (set_osk-Ends req.key req.reason w h)
          (λ a v k. k)
    on_request-Ends (some none) w h =
        Ends-resume _ (erase rt erase_after w) (erase-Ends w h) (λ a v k. k)
    on_request-Ends none w h = Ends-resume _ (erase rt erase_after w) (erase-Ends w h) (λ a v k. k)

    continue-Ends :
        (rest : Action W Progress) (progress : Progress) (w : W)
        → AllDone (writes w)
        → ((v : W) → AllDone (writes v) → Ends (rest v))
        → Ends (continue rt erase_after progress rest w)
    continue-Ends rest returned w h k = h
    continue-Ends rest running w h k = k w h

    rounds-Ends : (fuel : ℕ) (w : W) → AllDone (writes w) → Ends (rounds rt erase_after fuel w)
    unfolding rounds
    rounds-Ends zero w h = h
    rounds-Ends (suc fuel) w h =
        Ends-resume _ (next_request rt erase_after w) (next_request-Ends w h) (λ req v k.
          Ends-resume _ (on_request rt erase_after req v) (on_request-Ends req v k) (λ progress u l.
            continue-Ends (rounds rt erase_after fuel) progress u l (rounds-Ends fuel)))

    -- How the thread ends, from how its loop does.
    thread-Ends :
        (p : Result Progress × W)
        → Ends p
        → ((is_ok (or_panic rt erase_after p.0) ≡ true) × AllDone (writes p.1))
          ⊎ ((is_panic (or_panic rt erase_after p.0) ≡ true) × IsLastFailed (writes p.1))
    thread-Ends (ok a, w) h = inl (refl, h)
    thread-Ends (err e, w) h = inr (refl, h)
    thread-Ends (panic e, w) h = inr (refl, h)

    -- The worker's thread, started before any write, either goes on or has returned, and all of
    -- its writes succeeded, or it has ended in a panic, and of its writes at most the last one
    -- failed: after a write that failed it writes nothing more, not even to erase the key.
    pub thread_run-IsLastFailed :
        (fuel : ℕ) (w : W)
        → writes w ≡ []
        → let (r, w') = thread_run rt erase_after fuel w in
          ((is_ok r ≡ true) × AllDone (writes w'))
          ⊎ ((is_panic r ≡ true) × IsLastFailed (writes w'))
    unfolding thread_run event_loop
    thread_run-IsLastFailed fuel w none_yet = thread-Ends (event_loop rt erase_after fuel w) (
        Ends-resume _ (erase rt erase_after w) (erase-Ends w (rw none_yet tt))
          (λ a v k. rounds-Ends fuel v k))
