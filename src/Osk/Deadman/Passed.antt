-- ===== src/Osk/Deadman/Passed.antt =====
-- Which keys the worker of daisyway/src/internal/osk/deadman.rs writes.
use daisyway.Base.{
  arith, Bool-cases, leb, ℕ, zero, suc, ◌+◌, ◌≡◌, ◌⊎◌, inl, inr, sym, subst, ap, [], Option, none,
  some, Result, ok, Action, resume_after, resume_keeps,
}
use daisyway.Crypto.Key.{Key}
use daisyway.Osk.{stale}
use daisyway.Osk.Recording.{AllHave, IsRecording, set_osk-AllHave}
use daisyway.Osk.Deadman.{
  Runtime, DeadmanRequest, Progress, returned, running, erase, on_request, continue, next_request,
  rounds, event_loop,
}

module _ {W : Type 0} (rt : Runtime W) (recording : IsRecording rt.broker) where
  open rt use {now, latest, timeout_at, random, broker}
  open recording use {log}

  -- Waiting and drawing a random key write nothing.
  pub record IsQuiet : Type 0 where
    pub waits : (d : ℕ) (w : W) → log (timeout_at d w).1 ≡ log w
    pub draws : (w : W) → log (random w).1 ≡ log w

  -- The key was drawn by the worker, or has the property.
  abbrev pub IsPassed : (Key → Type 0) → Key → Type 0
  IsPassed P k = P k ⊎ ((w : W) × ((random w).0 ≡ ok k))

  module _ (quiet : IsQuiet) (P : Key → Type 0)
      (received : (d : ℕ) (w : W) (req : DeadmanRequest)
        → (timeout_at d w).0 ≡ ok (some (some req))
        → P req.key)
      (erase_after : ℕ) where
    abbrev Passed : W → Type 0
    Passed w = AllHave (IsPassed P) (log w)

    erase-Passed : (w : W) → Passed w → Passed (erase rt erase_after w).1
    unfolding erase
    erase-Passed w h =
        resume_after Passed _ (random w) (subst (AllHave (IsPassed P)) (sym (quiet.draws w)) h)
          λ key e h'.
            set_osk-AllHave broker recording (IsPassed P) key stale (random w).1
              (inr (w, ap (λ (p : Result Key × W). p.0) e)) h'

    abbrev Received : Option (Option DeadmanRequest) → Type 0
    Received none = Unit
    Received (some none) = Unit
    Received (some (some req)) = P req.key

    on_request-Passed :
        (req : Option (Option DeadmanRequest)) (w : W)
        → Received req
        → Passed w
        → Passed (on_request rt erase_after req w).1
    unfolding on_request
    on_request-Passed (some (some req)) w p h =
        resume_keeps Passed _ (broker.set_osk req.key req.reason w)
          (set_osk-AllHave broker recording (IsPassed P) req.key req.reason w (inl p) h) (λ _ x. x)
    on_request-Passed (some none) w p h =
        resume_keeps Passed _ (erase rt erase_after w) (erase-Passed w h) (λ _ x. x)
    on_request-Passed none w p h =
        resume_keeps Passed _ (erase rt erase_after w) (erase-Passed w h) (λ _ x. x)

    continue-Passed :
        (progress : Progress) (rest : Action W Progress) (w : W)
        → Passed w
        → ((v : W) → Passed v → Passed (rest v).1)
        → Passed (continue rt erase_after progress rest w).1
    continue-Passed returned rest w h later = h
    continue-Passed running rest w h later = later w h

    waited-Received :
        (d : ℕ) (w : W) (req : Option (Option DeadmanRequest))
        → (timeout_at d w).0 ≡ ok req
        → Received req
    waited-Received d w none e = tt
    waited-Received d w (some none) e = tt
    waited-Received d w (some (some req)) e = received d w req e

    next-Received :
        (w : W) (req : Option (Option DeadmanRequest))
        → (next_request rt erase_after w).0 ≡ ok req
        → Received req
    unfolding next_request
    next-Received w req e = elim (Bool-cases (leb (now w + erase_after) latest)) [
      | inl fits ↦ waited-Received (now w + erase_after) w req (ground arith)
      | inr over ↦ absurd (ground arith)
    ]

    next-Passed : (w : W) → Passed w → Passed (next_request rt erase_after w).1
    unfolding next_request
    next-Passed w h = elim (Bool-cases (leb (now w + erase_after) latest)) [
      | inl fits ↦
          rw fits (subst (AllHave (IsPassed P)) (sym (quiet.waits (now w + erase_after) w)) h)
      | inr over ↦ rw over h
    ]

    rounds-Passed : (fuel : ℕ) (w : W) → Passed w → Passed (rounds rt erase_after fuel w).1
    unfolding rounds
    rounds-Passed zero w h = h
    rounds-Passed (suc fuel) w h =
        resume_after Passed _ (next_request rt erase_after w) (next-Passed w h) λ req e h'.
          let v = (next_request rt erase_after w).1 in
          resume_keeps Passed _ (on_request rt erase_after req v)
            (on_request-Passed req v
              (next-Received w req
                (ap (λ (p : Result (Option (Option DeadmanRequest)) × W). p.0) e))
              h')
            λ progress x.
              continue-Passed progress (rounds rt erase_after fuel) _ x
                (λ u y. rounds-Passed fuel u y)

    -- Every key that the worker writes was received or drawn.
    pub event_loop-Passed :
        (fuel : ℕ) (w : W) → log w ≡ [] → Passed (event_loop rt erase_after fuel w).1
    unfolding event_loop
    event_loop-Passed fuel w e =
        resume_keeps Passed _ (erase rt erase_after w) (erase-Passed w (rw e tt))
          (λ _ x. rounds-Passed fuel _ x)
