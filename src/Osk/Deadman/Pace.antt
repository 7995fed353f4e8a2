-- ===== src/Osk/Deadman/Pace.antt =====
-- When the worker of daisyway/src/internal/osk/deadman.rs writes.
use daisyway.Base.{
  ℕ, zero, suc, ◌+◌, ◌≡◌, refl, ap, ◌∙◌, resume, ◌>>=◌, Action, err, panic, [], Option, none, some,
  Result, ok, arith, inl, inr, leb, Bool-cases,
}
use daisyway.Osk.{SetOskReason, fresh, stale}
use daisyway.Osk.Deadman.{
  Runtime, DeadmanRequest, Progress, returned, running, erase, on_request, continue, next_request,
  rounds, event_loop,
}
use daisyway.Osk.Deadman.Writes.{
  Paced, newest, IsTimely, Settled, Due, Keeps, erase-Keeps, set_osk-Keeps, Due-Paced,
}

module _ {ℓ} {W : Type ℓ} (rt : Runtime W) where
  open rt use {now, latest, timeout_at, random, broker}

  module _ {delay : ℕ} (timely : IsTimely rt delay) (erase_after : ℕ) where
    open timely use {writes, waits, waits_writes}

    -- How a number of rounds ends.
    abbrev Ends : Result Progress × W → Type 0
    Ends (ok returned, w) = Settled rt timely erase_after stale w
    Ends (ok running, w) = (r : SetOskReason) × Settled rt timely erase_after r w
    Ends (err x, w) = Paced (erase_after + delay) (writes w)
    Ends (panic x, w) = Paced (erase_after + delay) (writes w)

    Keeps-Ends :
        (r : SetOskReason) (f : Unit {0} → Action W Progress) (p : Result (Unit {0}) × W)
        → Keeps rt timely erase_after r p
        → ((w : W) → Settled rt timely erase_after r w → Ends (f tt w))
        → Ends (resume f p)
    Keeps-Ends r f (ok a, w) h k = k w h
    Keeps-Ends r f (err x, w) h k = h
    Keeps-Ends r f (panic x, w) h k = h

    on_request-Ends :
        (req : Option (Option DeadmanRequest)) (w : W)
        → ((r : SetOskReason) → Due rt timely erase_after r w)
        → Ends (on_request rt erase_after req w)
    unfolding on_request
    on_request-Ends (some (some req)) w d =
        Keeps-Ends req.reason _ (broker.set_osk req.key req.reason w)
          (set_osk-Keeps rt timely erase_after req.key req.reason w (d req.reason))
          (λ v h. (req.reason, h))
    on_request-Ends (some none) w d =
        Keeps-Ends stale _ (erase rt erase_after w) (erase-Keeps rt timely erase_after w (d stale))
          (λ v h. h)
    on_request-Ends none w d =
        Keeps-Ends stale _ (erase rt erase_after w) (erase-Keeps rt timely erase_after w (d stale))
          (λ v h. (stale, h))

    -- A wait ends by the deadline.
    waited-Due :
        (q r : SetOskReason) (w : W)
        → Settled rt timely erase_after q w
        → Due rt timely erase_after r (timeout_at (now w + erase_after) w).1
    waited-Due q r w s =
        let d = now w + erase_after in
        let (from, by) = waits d w in
        inr (
          now w,
          q,
          ap newest (waits_writes d w) ∙ s.settled,
          from,
          omega arith,
          rw (waits_writes d w) s.paced,
        )

    -- So does waiting where the deadline can be represented; else no time passes.
    next-Due :
        (q r : SetOskReason) (w : W)
        → Settled rt timely erase_after q w
        → Due rt timely erase_after r (next_request rt erase_after w).1
    unfolding next_request
    next-Due q r w s = elim (Bool-cases (leb (now w + erase_after) latest)) [
      | inl fits ↦ rw fits (waited-Due q r w s)
      | inr over ↦ rw over (inr (now w, q, s.settled, omega arith, omega arith, s.paced))
    ]

    continue-Ends :
        (rest : Action W Progress) (p : Result Progress × W)
        → Ends p
        → ((v : W) (r : SetOskReason) → Settled rt timely erase_after r v → Ends (rest v))
        → Ends (resume (λ progress. continue rt erase_after progress rest) p)
    continue-Ends rest (ok returned, v) e ih = e
    continue-Ends rest (ok running, v) e ih = ih v e.0 e.1
    continue-Ends rest (err x, v) e ih = e
    continue-Ends rest (panic x, v) e ih = e

    round-Ends :
        (rest : Action W Progress) (p : Result (Option (Option DeadmanRequest)) × W)
        → ((r : SetOskReason) → Due rt timely erase_after r p.1)
        → ((v : W) (r : SetOskReason) → Settled rt timely erase_after r v → Ends (rest v))
        → Ends (
            resume
              (λ req.
                on_request rt erase_after req >>= λ progress. continue rt erase_after progress rest)
              p)
    round-Ends rest (ok req, v) d ih =
        continue-Ends rest (on_request rt erase_after req v) (on_request-Ends req v d) ih
    round-Ends rest (err x, v) d ih = Due-Paced rt timely erase_after fresh v (d fresh)
    round-Ends rest (panic x, v) d ih = Due-Paced rt timely erase_after fresh v (d fresh)

    rounds-Ends :
        (fuel : ℕ) (q : SetOskReason) (w : W)
        → Settled rt timely erase_after q w
        → Ends (rounds rt erase_after fuel w)
    unfolding rounds
    rounds-Ends zero q w s = (q, s)
    rounds-Ends (suc fuel) q w s =
        round-Ends (rounds rt erase_after fuel) (next_request rt erase_after w)
          (λ r. next-Due q r w s) (λ v r h. rounds-Ends fuel r v h)

    event_loop-Ends : (fuel : ℕ) (w : W) → writes w ≡ [] → Ends (event_loop rt erase_after fuel w)
    unfolding event_loop
    event_loop-Ends fuel w e =
        Keeps-Ends stale _ (erase rt erase_after w)
          (erase-Keeps rt timely erase_after w (inl (e, refl))) (rounds-Ends fuel stale)

    Ends-Paced : (p : Result Progress × W) → Ends p → Paced (erase_after + delay) (writes p.1)
    Ends-Paced (ok returned, w) h = h.paced
    Ends-Paced (ok running, w) h = h.1.paced
    Ends-Paced (err x, w) h = h
    Ends-Paced (panic x, w) h = h

    Ends-returned :
        (p : Result Progress × W)
        → Ends p
        → p.0 ≡ ok returned
        → newest (writes p.1) ≡ some (now p.1, stale)
    Ends-returned (ok returned, w) h e = h.settled
    Ends-returned (ok running, w) h e = ground arith
    Ends-returned (err x, w) h e = ground arith
    Ends-returned (panic x, w) h e = ground arith

    -- With a clock whose waits end by their deadlines, writes that take at most a delay, and no
    -- write before the start, the worker's first write is an erasure, and from one write to the
    -- next passes at most the interval and that delay, whatever requests arrive and whatever
    -- writes fail.
    pub event_loop-Paced :
        (fuel : ℕ) (w : W)
        → writes w ≡ []
        → Paced (erase_after + delay) (writes (event_loop rt erase_after fuel w).1)
    event_loop-Paced fuel w e =
        Ends-Paced (event_loop rt erase_after fuel w) (event_loop-Ends fuel w e)

    -- With a clock whose waits end by their deadlines, writes that take at most a delay, and no
    -- write before the start, when the worker returns, the last thing that it wrote is an erasure,
    -- which ended just then.
    pub event_loop_returned :
        (fuel : ℕ) (w : W)
        → writes w ≡ []
        → (event_loop rt erase_after fuel w).0 ≡ ok returned
        → let w' = (event_loop rt erase_after fuel w).1 in newest (writes w') ≡ some (now w', stale)
    event_loop_returned fuel w e =
        Ends-returned (event_loop rt erase_after fuel w) (event_loop-Ends fuel w e)
