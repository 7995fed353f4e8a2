-- ===== src/Osk/Tests.antt =====
-- A run of daisyway/src/internal/osk/deadman.rs, with a clock that moves by waits and by writes.
use daisyway.Base.{
  ℕ, ◌+◌, ◌≤◌, ◌≡◌, refl, List, [], ◌∷◌, Option, none, some, ok, Action, arith, leb, if◌then◌else◌,
  replicate,
}
use Prim.Native.Nat.{max}
use daisyway.Crypto.Key.{Key}
use daisyway.Osk.{SetOskReason, fresh, stale}
use daisyway.Osk.Deadman.{Runtime, DeadmanRequest, returned, event_loop}
use daisyway.Osk.Deadman.Writes.{IsTimely, Paced, newest}
use daisyway.Osk.Deadman.Pace.{event_loop-Paced, event_loop_returned}

-- The requests that are still to come, with their times.
record Clockwork : Type 0 where
  clock : ℕ
  log : List (ℕ × SetOskReason)
  pending : List (ℕ × DeadmanRequest)

abbrev wait : ℕ → Action Clockwork (Option (Option DeadmanRequest))
wait d w = elim w.pending [
  | [] ↦ (ok (some none), w)
  | (t, r) ∷ rest ↦
      if leb t d
      then (ok (some (some r)), record { clock = max t w.clock; log = w.log; pending = rest })
      else (ok none, record { clock = max d w.clock; log = w.log; pending = w.pending })
]

abbrev write : Key → SetOskReason → Action Clockwork (Unit {0})
write key reason w =
    let t = w.clock + 2 in
    (ok tt, record { clock = t; log = (t, reason) ∷ w.log; pending = w.pending })

abbrev runtime : Runtime Clockwork
runtime = record {
  now = λ w. w.clock;
  latest = 1000000;
  timeout_at = wait;
  random = λ w. (ok (replicate 32 7), w);
  broker = record { set_osk = write };
}

wait_clock :
    (d : ℕ) (w : Clockwork) → (w.clock ≤ (wait d w).1.clock) × ((wait d w).1.clock ≤ max d w.clock)
wait_clock d w = ground arith

timely : IsTimely runtime 2
timely = record {
  writes = λ w. w.log;
  waits = λ d w. wait_clock d w;
  waits_writes = λ d w. ground arith;
  draws = λ w. (refl, refl);
  sets = λ key reason w. (omega arith, omega arith);
  records = λ key reason w e. refl;
  fails = λ key reason w e. ground arith;
}

abbrev idle : Clockwork
idle = record {
  clock = 100;
  log = [];
  pending =
      (105, record { key = replicate 32 1; reason = fresh })
      ∷ (130, record { key = replicate 32 2; reason = fresh })
      ∷ [];
}

last_erased :
    newest (event_loop runtime 10 7 idle).1.log
    ≡ some ((event_loop runtime 10 7 idle).1.clock, stale)
unfolding event_loop timely daisyway.Osk.Deadman.rounds daisyway.Osk.Deadman.on_request
last_erased = event_loop_returned runtime timely 10 7 idle refl refl

event_loop-Paced_example : Paced 12 (event_loop runtime 10 7 idle).1.log
unfolding timely
event_loop-Paced_example = event_loop-Paced runtime timely 10 7 idle refl
