-- ===== src/Osk/Deadman/Failing/Tests.antt =====
-- A worker of daisyway/src/internal/osk/deadman.rs that erases once and whose next write fails.
use daisyway.Base.{
  ◌≡◌, refl, List, [], ◌∷◌, Bool, true, false, some, Result, ok, err, foreign, is_ok, is_panic, ◌⊎◌,
  Action, replicate,
}
use daisyway.Crypto.Key.{Key}
use daisyway.Osk.{SetOskReason, fresh}
use daisyway.Osk.Deadman.{
  Runtime, DeadmanRequest, rounds, on_request, event_loop, erase, thread_run,
}
use daisyway.Osk.Deadman.Failing.{IsLogged, AllDone, IsLastFailed, thread_run-IsLastFailed}

-- Of an output that was written once, writing fails.
abbrev written : List Bool → Result (Unit {0})
written [] = ok tt
written (_ ∷ _) = err (foreign "no such device")

abbrev write : Key → SetOskReason → Action (List Bool) (Unit {0})
write key reason log = (written log, is_ok (written log) ∷ log)

abbrev request : DeadmanRequest
request = record { key = replicate 32 3; reason = fresh }

abbrev runtime : Runtime (List Bool)
runtime = record {
  now = λ log. 0;
  latest = 1000;
  timeout_at = λ d log. (ok (some (some request)), log);
  random = λ log. (ok (replicate 32 7), log);
  broker = record { set_osk = write };
}

logged : IsLogged runtime
logged = record {
  writes = λ log. log;
  sets = λ key reason log. refl;
  waits = λ d log. refl;
  draws = λ log. refl;
}

failed : thread_run runtime 150 5 [] ≡ ((thread_run runtime 150 5 []).0, false ∷ true ∷ [])
unfolding thread_run event_loop rounds on_request erase logged
failed = refl

thread_run-IsLastFailed_example :
    let (r, log) = thread_run runtime 150 5 [] in
    ((is_ok r ≡ true) × AllDone log) ⊎ ((is_panic r ≡ true) × IsLastFailed log)
unfolding thread_run event_loop rounds on_request erase logged
thread_run-IsLastFailed_example = thread_run-IsLastFailed runtime logged 150 5 [] refl
