-- ===== src/Setup/Renewals/Tests.antt =====
-- A server that renews its key twice, every 120 seconds, and the worker behind it; both of
-- daisyway/src/internal.
use daisyway.Base.{
  ℕ, zero, suc, ◌+◌, ◌≤◌, ◌≡◌, refl, List, [], ◌∷◌, Option, none, some, Result, ok, final, arith,
  length,
}
use daisyway.Crypto.Key.{Key, IsKey}
use daisyway.Crypto.Server.Sizes.{derive_daisyway_key-IsKey}
use daisyway.Crypto.Basics.{derive_daisyway_key}
use daisyway.Crypto.World.{World, Parts}
use daisyway.Crypto.Server
use daisyway.Crypto.Server.{negotiate_key}
use daisyway.Crypto.Server.Renewals.{Renews, renews, done, IsPrompt, event_loop-AreInTime}
use daisyway.Crypto.Toys.{Socket, parts_with, params, toy_uuid, toy_shake, toy_nonce, qkd_key}
use daisyway.Osk.{SetOskReason, fresh}
use daisyway.Osk.Recording.{logbook}
use daisyway.Osk.Deadman.{Runtime, DeadmanRequest, running, rounds}
use daisyway.Osk.Deadman.Renewals.{Requests, AreInTime, IsServed, renewed}
use daisyway.Setup.{outfile_handler, start_deadman}
use daisyway.Setup.Renewals.{keys_kept}

abbrev parts : Parts Socket (Unit {0}) ℕ (List Key)
parts = parts_with logbook

abbrev State : Type 0
State = World Socket (Unit {0}) ℕ (List Key)

abbrev now : State → ℕ
now w = w.runtime

negotiates_at_once : (w : State) → (negotiate_key parts params w).1.runtime ≡ w.runtime
unfolding negotiate_key
negotiates_at_once w = ground arith

prompt : IsPrompt parts params now 120 10 5 15
prompt = record {
  negotiates = λ key w v e. omega (arith, final (λ x. x.runtime) e, negotiates_at_once w);
  hands = λ key w v e. omega (arith, final (λ x. x.runtime) e);
  sleeps = λ w v e. omega (arith, final (λ x. x.runtime) e);
}

abbrev at_start : State
at_start = record {
  stream = record { sent = []; incoming = 1 ∷ 1 ∷ 1 ∷ [] };
  etsi = tt;
  runtime = 0;
  osk = [];
}

abbrev at_end : State
at_end = (Server.event_loop parts params 120 3 at_start).1

abbrev request : DeadmanRequest
request = record {
  key = derive_daisyway_key toy_uuid toy_shake params toy_nonce qkd_key;
  reason = fresh;
}

request-IsKey : IsKey request.key
request-IsKey = derive_daisyway_key-IsKey toy_uuid toy_shake params toy_nonce qkd_key

abbrev later_requests : Requests
later_requests = (120, request) ∷ (240, request) ∷ []

run : Renews parts params now 120 at_start ((0, request) ∷ later_requests) at_end
unfolding Server.event_loop negotiate_key
run =
    renews request.key refl refl refl
      (renews request.key refl refl refl (renews request.key refl refl refl done))

-- How many of the requests were received, and what was written.
abbrev Worker : Type 0
Worker = ℕ × List (Key × SetOskReason)

abbrev coming_at : ℕ → Requests
coming_at zero = later_requests
coming_at (suc zero) = (240, request) ∷ []
coming_at (suc (suc n)) = []

abbrev time_at : ℕ → ℕ
time_at zero = 0
time_at (suc zero) = 120
time_at (suc (suc n)) = 240

abbrev received_at : Requests → Option (Option DeadmanRequest)
received_at [] = some none
received_at ((t, req) ∷ reqs) = some (some req)

unfoldable runtime : Runtime Worker
runtime = record {
  now = λ w. time_at w.0;
  latest = 1000;
  timeout_at = λ d w. (ok (received_at (coming_at w.0)), (suc w.0, w.1));
  random = λ w. (ok toy_nonce, w);
  broker = record { set_osk = λ key reason w. (ok tt, (w.0, (key, reason) ∷ w.1)) };
}

fits_at : (n : ℕ) → time_at n + 150 ≤ 1000
fits_at zero = omega arith
fits_at (suc zero) = omega arith
fits_at (suc (suc n)) = omega arith

receives_at :
    (n t : ℕ) (req : DeadmanRequest) (reqs : Requests)
    → coming_at n ≡ (t, req) ∷ reqs
    → (◌≡◌ {A = Result (Option (Option DeadmanRequest))}
        (ok (received_at (coming_at n)))
        (ok (some (some req))))
      × (coming_at (suc n) ≡ reqs)
      × (t ≤ time_at (suc n))
receives_at zero t req reqs e = (ground arith, ground arith, ground arith)
receives_at (suc zero) t req reqs e = (ground arith, ground arith, ground arith)
receives_at (suc (suc n)) t req reqs e = absurd (ground arith)

sized_at :
    (n t : ℕ) (req : DeadmanRequest) (reqs : Requests)
    → coming_at n ≡ (t, req) ∷ reqs
    → IsKey req.key
sized_at zero t req reqs e = ground (arith, request-IsKey)
sized_at (suc zero) t req reqs e = ground (arith, request-IsKey)
sized_at (suc (suc n)) t req reqs e = absurd (ground arith)

unfoldable served : IsServed runtime 150
unfolding runtime
served = record {
  coming = λ w. coming_at w.0;
  written = λ w. w.1;
  fits = λ t req reqs w e. fits_at w.0;
  receives = λ d t req reqs w e le.
      let (got, left, by) = receives_at w.0 t req reqs e in (got, left, refl, by);
  sized = λ t req reqs w e. sized_at w.0 t req reqs e;
  sets = λ key reason w k. (refl, refl, refl, omega arith);
  draws = λ w. (toy_nonce, refl, refl, refl, refl, omega arith);
}

abbrev started : Worker
started = (0, (request.key, fresh) ∷ [])

keys_kept_example :
    let (r, v') = rounds runtime 150 2 started in
    (r ≡ ok running) × (coming_at v'.0 ≡ []) × (v'.1 ≡ renewed later_requests started.1)
unfolding served start_deadman
keys_kept_example =
    keys_kept {FilePath = ℕ} parts params now prompt (outfile_handler 1) runtime served 0 request
      later_requests at_start at_end started (omega arith) (omega arith) run refl
      (unfold runtime in omega arith)

event_loop-AreInTime_example :
    (reqs : Requests) × Renews parts params now 120 at_start reqs at_end
    × (length reqs ≡ 3)
    × AreInTime 150 0 reqs
event_loop-AreInTime_example =
    event_loop-AreInTime parts params now prompt 3 at_start at_end
      (unfold Server.event_loop in unfold negotiate_key in refl)
