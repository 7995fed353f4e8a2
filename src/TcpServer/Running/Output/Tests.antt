-- ===== src/TcpServer/Running/Output/Tests.antt =====
-- A server of daisyway/src/internal/daisyway/net/tcp_server with one connection, and the worker that writes
-- the key of it.
use daisyway.Base.{
  ℕ, zero, suc, ◌≡◌, refl, inl, inr, List, [], ◌∷◌, Option, some, none, Result, ok, arith,
}
use daisyway.Crypto.Key.{Key}
use daisyway.Crypto.Server.{negotiate_key}
use daisyway.Crypto.Toys.{toy_nonce, params}
use daisyway.Osk.{OskHandler, fresh}
use daisyway.Osk.Recording.{AllHave, IsRecording}
use daisyway.Osk.Deadman
use daisyway.Osk.Deadman.{Runtime, DeadmanRequest, client, rounds, on_request}
use daisyway.Osk.Deadman.Passed.{IsQuiet, IsPassed}
use daisyway.TcpServer.BTreeMap.{get, insert}
use daisyway.TcpServer.Events.{from}
use daisyway.TcpServer.Tasks.{drop_option}
use daisyway.TcpServer.Manager.{make_space, new, on_accept, on_event, on_osk, promote, event_loop}
use daisyway.TcpServer.Fanout.{init_task}
use daisyway.TcpServer.Fanout.Exchanged.{IsExchanged}
use daisyway.TcpServer.Running.{start}
use daisyway.TcpServer.Running.Tests.{channel, ps}
use daisyway.TcpServer.Running.Genuine.Tests.{derived, delivered, delivered-Reach}
use daisyway.TcpServer.Running.Output.{IsRequested, output-IsPassed}

abbrev send_request : DeadmanRequest → List Key → Result (Unit {0}) × List Key
send_request req keys = (ok tt, req.key ∷ keys)

unfoldable requests-IsRecording : IsRecording (client send_request)
unfolding client Deadman.set_osk_impl
requests-IsRecording = record { log = λ keys. keys; logs = λ k r keys. inr refl }

-- What was written, and how many times the worker has waited.
abbrev Output : Type 0
Output = List Key × ℕ

abbrev request_at : ℕ → Option (Option DeadmanRequest)
request_at zero = some (some (record { key = derived; reason = fresh }))
request_at (suc n) = some none

abbrev recorder : OskHandler Output
recorder = record { set_osk = λ key reason w. (ok tt, (key ∷ w.0, w.1)) }

unfoldable runtime : Runtime Output
runtime = record {
  now = λ w. 0;
  latest = 1000000;
  timeout_at = λ d w. (ok (request_at w.1), (w.0, suc w.1));
  random = λ w. (ok toy_nonce, w);
  broker = recorder;
}

unfoldable recording : IsRecording runtime.broker
unfolding runtime
recording = record { log = λ w. w.0; logs = λ k r w. inr refl }

quiet : IsQuiet runtime recording
unfolding runtime recording
quiet = record { waits = λ d w. refl; draws = λ w. refl }

requested : (n : ℕ) (req : DeadmanRequest) → request_at n ≡ some (some req) → derived ≡ req.key
requested zero req e = ground arith
requested (suc n) req e = absurd (ground arith)

received :
    (d : ℕ) (v : Output) (req : DeadmanRequest)
    → (runtime.timeout_at d v).0 ≡ ok (some (some req))
    → IsRequested ℕ ps params channel send_request requests-IsRecording 120 ℕ runtime recording []
        [] req.key
unfolding runtime requests-IsRecording client Deadman.set_osk_impl start event_loop on_event
    on_accept on_osk promote make_space new drop_option get insert init_task negotiate_key channel
    from
received d v req e = (delivered, delivered-Reach, inl (requested v.1 req (ground arith)))

abbrev after : Output
after = (Deadman.event_loop runtime 150 5 ([], 0)).1

written : after.0 ≡ toy_nonce ∷ derived ∷ toy_nonce ∷ []
unfolding runtime Deadman.event_loop rounds on_request
written = refl

output-IsPassed_example : AllHave (IsPassed runtime recording (IsExchanged ps params)) after.0
unfolding runtime recording
output-IsPassed_example =
    output-IsPassed ℕ ps params channel send_request requests-IsRecording 120 ℕ runtime recording []
      [] 150 5 ([], 0) (unfold requests-IsRecording in refl) (unfold channel in refl) quiet received
      refl
