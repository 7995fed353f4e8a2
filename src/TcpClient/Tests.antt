-- ===== src/TcpClient/Tests.antt =====
-- The client of daisyway/src/internal/daisyway/net/tcp_client.rs, whose server is not there.
use daisyway.Base.{
  ℕ, ◌+◌, ◌≡◌, refl, List, [], ◌∷◌, ok, err, io, other_kind, Action, replicate, length, ◌++◌,
}
use daisyway.Crypto.Key.{Key}
use daisyway.Crypto.World.{Parts}
use daisyway.Crypto.Toys.{Socket, parts_with, params}
use daisyway.TcpClient.{ClientWorld, event_loop}
use daisyway.Crypto.Client
use daisyway.Crypto.Client.{wait_for_key_negotiation}
use daisyway.Crypto.Client.Answered.{IsAnswered}
use daisyway.Osk.Recording.{AllHave, logbook, logbook-IsRecording}
use daisyway.TcpClient.Answered.{event_loop-IsAnswered}

abbrev ps : Parts Socket (Unit {0}) ℕ (List Key)
ps = parts_with (record { set_osk = λ key reason log. (ok tt, key ∷ log) })

-- The network counts the attempts.
abbrev refuse : ℕ → Action ℕ Socket
refuse endpoint attempts = (err (io other_kind), attempts + 1)

abbrev start : ClientWorld ℕ (Unit {0}) ℕ (List Key)
start = record { network = 0; etsi = tt; runtime = 100; osk = [] }

three_attempts :
    event_loop ps refuse params 9 5 3 start
    ≡ (ok tt, record { network = 3; etsi = tt; runtime = 106; osk = [] })
unfolding event_loop
three_attempts = refl

abbrev recording_ps : Parts Socket (Unit {0}) ℕ (List Key)
recording_ps = parts_with logbook

-- Each connection delivers one request.
abbrev request_once : ℕ → Action ℕ Socket
request_once endpoint attempts =
    (ok (record { sent = []; incoming = replicate 16 5 ++ replicate 32 9 }), attempts + 1)

abbrev twice : ClientWorld ℕ (Unit {0}) ℕ (List Key)
twice = (event_loop recording_ps request_once params 9 5 2 start).1

two_keys : length twice.osk ≡ 2
unfolding event_loop Client.event_loop wait_for_key_negotiation
two_keys = refl

event_loop-IsAnswered_example : AllHave (IsAnswered recording_ps params) twice.osk
unfolding logbook-IsRecording
event_loop-IsAnswered_example =
    event_loop-IsAnswered recording_ps request_once params 9 logbook-IsRecording 5 2 start refl
