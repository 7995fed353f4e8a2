-- ===== src/TcpClient.antt =====
-- daisyway/src/internal/daisyway/net/tcp_client.rs: connecting and connecting again. The log lines are
-- left out. The loop is cut after a number of attempts, and the protocol's after a number of rounds;
-- `ok` then says that it is still running.
pub mod Retries
pub mod Answered
mod Tests
use daisyway.Base.{ℕ, zero, suc, Result, ok, err, panic, Action, resume}
use daisyway.Crypto.Basics.{DaisywayProtocolParameters}
use daisyway.Crypto.World.{World, Parts}
use daisyway.Crypto.Client

-- The network, and what the protocol works with beside its socket.
pub record ClientWorld (M K R O : Type 0) : Type 0 where
  pub network : M
  pub etsi : K
  pub runtime : R
  pub osk : O

module _ {M N K R O Addr : Type 0} (parts : Parts N K R O) (connect : Addr → Action M N)
    (params : DaisywayProtocolParameters) (endpoint : Addr) where
  -- The protocol over the new stream, which is closed when it ends.
  abbrev over : ℕ → Result N × M → ClientWorld M K R O → Result (Unit {0}) × ClientWorld M K R O
  over rounds (ok stream, net) w =
      let (r, v) =
        Client.event_loop parts params rounds
          (record { stream = stream; etsi = w.etsi; runtime = w.runtime; osk = w.osk }) in
      (r, record { network = net; etsi = v.etsi; runtime = v.runtime; osk = v.osk })
  over rounds (err e, net) w = (err e, record w { network = net })
  over rounds (panic p, net) w = (panic p, record w { network = net })

  unfoldable pub event_loop_without_error_handling : ℕ → Action (ClientWorld M K R O) (Unit {0})
  unfolding Client.event_loop
  event_loop_without_error_handling rounds w = over rounds (connect endpoint w.network) w

  abbrev retry_delay : ℕ
  retry_delay = 2

  abbrev pub then_sleep : ClientWorld M K R O → Result (Unit {0}) × ClientWorld M K R O
  then_sleep w = let (r, s) = parts.sleep retry_delay w.runtime in (r, record w { runtime = s })

  -- After an attempt that failed, the client sleeps and goes on with `rest`.
  abbrev pub after_attempt :
      Action (ClientWorld M K R O) (Unit {0})
      → Result (Unit {0}) × ClientWorld M K R O
      → Result (Unit {0}) × ClientWorld M K R O
  after_attempt rest (ok a, w) = (ok a, w)
  after_attempt rest (err e, w) = resume (λ _. rest) (then_sleep w)
  after_attempt rest (panic p, w) = (panic p, w)

  unfoldable pub event_loop : ℕ → ℕ → Action (ClientWorld M K R O) (Unit {0})
  unfolding event_loop_without_error_handling
  event_loop rounds zero w = (ok tt, w)
  event_loop rounds (suc attempts) w =
      after_attempt (event_loop rounds attempts) (event_loop_without_error_handling rounds w)
