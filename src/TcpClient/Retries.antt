-- ===== src/TcpClient/Retries.antt =====
-- What a failing connection means to daisyway/src/internal/daisyway/net/tcp_client.rs.
use daisyway.Base.{ℕ, zero, suc, ◌≡◌, refl, Result, ok, err, panic, Action, is_err, false}
use daisyway.Crypto.Basics.{DaisywayProtocolParameters}
use daisyway.Crypto.World.{Parts}
use daisyway.TcpClient.{ClientWorld, event_loop, event_loop_without_error_handling, after_attempt}

module _ {M N K R O Addr : Type 0} (parts : Parts N K R O) (connect : Addr → Action M N)
    (params : DaisywayProtocolParameters) (endpoint : Addr) where
  after_attempt-err :
      (rest : Action (ClientWorld M K R O) (Unit {0})) (p : Result (Unit {0}) × ClientWorld M K R O)
      → ((s : R) → (parts.sleep 2 s).0 ≡ ok tt)
      → ((w : ClientWorld M K R O) → is_err (rest w).0 ≡ false)
      → is_err (after_attempt parts connect params endpoint rest p).0 ≡ false
  after_attempt-err rest (ok a, w) slept later = refl
  after_attempt-err rest (err e, w) slept later = rw (slept w.runtime) (later _)
  after_attempt-err rest (panic s, w) slept later = refl

  pub event_loop-err :
      (rounds attempts : ℕ) (w : ClientWorld M K R O)
      → ((s : R) → (parts.sleep 2 s).0 ≡ ok tt)
      → is_err (event_loop parts connect params endpoint rounds attempts w).0 ≡ false
  unfolding event_loop
  event_loop-err rounds zero w slept = refl
  event_loop-err rounds (suc attempts) w slept =
      after_attempt-err (event_loop parts connect params endpoint rounds attempts)
        (event_loop_without_error_handling parts connect params endpoint rounds w) slept
        (λ v. event_loop-err rounds attempts v slept)
