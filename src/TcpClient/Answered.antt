-- ===== src/TcpClient/Answered.antt =====
-- Which keys daisyway/src/internal/daisyway/net/tcp_client.rs gives to its key handler, over all its
-- connections.
use daisyway.Base.{ℕ, zero, suc, ◌≡◌, [], Result, ok, err, panic, Action, resume_keeps}
use daisyway.Crypto.Basics.{DaisywayProtocolParameters}
use daisyway.Crypto.World.{Parts}
use daisyway.Crypto.Client.Answered.{IsAnswered, event_loop-AllHave}
use daisyway.Osk.Recording.{AllHave, IsRecording}
use daisyway.TcpClient.{
  ClientWorld, event_loop, event_loop_without_error_handling, after_attempt, then_sleep, over,
}

module _ {M N K R O Addr : Type 0} (parts : Parts N K R O) (connect : Addr → Action M N)
    (params : DaisywayProtocolParameters) (endpoint : Addr)
    (recording : IsRecording parts.handler) where
  open recording use {log}

  abbrev Logged : ClientWorld M K R O → Type 0
  Logged w = AllHave (IsAnswered parts params) (log w.osk)

  over-Logged :
      (rounds : ℕ) (p : Result N × M) (w : ClientWorld M K R O)
      → Logged w
      → Logged (over parts connect params endpoint rounds p w).1
  over-Logged rounds (ok stream, net) w h =
      event_loop-AllHave parts params recording rounds
        (record { stream = stream; etsi = w.etsi; runtime = w.runtime; osk = w.osk }) h
  over-Logged rounds (err e, net) w h = h
  over-Logged rounds (panic s, net) w h = h

  after_attempt-Logged :
      (rest : Action (ClientWorld M K R O) (Unit {0})) (p : Result (Unit {0}) × ClientWorld M K R O)
      → Logged p.1
      → ((w : ClientWorld M K R O) → Logged w → Logged (rest w).1)
      → Logged (after_attempt parts connect params endpoint rest p).1
  after_attempt-Logged rest (ok a, w) h later = h
  after_attempt-Logged rest (err e, w) h later =
      resume_keeps Logged _ (then_sleep parts connect params endpoint w) h (λ _ x. later _ x)
  after_attempt-Logged rest (panic s, w) h later = h

  loop-Logged :
      (rounds attempts : ℕ) (w : ClientWorld M K R O)
      → Logged w
      → Logged (event_loop parts connect params endpoint rounds attempts w).1
  unfolding event_loop event_loop_without_error_handling
  loop-Logged rounds zero w h = h
  loop-Logged rounds (suc attempts) w h =
      after_attempt-Logged (event_loop parts connect params endpoint rounds attempts)
        (event_loop_without_error_handling parts connect params endpoint rounds w)
        (over-Logged rounds (connect endpoint w.network) w h)
        (λ v x. loop-Logged rounds attempts v x)

  -- After any number of connections of the client and of exchanges over each, from a key handler
  -- that was given no key, each key that the key handler has recorded was derived from the nonce
  -- of a request that was read and acknowledged, and from the QKD key that the device returned for
  -- the id in the request, also where connections and exchanges fail.
  pub event_loop-IsAnswered :
      (rounds attempts : ℕ) (w : ClientWorld M K R O)
      → log w.osk ≡ []
      → AllHave
          (IsAnswered parts params)
          (log (event_loop parts connect params endpoint rounds attempts w).1.osk)
  event_loop-IsAnswered rounds attempts w none_written =
      loop-Logged rounds attempts w (rw none_written tt)
