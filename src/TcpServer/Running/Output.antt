-- ===== src/TcpServer/Running/Output.antt =====
-- What the output of the server of daisyway/src/internal/daisyway/net/tcp_server is given, behind the deadman's
-- worker of daisyway/src/internal/osk/deadman.rs.
mod Tests
use daisyway.Base.{ℕ, ◌≡◌, ◌⊎◌, inl, inr, subst, sym, List, [], ◌∷◌, Option, some, ok, Action}
use daisyway.Crypto.Key.{Key}
use daisyway.Crypto.Basics.{DaisywayProtocolParameters}
use daisyway.Crypto.World.{Parts}
use daisyway.Osk.{OskHandler}
use daisyway.Osk.Recording.{AllHave, IsRecording}
use daisyway.Osk.Deadman
use daisyway.Osk.Deadman.{Runtime, DeadmanRequest, client}
use daisyway.Osk.Deadman.Passed.{IsQuiet, IsPassed, event_loop-Passed}
use daisyway.TcpServer.Fanout.Exchanged.{IsExchanged}
use daisyway.TcpServer.Running.{Channel, Running, Reach, start}
use daisyway.TcpServer.Running.Genuine.{written-IsExchanged}

abbrev pub IsIn : Key → List Key → Type 0
IsIn k [] = ⊥
IsIn k (x ∷ l) = (x ≡ k) ⊎ IsIn k l

AllHave-member : (P : Key → Type 0) (k : Key) (l : List Key) → AllHave P l → IsIn k l → P k
AllHave-member P k [] h i = absurd i
AllHave-member P k (x ∷ l) h (inl e) = subst P e h.0
AllHave-member P k (x ∷ l) h (inr i) = AllHave-member P k l h.1 i

module _ {N K R C Q W : Type 0} (Stream : Type 0) (parts : Parts N K R Q)
    (params : DaisywayProtocolParameters) (channel : Channel Q)
    (send_request : DeadmanRequest → Action C (Unit {0}))
    (requests : IsRecording (client send_request)) (rekey_interval : ℕ) (Addr : Type 0)
    (rt : Runtime W) (recording : IsRecording rt.broker) where
  -- The request was sent by the server that was started so.
  abbrev pub IsRequested : C → Q → Key → Type 0
  IsRequested o q key =
      (u : Running C Stream Q) × Reach parts params channel (client send_request) rekey_interval
        Addr (start o q) u
      × IsIn key (requests.log u.manager.osk_handler)

  -- Each key that the worker writes to the output of a server was drawn at random by the worker,
  -- or was derived from a QKD key that the device returned and a nonce that was drawn, which were
  -- sent to a client that acknowledged them. This is for a server that runs from an empty queue
  -- and has sent no request to the worker yet, with fewer than 2 ^ 64 connections, for an output
  -- that has recorded no key yet and records none while the worker waits or draws, and if the
  -- worker receives only requests that the server has sent.
  pub output-IsPassed :
      (o : C) (q : Q) (erase_after fuel : ℕ) (w : W)
      → requests.log o ≡ []
      → channel.pending q ≡ []
      → IsQuiet rt recording
      → ((d : ℕ) (v : W) (req : DeadmanRequest)
          → (rt.timeout_at d v).0 ≡ ok (some (some req))
          → IsRequested o q req.key)
      → recording.log w ≡ []
      → AllHave
          (IsPassed rt recording (IsExchanged parts params))
          (recording.log (Deadman.event_loop rt erase_after fuel w).1)
  output-IsPassed o q erase_after fuel w none_requested none_queued quiet received none_written =
      event_loop-Passed rt recording quiet (IsExchanged parts params)
        (λ d v req e.
          let (u, reach, i) = received d v req e in
          AllHave-member (IsExchanged parts params) req.key (requests.log u.manager.osk_handler)
            (written-IsExchanged parts params channel (client send_request) requests rekey_interval
              Addr o q none_requested none_queued reach)
            i)
        erase_after fuel w none_written
