-- ===== src/TcpServer/Running.antt =====
-- The server at work: the manager of
-- daisyway/src/internal/daisyway/net/tcp_server/connection_manager.rs and the tasks of
-- fanout_connection_handler.rs, which run beside it and tell it what happens through one queue.
pub mod Below
pub mod Sound
pub mod Final
pub mod Last
pub mod Genuine
pub mod Output
pub mod Delivering
mod Tests
use daisyway.Base.{
  ℕ, ◌+◌, ◌^◌, ◌<◌, ◌≡◌, List, [], ◌∷◌, ◌++◌, Option, some, Bool, true, false, ◌||◌, Result, ok,
  err, panic, is_ok, ◌==◌, Action,
}
use daisyway.Crypto.Basics.{DaisywayProtocolParameters}
use daisyway.Crypto.World.{World, Parts}
use daisyway.Osk.{OskHandler}
use daisyway.TcpServer.Events.{ConnectionHandlerEvent}
use daisyway.TcpServer.Tasks.{Task}
use daisyway.TcpServer.Manager.{ConnectionManager, Poll, accepted, notified, event_loop, new}
use daisyway.TcpServer.Fanout.{Sender, TaskState, running, ended, init_task}

-- The channel of tokio: `send` of a task, `recv` of the manager, and what it holds, newest first. A
-- successful `send` appends, a failed one changes nothing, and `recv` takes the oldest.
pub record Channel (Q : Type 0) : Type 0 where
  pub send : Sender Q
  pub recv : Q → Option (ConnectionHandlerEvent × Q)
  pub pending : Q → List ConnectionHandlerEvent
  pub sends :
      (ev : ConnectionHandlerEvent) (q : Q)
      → (send ev q).0 ≡ ok tt
      → pending (send ev q).1 ≡ ev ∷ pending q
  pub fails :
      (ev : ConnectionHandlerEvent) (q : Q)
      → is_ok (send ev q).0 ≡ false
      → pending (send ev q).1 ≡ pending q
  pub receives :
      (ev : ConnectionHandlerEvent) (q q' : Q)
      → recv q ≡ some (ev, q')
      → pending q ≡ pending q' ++ ev ∷ []

-- The manager, the channel, and the connections whose tasks have ended.
pub record Running (O Stream Q : Type 0) : Type 0 where
  pub manager : ConnectionManager O Stream
  pub queue : Q
  pub has_ended : ℕ → Bool

abbrev pub note_end : Result TaskState → ℕ → (ℕ → Bool) → ℕ → Bool
note_end (ok running) k has_ended = has_ended
note_end (ok ended) k has_ended = λ c. (c == k) || has_ended c
note_end (err e) k has_ended = λ c. (c == k) || has_ended c
note_end (panic s) k has_ended = λ c. (c == k) || has_ended c

-- After a round of a task.
abbrev pub after_round :
    {N K R O Stream Q : Type 0}
    → ℕ
    → Running O Stream Q
    → Result TaskState × World N K R Q
    → Running O Stream Q
after_round k s (r, w) = record s { queue = w.osk; has_ended = note_end r k s.has_ended }

module _ {N K R O Stream Q : Type 0} (parts : Parts N K R Q) (params : DaisywayProtocolParameters)
    (channel : Channel Q) (handler : OskHandler O) (rekey_interval : ℕ) (Addr : Type 0) where
  -- The manager's event loop serves one event at a time. A task runs a round of its protocol, after
  -- which it goes on or has ended. In each round its socket, the device and the clock are in any
  -- state. A task that was told to abort may still run: tokio lets it go on to its next wait.
  pub data Step (s : Running O Stream Q) : Running O Stream Q → Type 0 where
    accepts :
        (stream : Stream) (addr : Addr) {m : ConnectionManager O Stream}
        → s.manager.next_connection_id + 1 < 2 ^ 64
        → event_loop handler {Addr = Addr} (accepted (stream, addr) ∷ []) s.manager ≡ (ok tt, m)
        → Step s (record s { manager = m })
    serves :
        (ev : ConnectionHandlerEvent) {q : Q} {m : ConnectionManager O Stream}
        → channel.recv s.queue ≡ some (ev, q)
        → event_loop handler {Addr = Addr} (notified ev ∷ []) s.manager ≡ (ok tt, m)
        → Step s (record s { manager = m; queue = q })
    runs :
        (t : Task Stream) (newer older : List (Task Stream)) (w : World N K R Q)
        → s.manager.tasks.spawned ≡ newer ++ t ∷ older
        → s.has_ended t.connection_id ≡ false
        → w.osk ≡ s.queue
        → Step s (
            after_round t.connection_id s
              (init_task parts params channel.send rekey_interval t.connection_id 1 w))

  pub data Reach (s : Running O Stream Q) : Running O Stream Q → Type 0 where
    here : Reach s s
    later : {t u : Running O Stream Q} → Reach s t → Step t u → Reach s u

unfoldable pub start : {O Stream Q : Type 0} → O → Q → Running O Stream Q
unfolding new
start o q = record { manager = new o; queue = q; has_ended = λ _. false }
