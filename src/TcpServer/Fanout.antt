-- ===== src/TcpServer/Fanout.antt =====
-- daisyway/src/internal/daisyway/net/tcp_server/fanout_osk_handler.rs and
-- fanout_connection_handler.rs: the task of one connection, which reports to the manager. The log
-- lines are left out.
pub mod Notified
pub mod Exchanged
mod Tests
use daisyway.Base.{ℕ, Result, ok, err, panic, Action, ◌>>=◌, pure}
use daisyway.Crypto.Key.{Key}
use daisyway.Crypto.Basics.{DaisywayProtocolParameters}
use daisyway.Crypto.World.{World, Parts, on_osk}
use daisyway.Crypto.Server
use daisyway.Osk.{SetOskReason, OskHandler}
use daisyway.TcpServer.Events.{ConnectionHandlerEvent}

-- `manager_notification_tx.send(…)`, which fails once the manager is gone.
abbrev pub Sender : Type 0 → Type 0
Sender Q = ConnectionHandlerEvent → Action Q (Unit {0})

module _ {Q : Type 0} (send : Sender Q) (connection_id : ℕ) where
  unfoldable pub set_osk_impl : Key → SetOskReason → Action Q (Unit {0})
  set_osk_impl key reason = do
    _ ← send (
        ConnectionHandlerEvent.osk
          (record { connection_id = connection_id; key = key; reason = reason }))
    pure tt

  -- `FanoutOskHandler`.
  unfoldable pub fanout_osk_handler : OskHandler Q
  unfolding set_osk_impl
  fanout_osk_handler = record { set_osk = set_osk_impl }

  unfoldable pub send_exit : Action Q (Unit {0})
  send_exit = send (ConnectionHandlerEvent.exit (record { connection_id = connection_id }))

pub data TaskState : Type 0 where
  running ended : TaskState

module _ {N K R Q : Type 0} (parts : Parts N K R Q) (params : DaisywayProtocolParameters)
    (send : Sender Q) where
  -- The server protocol with the handler of this connection.
  unfoldable pub parts_of : ℕ → Parts N K R Q
  unfolding fanout_osk_handler
  parts_of connection_id = record {
    read_exact = parts.read_exact;
    write_all = parts.write_all;
    fetch_any_key = parts.fetch_any_key;
    fetch_specific_key = parts.fetch_specific_key;
    random = parts.random;
    sleep = parts.sleep;
    handler = fanout_osk_handler send connection_id;
    uuid = parts.uuid;
    shake256 = parts.shake256;
  }

  unfoldable pub event_loop : ℕ → ℕ → ℕ → Action (World N K R Q) (Unit {0})
  unfolding parts_of Server.event_loop
  event_loop rekey_interval connection_id rounds =
      Server.event_loop (parts_of connection_id) params rekey_interval rounds

  -- An error of the notification ends up in the log.
  abbrev pub exit_logged : Result (Unit {0}) → Result TaskState
  exit_logged (ok a) = ok ended
  exit_logged (err e) = ok ended
  exit_logged (panic p) = panic p

  -- The loop never ends by itself: it is still running, or failed.
  unfoldable pub after_loop :
      ℕ → Result (Unit {0}) × World N K R Q → Result TaskState × World N K R Q
  unfolding send_exit
  after_loop connection_id (ok a, w) = (ok running, w)
  after_loop connection_id (err e, w) =
      let (r, w') = on_osk (send_exit send connection_id) w in (exit_logged r, w')
  after_loop connection_id (panic p, w) = (panic p, w)

  unfoldable pub init_task : ℕ → ℕ → ℕ → Action (World N K R Q) TaskState
  unfolding event_loop after_loop
  init_task rekey_interval connection_id rounds w =
      after_loop connection_id (event_loop rekey_interval connection_id rounds w)
