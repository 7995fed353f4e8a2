-- ===== src/Daemon/Tasks.antt =====
-- The tasks that daisyway/src/internal/daisyway/net/tcp_server/fanout_connection_handler.rs spawns.
use daisyway.Base.{ℕ, ◌≡◌, refl}
use daisyway.Crypto.World.{World}
use daisyway.Osk.{OskHandler}
use daisyway.TcpServer.Fanout
use daisyway.TcpServer.Fanout.{Sender, TaskState, init_task, parts_of, after_loop}
use daisyway.Daemon.{
  Host, FanoutConnectionHandler, parts_for, serve, new_server_protocol, fanout_event_loop,
  spawned_task,
}

module _ {N K R HttpClient : Type 0} (host : Host N K R HttpClient) where
  -- A task that is spawned for a connection is `init_task` of TcpServer.Fanout, with what the host offers,
  -- whatever key handler those parts had.
  pub spawned_task-init_task :
      {Q : Type 0} (self : FanoutConnectionHandler Q HttpClient) (handler : OskHandler Q) (k : ℕ)
      (stream : N) (rounds : ℕ) (w : World N K R Q)
      → spawned_task host self k stream rounds w
        ≡ init_task
            (parts_for host self.etsi_client handler)
            self.protocol_params
            self.manager_notification_tx
            self.rekey_interval
            k
            rounds
            (record w { stream = stream })
  unfolding spawned_task init_task fanout_event_loop serve new_server_protocol Fanout.event_loop
      parts_of parts_for after_loop
  spawned_task-init_task self handler k stream rounds w = refl
