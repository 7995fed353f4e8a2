-- ===== src/TcpServer/Tasks.antt =====
-- The tasks that the server spawns, as tokio keeps them, and
-- daisyway/src/internal/daisyway/net/tcp_server/abort_on_drop_handle.rs.
use daisyway.Base.{ℕ, List, [], ◌∷◌, Option, none, some, length}
use daisyway.TcpServer.BTreeMap.{BTreeMap}

-- A handler task: the connection that it serves, and its socket.
pub record Task (Stream : Type 0) : Type 0 where
  pub connection_id : ℕ
  pub stream : Stream

-- Every task that was spawned, newest first, and the numbers of those that were told to abort.
-- A task's number is how many were spawned before it.
pub record Tasks (Stream : Type 0) : Type 0 where
  pub spawned : List (Task Stream)
  pub aborted : List ℕ

-- A handle that aborts its task when it is dropped.
pub record AbortOnDropHandle : Type 0 where
  pub task : ℕ

module _ {Stream : Type 0} where
  -- `tokio::spawn(…)`, then `abort_handle()`.
  unfoldable pub spawn : Task Stream → Tasks Stream → AbortOnDropHandle × Tasks Stream
  spawn t ts = (record { task = length ts.spawned }, record ts { spawned = t ∷ ts.spawned })

  -- `Drop::drop`.
  unfoldable pub drop : AbortOnDropHandle → Tasks Stream → Tasks Stream
  drop h ts = record ts { aborted = h.task ∷ ts.aborted }

  -- An `Option` and a map drop what they hold.
  unfoldable pub drop_option : Option AbortOnDropHandle → Tasks Stream → Tasks Stream
  unfolding drop
  drop_option none ts = ts
  drop_option (some h) ts = drop h ts

  unfoldable pub drop_all : BTreeMap AbortOnDropHandle → Tasks Stream → Tasks Stream
  unfolding drop
  drop_all [] ts = ts
  drop_all ((_, h) ∷ m) ts = drop_all m (drop h ts)
