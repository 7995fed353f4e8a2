-- ===== src/TcpServer/Manager.antt =====
-- daisyway/src/internal/daisyway/net/tcp_server/connection_manager.rs: which connection's keys
-- reach the output. The log lines are left out.
pub mod Invariant
pub mod Gone
pub mod Superseded
pub mod Ownership
pub mod Accepting
pub mod View
pub mod Waiting
pub mod Refinement
pub mod Deliveries
use daisyway.Base.{
  ℕ, ◌+◌, ◌%◌, ◌^◌, List, [], ◌∷◌, Option, none, some, Bool, false, Error, message, Result, ok, err,
  panic, Action, ◌>>=◌, pure, lift, ltb, leb, ◌==◌, if◌then◌else◌, length,
}
use daisyway.Crypto.Key.{Key}
use daisyway.Osk.{SetOskReason, OskHandler}
use daisyway.TcpServer.BTreeMap.{BTreeMap, get, insert, erase, pop_first, keep_below, split_off}
use daisyway.TcpServer.Events.{
  AcceptEvent, ExitEvent, OskEvent, StreamEvent, ConnectionHandlerEvent, from,
}
use daisyway.TcpServer.Tasks.{Tasks, AbortOnDropHandle, spawn, drop, drop_option, drop_all}

abbrev pub max_budding_connections : ℕ
max_budding_connections = 2000

-- The manager, with the state `osk_handler` of its key handler and the runtime's `tasks`. The
-- listener and the queue of notifications are the events that it is given.
pub record ConnectionManager (O Stream : Type 0) : Type 0 where
  pub osk_handler : O
  pub next_connection_id : ℕ  -- usize
  pub active_connection : Option (ℕ × AbortOnDropHandle)
  pub budding_connections : BTreeMap AbortOnDropHandle
  pub tasks : Tasks Stream

unfoldable pub new : {O Stream : Type 0} → O → ConnectionManager O Stream
new osk_handler = record {
  osk_handler = osk_handler;
  next_connection_id = 0;
  active_connection = none;
  budding_connections = [];
  tasks = record { spawned = []; aborted = [] };
}

-- The first part of a pair under `as_ref().map(…)`.
abbrev pub id_of : Option (ℕ × AbortOnDropHandle) → Option ℕ
id_of none = none
id_of (some (k, _)) = some k

abbrev pub handle_of : Option (ℕ × AbortOnDropHandle) → Option AbortOnDropHandle
handle_of none = none
handle_of (some (_, h)) = some h

-- `Some(id) == active`.
abbrev pub is_id : ℕ → Option ℕ → Bool
is_id k none = false
is_id k (some a) = k == a

-- How an event's connection compares to the active one: `Ordering::Greater` where none is active.
pub data Lifecycle : Type 0 where
  less equal greater : Lifecycle

abbrev pub lifecycle : ℕ → Option ℕ → Lifecycle
lifecycle k none = greater
lifecycle k (some a) = if ltb k a then less else if k == a then equal else greater

pub data Poll (Stream Addr : Type 0) : Type 0 where
  accepted : Stream × Addr → Poll Stream Addr
  accept_failed : Error → Poll Stream Addr
  notified : ConnectionHandlerEvent → Poll Stream Addr
  queue_closed : Poll Stream Addr

-- What `select!` of the event loop yields: a connection or a failed `accept`, or a notification
-- or the end of its queue.
unfoldable pub to_event :
    {Stream Addr : Type 0} → Poll Stream Addr → Result (StreamEvent Stream Addr)
to_event (accepted (stream, addr)) =
    ok (StreamEvent.accept (record { stream = stream; addr = addr }))
to_event (accept_failed e) = err e
to_event (notified ev) = ok (from ev)
to_event queue_closed = err (message "OSK notification queue closed. This is a bug!")

module _ {O Stream : Type 0} where
  unfoldable pub active_connection_id : ConnectionManager O Stream → Option ℕ
  active_connection_id m = id_of m.active_connection

  -- `usize` wraps around in a release build.
  unfoldable pub allocate_connection_id : Action (ConnectionManager O Stream) ℕ
  allocate_connection_id m = (
    ok m.next_connection_id,
    record m { next_connection_id = (m.next_connection_id + 1) % 2 ^ 64 },
  )

  -- `budding_connections.pop_first().expect(…)`; the handle is dropped at the end of the block.
  unfoldable pub prune_first :
      Option ((ℕ × AbortOnDropHandle) × BTreeMap AbortOnDropHandle)
      → Action (ConnectionManager O Stream) (Unit {0})
  unfolding drop
  prune_first none m = (panic "Could not prune oldest budding connection", m)
  prune_first (some (e, rest)) m =
      (ok tt, record m { budding_connections = rest; tasks = drop e.1 m.tasks })

  unfoldable pub make_space : Action (ConnectionManager O Stream) (Unit {0})
  unfolding prune_first pop_first
  make_space m =
      if leb max_budding_connections (length m.budding_connections)
      then prune_first (pop_first m.budding_connections) m
      else (ok tt, m)

  unfoldable pub spawn_handler : ℕ → Stream → Action (ConnectionManager O Stream) AbortOnDropHandle
  unfolding spawn
  spawn_handler connection_id stream m =
      let (handle, tasks) =
        spawn (record { connection_id = connection_id; stream = stream }) m.tasks in
      (ok handle, record m { tasks = tasks })

  -- A handle that `insert` replaces is dropped.
  unfoldable pub register : ℕ → AbortOnDropHandle → Action (ConnectionManager O Stream) (Unit {0})
  register connection_id handle m = (
    ok tt,
    record m {
      budding_connections = insert connection_id handle m.budding_connections;
      tasks = drop_option (get connection_id m.budding_connections) m.tasks;
    },
  )

  unfoldable pub on_accept :
      {Addr : Type 0} → AcceptEvent Stream Addr → Action (ConnectionManager O Stream) (Unit {0})
  unfolding allocate_connection_id spawn_handler register
  on_accept ev = do
    connection_id ← allocate_connection_id
    _ ← make_space
    abort_handle ← spawn_handler connection_id ev.stream
    register connection_id abort_handle

  -- `active_connection.take()`.
  unfoldable pub take_active : Action (ConnectionManager O Stream) (Unit {0})
  take_active m = (
    ok tt,
    record m {
      active_connection = none;
      tasks = drop_option (handle_of m.active_connection) m.tasks;
    },
  )

  unfoldable pub remove_budding : ℕ → Action (ConnectionManager O Stream) (Unit {0})
  remove_budding k m = (
    ok tt,
    record m {
      budding_connections = erase k m.budding_connections;
      tasks = drop_option (get k m.budding_connections) m.tasks;
    },
  )

  unfoldable pub on_exit : ExitEvent → Action (ConnectionManager O Stream) (Unit {0})
  unfolding active_connection_id take_active remove_budding
  on_exit ev m =
      if is_id ev.connection_id (active_connection_id m)
      then take_active m
      else remove_budding ev.connection_id m

  -- The active connection is dropped when it is replaced. The older budding connections are dropped
  -- here, in the source at the end of the function, after the key was handed over.
  unfoldable pub promote :
      ℕ → AbortOnDropHandle → ConnectionManager O Stream → ConnectionManager O Stream
  promote k handle m =
      let rest = erase k m.budding_connections in
      record m {
        active_connection = some (k, handle);
        budding_connections = split_off k rest;
        tasks = drop_all (keep_below k rest) (drop_option (handle_of m.active_connection) m.tasks);
      }

  module _ (handler : OskHandler O) where
    unfoldable pub set_osk : Key → SetOskReason → Action (ConnectionManager O Stream) (Unit {0})
    set_osk key reason m =
        let (r, o) = handler.set_osk key reason m.osk_handler in (r, record m { osk_handler = o })

    unfoldable pub on_osk_from_stale : OskEvent → Action (ConnectionManager O Stream) (Unit {0})
    on_osk_from_stale ev m = (ok tt, m)

    unfoldable pub on_osk_from_active : OskEvent → Action (ConnectionManager O Stream) (Unit {0})
    unfolding set_osk
    on_osk_from_active ev = set_osk ev.key ev.reason

    unfoldable pub on_osk_from_budding : OskEvent → Action (ConnectionManager O Stream) (Unit {0})
    unfolding set_osk promote
    on_osk_from_budding ev m = elim (get ev.connection_id m.budding_connections) [
      | none ↦ (ok tt, m)
      | some handle ↦ set_osk ev.key ev.reason (promote ev.connection_id handle m)
    ]

    unfoldable pub on_osk : OskEvent → Action (ConnectionManager O Stream) (Unit {0})
    unfolding active_connection_id on_osk_from_stale on_osk_from_active on_osk_from_budding
    on_osk ev m = elim (lifecycle ev.connection_id (active_connection_id m)) [
      | less ↦ on_osk_from_stale ev m
      | equal ↦ on_osk_from_active ev m
      | greater ↦ on_osk_from_budding ev m
    ]

    unfoldable pub on_event :
        {Addr : Type 0} → StreamEvent Stream Addr → Action (ConnectionManager O Stream) (Unit {0})
    on_event (StreamEvent.accept ev) = on_accept ev
    on_event (StreamEvent.exit ev) = on_exit ev
    on_event (StreamEvent.osk ev) = on_osk ev

    -- The loop, over what it polls: it goes on until an event fails, or all are served.
    unfoldable pub event_loop :
        {Addr : Type 0} → List (Poll Stream Addr) → Action (ConnectionManager O Stream) (Unit {0})
    unfolding to_event
    event_loop [] = pure tt
    event_loop (p ∷ ps) = do ev ← lift (to_event p); _ ← on_event ev; event_loop ps
