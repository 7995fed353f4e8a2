-- ===== src/TcpServer/Manager/Accepting.antt =====
-- What becomes of a new connection in
-- daisyway/src/internal/daisyway/net/tcp_server/connection_manager.rs, and of the oldest one that has not
-- delivered a key.
use daisyway.Base.{ℕ, suc, ◌≡◌, refl, [], ◌∷◌, ◌++◌, ok, arith, length, leb, if◌then◌else◌, ap}
use daisyway.TcpServer.BTreeMap.{BTreeMap}
use daisyway.TcpServer.BTreeMap.Order.{Ascends, Ascends-widen, insert-append}
use daisyway.TcpServer.Events.{AcceptEvent}
use daisyway.TcpServer.Tasks.{AbortOnDropHandle, drop_option}
use daisyway.TcpServer.Manager.{
  ConnectionManager, max_budding_connections, id_of, make_space, allocate_connection_id, on_accept,
}
use daisyway.TcpServer.Manager.Invariant.{Inv, floor}

-- The connections that stay: all but the oldest, if there are too many.
abbrev pub kept : BTreeMap AbortOnDropHandle → BTreeMap AbortOnDropHandle
kept [] = []
kept (e ∷ b) = if leb max_budding_connections (length (e ∷ b)) then b else e ∷ b

kept-Ascends :
    (lo hi : ℕ) (b : BTreeMap AbortOnDropHandle) → Ascends lo hi b → Ascends lo hi (kept b)
kept-Ascends lo hi [] a = tt
kept-Ascends lo hi ((k, h) ∷ b) a = ground (arith, Ascends-widen (suc k) lo hi hi b)

module _ {O Stream : Type 0} where
  make_space-kept :
      (m : ConnectionManager O Stream) (b : BTreeMap AbortOnDropHandle)
      → m.budding_connections ≡ b
      → ((make_space m).0 ≡ ok tt)
        × ((make_space m).1.budding_connections ≡ kept b)
        × ((make_space m).1.next_connection_id ≡ m.next_connection_id)
        × ((make_space m).1.active_connection ≡ m.active_connection)
        × ((make_space m).1.osk_handler ≡ m.osk_handler)
        × ((make_space m).1.tasks.spawned ≡ m.tasks.spawned)
  unfolding make_space
  make_space-kept m [] e = ground (arith, ap length e)
  make_space-kept m (x ∷ b) e = ground (arith, ap length e)

  -- In a state that keeps the invariant, an accepted connection is not refused: its handler is
  -- spawned under the next number and registered as the newest budding connection, the oldest of
  -- these is dropped where there were 2000 already, and the active connection and the key handler
  -- stay as they were.
  pub on_accept_lem :
      {Addr : Type 0} (ev : AcceptEvent Stream Addr) (m : ConnectionManager O Stream)
      → Inv m
      → let (r, m') = on_accept ev m in
        (r ≡ ok tt)
        × (m'.budding_connections
            ≡ kept m.budding_connections
              ++ (m.next_connection_id, record { task = length m.tasks.spawned }) ∷ [])
        × (m'.tasks.spawned
            ≡ record { connection_id = m.next_connection_id; stream = ev.stream } ∷ m.tasks.spawned)
        × (m'.active_connection ≡ m.active_connection)
        × (m'.osk_handler ≡ m.osk_handler)
  unfolding on_accept drop_option allocate_connection_id
  on_accept_lem ev m v =
      let m1 = (allocate_connection_id m).1 in
      let lo = floor (id_of m.active_connection) in
      let b = kept m.budding_connections in
      rw (make_space-kept m1 m.budding_connections refl).0 (
        ground (
          arith,
          make_space-kept m1 m.budding_connections refl,
          insert-append lo m.next_connection_id (record { task = length m.tasks.spawned }) b
              (kept-Ascends lo m.next_connection_id m.budding_connections v.ascending),
        ))
