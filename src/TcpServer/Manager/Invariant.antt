-- ===== src/TcpServer/Manager/Invariant.antt =====
-- What holds of the manager of daisyway/src/internal/daisyway/net/tcp_server/connection_manager.rs between two
-- events.
use daisyway.Base.{
  ℕ, suc, ◌+◌, ◌^◌, ◌≤◌, ◌<◌, ◌≡◌, refl, Result, List, [], ◌∷◌, Option, none, some, arith, length,
  ok, resume_keeps, inl, inr, Option-cases,
}
use daisyway.Osk.{OskHandler}
use daisyway.TcpServer.BTreeMap.{BTreeMap, get, erase}
use daisyway.TcpServer.BTreeMap.Order.{
  Ascends, Ascends-widen, insert-Ascends, erase-Ascends, split_off-erase-Ascends, length-insert,
  length-erase, length-split_off,
}
use daisyway.TcpServer.BTreeMap.Lookup.{get-bounds}
use daisyway.TcpServer.Events.{AcceptEvent, ExitEvent, OskEvent, StreamEvent}
use daisyway.TcpServer.Tasks.{AbortOnDropHandle}
use daisyway.TcpServer.Manager.{
  ConnectionManager, max_budding_connections, id_of, new, make_space, on_accept, on_exit, on_osk,
  on_event, allocate_connection_id, promote, Poll, event_loop, to_event,
}
use Prim.Native.Nat.{max}

-- The first connection id that may still become active.
abbrev pub floor : Option ℕ → ℕ
floor none = 0
floor (some a) = suc a

module _ {O Stream : Type 0} where
  pub record Inv (m : ConnectionManager O Stream) : Type 0 where
    pub bounded : length m.budding_connections ≤ max_budding_connections
    pub ascending :
        Ascends (floor (id_of m.active_connection)) m.next_connection_id m.budding_connections
    pub active_known : floor (id_of m.active_connection) ≤ m.next_connection_id

  pub new-Inv : (o : O) → Inv (new {O = O} {Stream = Stream} o)
  unfolding new
  new-Inv o = omega arith

  -- What `make_space` leaves: room for one more, and the rest of the state.
  abbrev MadeSpace :
      ConnectionManager O Stream → Result (Unit {0}) × ConnectionManager O Stream → Type 0
  MadeSpace m (r, m') =
      (r ≡ ok tt)
      × (length m'.budding_connections < max_budding_connections)
      × Ascends (floor (id_of m.active_connection)) m.next_connection_id m'.budding_connections
      × (m'.next_connection_id ≡ m.next_connection_id)
      × (m'.active_connection ≡ m.active_connection)

  make_space_at :
      (m : ConnectionManager O Stream) (b : BTreeMap AbortOnDropHandle)
      → m.budding_connections ≡ b
      → Inv m
      → MadeSpace m (make_space m)
  unfolding make_space
  make_space_at m [] e v = ground arith
  make_space_at m ((k, h) ∷ b) e v = ground (
    arith,
    Ascends-widen (suc k) (floor (id_of m.active_connection)) m.next_connection_id
        m.next_connection_id b,
  )

  make_space-MadeSpace : (m : ConnectionManager O Stream) → Inv m → MadeSpace m (make_space m)
  make_space-MadeSpace m = make_space_at m m.budding_connections refl

  module _ {Addr : Type 0} (ev : AcceptEvent Stream Addr) (m : ConnectionManager O Stream) where
    -- The state in which `on_accept` looks for space.
    abbrev allocated : ConnectionManager O Stream
    allocated = record m { next_connection_id = suc m.next_connection_id }

    allocated-Inv : Inv m → Inv allocated
    allocated-Inv v = record {
      bounded = v.bounded;
      ascending =
          Ascends-widen (floor (id_of m.active_connection)) (floor (id_of m.active_connection))
            m.next_connection_id (suc m.next_connection_id) m.budding_connections (omega arith)
            (omega arith) v.ascending;
      active_known = omega arith;
    }

    pub on_accept-Inv :
        m.next_connection_id + 1 < 2 ^ 64
        → Inv m
        → ((on_accept ev m).0 ≡ ok tt) × Inv (on_accept ev m).1
    unfolding on_accept
    on_accept-Inv h v = ground (
      arith,
      make_space-MadeSpace allocated (allocated-Inv v),
      insert-Ascends (floor (id_of m.active_connection)) (suc m.next_connection_id)
          m.next_connection_id (record { task = length (make_space allocated).1.tasks.spawned })
          (make_space allocated).1.budding_connections,
      length-insert m.next_connection_id
          (record { task = length (make_space allocated).1.tasks.spawned })
          (make_space allocated).1.budding_connections,
    )

  pub make_space-next :
      (m : ConnectionManager O Stream) → (make_space m).1.next_connection_id ≡ m.next_connection_id
  unfolding make_space
  make_space-next m = ground arith

  pub on_accept-next :
      {Addr : Type 0} (ev : AcceptEvent Stream Addr) (m : ConnectionManager O Stream)
      → (on_accept ev m).1.next_connection_id ≤ m.next_connection_id + 1
  unfolding on_accept allocate_connection_id
  on_accept-next ev m = ground (arith, make_space-next (allocate_connection_id m).1)

  pub on_exit-Inv : (ev : ExitEvent) (m : ConnectionManager O Stream) → Inv m → Inv (on_exit ev m).1
  unfolding on_exit
  on_exit-Inv ev m v = ground (
    arith,
    erase-Ascends (floor (id_of m.active_connection)) m.next_connection_id ev.connection_id
        m.budding_connections,
    Ascends-widen (floor (id_of m.active_connection)) 0 m.next_connection_id m.next_connection_id
        m.budding_connections,
    length-erase ev.connection_id m.budding_connections,
  )

  -- Promotion keeps the connections that came after the new active one.
  promote-Inv :
      (k : ℕ) (h : AbortOnDropHandle) (m : ConnectionManager O Stream)
      → get k m.budding_connections ≡ some h
      → Inv m
      → Inv (promote k h m)
  unfolding promote
  promote-Inv k h m found v =
      let lo = floor (id_of m.active_connection) in
      let hi = m.next_connection_id in
      let b = m.budding_connections in
      record {
        bounded = omega (arith, length-split_off k (erase k b), length-erase k b);
        ascending =
            Ascends-widen (max lo (suc k)) (suc k) hi hi _ (omega arith) (omega arith)
              (split_off-erase-Ascends lo hi k b v.ascending);
        active_known = (get-bounds k lo hi h b v.ascending found).1;
      }

  module _ (handler : OskHandler O) where
    pub on_osk-Inv :
        (ev : OskEvent) (m : ConnectionManager O Stream) → Inv m → Inv (on_osk handler ev m).1
    unfolding on_osk
    on_osk-Inv ev m v = elim (Option-cases (get ev.connection_id m.budding_connections)) [
      | inl e ↦ ground arith
      | inr (h, e) ↦ ground (arith, promote-Inv ev.connection_id h m e v)
    ]

    -- Every event keeps the invariant, also when it fails.
    pub on_event-Inv :
        {Addr : Type 0} (ev : StreamEvent Stream Addr) (m : ConnectionManager O Stream)
        → m.next_connection_id + 1 < 2 ^ 64
        → Inv m
        → Inv (on_event handler ev m).1
    unfolding on_event
    on_event-Inv (StreamEvent.accept ev) m h v = (on_accept-Inv ev m h v).1
    on_event-Inv (StreamEvent.exit ev) m h v = on_exit-Inv ev m v
    on_event-Inv (StreamEvent.osk ev) m h v = on_osk-Inv ev m v

    pub on_event-next :
        {Addr : Type 0} (ev : StreamEvent Stream Addr) (m : ConnectionManager O Stream)
        → (on_event handler ev m).1.next_connection_id ≤ m.next_connection_id + 1
    unfolding on_event on_exit on_osk promote
    on_event-next (StreamEvent.accept ev) m = on_accept-next ev m
    on_event-next (StreamEvent.exit ev) m = ground arith
    on_event-next (StreamEvent.osk ev) m = ground arith

    -- To show what every run of the loop keeps, show that each event keeps it.
    pub event_loop_keeps {ν} :
        {Addr : Type 0} (P : ConnectionManager O Stream → Type ν)
        → ((ev : StreamEvent Stream Addr) (m : ConnectionManager O Stream)
            → m.next_connection_id + 1 < 2 ^ 64
            → Inv m
            → P m
            → P (on_event handler ev m).1)
        → (ps : List (Poll Stream Addr)) (m : ConnectionManager O Stream)
        → m.next_connection_id + length ps < 2 ^ 64
        → Inv m
        → P m
        → P (event_loop handler ps m).1
    unfolding event_loop
    event_loop_keeps P step [] m h v p = p
    event_loop_keeps P step (poll ∷ ps) m h v p =
        resume_keeps P _ (to_event poll, m) p
          λ ev _. resume_keeps P _ (on_event handler ev m) (step ev m (omega arith) v p) λ _ q.
            event_loop_keeps P step ps (on_event handler ev m).1 (omega (arith, on_event-next ev m))
              (on_event-Inv ev m (omega arith) v) q

    -- While connection numbers do not wrap around, the event loop keeps the invariant of the
    -- manager, whatever events it is given.
    pub event_loop-Inv :
        {Addr : Type 0} (ps : List (Poll Stream Addr)) (m : ConnectionManager O Stream)
        → m.next_connection_id + length ps < 2 ^ 64
        → Inv m
        → Inv (event_loop handler ps m).1
    event_loop-Inv ps m h v =
        event_loop_keeps Inv (λ ev m' h' v' _. on_event-Inv ev m' h' v') ps m h v v
