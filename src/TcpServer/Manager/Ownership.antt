-- ===== src/TcpServer/Manager/Ownership.antt =====
-- Who holds the tasks that daisyway/src/internal/daisyway/net/tcp_server/connection_manager.rs spawns.
use daisyway.Base.{
  ℕ, zero, suc, ◌∙◌, ◌≤◌, Option, ◌+◌, ◌^◌, ◌<◌, ◌≡◌, refl, inl, inr, List, [], ◌∷◌, none, some,
  arith, length, Option-cases, Bool-cases, leb, resume_keeps, ◌>>=◌, ltb, if◌then◌else◌,
}
use daisyway.Osk.{OskHandler}
use daisyway.TcpServer.BTreeMap.{BTreeMap, get, erase, keep_below, pop_first}
use daisyway.TcpServer.BTreeMap.Values.{
  weigh, only, each, count, each-names, names, names?, names-insert, names-erase, names-split_off,
}
use daisyway.TcpServer.Events.{AcceptEvent, ExitEvent, OskEvent, StreamEvent}
use daisyway.TcpServer.Tasks.{Tasks, AbortOnDropHandle, drop_option, drop_all}
use daisyway.TcpServer.Manager.{
  ConnectionManager, Poll, handle_of, id_of, make_space, allocate_connection_id, on_accept, on_exit,
  promote, on_osk, on_event, event_loop, new, prune_first, max_budding_connections, spawn_handler,
  register,
}
use daisyway.TcpServer.Manager.Invariant.{Inv, floor, event_loop_keeps, event_loop-Inv, new-Inv}
use daisyway.TcpServer.Manager.Gone.{make_space-get}
use daisyway.TcpServer.BTreeMap.Lookup.{get-above}

abbrev task_of : AbortOnDropHandle → ℕ
task_of h = h.task

-- The weight of the tasks with numbers below `n`.
abbrev pub weigh_below : (ℕ → ℕ) → ℕ → ℕ
weigh_below f zero = 0
weigh_below f (suc n) = f n + weigh_below f n

only-below : (t n : ℕ) → weigh_below (only t) n ≡ (if ltb t n then 1 else 0)
only-below t zero = ground arith
only-below t (suc n) = ground (arith, only-below t n)

each-below : (n : ℕ) → weigh_below each n ≡ n
each-below zero = refl
each-below (suc n) = omega (arith, each-below n)

each-aborted : (xs : List ℕ) → weigh each xs ≡ length xs
each-aborted [] = refl
each-aborted (x ∷ xs) = omega (arith, each-aborted xs)

one_active : (h : Option AbortOnDropHandle) → weigh each (names? task_of h) ≤ 1
one_active none = omega arith
one_active (some h) = omega arith

pub drop_all-names :
    {Stream : Type 0} (f : ℕ → ℕ) (m : BTreeMap AbortOnDropHandle) (ts : Tasks Stream)
    → (weigh f (drop_all m ts).aborted ≡ weigh f (names task_of m) + weigh f ts.aborted)
      × ((drop_all m ts).spawned ≡ ts.spawned)
unfolding drop_all
drop_all-names f [] ts = (omega arith, refl)
drop_all-names f ((k, h) ∷ m) ts =
    ground (arith, drop_all-names f m (record ts { aborted = h.task ∷ ts.aborted }))

module _ {O Stream : Type 0} where
  -- The weight of the handles that the manager holds.
  abbrev pub held : (ℕ → ℕ) → ConnectionManager O Stream → ℕ
  held f m =
      weigh f (names? task_of (handle_of m.active_connection))
      + weigh f (names task_of m.budding_connections)

  -- However tasks are weighed, those that are held or aborted balance those that were spawned.
  abbrev pub IsBalanced : (ℕ → ℕ) → ConnectionManager O Stream → Type 0
  IsBalanced f m = held f m + weigh f m.tasks.aborted ≡ weigh_below f (length m.tasks.spawned)

  module _ (f : ℕ → ℕ) where
    prune_first-IsBalanced :
        (m : ConnectionManager O Stream) (b : BTreeMap AbortOnDropHandle)
        → m.budding_connections ≡ b
        → IsBalanced f (record m { budding_connections = b })
        → IsBalanced f (prune_first (pop_first b) m).1
    unfolding prune_first pop_first
    prune_first-IsBalanced m [] e a = rw (e, prune_first) a
    prune_first-IsBalanced m ((k, h) ∷ b) e a = omega arith

    make_space-IsBalanced :
        (m : ConnectionManager O Stream) → IsBalanced f m → IsBalanced f (make_space m).1
    unfolding make_space
    make_space-IsBalanced m a =
        elim (Bool-cases (leb max_budding_connections (length m.budding_connections))) [
          | inl full ↦ rw full (prune_first-IsBalanced m m.budding_connections refl a)
          | inr spare ↦ rw spare a
        ]

    -- Spawning the handler and registering its handle, under a new id.
    enlist-IsBalanced :
        (k : ℕ) (stream : Stream) (m : ConnectionManager O Stream)
        → get k m.budding_connections ≡ none
        → IsBalanced f m
        → IsBalanced f ((spawn_handler k stream >>= register k) m).1
    unfolding spawn_handler register drop_option
    enlist-IsBalanced k stream m fresh a =
        let h : AbortOnDropHandle = record { task = length m.tasks.spawned } in
        ground (arith, names-insert task_of f k h m.budding_connections)

    module _ (m : ConnectionManager O Stream) where
      on_accept-IsBalanced :
          {Addr : Type 0} (ev : AcceptEvent Stream Addr)
          → Inv m
          → IsBalanced f m
          → IsBalanced f (on_accept ev m).1
      unfolding on_accept
      on_accept-IsBalanced ev v a =
          let m1 = (allocate_connection_id m).1 in
          let fresh =
            get-above m.next_connection_id (floor (id_of m.active_connection)) m.next_connection_id
              m.budding_connections v.ascending (omega arith) in
          resume_keeps (IsBalanced f) _ (make_space m1) (make_space-IsBalanced m1 a) λ _ a'.
            enlist-IsBalanced m.next_connection_id ev.stream (make_space m1).1
              (make_space-get m.next_connection_id m1 m.budding_connections refl fresh) a'

      on_exit-IsBalanced : (ev : ExitEvent) → IsBalanced f m → IsBalanced f (on_exit ev m).1
      unfolding on_exit drop_option
      on_exit-IsBalanced ev a =
          ground (arith, names-erase task_of f ev.connection_id m.budding_connections)

      promote-IsBalanced :
          (k : ℕ) (h : AbortOnDropHandle)
          → get k m.budding_connections ≡ some h
          → IsBalanced f m
          → IsBalanced f (promote k h m)
      unfolding promote drop_option
      promote-IsBalanced k h e a =
          let rest = erase k m.budding_connections in
          ground (
            arith,
            names-erase task_of f k m.budding_connections,
            names-split_off task_of f k rest,
            drop_all-names f (keep_below k rest)
                (drop_option (handle_of m.active_connection) m.tasks),
          )

  module _ (handler : OskHandler O) (f : ℕ → ℕ) where
    on_osk-IsBalanced :
        (ev : OskEvent) (m : ConnectionManager O Stream)
        → IsBalanced f m
        → IsBalanced f (on_osk handler ev m).1
    unfolding on_osk
    on_osk-IsBalanced ev m a = elim (Option-cases (get ev.connection_id m.budding_connections)) [
      | inl e ↦ ground arith
      | inr (h, e) ↦ ground (arith, promote-IsBalanced f m ev.connection_id h e a)
    ]

    pub on_event-IsBalanced :
        {Addr : Type 0} (ev : StreamEvent Stream Addr) (m : ConnectionManager O Stream)
        → Inv m
        → IsBalanced f m
        → IsBalanced f (on_event handler ev m).1
    unfolding on_event
    on_event-IsBalanced (StreamEvent.accept ev) m v a = on_accept-IsBalanced f m ev v a
    on_event-IsBalanced (StreamEvent.exit ev) m v a = on_exit-IsBalanced f m ev a
    on_event-IsBalanced (StreamEvent.osk ev) m v a = on_osk-IsBalanced ev m a

    pub event_loop-IsBalanced :
        {Addr : Type 0} (ps : List (Poll Stream Addr)) (o : O)
        → length ps < 2 ^ 64
        → IsBalanced f (event_loop handler ps (new o)).1
    unfolding new
    event_loop-IsBalanced ps o h =
        event_loop_keeps handler (IsBalanced f) (λ ev m' _ v a. on_event-IsBalanced ev m' v a) ps
          (new o) (omega arith) (new-Inv o) (omega arith)

  -- The task `t` is held or aborted once if it was spawned, and else never.
  abbrev pub IsAccounted : ℕ → ConnectionManager O Stream → Type 0
  IsAccounted t m =
      held (only t) m + count t m.tasks.aborted ≡ (if ltb t (length m.tasks.spawned) then 1 else 0)

  -- After any run of the event loop from a new manager with fewer than 2 ^ 64 events, each task
  -- that was spawned is held by the manager or has been told to abort, exactly one of both, and
  -- once.
  pub tasks-IsAccounted :
      (handler : OskHandler O) (t : ℕ) {Addr : Type 0} (ps : List (Poll Stream Addr)) (o : O)
      → length ps < 2 ^ 64
      → IsAccounted t (event_loop handler ps (new o)).1
  tasks-IsAccounted handler t ps o h =
      event_loop-IsBalanced handler (only t) ps o h
      ∙ only-below t (length (event_loop handler ps (new {Stream = Stream} o)).1.tasks.spawned)

  -- After any run of the event loop from a new manager with fewer than 2 ^ 64 events, however many
  -- connections were accepted, at most 2001 of the tasks that were spawned have not been told to
  -- abort, and no more were told to abort than were spawned.
  pub tasks_bounded :
      (handler : OskHandler O) {Addr : Type 0} (ps : List (Poll Stream Addr)) (o : O)
      → length ps < 2 ^ 64
      → let m = (event_loop handler ps (new {Stream = Stream} o)).1 in
        (length m.tasks.aborted ≤ length m.tasks.spawned)
        × (length m.tasks.spawned ≤ length m.tasks.aborted + (max_budding_connections + 1))
  tasks_bounded handler ps o h =
      let m = (event_loop handler ps (new {Stream = Stream} o)).1 in
      let v = event_loop-Inv handler ps (new o) (unfold new in omega arith) (new-Inv o) in
      let balanced = event_loop-IsBalanced handler each ps o h in
      omega (
        arith,
        balanced,
        v.bounded,
        each-names task_of m.budding_connections,
        each-aborted m.tasks.aborted,
        each-below (length m.tasks.spawned),
        one_active (handle_of m.active_connection),
      )
