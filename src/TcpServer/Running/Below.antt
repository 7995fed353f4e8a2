-- ===== src/TcpServer/Running/Below.antt =====
-- Which events and tasks belong to accepted connections, and what an event of
-- daisyway/src/internal/daisyway/net/tcp_server/connection_manager.rs does to the list of tasks.
use daisyway.Base.{
  ℕ, ◌+◌, ◌%◌, ◌^◌, ◌<◌, ◌≤◌, ◌≡◌, inl, inr, ap, sym, subst, ◌∙◌, List, [], ◌∷◌, ◌++◌, Result, ok,
  arith, resume-eq-ok, Option-cases, resume, ◌>>=◌, pure,
}
use daisyway.Osk.{OskHandler, fresh}
use daisyway.TcpServer.Events.{AcceptEvent, ConnectionHandlerEvent, StreamEvent, from}
use daisyway.TcpServer.Tasks.{Task, drop_option}
use daisyway.TcpServer.BTreeMap.{get, erase, keep_below}
use daisyway.TcpServer.Manager.Ownership.{drop_all-names}
use daisyway.TcpServer.Manager.{
  ConnectionManager, Poll, event_loop, on_event, on_accept, on_exit, on_osk, allocate_connection_id,
  promote, to_event, handle_of,
}
use daisyway.TcpServer.Manager.Invariant.{make_space-next}
use daisyway.TcpServer.Fanout.Notified.{AreKeysOf}

-- The connection that an event is about.
abbrev pub connection_of : ConnectionHandlerEvent → ℕ
connection_of (ConnectionHandlerEvent.exit e) = e.connection_id
connection_of (ConnectionHandlerEvent.osk e) = e.connection_id

-- Every event is an exit or a fresh key, of a connection with a number below `n`.
abbrev pub AreBelow : ℕ → List ConnectionHandlerEvent → Type 0
AreBelow n [] = Unit
AreBelow n (ConnectionHandlerEvent.exit e ∷ evs) = (e.connection_id < n) × AreBelow n evs
AreBelow n (ConnectionHandlerEvent.osk e ∷ evs) =
    (e.connection_id < n) × (e.reason ≡ fresh) × AreBelow n evs

pub AreBelow-widen :
    (n m : ℕ) (evs : List ConnectionHandlerEvent) → n ≤ m → AreBelow n evs → AreBelow m evs
AreBelow-widen n m [] le b = tt
AreBelow-widen n m (ConnectionHandlerEvent.exit e ∷ evs) le b =
    (omega arith, AreBelow-widen n m evs le b.1)
AreBelow-widen n m (ConnectionHandlerEvent.osk e ∷ evs) le b =
    (omega arith, b.1, AreBelow-widen n m evs le b.2)

pub AreBelow-keys :
    (n k : ℕ) (keys evs : List ConnectionHandlerEvent)
    → k < n
    → AreKeysOf k keys
    → AreBelow n evs
    → AreBelow n (keys ++ evs)
AreBelow-keys n k [] evs lt ks b = b
AreBelow-keys n k (ConnectionHandlerEvent.exit e ∷ keys) evs lt ks b = absurd ks
AreBelow-keys n k (ConnectionHandlerEvent.osk e ∷ keys) evs lt ks b =
    (omega arith, ks.1, AreBelow-keys n k keys evs lt ks.2 b)

pub AreBelow-prefix :
    (n : ℕ) (evs late : List ConnectionHandlerEvent) → AreBelow n (evs ++ late) → AreBelow n evs
AreBelow-prefix n [] late b = tt
AreBelow-prefix n (ConnectionHandlerEvent.exit e ∷ evs) late b =
    (b.0, AreBelow-prefix n evs late b.1)
AreBelow-prefix n (ConnectionHandlerEvent.osk e ∷ evs) late b =
    (b.0, b.1, AreBelow-prefix n evs late b.2)

-- So is the oldest event's, an exit.
pub AreBelow-exit :
    (n c : ℕ) (evs : List ConnectionHandlerEvent)
    → AreBelow n (evs ++ ConnectionHandlerEvent.exit (record { connection_id = c }) ∷ [])
    → c < n
AreBelow-exit n c [] b = b.0
AreBelow-exit n c (ConnectionHandlerEvent.exit e ∷ evs) b = AreBelow-exit n c evs b.1
AreBelow-exit n c (ConnectionHandlerEvent.osk e ∷ evs) b = AreBelow-exit n c evs b.2

abbrev pub TasksBelow : {Stream : Type 0} → ℕ → List (Task Stream) → Type 0
TasksBelow n [] = Unit
TasksBelow n (t ∷ ts) = (t.connection_id < n) × TasksBelow n ts

pub TasksBelow-widen :
    {Stream : Type 0} (n m : ℕ) (ts : List (Task Stream))
    → n ≤ m
    → TasksBelow n ts
    → TasksBelow m ts
TasksBelow-widen n m [] le b = tt
TasksBelow-widen n m (t ∷ ts) le b = (omega arith, TasksBelow-widen n m ts le b.1)

pub TasksBelow-member :
    {Stream : Type 0} (n : ℕ) (newer older : List (Task Stream)) (t : Task Stream)
    → TasksBelow n (newer ++ t ∷ older)
    → t.connection_id < n
TasksBelow-member n [] older t b = b.0
TasksBelow-member n (x ∷ newer) older t b = TasksBelow-member n newer older t b.1

module _ {O Stream : Type 0} where
  pub served :
      {Addr : Type 0} (handler : OskHandler O) (p : Poll Stream Addr) (ev : StreamEvent Stream Addr)
      (m m' : ConnectionManager O Stream)
      → to_event p ≡ ok ev
      → event_loop handler (p ∷ []) m ≡ (ok tt, m')
      → m' ≡ (on_event handler ev m).1
  unfolding event_loop
  served handler p ev m m' polled e =
      let (_, u, q, r) = resume-eq-ok _ (on_event handler ev m) (
        subst (λ x. resume (λ ev. on_event handler ev >>= λ _. pure tt) (x, m) ≡ (ok tt, m')) polled
          e) in
      ap (λ (x : Result (Unit {0}) × ConnectionManager O Stream). x.1) (sym r)
      ∙ ap (λ (x : Result (Unit {0}) × ConnectionManager O Stream). x.1) (sym q)

  pub on_accept-next_eq :
      {Addr : Type 0} (ev : AcceptEvent Stream Addr) (m : ConnectionManager O Stream)
      → (on_accept ev m).1.next_connection_id ≡ (m.next_connection_id + 1) % 2 ^ 64
  unfolding on_accept allocate_connection_id
  on_accept-next_eq ev m = ground (arith, make_space-next (allocate_connection_id m).1)

  pub on_event-spawned :
      (Addr : Type 0) (handler : OskHandler O) (ev : ConnectionHandlerEvent)
      (m : ConnectionManager O Stream)
      → let m' = (on_event handler (from {Addr = Addr} ev) m).1 in
        (m'.tasks.spawned ≡ m.tasks.spawned) × (m'.next_connection_id ≡ m.next_connection_id)
  unfolding on_event on_exit on_osk promote from drop_option
  on_event-spawned Addr handler (ConnectionHandlerEvent.exit ev) m = ground arith
  on_event-spawned Addr handler (ConnectionHandlerEvent.osk ev) m =
      elim (Option-cases (get ev.connection_id m.budding_connections)) [
        | inl e ↦ ground arith
        | inr (h, e) ↦
            let rest = erase ev.connection_id m.budding_connections in
            ground (
              arith,
              drop_all-names (λ t. t) (keep_below ev.connection_id rest)
                  (drop_option (handle_of m.active_connection) m.tasks),
            )
      ]
