-- ===== src/TcpServer/Manager/Deliveries.antt =====
-- The order in which connections get their keys to the key handler of
-- daisyway/src/internal/daisyway/net/tcp_server/connection_manager.rs.
use daisyway.Base.{
  ℕ, ◌+◌, ◌^◌, ◌≤◌, ◌<◌, ◌≡◌, refl, inl, inr, List, [], ◌∷◌, Option, none, some, Bool, true, false,
  ◌||◌, Result, ok, err, panic, arith, length, Option-cases, Bool-cases, resume, ◌∙◌, ◌>>=◌, ap,
  if◌then◌else◌,
}
use daisyway.Osk.{OskHandler}
use daisyway.TcpServer.BTreeMap.{get}
use daisyway.TcpServer.Events.{OskEvent, StreamEvent}
use daisyway.TcpServer.Manager.{
  ConnectionManager, Poll, id_of, is_id, to_event, on_event, event_loop, on_exit, on_osk,
}
use daisyway.TcpServer.Manager.Invariant.{Inv, on_event-Inv, on_event-next}
use daisyway.TcpServer.Manager.Gone.{IsLive, IsGone, IsGone-not-IsLive, on_exit-IsGone}
use daisyway.TcpServer.Manager.Accepting.{on_accept_lem}
use daisyway.TcpServer.Manager.View.{is_held}
use daisyway.TcpServer.Manager.Superseded.{
  on_osk_supersedes, on_osk_forwards, on_osk_ignored, on_event-IsGone,
}

abbrev cons? : Option OskEvent → List OskEvent → List OskEvent
cons? none evs = evs
cons? (some ev) evs = ev ∷ evs

-- The connections ascend, from `lo` on.
abbrev pub Climbs : ℕ → List OskEvent → Type 0
Climbs lo [] = Unit
Climbs lo (ev ∷ evs) = (lo ≤ ev.connection_id) × Climbs ev.connection_id evs

-- The key handler after it was given these keys, in this order.
abbrev pub replay : {O : Type 0} → OskHandler O → List OskEvent → O → O
replay handler [] o = o
replay handler (ev ∷ evs) o = replay handler evs (handler.set_osk ev.key ev.reason o).1

module _ {O Stream : Type 0} where
  -- The manager holds the connection, as a test.
  unfoldable pub is_live : ℕ → ConnectionManager O Stream → Bool
  is_live c m = is_id c (id_of m.active_connection) || is_held (get c m.budding_connections)

  -- The key that an event gives to the key handler.
  unfoldable pub delivered :
      {Addr : Type 0} → StreamEvent Stream Addr → ConnectionManager O Stream → Option OskEvent
  delivered (StreamEvent.accept ev) m = none
  delivered (StreamEvent.exit ev) m = none
  delivered (StreamEvent.osk ev) m = if is_live ev.connection_id m then some ev else none

  -- Older connections than `lo` are not held.
  abbrev Above : ℕ → ConnectionManager O Stream → Type 0
  Above lo m = (c : ℕ) → c < lo → IsGone c m

  is_live-IsLive : (c : ℕ) (m : ConnectionManager O Stream) → is_live c m ≡ true → IsLive c m
  unfolding is_live
  is_live-IsLive c m h = elim (Option-cases (get c m.budding_connections)) [
    | inl e ↦ inl (ground arith)
    | inr found ↦ inr found
  ]

  not-IsLive : (c : ℕ) (m : ConnectionManager O Stream) → is_live c m ≡ false → ¬ IsLive c m
  unfolding is_live
  not-IsLive c m h (inl e) = ground arith
  not-IsLive c m h (inr (x, e)) = ground arith

  IsLive-not-below : (c lo : ℕ) (m : ConnectionManager O Stream) → Above lo m → IsLive c m → lo ≤ c
  IsLive-not-below c lo m above live =
      omega (arith, λ (lt : c < lo). IsGone-not-IsLive c m (above c lt) live)

  abbrev after_event :
      (ConnectionManager O Stream → List OskEvent)
      → Option OskEvent
      → Result (Unit {0}) × ConnectionManager O Stream
      → List OskEvent
  after_event rest d (ok a, m) = cons? d (rest m)
  after_event rest d (err e, m) = cons? d []
  after_event rest d (panic s, m) = cons? d []

  module _ (handler : OskHandler O) where
    abbrev after_poll :
        {Addr : Type 0}
        → (ConnectionManager O Stream → List OskEvent)
        → ConnectionManager O Stream
        → Result (StreamEvent Stream Addr)
        → List OskEvent
    after_poll rest m (ok ev) = after_event rest (delivered ev m) (on_event handler ev m)
    after_poll rest m (err e) = []
    after_poll rest m (panic s) = []

    -- The keys that a run of the event loop gives to the key handler, in this order.
    unfoldable pub deliveries :
        {Addr : Type 0} → List (Poll Stream Addr) → ConnectionManager O Stream → List OskEvent
    unfolding delivered
    deliveries [] m = []
    deliveries (p ∷ ps) m = after_poll (deliveries ps) m (to_event p)

    -- What an event leaves, of which `d` is delivered.
    abbrev Delivers :
        ℕ → ConnectionManager O Stream → Option OskEvent → ConnectionManager O Stream → Type 0
    Delivers lo m none m' = Above lo m' × (m'.osk_handler ≡ m.osk_handler)
    Delivers lo m (some ev) m' =
        (lo ≤ ev.connection_id)
        × Above ev.connection_id m'
        × (m'.osk_handler ≡ (handler.set_osk ev.key ev.reason m.osk_handler).1)

    on_osk-Delivers :
        (lo : ℕ) (ev : OskEvent) (m : ConnectionManager O Stream)
        → Inv m
        → Above lo m
        → Delivers lo m
            (if is_live ev.connection_id m then some ev else none)
            (on_osk handler ev m).1
    on_osk-Delivers lo ev m v above = elim (Bool-cases (is_live ev.connection_id m)) [
      | inl e ↦
          let live = is_live-IsLive ev.connection_id m e in
          rw e (
            IsLive-not-below ev.connection_id lo m above live,
            λ c lt. on_osk_supersedes handler c ev m v live lt,
            ap (λ (p : Result (Unit {0}) × O). p.1) (on_osk_forwards handler ev m v live).0,
          )
      | inr e ↦ rw (e, on_osk_ignored handler ev m (not-IsLive ev.connection_id m e)) (above, refl)
    ]

    on_event-Delivers :
        {Addr : Type 0} (lo : ℕ) (ev : StreamEvent Stream Addr) (m : ConnectionManager O Stream)
        → m.next_connection_id + 1 < 2 ^ 64
        → Inv m
        → Above lo m
        → Delivers lo m (delivered ev m) (on_event handler ev m).1
    unfolding on_event delivered on_exit
    on_event-Delivers lo (StreamEvent.accept ev) m h v above = (
      λ c lt. on_event-IsGone handler c (StreamEvent.accept ev) m h (above c lt),
      (on_accept_lem ev m v).4,
    )
    on_event-Delivers lo (StreamEvent.exit ev) m h v above =
        (λ c lt. on_exit-IsGone c m ev (above c lt), ground arith)
    on_event-Delivers lo (StreamEvent.osk ev) m h v above = on_osk-Delivers lo ev m v above

    -- The keys of a run, and the key handler at its end.
    abbrev Ordered :
        {Addr : Type 0} → ℕ → List (Poll Stream Addr) → ConnectionManager O Stream → Type 0
    Ordered lo ps m =
        Climbs lo (deliveries ps m)
        × ((event_loop handler ps m).1.osk_handler ≡ replay handler (deliveries ps m) m.osk_handler)

    after_event-Ordered :
        {Addr : Type 0} (lo : ℕ) (ps : List (Poll Stream Addr)) (m : ConnectionManager O Stream)
        (d : Option OskEvent) (p : Result (Unit {0}) × ConnectionManager O Stream)
        → Delivers lo m d p.1
        → ((lo' : ℕ) → Above lo' p.1 → Ordered lo' ps p.1)
        → Climbs lo (after_event (deliveries ps) d p)
          × ((resume (λ _. event_loop handler ps) p).1.osk_handler
              ≡ replay handler (after_event (deliveries ps) d p) m.osk_handler)
    after_event-Ordered lo ps m none (ok a, m') d ih =
        let (climbs, o) = ih lo d.0 in (climbs, o ∙ ap (replay handler (deliveries ps m')) d.1)
    after_event-Ordered lo ps m (some ev) (ok a, m') d ih =
        let (climbs, o) = ih ev.connection_id d.1 in
        ((d.0, climbs), o ∙ ap (replay handler (deliveries ps m')) d.2)
    after_event-Ordered lo ps m none (err x, m') d ih = (tt, d.1)
    after_event-Ordered lo ps m (some ev) (err x, m') d ih = ((d.0, tt), d.2)
    after_event-Ordered lo ps m none (panic x, m') d ih = (tt, d.1)
    after_event-Ordered lo ps m (some ev) (panic x, m') d ih = ((d.0, tt), d.2)

    polled-Ordered :
        {Addr : Type 0} (lo : ℕ) (ps : List (Poll Stream Addr)) (m : ConnectionManager O Stream)
        (r : Result (StreamEvent Stream Addr))
        → m.next_connection_id + 1 < 2 ^ 64
        → Inv m
        → Above lo m
        → ((ev : StreamEvent Stream Addr) (lo' : ℕ)
            → Above lo' (on_event handler ev m).1
            → Ordered lo' ps (on_event handler ev m).1)
        → Climbs lo (after_poll (deliveries ps) m r)
          × ((resume
                (λ ev. on_event handler ev >>= λ _. event_loop handler ps)
                (r, m)).1.osk_handler
              ≡ replay handler (after_poll (deliveries ps) m r) m.osk_handler)
    polled-Ordered lo ps m (ok ev) h v above ih =
        after_event-Ordered lo ps m (delivered ev m) (on_event handler ev m)
          (on_event-Delivers lo ev m h v above) (ih ev)
    polled-Ordered lo ps m (err x) h v above ih = (tt, refl)
    polled-Ordered lo ps m (panic x) h v above ih = (tt, refl)

    run-Ordered :
        {Addr : Type 0} (lo : ℕ) (ps : List (Poll Stream Addr)) (m : ConnectionManager O Stream)
        → m.next_connection_id + length ps < 2 ^ 64
        → Inv m
        → Above lo m
        → Ordered lo ps m
    unfolding deliveries event_loop
    run-Ordered lo [] m h v above = (tt, refl)
    run-Ordered lo (p ∷ ps) m h v above =
        polled-Ordered lo ps m (to_event p) (omega arith) v above λ ev lo' a.
          run-Ordered lo' ps (on_event handler ev m).1 (omega (arith, on_event-next handler ev m))
            (on_event-Inv handler ev m (omega arith) v) a

    -- In a state that keeps the invariant, and while connection numbers do not wrap around, the
    -- key handler is given the keys of a run of the event loop in the order of their connections,
    -- never one of a connection after one of a younger connection, and nothing else changes it.
    pub deliveries-Climbs :
        {Addr : Type 0} (ps : List (Poll Stream Addr)) (m : ConnectionManager O Stream)
        → m.next_connection_id + length ps < 2 ^ 64
        → Inv m
        → Climbs 0 (deliveries ps m)
          × ((event_loop handler ps m).1.osk_handler
              ≡ replay handler (deliveries ps m) m.osk_handler)
    deliveries-Climbs ps m h v = run-Ordered 0 ps m h v (λ c lt. absurd (omega arith))
