-- ===== src/TcpServer/Manager/Superseded.antt =====
-- Which connections reach the key handler of daisyway/src/internal/daisyway/net/tcp_server/connection_manager.rs,
-- and which never do again.
use daisyway.Base.{
  ℕ, ◌+◌, ◌^◌, ◌<◌, ◌≡◌, refl, inl, inr, List, some, ok, arith, length, Option-cases,
}
use daisyway.Osk.{OskHandler}
use daisyway.TcpServer.BTreeMap.{get}
use daisyway.TcpServer.BTreeMap.Lookup.{get-below, get-bounds}
use daisyway.TcpServer.Events.{ExitEvent, OskEvent, StreamEvent}
use daisyway.TcpServer.Manager.{
  ConnectionManager, Poll, id_of, on_exit, promote, on_osk, on_event, event_loop,
}
use daisyway.TcpServer.Manager.Invariant.{Inv, floor, on_exit-Inv, on_osk-Inv, event_loop_keeps}
use daisyway.TcpServer.Manager.Gone.{
  IsLive, IsGone, promote-IsGone, promote_older, on_accept-IsGone, on_exit-IsGone,
  on_exit-IsGone_now, IsGone-not-IsLive,
}

module _ {O Stream : Type 0} where
  on_exit-next :
      (ev : ExitEvent) (m : ConnectionManager O Stream)
      → (on_exit ev m).1.next_connection_id ≡ m.next_connection_id
  unfolding on_exit
  on_exit-next ev m = ground arith

  module _ (handler : OskHandler O) where
    on_osk-next :
        (ev : OskEvent) (m : ConnectionManager O Stream)
        → (on_osk handler ev m).1.next_connection_id ≡ m.next_connection_id
    unfolding on_osk promote
    on_osk-next ev m = ground arith

    pub on_osk-IsGone :
        (c : ℕ) (ev : OskEvent) (m : ConnectionManager O Stream)
        → IsGone c m
        → IsGone c (on_osk handler ev m).1
    unfolding on_osk
    on_osk-IsGone c ev m g = elim (Option-cases (get ev.connection_id m.budding_connections)) [
      | inl e ↦ ground arith
      | inr (h, e) ↦
          ground (arith, promote-IsGone c m ev.connection_id h (ground (arith, g.not_budding)) g)
    ]

    pub on_event-IsGone :
        {Addr : Type 0} (c : ℕ) (ev : StreamEvent Stream Addr) (m : ConnectionManager O Stream)
        → m.next_connection_id + 1 < 2 ^ 64
        → IsGone c m
        → IsGone c (on_event handler ev m).1
    unfolding on_event
    on_event-IsGone c (StreamEvent.accept ev) m h g = on_accept-IsGone c m ev h g
    on_event-IsGone c (StreamEvent.exit ev) m h g = on_exit-IsGone c m ev g
    on_event-IsGone c (StreamEvent.osk ev) m h g = on_osk-IsGone c ev m g

    -- A key of a connection that the manager does not hold is discarded: the manager and its
    -- handler stay as they are.
    pub on_osk_ignored :
        (ev : OskEvent) (m : ConnectionManager O Stream)
        → ¬ IsLive ev.connection_id m
        → on_osk handler ev m ≡ (ok tt, m)
    unfolding on_osk
    on_osk_ignored ev m dead = elim (Option-cases (get ev.connection_id m.budding_connections)) [
      | inl e ↦
          ground (arith, λ (p : id_of m.active_connection ≡ some ev.connection_id). dead (inl p))
      | inr found ↦ absurd (dead (inr found))
    ]

    -- In a state that keeps the invariant, a key of a connection that the manager holds is given
    -- to the key handler, whose outcome is that of the event, and this connection is then the
    -- active one.
    pub on_osk_forwards :
        (ev : OskEvent) (m : ConnectionManager O Stream)
        → Inv m
        → IsLive ev.connection_id m
        → let (r, m') = on_osk handler ev m in
          ((r, m'.osk_handler) ≡ handler.set_osk ev.key ev.reason m.osk_handler)
          × (id_of m'.active_connection ≡ some ev.connection_id)
    unfolding on_osk promote
    on_osk_forwards ev m v (inl e) = ground arith
    on_osk_forwards ev m v (inr (h, e)) = ground (
      arith,
      get-bounds ev.connection_id (floor (id_of m.active_connection)) m.next_connection_id h
          m.budding_connections v.ascending e,
    )

    -- Every older connection is gone from then on.
    pub on_osk_supersedes :
        (c : ℕ) (ev : OskEvent) (m : ConnectionManager O Stream)
        → Inv m
        → IsLive ev.connection_id m
        → c < ev.connection_id
        → IsGone c (on_osk handler ev m).1
    unfolding on_osk
    on_osk_supersedes c ev m v (inl e) lt = ground (
      arith,
      get-below c (floor (id_of m.active_connection)) m.next_connection_id m.budding_connections
          v.ascending,
    )
    on_osk_supersedes c ev m v (inr (h, e)) lt = ground (
      arith,
      promote_older c m ev.connection_id h e v lt,
      get-bounds ev.connection_id (floor (id_of m.active_connection)) m.next_connection_id h
          m.budding_connections v.ascending e,
    )

    pub event_loop-IsGone :
        {Addr : Type 0} (c : ℕ) (ps : List (Poll Stream Addr)) (m : ConnectionManager O Stream)
        → m.next_connection_id + length ps < 2 ^ 64
        → Inv m
        → IsGone c m
        → IsGone c (event_loop handler ps m).1
    event_loop-IsGone c ps m h v g =
        event_loop_keeps handler (IsGone c) (λ ev m' h' _ g'. on_event-IsGone c ev m' h' g') ps m h
          v g

    -- In a state that keeps the invariant, once a connection that the manager holds has delivered
    -- a key, a key of an older connection changes nothing after any further run of the event loop,
    -- while connection numbers do not wrap around.
    pub superseded_silent :
        {Addr : Type 0} (ev late : OskEvent) (ps : List (Poll Stream Addr))
        (m : ConnectionManager O Stream)
        → Inv m
        → IsLive ev.connection_id m
        → late.connection_id < ev.connection_id
        → m.next_connection_id + length ps < 2 ^ 64
        → let m' = (event_loop handler ps (on_osk handler ev m).1).1 in
          on_osk handler late m' ≡ (ok tt, m')
    superseded_silent ev late ps m v live older h =
        let c = late.connection_id in
        on_osk_ignored late _ (
          IsGone-not-IsLive c _ (
            event_loop-IsGone c ps (on_osk handler ev m).1 (omega (arith, on_osk-next ev m))
              (on_osk-Inv handler ev m v) (on_osk_supersedes c ev m v live older)))

    -- In a state that keeps the invariant, once a connection that was accepted has exited, a key
    -- of it changes nothing after any further run of the event loop, while connection numbers do
    -- not wrap around.
    pub exited_silent :
        {Addr : Type 0} (ev : ExitEvent) (late : OskEvent) (ps : List (Poll Stream Addr))
        (m : ConnectionManager O Stream)
        → Inv m
        → ev.connection_id < m.next_connection_id
        → late.connection_id ≡ ev.connection_id
        → m.next_connection_id + length ps < 2 ^ 64
        → let m' = (event_loop handler ps (on_exit ev m).1).1 in
          on_osk handler late m' ≡ (ok tt, m')
    exited_silent ev late ps m v known same h = on_osk_ignored late _ (
        rw same (
          IsGone-not-IsLive ev.connection_id _ (
            event_loop-IsGone ev.connection_id ps (on_exit ev m).1
              (omega (arith, on_exit-next ev m)) (on_exit-Inv ev m v)
              (on_exit-IsGone_now ev.connection_id m ev v refl known))))
