-- ===== src/TcpServer/Listener.antt =====
-- daisyway/src/internal/daisyway/net/tcp_server/mod.rs: a server, from its address to the event loop.
use daisyway.Base.{◌^◌, ◌<◌, ◌≡◌, refl, List, [], Result, ok, err, panic, Action, length, arith}
use daisyway.Osk.{OskHandler}
use daisyway.TcpServer.Events.{OskEvent}
use daisyway.TcpServer.Manager
use daisyway.TcpServer.Manager.{ConnectionManager, Poll, new}
use daisyway.TcpServer.Manager.Invariant.{new-Inv}
use daisyway.TcpServer.Manager.Deliveries.{Climbs, replay, deliveries, deliveries-Climbs}

module _ {O Stream Addr Peer Listener : Type 0} (handler : OskHandler O)
    (bind : Addr → Result Listener) (polls : Listener → List (Poll Stream Peer)) where
  -- The manager's loop over what the listener and its queue yield; the state is the key handler's.
  abbrev with_listener : Result Listener → Action O (Unit {0})
  with_listener (ok listener) o =
      let (r, m) = Manager.event_loop handler (polls listener) (new {Stream = Stream} o) in
      (r, m.osk_handler)
  with_listener (err e) o = (err e, o)
  with_listener (panic s) o = (panic s, o)

  unfoldable pub event_loop : Addr → Action O (Unit {0})
  event_loop listen_addr = with_listener (bind listen_addr)

  -- With fewer than 2 ^ 64 events, the key handler of a server is given keys in the order of their
  -- connections and nothing else, and none if the address cannot be bound.
  pub event_loop-Climbs :
      (listen_addr : Addr) (o : O)
      → ((l : Listener) → length (polls l) < 2 ^ 64)
      → (evs : List OskEvent) × Climbs 0 evs × ((event_loop listen_addr o).1 ≡ replay handler evs o)
  unfolding event_loop
  event_loop-Climbs listen_addr o bounded = bound (bind listen_addr)
    where
      bound :
          (r : Result Listener)
          → (evs : List OskEvent) × Climbs 0 evs × ((with_listener r o).1 ≡ replay handler evs o)
      bound (ok l) =
          let (climbs, state) =
            deliveries-Climbs handler (polls l) (new o) (unfold new in omega (arith, bounded l))
              (new-Inv o) in
          (deliveries handler (polls l) (new o), climbs, unfold new in state)
      bound (err e) = ([], tt, refl)
      bound (panic s) = ([], tt, refl)
