-- ===== src/TcpServer/Running/Tests.antt =====
-- A run of the server of daisyway/src/internal/daisyway/net/tcp_server with one connection, whose peer
-- goes away at once.
use daisyway.Base.{
  ℕ, ◌≡◌, refl, List, [], ◌∷◌, ◌++◌, Option, none, some, ok, true, false, arith, Option-cases, inl,
  inr, ◌≢◌,
}
use daisyway.Crypto.World.{World, Parts}
use daisyway.Crypto.Server.{negotiate_key}
use daisyway.Crypto.Toys.{Socket, parts_with, params}
use daisyway.Osk.{OskHandler}
use daisyway.TcpServer.BTreeMap.{get, insert, erase}
use daisyway.TcpServer.Events.{ConnectionHandlerEvent, from}
use daisyway.TcpServer.Tasks.{drop_option}
use daisyway.TcpServer.Manager.{
  accepted, notified, new, make_space, on_accept, on_exit, on_event, event_loop,
}
use daisyway.TcpServer.Fanout.{init_task}
use daisyway.TcpServer.Running.{
  Channel, Running, accepts, runs, Reach, here, later, start, after_round,
}
use daisyway.TcpServer.Running.Final.{exit_of}
use daisyway.TcpServer.Running.Sound.{Sound, Reach-Sound}
use daisyway.TcpServer.Running.Last.{IsOver, exit_last}

abbrev pub Queue : Type 0
Queue = List ConnectionHandlerEvent

abbrev pub cons_back :
    ConnectionHandlerEvent
    → Option (ConnectionHandlerEvent × Queue)
    → Option (ConnectionHandlerEvent × Queue)
cons_back ev none = some (ev, [])
cons_back ev (some (oldest, q)) = some (oldest, ev ∷ q)

abbrev pub oldest : Queue → Option (ConnectionHandlerEvent × Queue)
oldest [] = none
oldest (ev ∷ q) = cons_back ev (oldest q)

cons_back-none : (ev : ConnectionHandlerEvent) (q : Queue) → oldest q ≡ none → q ≡ []
cons_back-none ev [] e = refl
cons_back-none ev (x ∷ q) e = absurd (never (oldest q) e)
  where
    never : (o : Option (ConnectionHandlerEvent × Queue)) → cons_back x o ≡ none → ⊥
    never none f = ground arith
    never (some (y, r)) f = ground arith

pub oldest_lem :
    (ev : ConnectionHandlerEvent) (q q' : Queue) → oldest q ≡ some (ev, q') → q ≡ q' ++ ev ∷ []
oldest_lem ev [] q' e = ground arith
oldest_lem ev (x ∷ q) q' e = elim (Option-cases (oldest q)) [
  | inl f ↦ ground (arith, cons_back-none x q f)
  | inr ((y, r), f) ↦ ground (arith, oldest_lem y q r f)
]

pub true-ne-false : true ≢ false
true-ne-false e = ground arith

unfoldable pub channel : Channel Queue
channel = record {
  send = λ ev q. (ok tt, ev ∷ q);
  recv = oldest;
  pending = λ q. q;
  sends = λ ev q e. refl;
  fails = λ ev q e. absurd (true-ne-false e);
  receives = oldest_lem;
}

abbrev pub ps : Parts Socket (Unit {0}) ℕ Queue
ps = parts_with (record { set_osk = λ key reason q. (ok tt, q) })

abbrev counter : OskHandler ℕ
counter = record { set_osk = λ key reason n. (ok tt, n) }

abbrev lost_peer : World Socket (Unit {0}) ℕ Queue
lost_peer = record {
  stream = record { sent = []; incoming = [] };
  etsi = tt;
  runtime = 0;
  osk = [];
}

abbrev initial : Running ℕ ℕ Queue
initial = start 0 []

abbrev with_one : Running ℕ ℕ Queue
with_one = record initial {
  manager = (event_loop counter {Addr = ℕ} (accepted (70, 0) ∷ []) initial.manager).1;
}

abbrev lost : Running ℕ ℕ Queue
lost = after_round 0 with_one (init_task ps params channel.send 120 0 1 lost_peer)

lost-Reach : Reach ps params channel counter 120 ℕ initial lost
unfolding start event_loop on_event on_accept make_space new drop_option get insert
lost-Reach =
    later (later here (accepts 70 0 (omega arith) refl))
      (runs (record { connection_id = 0; stream = 70 }) [] [] lost_peer refl refl refl)

lost_queue : lost.queue ≡ exit_of 0 ∷ []
unfolding start init_task negotiate_key channel
lost_queue = refl

Reach-Sound_example : Sound ps params channel counter 120 ℕ lost
unfolding channel
Reach-Sound_example = Reach-Sound ps params channel counter 120 ℕ 0 [] refl lost-Reach

abbrev served : Running ℕ ℕ Queue
served = record lost {
  manager = (event_loop counter {Addr = ℕ} (notified (exit_of 0) ∷ []) lost.manager).1;
  queue = [];
}

exit_last_example : IsOver ps params channel counter 120 ℕ 0 served
unfolding start init_task negotiate_key channel event_loop on_event on_accept on_exit make_space new
    drop_option get insert erase from
exit_last_example = exit_last ps params channel counter 120 ℕ 0 [] 0 refl lost-Reach refl refl here
