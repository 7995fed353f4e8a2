-- ===== src/TcpServer/Fanout/Tests.antt =====
-- The task of daisyway/src/internal/daisyway/net/tcp_server/fanout_connection_handler.rs, with a queue that is
-- never closed.
use daisyway.Base.{ℕ, ◌≡◌, ◌⊎◌, refl, List, [], ◌∷◌, ◌++◌, ok, arith}
use daisyway.Crypto.Key.{Bytes}
use daisyway.Crypto.World.{World, Parts}
use daisyway.Crypto.Server.{negotiate_key}
use daisyway.Crypto.Toys.{Socket, parts_with, params}
use daisyway.TcpServer.Events.{ConnectionHandlerEvent}
use daisyway.TcpServer.Fanout.{Sender, ended, init_task}
use daisyway.TcpServer.Fanout.Notified.{IsQueue, AreKeysOf, init_task-tagged}

abbrev Queue : Type 0
Queue = List ConnectionHandlerEvent

abbrev push : Sender Queue
push ev q = (ok tt, ev ∷ q)

queue : IsQueue push
queue = record { sent = λ q. q; sends = λ ev q h. refl; fails = λ ev q h. ground arith }

abbrev ps : Parts Socket (Unit {0}) ℕ Queue
ps = parts_with (record { set_osk = λ key reason log. (ok tt, log) })

abbrev node : Bytes → World Socket (Unit {0}) ℕ Queue
node incoming = record {
  stream = record { sent = []; incoming = incoming };
  etsi = tt;
  runtime = 0;
  osk = [];
}

-- One key is negotiated, then the peer is gone.
one_key : (init_task ps params push 120 3 2 (node (1 ∷ []))).0 ≡ ok ended
unfolding init_task negotiate_key
one_key = refl

init_task-tagged_example :
    (keys : Queue) × AreKeysOf 3 keys
    × (((init_task ps params push 120 3 2 (node (1 ∷ []))).1.osk ≡ keys ++ [])
        ⊎ (((init_task ps params push 120 3 2 (node (1 ∷ []))).0 ≡ ok ended)
            × ((init_task ps params push 120 3 2 (node (1 ∷ []))).1.osk
                ≡ ConnectionHandlerEvent.exit (record { connection_id = 3 }) ∷ keys ++ [])))
unfolding queue
init_task-tagged_example = init_task-tagged ps params push queue 120 3 2 (node (1 ∷ []))
