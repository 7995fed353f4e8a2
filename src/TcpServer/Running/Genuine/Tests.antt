-- ===== src/TcpServer/Running/Genuine/Tests.antt =====
-- A run of the server of daisyway/src/internal/daisyway/net/tcp_server whose only connection negotiates a key.
use daisyway.Base.{ℕ, ◌≡◌, refl, inr, some, ok, List, [], ◌∷◌, arith}
use daisyway.Crypto.Key.{Key}
use daisyway.Crypto.World.{World}
use daisyway.Crypto.Basics.{derive_daisyway_key}
use daisyway.Crypto.Server.{negotiate_key}
use daisyway.Crypto.Toys.{Socket, toy_uuid, toy_shake, toy_nonce, qkd_key, params}
use daisyway.Osk.Recording.{AllHave, logbook, logbook-IsRecording}
use daisyway.Osk.{fresh}
use daisyway.TcpServer.BTreeMap.{get, insert}
use daisyway.TcpServer.Events.{ConnectionHandlerEvent, from}
use daisyway.TcpServer.Tasks.{drop_option}
use daisyway.TcpServer.Manager.{
  id_of, accepted, notified, new, make_space, on_accept, on_osk, promote, on_event, event_loop,
}
use daisyway.TcpServer.Fanout.{init_task, parts_of}
use daisyway.TcpServer.Fanout.Exchanged.{IsExchanged}
use daisyway.TcpServer.Running.{
  Running, accepts, serves, runs, Reach, here, later, start, after_round,
}
use daisyway.TcpServer.Running.Delivering.{negotiated_delivered}
use daisyway.TcpServer.Running.Sound.{Reach-Sound}
use daisyway.TcpServer.Manager.Invariant.{Inv}
use daisyway.TcpServer.Manager.Gone.{IsLive}
use daisyway.TcpServer.Running.Genuine.{written-IsExchanged}
use daisyway.TcpServer.Running.Tests.{Queue, channel, ps}

abbrev pub acknowledging : World Socket (Unit {0}) ℕ Queue
acknowledging = record {
  stream = record { sent = []; incoming = 1 ∷ [] };
  etsi = tt;
  runtime = 0;
  osk = [];
}

abbrev pub initial : Running (List Key) ℕ Queue
initial = start [] []

abbrev pub with_one : Running (List Key) ℕ Queue
with_one = record initial {
  manager = (event_loop logbook {Addr = ℕ} (accepted (70, 0) ∷ []) initial.manager).1;
}

abbrev pub negotiated : Running (List Key) ℕ Queue
negotiated = after_round 0 with_one (init_task ps params channel.send 120 0 1 acknowledging)

abbrev pub derived : Key
derived = derive_daisyway_key toy_uuid toy_shake params toy_nonce qkd_key

abbrev pub delivered : Running (List Key) ℕ Queue
delivered = record negotiated {
  manager =
      (event_loop logbook {Addr = ℕ}
        (notified (
            ConnectionHandlerEvent.osk
              (record { connection_id = 0; key = derived; reason = fresh }))
          ∷ [])
        negotiated.manager).1;
  queue = [];
}

accepted-Reach : Reach ps params channel logbook 120 ℕ initial with_one
unfolding start event_loop on_event on_accept make_space new drop_option get insert
accepted-Reach = later here (accepts 70 0 (omega arith) refl)

pub delivered-Reach : Reach ps params channel logbook 120 ℕ initial delivered
unfolding start event_loop on_event on_accept on_osk promote make_space new drop_option get insert
    init_task negotiate_key channel from
delivered-Reach =
    later
      (later accepted-Reach
        (runs (record { connection_id = 0; stream = 70 }) [] [] acknowledging refl refl refl))
      (serves _ refl refl)

delivered_keys : delivered.manager.osk_handler ≡ derived ∷ []
unfolding start event_loop on_event on_accept on_osk promote make_space new drop_option get insert
    init_task negotiate_key channel from
delivered_keys = refl

written-IsExchanged_example : AllHave (IsExchanged ps params) delivered.manager.osk_handler
unfolding logbook-IsRecording channel
written-IsExchanged_example =
    written-IsExchanged ps params channel logbook logbook-IsRecording 120 ℕ [] [] refl refl
      delivered-Reach

abbrev key_event : ConnectionHandlerEvent
key_event = ConnectionHandlerEvent.osk (record { connection_id = 0; key = derived; reason = fresh })

with_one-Inv : Inv with_one.manager
with_one-Inv =
    (Reach-Sound ps params channel logbook 120 ℕ [] [] (unfold channel in refl)
      accepted-Reach).managed

with_one-IsLive : IsLive 0 with_one.manager
unfolding start event_loop on_event on_accept make_space new drop_option get insert
with_one-IsLive = inr (record { task = 0 }, refl)

negotiated_delivered_example :
    (negotiated.has_ended 0 ≡ with_one.has_ended 0)
    × ((ok tt, delivered.manager.osk_handler)
        ≡ logbook.set_osk derived fresh with_one.manager.osk_handler)
    × (id_of delivered.manager.active_connection ≡ some 0)
unfolding start event_loop on_event on_accept on_osk promote make_space new drop_option get insert
    init_task negotiate_key channel from parts_of
negotiated_delivered_example =
    negotiated_delivered ps params channel logbook 120 ℕ with_one 0 derived acknowledging
      (negotiate_key (parts_of ps params channel.send 0) params acknowledging).1 key_event []
      with_one-Inv with_one-IsLive refl refl refl refl refl refl
