-- ===== src/TcpServer/Tests.antt =====
-- The manager of daisyway/src/internal/daisyway/net/tcp_server/connection_manager.rs at work: three connections,
-- of which the second delivers the first key.
use daisyway.Base.{◌≤◌, ◌+◌, ℕ, ◌≡◌, refl, inl, inr, List, [], ◌∷◌, ◌++◌, some, ok, arith, length}
use daisyway.Crypto.Key.{Key}
use daisyway.Osk.{SetOskReason, fresh, OskHandler}
use daisyway.TcpServer.BTreeMap.{get, insert, erase, keep_below, split_off}
use daisyway.TcpServer.Events.{ExitEvent, OskEvent, ConnectionHandlerEvent, from}
use daisyway.TcpServer.Tasks.{drop_option, drop_all}
use daisyway.TcpServer.Manager.{
  ConnectionManager, Poll, accepted, notified, new, make_space, on_accept, on_exit, promote, on_osk,
  on_event, event_loop, id_of,
}
use daisyway.TcpServer.Manager.Invariant.{Inv, new-Inv, event_loop-Inv}
use daisyway.TcpServer.Manager.Gone.{IsLive}
use daisyway.TcpServer.Manager.Superseded.{
  on_osk_ignored, on_osk_forwards, superseded_silent, exited_silent,
}
use daisyway.TcpServer.Manager.Ownership.{IsAccounted, tasks-IsAccounted, tasks_bounded}
use daisyway.TcpServer.Manager.View.{view, viewed, expected_osk, on_osk-expected_osk}
use daisyway.TcpServer.Manager.Refinement.{Runs, event_loop-Runs}
use daisyway.TcpServer.Manager.Deliveries.{Climbs, is_live, deliveries, deliveries-Climbs}
use daisyway.TcpServer.Manager.Accepting.{kept, on_accept_lem}

-- A handler that records what it is given.
abbrev Record : Type 0
Record = List (Key × SetOskReason)

abbrev recorder : OskHandler Record
recorder = record { set_osk = λ key reason log. (ok tt, (key, reason) ∷ log) }

abbrev Server : Type 0
Server = ConnectionManager Record ℕ

abbrev socket : ℕ → Poll ℕ ℕ
socket n = accepted (n, n)

abbrev key_from : ℕ → ℕ → OskEvent
key_from id byte = record { connection_id = id; key = byte ∷ []; reason = fresh }

abbrev osk_from : ℕ → ℕ → Poll ℕ ℕ
osk_from id byte = notified (ConnectionHandlerEvent.osk (key_from id byte))

abbrev exit_of : ℕ → ExitEvent
exit_of id = record { connection_id = id }

abbrev arrivals : List (Poll ℕ ℕ)
arrivals = socket 70 ∷ socket 71 ∷ socket 72 ∷ []

abbrev three : Server
three = (event_loop recorder arrivals (new [])).1

three-Inv : Inv three
three-Inv = event_loop-Inv recorder arrivals (new []) (unfold new in omega arith) (new-Inv [])

three-IsLive : IsLive 1 three
unfolding event_loop on_event on_accept make_space new drop_option get insert
three-IsLive = inr (record { task = 1 }, refl)

three_next : three.next_connection_id ≡ 3
unfolding event_loop on_event on_accept make_space new drop_option get insert
three_next = refl

-- The second connection becomes active, the first is dropped, the third stays.
promoted : (event_loop recorder (osk_from 1 9 ∷ []) three).1.tasks.aborted ≡ 0 ∷ []
unfolding event_loop on_event on_accept on_osk promote make_space new drop_option drop_all get
    insert erase keep_below split_off from
promoted = refl

event_loop-Inv_example : Inv three
event_loop-Inv_example =
    event_loop-Inv recorder arrivals (new []) (unfold new in omega arith) (new-Inv [])

forwarded_ones :
    let m = (on_osk recorder (key_from 1 9) three).1 in id_of m.active_connection ≡ some 1
forwarded_ones = (on_osk_forwards recorder (key_from 1 9) three three-Inv three-IsLive).1

unknown_dead : ¬ IsLive 8 three
unfolding event_loop on_event on_accept make_space new drop_option get insert
unknown_dead (inl e) = ground arith
unknown_dead (inr (h, e)) = ground arith

unknown_ignored : on_osk recorder (key_from 8 9) three ≡ (ok tt, three)
unknown_ignored = on_osk_ignored recorder (key_from 8 9) three unknown_dead

superseded_silent_example :
    let m =
      (event_loop recorder
        (osk_from 2 5 ∷ socket 73 ∷ [])
        (on_osk recorder (key_from 1 9) three).1).1 in
    on_osk recorder (key_from 0 6) m ≡ (ok tt, m)
superseded_silent_example =
    superseded_silent recorder (key_from 1 9) (key_from 0 6) (osk_from 2 5 ∷ socket 73 ∷ []) three
      three-Inv three-IsLive (omega arith) (omega (arith, three_next))

exited_silent_example :
    let m = (event_loop recorder (socket 73 ∷ []) (on_exit (exit_of 1) three).1).1 in
    on_osk recorder (key_from 1 9) m ≡ (ok tt, m)
exited_silent_example =
    exited_silent recorder (exit_of 1) (key_from 1 9) (socket 73 ∷ []) three three-Inv
      (omega (arith, three_next)) refl (omega (arith, three_next))

tasks-IsAccounted_example : IsAccounted 2 three
tasks-IsAccounted_example = tasks-IsAccounted recorder 2 arrivals [] (omega arith)

tasks_bounded_example :
    (length three.tasks.aborted ≤ length three.tasks.spawned)
    × (length three.tasks.spawned ≤ length three.tasks.aborted + 2001)
tasks_bounded_example = tasks_bounded recorder arrivals [] (omega arith)

accepted_next :
    let m = (on_accept {Addr = ℕ} (record { stream = 73; addr = 1 }) three).1 in
    m.budding_connections
    ≡ kept three.budding_connections
      ++ (three.next_connection_id, record { task = length three.tasks.spawned }) ∷ []
accepted_next = (on_accept_lem (record { stream = 73; addr = 1 }) three three-Inv).1

on_osk-expected_osk_example :
    viewed recorder (on_osk recorder (key_from 1 9) three)
    ≡ expected_osk recorder (key_from 1 9) (view three)
on_osk-expected_osk_example = on_osk-expected_osk recorder (key_from 1 9) three three-Inv

-- Three connections, a key of the second, which becomes active, and its exit.
abbrev visits : List (Poll ℕ ℕ)
visits = arrivals ++ osk_from 1 9 ∷ notified (ConnectionHandlerEvent.exit (exit_of 1)) ∷ []

event_loop-Runs_example :
    Runs recorder
      (new {O = Record} {Stream = ℕ} []).next_connection_id
      visits
      (view (new {Stream = ℕ} []))
      (viewed recorder (event_loop recorder visits (new [])))
event_loop-Runs_example =
    event_loop-Runs recorder visits (new []) (unfold new in omega arith) (new-Inv [])

deliveries-Climbs_example :
    Climbs 0 (deliveries recorder (osk_from 1 9 ∷ osk_from 0 8 ∷ osk_from 2 7 ∷ []) three)
deliveries-Climbs_example =
    (deliveries-Climbs recorder (osk_from 1 9 ∷ osk_from 0 8 ∷ osk_from 2 7 ∷ []) three
      (omega (arith, three_next)) three-Inv).0

-- The key of the first connection comes too late.
two_deliveries :
    deliveries recorder (osk_from 1 9 ∷ osk_from 0 8 ∷ osk_from 2 7 ∷ []) three
    ≡ key_from 1 9 ∷ key_from 2 7 ∷ []
unfolding deliveries is_live event_loop on_event on_accept on_osk promote make_space new drop_option
    drop_all get insert erase keep_below split_off from
two_deliveries = refl
