-- ===== src/TcpServer/Manager/Refinement.antt =====
-- The runs of daisyway/src/internal/daisyway/net/tcp_server/connection_manager.rs, and the runs that its view
-- allows.
use daisyway.Base.{
  ℕ, suc, ◌+◌, ◌^◌, ◌<◌, ◌≡◌, refl, sym, subst, List, [], ◌∷◌, false, Error, message, Result, ok,
  err, panic, is_ok, Action, resume, arith, length,
}
use daisyway.Osk.{OskHandler}
use daisyway.TcpServer.Events.{OskEvent, ExitEvent, AcceptEvent, ConnectionHandlerEvent, from}
use daisyway.TcpServer.Manager.{
  ConnectionManager, Poll, accepted, accept_failed, notified, queue_closed, to_event, on_accept,
  on_exit, on_osk, on_event, event_loop, allocate_connection_id, promote,
}
use daisyway.TcpServer.Manager.Invariant.{
  Inv, make_space-next, on_accept-Inv, on_exit-Inv, on_osk-Inv,
}
use daisyway.TcpServer.Manager.View.{
  View, view, viewed, expected_osk, expected_exit, on_osk-expected_osk, on_exit-expected_exit,
}
use daisyway.TcpServer.Manager.Waiting.{Accepts, on_accept-Accepts}

-- The runs of a view, whose next connection has the given number, over what is polled, with their
-- outcome: each connection, exit and key is that of the poll.
pub data Runs {O Stream Addr : Type 0} (handler : OskHandler O)
    : ℕ → List (Poll Stream Addr) → View O → Result (Unit {0}) × View O → Type 0 where
  done : {n : ℕ} {v : View O} → Runs handler n [] v (ok tt, v)
  then_accept :
      {n : ℕ} {ps : List (Poll Stream Addr)} {v w : View O} {end : Result (Unit {0}) × View O}
      (connection : Stream × Addr)
      → Accepts n v w
      → Runs handler (suc n) ps w end
      → Runs handler n (accepted connection ∷ ps) v end
  then_exit :
      {n : ℕ} {ps : List (Poll Stream Addr)} {v : View O} {end : Result (Unit {0}) × View O}
      (ev : ExitEvent)
      → Runs handler n ps (expected_exit ev v) end
      → Runs handler n (notified (ConnectionHandlerEvent.exit ev) ∷ ps) v end
  then_osk :
      {n : ℕ} {ps : List (Poll Stream Addr)} {v w : View O} {end : Result (Unit {0}) × View O}
      (ev : OskEvent)
      → expected_osk handler ev v ≡ (ok tt, w)
      → Runs handler n ps w end
      → Runs handler n (notified (ConnectionHandlerEvent.osk ev) ∷ ps) v end
  osk_fails :
      {n : ℕ} {ps : List (Poll Stream Addr)} {v : View O} {end : Result (Unit {0}) × View O}
      (ev : OskEvent)
      → expected_osk handler ev v ≡ end
      → is_ok end.0 ≡ false
      → Runs handler n (notified (ConnectionHandlerEvent.osk ev) ∷ ps) v end
  accept_fails :
      {n : ℕ} {ps : List (Poll Stream Addr)} {v : View O} (e : Error)
      → Runs handler n (accept_failed e ∷ ps) v (err e, v)
  closes :
      {n : ℕ} {ps : List (Poll Stream Addr)} {v : View O}
      → Runs handler n
          (queue_closed ∷ ps)
          v
          (err (message "OSK notification queue closed. This is a bug!"), v)

resume-ok :
    {W A B : Type 0} (f : A → Action W B) (a : A) (p : Result A × W)
    → p.0 ≡ ok a
    → resume f p ≡ f a p.1
resume-ok f a (r, w) e = rw e refl

module _ {O Stream : Type 0} where
  on_exit-next :
      (ev : ExitEvent) (m : ConnectionManager O Stream)
      → (on_exit ev m).1.next_connection_id ≡ m.next_connection_id
  unfolding on_exit
  on_exit-next ev m = ground arith

  on_exit-ok : (ev : ExitEvent) (m : ConnectionManager O Stream) → (on_exit ev m).0 ≡ ok tt
  unfolding on_exit
  on_exit-ok ev m = ground arith

  on_osk-next :
      (handler : OskHandler O) (ev : OskEvent) (m : ConnectionManager O Stream)
      → (on_osk handler ev m).1.next_connection_id ≡ m.next_connection_id
  unfolding on_osk promote
  on_osk-next handler ev m = ground arith

module _ {O Stream Addr : Type 0} where
  on_accept-next_one :
      (ev : AcceptEvent Stream Addr) (m : ConnectionManager O Stream)
      → m.next_connection_id + 1 < 2 ^ 64
      → (on_accept ev m).1.next_connection_id ≡ suc m.next_connection_id
  unfolding on_accept allocate_connection_id
  on_accept-next_one ev m h = ground (arith, make_space-next (allocate_connection_id m).1)

  module _ (handler : OskHandler O) where
    -- What follows a success.
    goes_on :
        (n : ℕ) (ps : List (Poll Stream Addr)) (p : Result (Unit {0}) × ConnectionManager O Stream)
        → p.0 ≡ ok tt
        → p.1.next_connection_id ≡ n
        → Runs handler p.1.next_connection_id ps
            (view p.1)
            (viewed handler (event_loop handler ps p.1))
        → Runs handler n ps
            (view p.1)
            (viewed handler (resume (λ (_ : Unit {0}). event_loop handler ps) p))
    goes_on n ps p e next later = rw (resume-ok _ tt p e) (
        subst (λ k. Runs handler k ps (view p.1) (viewed handler (event_loop handler ps p.1))) next
          later)

    -- What follows a key, whichever outcome it has.
    after_osk :
        (n : ℕ) (ps : List (Poll Stream Addr)) (ev : OskEvent) (v : View O)
        (p : Result (Unit {0}) × ConnectionManager O Stream)
        → viewed handler p ≡ expected_osk handler ev v
        → Runs handler n ps (view p.1) (viewed handler (event_loop handler ps p.1))
        → Runs handler n
            (notified (ConnectionHandlerEvent.osk ev) ∷ ps)
            v
            (viewed handler (resume (λ (_ : Unit {0}). event_loop handler ps) p))
    after_osk n ps ev v (ok _, m) e later = then_osk ev (sym e) later
    after_osk n ps ev v (err x, m) e later = osk_fails ev (sym e) refl
    after_osk n ps ev v (panic s, m) e later = osk_fails ev (sym e) refl

    -- While connection numbers do not wrap around and from a state that keeps the invariant, each
    -- run of the event loop over what is polled is, with its outcome, a run over the same polls of
    -- the view, which knows only the active connection, those that wait, and the key handler: an
    -- accepted connection waits under the next number, and only the oldest of at least 2000
    -- waiting ones may be dropped, so that never more than 2000 wait; an exit removes its
    -- connection; a key does what the view expects of it, and ends the run if it fails; and a
    -- failed accept or a closed queue ends the run with its error.
    pub event_loop-Runs :
        (ps : List (Poll Stream Addr)) (m : ConnectionManager O Stream)
        → m.next_connection_id + length ps < 2 ^ 64
        → Inv m
        → Runs handler m.next_connection_id ps (view m) (viewed handler (event_loop handler ps m))
    unfolding event_loop on_event to_event from
    event_loop-Runs [] m h v = done
    event_loop-Runs (accepted (stream, addr) ∷ ps) m h v =
        let ev : AcceptEvent Stream Addr = record { stream = stream; addr = addr } in
        let (served, later) = on_accept-Inv ev m (omega arith) v in
        let next = on_accept-next_one ev m (omega arith) in
        then_accept (stream, addr) (on_accept-Accepts ev m (omega arith) v)
          (goes_on (suc m.next_connection_id) ps (on_accept ev m) served next
            (event_loop-Runs ps (on_accept ev m).1 (omega arith) later))
    event_loop-Runs (accept_failed e ∷ ps) m h v = accept_fails e
    event_loop-Runs (notified (ConnectionHandlerEvent.exit ev) ∷ ps) m h v =
        let next = on_exit-next ev m in
        then_exit ev (
          subst
            (λ w.
              Runs handler m.next_connection_id ps w
                (viewed handler (resume (λ (_ : Unit {0}). event_loop handler ps) (on_exit ev m))))
            (on_exit-expected_exit handler ev m v)
            (goes_on m.next_connection_id ps (on_exit ev m) (on_exit-ok ev m) next
              (event_loop-Runs ps (on_exit ev m).1 (omega arith) (on_exit-Inv ev m v))))
    event_loop-Runs (notified (ConnectionHandlerEvent.osk ev) ∷ ps) m h v =
        after_osk m.next_connection_id ps ev (view m) (on_osk handler ev m)
          (on_osk-expected_osk handler ev m v)
          (subst
            (λ n.
              Runs handler n ps (view (on_osk handler ev m).1)
                (viewed handler (event_loop handler ps (on_osk handler ev m).1)))
            (on_osk-next handler ev m)
            (event_loop-Runs ps (on_osk handler ev m).1 (omega (arith, on_osk-next handler ev m))
              (on_osk-Inv handler ev m v)))
    event_loop-Runs (queue_closed ∷ ps) m h v = closes
