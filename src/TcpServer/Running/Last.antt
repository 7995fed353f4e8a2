-- ===== src/TcpServer/Running/Last.antt =====
-- That an exit is the last that daisyway/src/internal/daisyway/net/tcp_server/fanout_connection_handler.rs
-- tells of a connection.
use daisyway.Base.{
  ℕ, ◌≡◌, ◌≢◌, inl, inr, refl, ap, sym, subst, [], ◌∷◌, some, Bool, true, false, Result, ok, err,
  panic, arith,
}
use daisyway.Crypto.Basics.{DaisywayProtocolParameters}
use daisyway.Crypto.World.{Parts}
use daisyway.Osk.{OskHandler}
use daisyway.TcpServer.Events.{AcceptEvent, ConnectionHandlerEvent, StreamEvent, from}
use daisyway.TcpServer.Manager.{
  ConnectionManager, accepted, notified, event_loop, on_event, to_event,
}
use daisyway.TcpServer.Manager.Gone.{IsGone, on_accept-IsGone, on_exit-IsGone, on_exit-IsGone_now}
use daisyway.TcpServer.Manager.Superseded.{on_osk-IsGone}
use daisyway.TcpServer.Fanout.{TaskState, running, ended, init_task}
use daisyway.TcpServer.Running.{
  Channel, Running, Step, accepts, serves, runs, Reach, here, later, start, after_round, note_end,
}
use daisyway.TcpServer.Running.Below.{AreBelow, AreBelow-exit, served}
use daisyway.TcpServer.Running.Sound.{Told, runs-Told, Reach-Sound}
use daisyway.TcpServer.Running.Final.{
  exit_of, Quiet, Final, NoExit-running, Final-prefix, Final-widen, keys-Final, exit-Quiet,
  Quiet-prefix, Quiet-keys,
}

note_end_more :
    (r : Result TaskState) (k c : ℕ) (h : ℕ → Bool) → h c ≡ true → note_end r k h c ≡ true
note_end_more (ok running) k c h e = e
note_end_more (ok ended) k c h e = ground arith
note_end_more (err x) k c h e = ground arith
note_end_more (panic x) k c h e = ground arith

module _ {N K R O Stream Q : Type 0} (parts : Parts N K R Q) (params : DaisywayProtocolParameters)
    (channel : Channel Q) (handler : OskHandler O) (rekey_interval : ℕ) (Addr : Type 0) where
  open channel use {send, recv, pending, receives}

  abbrev NotesEnds : Running O Stream Q → Running O Stream Q → Type 0
  NotesEnds s u = (c : ℕ) → s.has_ended c ≡ true → u.has_ended c ≡ true

  -- What a task that has not ended tells keeps the queue final.
  Told-Final :
      (k : ℕ) (s u : Running O Stream Q)
      → Told parts params channel handler rekey_interval Addr k s u
      → NotesEnds s u
      → s.has_ended k ≡ false
      → Final s.has_ended (pending s.queue)
      → Final u.has_ended (pending u.queue)
  Told-Final k s u (keys, tagged, told) more live f =
      let (no_exit, final) =
        keys-Final u.has_ended k keys (pending s.queue) tagged
          (NoExit-running s.has_ended k (pending s.queue) f live)
          (Final-widen s.has_ended u.has_ended (pending s.queue) more f) in
      elim told [ inl q ↦ rw q final | inr (done, q) ↦ rw q (no_exit, done, final) ]

  Told-Quiet :
      (c k : ℕ) (s u : Running O Stream Q)
      → Told parts params channel handler rekey_interval Addr k s u
      → k ≢ c
      → Quiet c (pending s.queue)
      → Quiet c (pending u.queue)
  Told-Quiet c k s u (keys, tagged, inl q) ne quiet = rw q (Quiet-keys c k keys _ ne tagged quiet)
  Told-Quiet c k s u (keys, tagged, inr (_, q)) ne quiet =
      rw q (ne, Quiet-keys c k keys _ ne tagged quiet)

  Reach-Final :
      (o : O) (q : Q) {u : Running O Stream Q}
      → pending q ≡ []
      → Reach parts params channel handler rekey_interval Addr (start o q) u
      → Final u.has_ended (pending u.queue)
  unfolding start
  Reach-Final o q e here = rw e tt
  Reach-Final o q e (later r (accepts stream addr bound x)) = Reach-Final o q e r
  Reach-Final o q e (later {t} r (serves ev {q = q'} got x)) =
      Final-prefix t.has_ended (pending q') (ev ∷ [])
        (subst (Final t.has_ended) (receives ev t.queue q' got) (Reach-Final o q e r))
  Reach-Final o q e (later {t = s} r (runs t newer older w spawned live x)) =
      let k = t.connection_id in
      let p = init_task parts params send rekey_interval k 1 w in
      Told-Final k s (after_round k s p)
        (runs-Told parts params channel handler rekey_interval Addr t w s x)
        (λ c h. note_end_more p.0 k c s.has_ended h) live (Reach-Final o q e r)

  -- The connection's task has ended, the manager holds it no longer, and nothing of it is queued.
  pub record IsOver (c : ℕ) (s : Running O Stream Q) : Type 0 where
    pub gone : IsGone c s.manager
    pub done : s.has_ended c ≡ true
    pub quiet : Quiet c (pending s.queue)

  event-IsGone :
      (c : ℕ) (ev : ConnectionHandlerEvent) (m : ConnectionManager O Stream)
      → IsGone c m
      → IsGone c (on_event handler (from {Addr = Addr} ev) m).1
  unfolding on_event from
  event-IsGone c (ConnectionHandlerEvent.exit ev) m g = on_exit-IsGone c m ev g
  event-IsGone c (ConnectionHandlerEvent.osk ev) m g = on_osk-IsGone handler c ev m g

  Step-IsOver :
      (c : ℕ) {s u : Running O Stream Q}
      → Step parts params channel handler rekey_interval Addr s u
      → IsOver c s
      → IsOver c u
  unfolding on_event to_event
  Step-IsOver c {s} (accepts stream addr {m} bound e) h =
      let ev : AcceptEvent Stream Addr = record { stream = stream; addr = addr } in
      record {
        gone =
            subst (IsGone c)
              (sym (
                served handler (accepted (stream, addr)) (StreamEvent.accept ev) s.manager m refl
                  e))
              (on_accept-IsGone c s.manager ev bound h.gone);
        done = h.done;
        quiet = h.quiet;
      }
  Step-IsOver c {s} (serves ev {q} {m} got e) h = record {
    gone =
        subst (IsGone c)
          (sym (served {Addr = Addr} handler (notified ev) (from ev) s.manager m refl e))
          (event-IsGone c ev s.manager h.gone);
    done = h.done;
    quiet =
        Quiet-prefix c (pending q) (ev ∷ []) (subst (Quiet c) (receives ev s.queue q got) h.quiet);
  }
  Step-IsOver c {s} (runs t newer older w spawned live e) h =
      let k = t.connection_id in
      let p = init_task parts params send rekey_interval k 1 w in
      record {
        gone = h.gone;
        done = note_end_more p.0 k c s.has_ended h.done;
        quiet =
            Told-Quiet c k s (after_round k s p)
              (runs-Told parts params channel handler rekey_interval Addr t w s e)
              (λ same. ground (arith, ap s.has_ended same, h.done)) h.quiet;
      }

  Reach-IsOver :
      (c : ℕ) {s u : Running O Stream Q}
      → Reach parts params channel handler rekey_interval Addr s u
      → IsOver c s
      → IsOver c u
  Reach-IsOver c here h = h
  Reach-IsOver c (later r st) h = Step-IsOver c st (Reach-IsOver c r h)

  -- While the server runs, from an empty queue and with fewer than 2 ^ 64 connections, once the
  -- manager has served the exit of a connection, the connection's task has ended, the manager
  -- never holds the connection again, and nothing of it is ever in the queue again, whatever the
  -- tasks do and in whatever order they and the manager run.
  pub exit_last :
      (o : O) (q : Q) (c : ℕ) {s u : Running O Stream Q} {q' : Q} {m : ConnectionManager O Stream}
      → pending q ≡ []
      → Reach parts params channel handler rekey_interval Addr (start o q) s
      → recv s.queue ≡ some (exit_of c, q')
      → event_loop handler {Addr = Addr} (notified (exit_of c) ∷ []) s.manager ≡ (ok tt, m)
      → Reach parts params channel handler rekey_interval Addr
          (record s { manager = m; queue = q' })
          u
      → IsOver c u
  unfolding on_event to_event from
  exit_last o q c {s} {u} {q'} {m} e r got x after =
      let sound = Reach-Sound parts params channel handler rekey_interval Addr o q e r in
      let known = AreBelow-exit s.manager.next_connection_id c (pending q') (
        subst (AreBelow s.manager.next_connection_id) (receives (exit_of c) s.queue q' got)
          sound.queued) in
      let (quiet, done) =
        exit-Quiet s.has_ended c (pending q')
          (subst (Final s.has_ended) (receives (exit_of c) s.queue q' got) (Reach-Final o q e r)) in
      Reach-IsOver c after (record {
        gone =
            subst (IsGone c)
              (sym (
                served {Addr = Addr} handler (notified (exit_of c)) (from (exit_of c)) s.manager m
                  refl x))
              (on_exit-IsGone_now c s.manager (record { connection_id = c }) sound.managed refl
                known);
        done = done;
        quiet = quiet;
      })
