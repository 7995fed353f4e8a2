-- ===== src/TcpServer/Running/Sound.antt =====
-- What holds of the manager, the tasks and their queue at any time, in the order in which
-- daisyway/src/internal/daisyway/net/tcp_server lets them run.
use daisyway.Base.{
  ℕ, ◌+◌, ◌^◌, ◌<◌, ◌≡◌, ◌⊎◌, inl, inr, refl, ap, sym, subst, ◌∙◌, List, [], ◌∷◌, ◌++◌, some, true,
  arith,
}
use daisyway.Crypto.Basics.{DaisywayProtocolParameters}
use daisyway.Crypto.World.{World, Parts}
use daisyway.Osk.{OskHandler}
use daisyway.TcpServer.Events.{AcceptEvent, ConnectionHandlerEvent, StreamEvent, from}
use daisyway.TcpServer.Tasks.{Task}
use daisyway.TcpServer.Manager.{
  ConnectionManager, accepted, notified, on_event, on_accept, new, to_event,
}
use daisyway.TcpServer.Manager.Invariant.{Inv, on_accept-Inv, on_exit-Inv, on_osk-Inv, new-Inv}
use daisyway.TcpServer.Manager.Accepting.{on_accept_lem}
use daisyway.TcpServer.Fanout.{init_task}
use daisyway.TcpServer.Fanout.Notified.{AreKeysOf, IsQueue, init_task-tagged}
use daisyway.TcpServer.Running.Below.{
  AreBelow, AreBelow-widen, AreBelow-keys, AreBelow-prefix, TasksBelow, TasksBelow-widen,
  TasksBelow-member, served, on_accept-next_eq, on_event-spawned,
}
use daisyway.TcpServer.Running.{
  Channel, Running, Step, accepts, serves, runs, Reach, here, later, start, after_round, note_end,
}

unfoldable pub is_queue : {Q : Type 0} (channel : Channel Q) → IsQueue channel.send
is_queue channel = record { sent = channel.pending; sends = channel.sends; fails = channel.fails }

module _ {N K R O Stream Q : Type 0} (parts : Parts N K R Q) (params : DaisywayProtocolParameters)
    (channel : Channel Q) (handler : OskHandler O) (rekey_interval : ℕ) (Addr : Type 0) where
  open channel use {send, recv, pending, sends, fails, receives}

  -- The manager keeps its invariant; the tasks are of accepted connections, and what is in the queue
  -- is of accepted connections too, and fresh.
  pub record Sound (s : Running O Stream Q) : Type 0 where
    pub managed : Inv s.manager
    pub spawned : TasksBelow s.manager.next_connection_id s.manager.tasks.spawned
    pub queued : AreBelow s.manager.next_connection_id (pending s.queue)

  -- A round of a task puts fresh keys of its connection into the queue, and then perhaps its exit.
  abbrev pub Told : ℕ → Running O Stream Q → Running O Stream Q → Type 0
  Told k s u =
      (keys : List ConnectionHandlerEvent) × AreKeysOf k keys
      × ((pending u.queue ≡ keys ++ pending s.queue)
          ⊎ ((u.has_ended k ≡ true)
              × (pending u.queue
                  ≡ ConnectionHandlerEvent.exit (record { connection_id = k }) ∷ keys
                    ++ pending s.queue)))

  pub runs-Told :
      (t : Task Stream) (w : World N K R Q) (s : Running O Stream Q)
      → w.osk ≡ s.queue
      → let k = t.connection_id in
        Told k s (after_round k s (init_task parts params send rekey_interval k 1 w))
  unfolding is_queue
  runs-Told t w s e =
      let k = t.connection_id in
      let (keys, tagged, told) =
        init_task-tagged parts params send (is_queue channel) rekey_interval k 1 w in
      (
        keys,
        tagged,
        elim told [
          | inl q ↦ inl (q ∙ ap (λ x. keys ++ pending x) e)
          | inr (r, q) ↦ inr (
            ap (λ x. note_end x k s.has_ended k) r ∙ ground arith,
            q
                ∙ ap
                    (λ x.
                      ConnectionHandlerEvent.exit (record { connection_id = k }) ∷ keys
                      ++ pending x)
                    e,
          )
        ],
      )

  -- What is told of an accepted connection.
  Told-AreBelow :
      (k n : ℕ) (s u : Running O Stream Q)
      → Told k s u
      → k < n
      → AreBelow n (pending s.queue)
      → AreBelow n (pending u.queue)
  Told-AreBelow k n s u (keys, tagged, inl q) lt b = rw q (AreBelow-keys n k keys _ lt tagged b)
  Told-AreBelow k n s u (keys, tagged, inr (_, q)) lt b =
      rw q (lt, AreBelow-keys n k keys _ lt tagged b)

  accept-Sound :
      (ev : AcceptEvent Stream Addr) (s : Running O Stream Q)
      → s.manager.next_connection_id + 1 < 2 ^ 64
      → Sound s
      → Sound (record s { manager = (on_accept ev s.manager).1 })
  accept-Sound ev s bound h =
      let n = s.manager.next_connection_id in
      let next : (on_accept ev s.manager).1.next_connection_id ≡ n + 1 =
        omega (arith, on_accept-next_eq ev s.manager) in
      let spawned_eq = (on_accept_lem ev s.manager h.managed).2 in
      record {
        managed = (on_accept-Inv ev s.manager bound h.managed).1;
        spawned =
            rw (next, spawned_eq)
              (
                omega arith,
                TasksBelow-widen n (n + 1) s.manager.tasks.spawned (omega arith) h.spawned,
              );
        queued = rw next (AreBelow-widen n (n + 1) (pending s.queue) (omega arith) h.queued);
      }

  event-Inv :
      (ev : ConnectionHandlerEvent) (m : ConnectionManager O Stream)
      → Inv m
      → Inv (on_event handler (from {Addr = Addr} ev) m).1
  unfolding on_event from
  event-Inv (ConnectionHandlerEvent.exit ev) m v = on_exit-Inv ev m v
  event-Inv (ConnectionHandlerEvent.osk ev) m v = on_osk-Inv handler ev m v

  serve-Sound :
      (ev : ConnectionHandlerEvent) (q : Q) (s : Running O Stream Q)
      → recv s.queue ≡ some (ev, q)
      → Sound s
      → Sound
          (record s { manager = (on_event handler (from {Addr = Addr} ev) s.manager).1; queue = q })
  serve-Sound ev q s got h =
      let (tasks_eq, next_eq) = on_event-spawned Addr handler ev s.manager in
      let n = s.manager.next_connection_id in
      record {
        managed = event-Inv ev s.manager h.managed;
        spawned = rw (next_eq, tasks_eq) h.spawned;
        queued = rw next_eq (
            AreBelow-prefix n (pending q) (ev ∷ [])
              (subst (AreBelow n) (receives ev s.queue q got) h.queued));
      }

  -- Every step keeps this.
  pub Step-Sound :
      {s u : Running O Stream Q}
      → Step parts params channel handler rekey_interval Addr s u
      → Sound s
      → Sound u
  unfolding to_event on_event
  Step-Sound {s} (accepts stream addr {m} bound e) h =
      let ev : AcceptEvent Stream Addr = record { stream = stream; addr = addr } in
      subst (λ x. Sound (record s { manager = x }))
        (sym (served handler (accepted (stream, addr)) (StreamEvent.accept ev) s.manager m refl e))
        (accept-Sound ev s bound h)
  Step-Sound {s} (serves ev {q} {m} got e) h =
      subst (λ x. Sound (record s { manager = x; queue = q }))
        (sym (served {Addr = Addr} handler (notified ev) (from ev) s.manager m refl e))
        (serve-Sound ev q s got h)
  Step-Sound {s} (runs t newer older w spawned live e) h =
      let k = t.connection_id in
      let n = s.manager.next_connection_id in
      let u = after_round k s (init_task parts params send rekey_interval k 1 w) in
      record {
        managed = h.managed;
        spawned = h.spawned;
        queued =
            Told-AreBelow k n s u (runs-Told t w s e)
              (TasksBelow-member n newer older t (subst (TasksBelow n) spawned h.spawned)) h.queued;
      }

  pub start-Sound : (o : O) (q : Q) → pending q ≡ [] → Sound (start o q)
  unfolding start new
  start-Sound o q e = record { managed = new-Inv o; spawned = tt; queued = rw e tt }

  -- At any time while the server runs, from an empty queue and with fewer than 2 ^ 64 connections,
  -- the manager's invariant holds, its tasks are of accepted connections, and the queue holds only
  -- exits and fresh keys of accepted connections, whatever the tasks do and in whatever order they
  -- and the manager run.
  pub Reach-Sound :
      (o : O) (q : Q) {u : Running O Stream Q}
      → pending q ≡ []
      → Reach parts params channel handler rekey_interval Addr (start o q) u
      → Sound u
  Reach-Sound o q e here = start-Sound o q e
  Reach-Sound o q e (later r st) = Step-Sound st (Reach-Sound o q e r)
