-- ===== src/TcpServer/Running/Delivering.antt =====
-- How a key gets from a connection of daisyway/src/internal/daisyway/net/tcp_server to the output.
use daisyway.Base.{
  ℕ, ◌≡◌, refl, ap, sym, ◌∙◌, List, [], ◌∷◌, ◌++◌, some, Result, ok, err, panic, resume, pure,
  final, arith,
}
use daisyway.Crypto.Key.{Key}
use daisyway.Crypto.Basics.{DaisywayProtocolParameters}
use daisyway.Crypto.World.{World, Parts}
use daisyway.Crypto.Server
use daisyway.Crypto.Server.{negotiate_key}
use daisyway.Crypto.Server.Rounds.{negotiate_key_osk}
use daisyway.Osk.{OskHandler, fresh}
use daisyway.TcpServer.Events.{OskEvent, ConnectionHandlerEvent, from}
use daisyway.TcpServer.Manager.{
  ConnectionManager, notified, event_loop, on_event, on_osk, to_event, id_of,
}
use daisyway.TcpServer.Manager.Invariant.{Inv}
use daisyway.TcpServer.Manager.Gone.{IsLive}
use daisyway.TcpServer.Manager.Superseded.{on_osk_forwards}
use daisyway.TcpServer.Fanout
use daisyway.TcpServer.Fanout.{
  Sender, TaskState, running, init_task, parts_of, set_osk_impl, after_loop,
}
use daisyway.TcpServer.Running.{Channel, Running, after_round, note_end}

resume-pure : {W : Type 0} (p : Result (Unit {0}) × W) → resume (λ (_ : Unit {0}). pure tt) p ≡ p
resume-pure (ok a, w) = refl
resume-pure (err e, w) = refl
resume-pure (panic s, w) = refl

-- An event that is the only one in the queue is the next.
only-oldest :
    (ev first : ConnectionHandlerEvent) (evs : List ConnectionHandlerEvent)
    → first ∷ [] ≡ evs ++ ev ∷ []
    → ev ≡ first
only-oldest ev first [] e = ground arith
only-oldest ev first (x ∷ []) e = ground arith
only-oldest ev first (x ∷ y ∷ evs) e = ground arith

module _ {N K R Q : Type 0} (parts : Parts N K R Q) (params : DaisywayProtocolParameters)
    (send : Sender Q) (rekey_interval : ℕ) where
  abbrev report : ℕ → Key → ConnectionHandlerEvent
  report k key =
      ConnectionHandlerEvent.osk (record { connection_id = k; key = key; reason = fresh })

  -- A round of a task that has negotiated a key, told the manager and slept.
  round-queue :
      (k : ℕ) (key : Key) (w w1 : World N K R Q)
      → negotiate_key (parts_of parts params send k) params w ≡ (ok key, w1)
      → (send (report k key) w1.osk).0 ≡ ok tt
      → (parts.sleep rekey_interval w1.runtime).0 ≡ ok tt
      → ((init_task parts params send rekey_interval k 1 w).0 ≡ ok running)
        × ((init_task parts params send rekey_interval k 1 w).1.osk
            ≡ (send (report k key) w1.osk).1)
  unfolding init_task after_loop Fanout.event_loop Server.event_loop set_osk_impl parts_of
  round-queue k key w w1 e sent slept = rw (e, sent, slept) (refl, refl)

module _ {N K R O Stream Q : Type 0} (parts : Parts N K R Q) (params : DaisywayProtocolParameters)
    (channel : Channel Q) (handler : OskHandler O) (rekey_interval : ℕ) (Addr : Type 0) where
  open channel use {send, recv, pending, sends, receives}

  served_key :
      (ev : OskEvent) (m : ConnectionManager O Stream)
      → event_loop handler {Addr = Addr} (notified (ConnectionHandlerEvent.osk ev) ∷ []) m
        ≡ on_osk handler ev m
  unfolding event_loop on_event to_event from
  served_key ev m = resume-pure (on_osk handler ev m)

  -- In a state of the running server that keeps the manager's invariant and has an empty queue, if
  -- the task of a connection that the manager holds negotiates a key, and telling the manager and
  -- sleeping succeed, then the task goes on, and what the manager receives next makes it give this
  -- key to the key handler as a fresh one, with the handler's outcome, and make this connection
  -- the active one.
  pub negotiated_delivered :
      (s : Running O Stream Q) (k : ℕ) (key : Key) (w w1 : World N K R Q)
      (ev : ConnectionHandlerEvent) (q : Q)
      → Inv s.manager
      → IsLive k s.manager
      → pending s.queue ≡ []
      → w.osk ≡ s.queue
      → negotiate_key (parts_of parts params send k) params w ≡ (ok key, w1)
      → (send
          (ConnectionHandlerEvent.osk (record { connection_id = k; key = key; reason = fresh }))
          s.queue).0
        ≡ ok tt
      → (parts.sleep rekey_interval w1.runtime).0 ≡ ok tt
      → let u = after_round k s (init_task parts params send rekey_interval k 1 w) in
        recv u.queue ≡ some (ev, q)
        → let (r, m) = event_loop handler {Addr = Addr} (notified ev ∷ []) u.manager in
          (u.has_ended k ≡ s.has_ended k)
          × ((r, m.osk_handler) ≡ handler.set_osk key fresh s.manager.osk_handler)
          × (id_of m.active_connection ≡ some k)
  negotiated_delivered s k key w w1 ev q v live empty same e sent slept got =
      let told = report parts params send rekey_interval k key in
      let osk_eq : w1.osk ≡ s.queue =
        final (λ x. x.osk) e ∙ negotiate_key_osk (parts_of parts params send k) params w ∙ same in
      let (runs, queue_eq) =
        round-queue parts params send rekey_interval k key w w1 e (rw osk_eq sent) slept in
      let u = after_round k s (init_task parts params send rekey_interval k 1 w) in
      let filled : pending u.queue ≡ told ∷ [] =
        ap pending (queue_eq ∙ ap (λ x. (send told x).1) osk_eq)
        ∙ sends told s.queue sent
        ∙ ap (◌∷◌ told) empty in
      let next : ev ≡ told =
        only-oldest ev told (pending q) (sym filled ∙ receives ev u.queue q got) in
      let (set, active) =
        on_osk_forwards handler (record { connection_id = k; key = key; reason = fresh }) s.manager
          v live in
      (
        ap (λ r. note_end r k s.has_ended k) runs,
        rw (next, served_key) set,
        rw (next, served_key) active,
      )
