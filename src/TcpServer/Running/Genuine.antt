-- ===== src/TcpServer/Running/Genuine.antt =====
-- Which keys reach the output of the server of daisyway/src/internal/daisyway/net/tcp_server.
pub mod Tests
use daisyway.Base.{
  ℕ, ◌≡◌, ◌⊎◌, inl, inr, sym, subst, ◌∙◌, List, [], ◌∷◌, ◌++◌, none, some, ap, arith, Option-cases,
  refl,
}
use daisyway.Crypto.Key.{Key}
use daisyway.Crypto.Basics.{DaisywayProtocolParameters}
use daisyway.Crypto.World.{World, Parts}
use daisyway.Osk.Recording.{AllHave, IsRecording, set_osk-AllHave}
use daisyway.Osk.{OskHandler, SetOskReason}
use daisyway.TcpServer.BTreeMap.{get}
use daisyway.TcpServer.Events.{AcceptEvent, OskEvent, ConnectionHandlerEvent, StreamEvent, from}
use daisyway.TcpServer.Manager.{
  ConnectionManager, Lifecycle, less, equal, greater, lifecycle, active_connection_id, accepted,
  notified, on_event, on_exit, on_osk, on_osk_from_active, on_osk_from_budding, on_osk_from_stale,
  set_osk, promote, to_event, new,
}
use daisyway.TcpServer.Manager.Accepting.{on_accept_lem}
use daisyway.TcpServer.Fanout.Exchanged.{
  KeysHave, KeysHave-prefix, IsExchanged, Genuine, init_task-Genuine,
}
use daisyway.TcpServer.Running.{
  Channel, Running, Step, accepts, serves, runs, Reach, here, later, start,
}
use daisyway.TcpServer.Running.Below.{served}
use daisyway.TcpServer.Running.Sound.{is_queue, Sound, Reach-Sound}

module _ {O Stream : Type 0} (handler : OskHandler O) (recording : IsRecording handler)
    (P : Key → Type 0) where
  open recording use {log}

  abbrev Logged : ConnectionManager O Stream → Type 0
  Logged m = AllHave P (log m.osk_handler)

  set_osk-Logged :
      (k : Key) (r : SetOskReason) (m : ConnectionManager O Stream)
      → P k
      → Logged m
      → Logged (set_osk handler k r m).1
  unfolding set_osk
  set_osk-Logged k r m p h = set_osk-AllHave handler recording P k r m.osk_handler p h

  on_osk-Logged :
      (ev : OskEvent) (m : ConnectionManager O Stream)
      → P ev.key
      → Logged m
      → Logged (on_osk handler ev m).1
  unfolding on_osk promote
  on_osk-Logged ev m p h = elim (Option-cases (get ev.connection_id m.budding_connections)) [
    | inl e ↦ ground (arith, set_osk-Logged ev.key ev.reason m p h)
    | inr (handle, e) ↦ ground (
      arith,
      set_osk-Logged ev.key ev.reason m p h,
      set_osk-Logged ev.key ev.reason (promote ev.connection_id handle m) p h,
    )
  ]

  event-Logged :
      (Addr : Type 0) (ev : ConnectionHandlerEvent) (m : ConnectionManager O Stream)
      → KeysHave P (ev ∷ [])
      → Logged m
      → Logged (on_event handler (from {Addr = Addr} ev) m).1
  unfolding on_event on_exit from
  event-Logged Addr (ConnectionHandlerEvent.exit ev) m p h = ground (arith, h)
  event-Logged Addr (ConnectionHandlerEvent.osk ev) m p h = on_osk-Logged ev m p.0 h

module _ {N K R O Stream Q : Type 0} (parts : Parts N K R Q) (params : DaisywayProtocolParameters)
    (channel : Channel Q) (handler : OskHandler O) (recording : IsRecording handler)
    (rekey_interval : ℕ) (Addr : Type 0) where
  open channel use {send, recv, pending, receives}
  open recording use {log}

  -- The keys that were given to the output, and those on their way to the manager.
  record AreExchanged (s : Running O Stream Q) : Type 0 where
    written : AllHave (IsExchanged parts params) (log s.manager.osk_handler)
    queued : KeysHave (IsExchanged parts params) (pending s.queue)

  Step-AreExchanged :
      {s u : Running O Stream Q}
      → Step parts params channel handler rekey_interval Addr s u
      → Sound parts params channel handler rekey_interval Addr s
      → AreExchanged s
      → AreExchanged u
  unfolding to_event on_event is_queue
  Step-AreExchanged {s} (accepts stream addr {m} bound e) v h =
      let ev : AcceptEvent Stream Addr = record { stream = stream; addr = addr } in
      record {
        written =
            subst (λ x. AllHave (IsExchanged parts params) (log x))
              (sym (
                ap (λ (x : ConnectionManager O Stream). x.osk_handler)
                  (served handler (accepted (stream, addr)) (StreamEvent.accept ev) s.manager m refl
                    e)
                ∙ (on_accept_lem ev s.manager v.managed).4))
              h.written;
        queued = h.queued;
      }
  Step-AreExchanged {s} (serves ev {q} {m} got e) v h =
      let (late, oldest) =
        KeysHave-prefix (IsExchanged parts params) (pending q) (ev ∷ [])
          (subst (KeysHave (IsExchanged parts params)) (receives ev s.queue q got) h.queued) in
      record {
        written =
            subst
              (λ (x : ConnectionManager O Stream).
                AllHave (IsExchanged parts params) (log x.osk_handler))
              (sym (served {Addr = Addr} handler (notified ev) (from ev) s.manager m refl e))
              (event-Logged handler recording (IsExchanged parts params) Addr ev s.manager oldest
                h.written);
        queued = late;
      }
  Step-AreExchanged {s} (runs t newer older w spawned live e) v h = record {
    written = h.written;
    queued =
        init_task-Genuine parts params send (is_queue channel) rekey_interval t.connection_id 1 w
          (subst (λ q. KeysHave (IsExchanged parts params) (pending q)) (sym e) h.queued);
  }

  Reach-AreExchanged :
      (o : O) (q : Q) {u : Running O Stream Q}
      → log o ≡ []
      → pending q ≡ []
      → Reach parts params channel handler rekey_interval Addr (start o q) u
      → AreExchanged u
  unfolding start new
  Reach-AreExchanged o q none_written none_queued here = record {
    written = rw none_written tt;
    queued = rw none_queued tt;
  }
  Reach-AreExchanged o q none_written none_queued (later r st) =
      Step-AreExchanged st
        (Reach-Sound parts params channel handler rekey_interval Addr o q none_queued r)
        (Reach-AreExchanged o q none_written none_queued r)

  -- At any time while the server runs, from an empty queue and a key handler that was given no
  -- key, and with fewer than 2 ^ 64 connections, each key that the key handler has recorded was
  -- derived from a QKD key that the device returned and a nonce that was drawn, which were sent to
  -- a client that acknowledged them.
  pub written-IsExchanged :
      (o : O) (q : Q) {u : Running O Stream Q}
      → log o ≡ []
      → pending q ≡ []
      → Reach parts params channel handler rekey_interval Addr (start o q) u
      → AllHave (IsExchanged parts params) (log u.manager.osk_handler)
  written-IsExchanged o q none_written none_queued r =
      (Reach-AreExchanged o q none_written none_queued r).written
