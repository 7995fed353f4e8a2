-- ===== src/TcpServer/Fanout/Notified.antt =====
-- What the connection's task of
-- daisyway/src/internal/daisyway/net/tcp_server/fanout_connection_handler.rs tells the manager.
use daisyway.Base.{
  ℕ, zero, suc, ◌≡◌, refl, sym, ap, subst, ◌∙◌, ◌⊎◌, inl, inr, List, [], ◌∷◌, ◌++◌, Result, Error,
  ok, err, panic, resume_keeps, is_ok, false, Result-cases, arith,
}
use daisyway.Crypto.Key.{Key}
use daisyway.Crypto.Basics.{DaisywayProtocolParameters}
use daisyway.Crypto.World.{World, Parts, on_osk, on_runtime}
use daisyway.Crypto.Server.{negotiate_key}
use daisyway.Crypto.Server.Rounds.{negotiate_key_osk}
use daisyway.Osk.{fresh}
use daisyway.TcpServer.Events.{ConnectionHandlerEvent}
use daisyway.TcpServer.Fanout.{
  Sender, TaskState, ended, init_task, event_loop, parts_of, after_loop, set_osk_impl, exit_logged,
}

-- A queue: a successful `send` appends, and a failed one changes nothing. `sent` is newest first.
pub record IsQueue {Q : Type 0} (send : Sender Q) : Type 0 where
  pub sent : Q → List ConnectionHandlerEvent
  pub sends :
      (ev : ConnectionHandlerEvent) (q : Q)
      → (send ev q).0 ≡ ok tt
      → sent (send ev q).1 ≡ ev ∷ sent q
  pub fails :
      (ev : ConnectionHandlerEvent) (q : Q)
      → is_ok (send ev q).0 ≡ false
      → sent (send ev q).1 ≡ sent q

-- The events `es` are fresh keys of the connection, put on top of `before`.
abbrev pub AreKeysOf : ℕ → List ConnectionHandlerEvent → Type 0
AreKeysOf k [] = Unit
AreKeysOf k (ConnectionHandlerEvent.exit e ∷ es) = ⊥
AreKeysOf k (ConnectionHandlerEvent.osk e ∷ es) =
    (e.connection_id ≡ k) × (e.reason ≡ fresh) × AreKeysOf k es

module _ {N K R Q : Type 0} (parts : Parts N K R Q) (params : DaisywayProtocolParameters)
    (send : Sender Q) (queue : IsQueue send) where
  open queue use {sent, sends, fails}

  -- Since `before`, only fresh keys of connection `k` were sent.
  record Reported (k : ℕ) (before : List ConnectionHandlerEvent) (q : Q) : Type 0 where
    keys : List ConnectionHandlerEvent
    log : sent q ≡ keys ++ before
    tagged : AreKeysOf k keys

  send-Reported :
      (k : ℕ) (before : List ConnectionHandlerEvent) (key : Key) (q : Q)
      → Reported k before q
      → Reported k before
          (send
            (ConnectionHandlerEvent.osk (record { connection_id = k; key = key; reason = fresh }))
            q).1
  send-Reported k before key q h =
      let ev =
        ConnectionHandlerEvent.osk (record { connection_id = k; key = key; reason = fresh }) in
      elim (Result-cases (send ev q).0) [
        | inl (_, e) ↦ record {
          keys = ev ∷ h.keys;
          log = sends ev q e ∙ ap (◌∷◌ ev) h.log;
          tagged = (refl, refl, h.tagged);
        }
        | inr e ↦ record { keys = h.keys; log = fails ev q e ∙ h.log; tagged = h.tagged }
      ]

  set_osk-Reported :
      (k : ℕ) (before : List ConnectionHandlerEvent) (key : Key) (q : Q)
      → Reported k before q
      → Reported k before (set_osk_impl send k key fresh q).1
  unfolding set_osk_impl
  set_osk-Reported k before key q h =
      let ev =
        ConnectionHandlerEvent.osk (record { connection_id = k; key = key; reason = fresh }) in
      resume_keeps (Reported k before) _ (send ev q) (send-Reported k before key q h) (λ _ x. x)

  event_loop-Reported :
      (rekey_interval k rounds : ℕ) (before : List ConnectionHandlerEvent) (w : World N K R Q)
      → Reported k before w.osk
      → Reported k before (event_loop parts params send rekey_interval k rounds w).1.osk
  unfolding event_loop
  event_loop-Reported rekey_interval k zero before w h = h
  event_loop-Reported rekey_interval k (suc rounds) before w h =
      let P : World N K R Q → Type 0 = λ v. Reported k before v.osk in
      let ps = parts_of parts params send k in
      resume_keeps P _ (negotiate_key ps params w)
        (subst (Reported k before) (sym (negotiate_key_osk ps params w)) h)
        (λ key u.
          resume_keeps P _ (on_osk (set_osk_impl send k key fresh) (negotiate_key ps params w).1)
            (set_osk-Reported k before key (negotiate_key ps params w).1.osk u)
            (λ _ v.
              resume_keeps P _
                (on_runtime (ps.sleep rekey_interval)
                  (on_osk (set_osk_impl send k key fresh) (negotiate_key ps params w).1).1)
                v (λ _ x. event_loop-Reported rekey_interval k rounds before _ x)))

  -- What is on top of the queue: keys of the connection, and then an exit if the task has ended.
  abbrev Told : ℕ → List ConnectionHandlerEvent → Result TaskState × World N K R Q → Type 0
  Told k before (r, w) =
      (keys : List ConnectionHandlerEvent) × AreKeysOf k keys
      × ((sent w.osk ≡ keys ++ before)
          ⊎ ((r ≡ ok ended)
              × (sent w.osk
                  ≡ ConnectionHandlerEvent.exit (record { connection_id = k }) ∷ keys ++ before)))

  after_loop-Told :
      (k : ℕ) (before : List ConnectionHandlerEvent) (p : Result (Unit {0}) × World N K R Q)
      → Reported k before p.1.osk
      → Told k before (after_loop parts params send k p)
  unfolding after_loop
  after_loop-Told k before (ok a, w) h = (h.keys, h.tagged, inl h.log)
  after_loop-Told k before (err e, w) h =
      let ev = ConnectionHandlerEvent.exit (record { connection_id = k }) in
      elim (Result-cases (send ev w.osk).0) [
        | inl (_, f) ↦ (
          h.keys,
          h.tagged,
          inr (ap (exit_logged parts params send) f, sends ev w.osk f ∙ ap (◌∷◌ ev) h.log),
        )
        | inr f ↦ (h.keys, h.tagged, inl (fails ev w.osk f ∙ h.log))
      ]
  after_loop-Told k before (panic s, w) h = (h.keys, h.tagged, inl h.log)

  -- With a queue to which a successful send appends, and a failed one changes nothing, the task of
  -- a connection only sends fresh keys with the number of this connection, and then at most one
  -- exit with this number, after which it has ended.
  pub init_task-tagged :
      (rekey_interval k rounds : ℕ) (w : World N K R Q)
      → let (r, w') = init_task parts params send rekey_interval k rounds w in
        (keys : List ConnectionHandlerEvent) × AreKeysOf k keys
        × ((sent w'.osk ≡ keys ++ sent w.osk)
            ⊎ ((r ≡ ok ended)
                × (sent w'.osk
                    ≡ ConnectionHandlerEvent.exit (record { connection_id = k }) ∷ keys
                      ++ sent w.osk)))
  unfolding init_task
  init_task-tagged rekey_interval k rounds w =
      after_loop-Told k (sent w.osk) (event_loop parts params send rekey_interval k rounds w) (
        event_loop-Reported rekey_interval k rounds (sent w.osk) w
          (record { keys = []; log = refl; tagged = tt }))

  -- If its connection ends with an error and the exit can be sent, a task ends, and the exit is on
  -- top of the queue.
  pub init_task_exit :
      (rekey_interval k rounds : ℕ) (w : World N K R Q) (e : Error)
      → (event_loop parts params send rekey_interval k rounds w).0 ≡ err e
      → (send
          (ConnectionHandlerEvent.exit (record { connection_id = k }))
          (event_loop parts params send rekey_interval k rounds w).1.osk).0
        ≡ ok tt
      → let q = (event_loop parts params send rekey_interval k rounds w).1.osk in
        let (r, w') = init_task parts params send rekey_interval k rounds w in
        (r ≡ ok ended)
        × (sent w'.osk ≡ ConnectionHandlerEvent.exit (record { connection_id = k }) ∷ sent q)
  unfolding init_task after_loop
  init_task_exit rekey_interval k rounds w e failed h =
      go (event_loop parts params send rekey_interval k rounds w) failed h
    where
      go :
          (p : Result (Unit {0}) × World N K R Q)
          → p.0 ≡ err e
          → (send (ConnectionHandlerEvent.exit (record { connection_id = k })) p.1.osk).0 ≡ ok tt
          → ((after_loop parts params send k p).0 ≡ ok ended)
            × (sent (after_loop parts params send k p).1.osk
                ≡ ConnectionHandlerEvent.exit (record { connection_id = k }) ∷ sent p.1.osk)
      go (ok a, v) f g = ground arith
      go (err x, v) f g = (ap (exit_logged parts params send) g, sends _ v.osk g)
      go (panic s, v) f g = ground arith
