-- ===== src/TcpServer/Manager/View.antt =====
-- What daisyway/src/internal/daisyway/net/tcp_server/connection_manager.rs promises of keys and exits, without
-- the order of connection numbers, the maps and the tasks: which connection is the active one, and which wait.
use daisyway.Base.{
  ℕ, ◌≡◌, Option, none, some, Bool, true, false, not, ◌&&◌, Result, ok, Action, arith, ltb, ◌==◌,
  if◌then◌else◌, Option-cases, inl, inr,
}
use daisyway.Osk.{OskHandler}
use daisyway.TcpServer.BTreeMap.{get, erase}
use daisyway.TcpServer.BTreeMap.Lookup.{get-bounds, get-split_off, get-erase_ne, get-erase_self}
use daisyway.TcpServer.Events.{OskEvent, ExitEvent}
use daisyway.TcpServer.Tasks.{AbortOnDropHandle}
use daisyway.TcpServer.Manager.{ConnectionManager, id_of, is_id, on_osk, on_exit, promote}
use daisyway.TcpServer.Manager.Invariant.{Inv, floor}

pub record View (O : Type 0) : Type 0 where
  pub active : Option ℕ
  pub waiting : ℕ → Bool
  pub osk_handler : O

abbrev pub is_held : Option AbortOnDropHandle → Bool
is_held none = false
is_held (some h) = true

abbrev pub view : {O Stream : Type 0} → ConnectionManager O Stream → View O
view m = record {
  active = id_of m.active_connection;
  waiting = λ c. is_held (get c m.budding_connections);
  osk_handler = m.osk_handler;
}

View-ext :
    {O : Type 0} (v w : View O)
    → v.active ≡ w.active
    → ((c : ℕ) → v.waiting c ≡ w.waiting c)
    → v.osk_handler ≡ w.osk_handler
    → v ≡ w
View-ext v w e f g i = record { active = e i; waiting = λ c. f c i; osk_handler = g i }

-- An exit: the active connection is gone, or one that waited.
unfoldable pub expected_exit : {O : Type 0} → ExitEvent → View O → View O
expected_exit ev v =
    if is_id ev.connection_id v.active
    then record v { active = none }
    else record v { waiting = λ c. not (c == ev.connection_id) && v.waiting c }

module _ {O : Type 0} (handler : OskHandler O) where
  abbrev deliver : OskEvent → Action (View O) (Unit {0})
  deliver ev v =
      let (r, o) = handler.set_osk ev.key ev.reason v.osk_handler in
      (r, record v { osk_handler = o })

  -- A key of the active connection is delivered. A waiting connection that sends one becomes active
  -- first, and only younger ones go on waiting. All other keys are discarded.
  unfoldable pub expected_osk : OskEvent → Action (View O) (Unit {0})
  expected_osk ev v =
      if is_id ev.connection_id v.active
      then deliver ev v
      else if v.waiting ev.connection_id
      then deliver ev (record v {
        active = some ev.connection_id;
        waiting = λ c. ltb ev.connection_id c && v.waiting c;
      })
      else (ok tt, v)

  module _ {Stream : Type 0} where
    abbrev pub viewed : Result (Unit {0}) × ConnectionManager O Stream → Result (Unit {0}) × View O
    viewed (r, m) = (r, view m)

    -- What still waits after a promotion.
    promote-waiting :
        (k c : ℕ) (h : AbortOnDropHandle) (m : ConnectionManager O Stream)
        → Inv m
        → is_held (get c (promote k h m).budding_connections)
          ≡ (ltb k c && is_held (get c m.budding_connections))
    unfolding promote
    promote-waiting k c h m v = ground (
      arith,
      get-split_off c k (erase k m.budding_connections),
      get-erase_ne c k m.budding_connections,
      get-erase_self k (floor (id_of m.active_connection)) m.next_connection_id
          m.budding_connections v.ascending,
    )

    same :
        (p : Result (Unit {0}) × ConnectionManager O Stream) (q : Result (Unit {0}) × View O)
        → p.0 ≡ q.0
        → id_of p.1.active_connection ≡ q.1.active
        → ((c : ℕ) → is_held (get c p.1.budding_connections) ≡ q.1.waiting c)
        → p.1.osk_handler ≡ q.1.osk_handler
        → viewed p ≡ q
    same p q e f g h i = (e i, View-ext (view p.1) q.1 f g h i)

    -- In a state that keeps the invariant, a key has the outcome and the effect that the view
    -- expects: that of the active connection is delivered; a waiting connection becomes active
    -- first, and only younger ones go on waiting; all other keys are discarded.
    pub on_osk-expected_osk :
        (ev : OskEvent) (m : ConnectionManager O Stream)
        → Inv m
        → viewed (on_osk handler ev m) ≡ expected_osk ev (view m)
    unfolding on_osk expected_osk
    on_osk-expected_osk ev m v = elim (Option-cases (get ev.connection_id m.budding_connections)) [
      | inl e ↦
          same (on_osk handler ev m) (expected_osk ev (view m)) (ground arith) (ground arith)
            (λ c. ground arith) (ground arith)
      | inr (h, e) ↦
          let bounds =
            get-bounds ev.connection_id (floor (id_of m.active_connection)) m.next_connection_id h
              m.budding_connections v.ascending e in
          same (on_osk handler ev m) (expected_osk ev (view m)) (ground arith) (ground arith)
            (λ c. ground (arith, promote-waiting ev.connection_id c h m v)) (ground arith)
    ]

    pub on_exit-expected_exit :
        (ev : ExitEvent) (m : ConnectionManager O Stream)
        → Inv m
        → view (on_exit ev m).1 ≡ expected_exit ev (view m)
    unfolding on_exit expected_exit
    on_exit-expected_exit ev m v =
        View-ext (view (on_exit ev m).1) (expected_exit ev (view m)) (ground arith)
          (λ c. ground (
            arith,
            get-erase_ne c ev.connection_id m.budding_connections,
            get-erase_self ev.connection_id (floor (id_of m.active_connection)) m.next_connection_id
                m.budding_connections v.ascending,
          ))
          (ground arith)
