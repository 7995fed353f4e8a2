-- ===== src/TcpServer/Fanout/Exchanged.antt =====
-- Which keys the task of daisyway/src/internal/daisyway/net/tcp_server/fanout_connection_handler.rs reports.
use daisyway.Base.{
  ℕ, zero, suc, ◌≡◌, inl, inr, sym, subst, List, [], ◌∷◌, ◌++◌, true, Result, ok, err, panic,
  resume_after, Result-cases,
}
use daisyway.Crypto.Key.{Key}
use daisyway.Crypto.Basics.{DaisywayProtocolParameters, Etsi014Key, derive_daisyway_key}
use daisyway.Crypto.World.{World, Parts, on_osk, on_runtime}
use daisyway.Crypto.Server.{negotiate_key}
use daisyway.Crypto.Server.Rounds.{request, is_acknowledged, negotiate_key_steps, negotiate_key_osk}
use daisyway.Osk.{fresh}
use daisyway.TcpServer.Events.{ConnectionHandlerEvent}
use daisyway.TcpServer.Fanout.{
  Sender, init_task, event_loop, after_loop, set_osk_impl, send_exit, parts_of,
}
use daisyway.TcpServer.Fanout.Notified.{IsQueue}

-- The keys of the events have the property.
abbrev pub KeysHave : (Key → Type 0) → List ConnectionHandlerEvent → Type 0
KeysHave P [] = Unit
KeysHave P (ConnectionHandlerEvent.exit e ∷ evs) = KeysHave P evs
KeysHave P (ConnectionHandlerEvent.osk e ∷ evs) = P e.key × KeysHave P evs

pub KeysHave-prefix :
    (P : Key → Type 0) (evs late : List ConnectionHandlerEvent)
    → KeysHave P (evs ++ late)
    → KeysHave P evs × KeysHave P late
KeysHave-prefix P [] late h = (tt, h)
KeysHave-prefix P (ConnectionHandlerEvent.exit e ∷ evs) late h = KeysHave-prefix P evs late h
KeysHave-prefix P (ConnectionHandlerEvent.osk e ∷ evs) late h =
    let (a, b) = KeysHave-prefix P evs late h.1 in ((h.0, a), b)

abbrev pub AllHave : (Key → Type 0) → List Key → Type 0
AllHave P [] = Unit
AllHave P (k ∷ ks) = P k × AllHave P ks

module _ {N K R Q : Type 0} (parts : Parts N K R Q) (params : DaisywayProtocolParameters) where
  open parts use {fetch_any_key, random, read_exact, write_all, uuid, shake256}

  -- The key is derived from a fetched QKD key and a drawn nonce, which were sent and acknowledged.
  abbrev pub IsExchanged : Key → Type 0
  IsExchanged k =
      (stream : N) × (etsi : K) × (runtime : R) × (q : Etsi014Key) × (n : Key) × ((fetch_any_key
          etsi).0
        ≡ ok q)
      × ((random runtime).0 ≡ ok n)
      × ((write_all (request q n) stream).0 ≡ ok tt)
      × (is_acknowledged (read_exact 1 (write_all (request q n) stream).1).0 ≡ true)
      × (k ≡ derive_daisyway_key uuid shake256 params n q)

  negotiated :
      (send : Sender Q) (k : ℕ) (w w' : World N K R Q) (key : Key)
      → negotiate_key (parts_of parts params send k) params w ≡ (ok key, w')
      → IsExchanged key
  unfolding parts_of
  negotiated send k w w' key e =
      let (q, n, fetched, drawn, written, read, _, eq) =
        negotiate_key_steps (parts_of parts params send k) params w w' key e in
      (w.stream, w.etsi, w.runtime, q, n, fetched, drawn, written, read, eq)

  module _ (send : Sender Q) (queue : IsQueue send) where
    open queue use {sent, sends, fails}

    abbrev pub Genuine : Q → Type 0
    Genuine q = KeysHave IsExchanged (sent q)

    send-Genuine :
        (ev : ConnectionHandlerEvent) (q : Q)
        → KeysHave IsExchanged (ev ∷ sent q)
        → Genuine q
        → Genuine (send ev q).1
    send-Genuine ev q h g = elim (Result-cases (send ev q).0) [
      | inl (_, e) ↦ rw (sends ev q e) h
      | inr e ↦ rw (fails ev q e) g
    ]

    set_osk-Genuine :
        (k : ℕ) (key : Key) (q : Q)
        → IsExchanged key
        → Genuine q
        → Genuine (set_osk_impl send k key fresh q).1
    unfolding set_osk_impl
    set_osk-Genuine k key q n g =
        let ev =
          ConnectionHandlerEvent.osk (record { connection_id = k; key = key; reason = fresh }) in
        resume_after Genuine _ (send ev q) (send-Genuine ev q (n, g) g) (λ _ _ x. x)

    loop-Genuine :
        (rekey_interval k rounds : ℕ) (w : World N K R Q)
        → Genuine w.osk
        → Genuine (event_loop parts params send rekey_interval k rounds w).1.osk
    unfolding event_loop parts_of
    loop-Genuine rekey_interval k zero w g = g
    loop-Genuine rekey_interval k (suc rounds) w g =
        let P : World N K R Q → Type 0 = λ v. Genuine v.osk in
        let ps = parts_of parts params send k in
        let set = set_osk_impl send k in
        resume_after P _ (negotiate_key ps params w)
          (subst Genuine (sym (negotiate_key_osk ps params w)) g)
          λ key e h.
            let v = (negotiate_key ps params w).1 in
            resume_after P _ (on_osk (set key fresh) v)
              (set_osk-Genuine k key v.osk (negotiated send k w v key e) h)
              λ _ _ x.
                resume_after P _ (on_runtime (ps.sleep rekey_interval) (on_osk (set key fresh) v).1)
                  x (λ _ _ y. loop-Genuine rekey_interval k rounds _ y)

    -- What the task of a connection puts into the queue, the keys of it are exchanged ones.
    pub init_task-Genuine :
        (rekey_interval k rounds : ℕ) (w : World N K R Q)
        → Genuine w.osk
        → Genuine (init_task parts params send rekey_interval k rounds w).1.osk
    unfolding init_task after_loop send_exit
    init_task-Genuine rekey_interval k rounds w g =
        after (event_loop parts params send rekey_interval k rounds w)
          (loop-Genuine rekey_interval k rounds w g)
      where
        after :
            (p : Result (Unit {0}) × World N K R Q)
            → Genuine p.1.osk
            → Genuine (after_loop parts params send k p).1.osk
        after (ok a, v) h = h
        after (err e, v) h =
            send-Genuine (ConnectionHandlerEvent.exit (record { connection_id = k })) v.osk h h
        after (panic s, v) h = h
