-- ===== src/TcpServer/Running/Final.antt =====
-- Queues in which an exit is the last event of its connection, as
-- daisyway/src/internal/daisyway/net/tcp_server/fanout_connection_handler.rs fills them.
use daisyway.Base.{ℕ, ◌≡◌, ◌≢◌, ap, sym, subst, ◌∙◌, List, [], ◌∷◌, ◌++◌, Bool, true, false, arith}
use daisyway.TcpServer.Events.{ConnectionHandlerEvent}
use daisyway.TcpServer.Fanout.Notified.{AreKeysOf}
use daisyway.TcpServer.Running.Below.{connection_of}

abbrev pub exit_of : ℕ → ConnectionHandlerEvent
exit_of c = ConnectionHandlerEvent.exit (record { connection_id = c })

-- No event is about the connection `c`.
abbrev pub Quiet : ℕ → List ConnectionHandlerEvent → Type 0
Quiet c [] = Unit
Quiet c (ev ∷ evs) = (connection_of ev ≢ c) × Quiet c evs

-- No event is the exit of the connection `c`.
abbrev pub NoExit : ℕ → List ConnectionHandlerEvent → Type 0
NoExit c [] = Unit
NoExit c (ConnectionHandlerEvent.exit e ∷ evs) = (e.connection_id ≢ c) × NoExit c evs
NoExit c (ConnectionHandlerEvent.osk e ∷ evs) = NoExit c evs

-- The task has ended, if the event is its exit.
abbrev EndedBy : (ℕ → Bool) → ConnectionHandlerEvent → Type 0
EndedBy h (ConnectionHandlerEvent.exit e) = h e.connection_id ≡ true
EndedBy h (ConnectionHandlerEvent.osk e) = Unit

-- Newest first: nothing is told of a connection after its exit, and then its task has ended.
abbrev pub Final : (ℕ → Bool) → List ConnectionHandlerEvent → Type 0
Final h [] = Unit
Final h (ev ∷ evs) = NoExit (connection_of ev) evs × EndedBy h ev × Final h evs

pub NoExit-running :
    (h : ℕ → Bool) (c : ℕ) (evs : List ConnectionHandlerEvent)
    → Final h evs
    → h c ≡ false
    → NoExit c evs
NoExit-running h c [] f e = tt
NoExit-running h c (ConnectionHandlerEvent.exit x ∷ evs) f e =
    (λ same. ground (arith, f.1, ap h same), NoExit-running h c evs f.2 e)
NoExit-running h c (ConnectionHandlerEvent.osk x ∷ evs) f e = NoExit-running h c evs f.2 e

pub NoExit-prefix :
    (c : ℕ) (evs late : List ConnectionHandlerEvent) → NoExit c (evs ++ late) → NoExit c evs
NoExit-prefix c [] late n = tt
NoExit-prefix c (ConnectionHandlerEvent.exit x ∷ evs) late n = (n.0, NoExit-prefix c evs late n.1)
NoExit-prefix c (ConnectionHandlerEvent.osk x ∷ evs) late n = NoExit-prefix c evs late n

pub Final-prefix :
    (h : ℕ → Bool) (evs late : List ConnectionHandlerEvent) → Final h (evs ++ late) → Final h evs
Final-prefix h [] late f = tt
Final-prefix h (ev ∷ evs) late f =
    (NoExit-prefix (connection_of ev) evs late f.0, f.1, Final-prefix h evs late f.2)

-- More tasks may have ended.
pub Final-widen :
    (h h' : ℕ → Bool) (evs : List ConnectionHandlerEvent)
    → ((c : ℕ) → h c ≡ true → h' c ≡ true)
    → Final h evs
    → Final h' evs
Final-widen h h' [] more f = tt
Final-widen h h' (ConnectionHandlerEvent.exit x ∷ evs) more f =
    (f.0, more x.connection_id f.1, Final-widen h h' evs more f.2)
Final-widen h h' (ConnectionHandlerEvent.osk x ∷ evs) more f =
    (f.0, tt, Final-widen h h' evs more f.2)

pub keys-Final :
    (h : ℕ → Bool) (k : ℕ) (keys evs : List ConnectionHandlerEvent)
    → AreKeysOf k keys
    → NoExit k evs
    → Final h evs
    → NoExit k (keys ++ evs) × Final h (keys ++ evs)
keys-Final h k [] evs ks n f = (n, f)
keys-Final h k (ConnectionHandlerEvent.exit x ∷ keys) evs ks n f = absurd ks
keys-Final h k (ConnectionHandlerEvent.osk x ∷ keys) evs ks n f =
    let (n', f') = keys-Final h k keys evs ks.2 n f in
    (n', (subst (λ c. NoExit c (keys ++ evs)) (sym ks.0) n', tt, f'))

-- The oldest event is an exit: all others are of other connections.
pub exit-Quiet :
    (h : ℕ → Bool) (c : ℕ) (evs : List ConnectionHandlerEvent)
    → Final h (evs ++ exit_of c ∷ [])
    → Quiet c evs × (h c ≡ true)
exit-Quiet h c [] f = (tt, f.1)
exit-Quiet h c (ev ∷ evs) f =
    let (quiet, ended) = exit-Quiet h c evs f.2 in
    ((λ same. last-exit (connection_of ev) evs f.0 same, quiet), ended)
  where
    last-exit : (k : ℕ) (xs : List ConnectionHandlerEvent) → NoExit k (xs ++ exit_of c ∷ []) → k ≢ c
    last-exit k [] n same = n.0 (sym same)
    last-exit k (ConnectionHandlerEvent.exit x ∷ xs) n same = last-exit k xs n.1 same
    last-exit k (ConnectionHandlerEvent.osk x ∷ xs) n same = last-exit k xs n same

pub Quiet-prefix :
    (c : ℕ) (evs late : List ConnectionHandlerEvent) → Quiet c (evs ++ late) → Quiet c evs
Quiet-prefix c [] late q = tt
Quiet-prefix c (ev ∷ evs) late q = (q.0, Quiet-prefix c evs late q.1)

pub Quiet-keys :
    (c k : ℕ) (keys evs : List ConnectionHandlerEvent)
    → k ≢ c
    → AreKeysOf k keys
    → Quiet c evs
    → Quiet c (keys ++ evs)
Quiet-keys c k [] evs ne ks q = q
Quiet-keys c k (ConnectionHandlerEvent.exit x ∷ keys) evs ne ks q = absurd ks
Quiet-keys c k (ConnectionHandlerEvent.osk x ∷ keys) evs ne ks q =
    (λ same. ne (sym ks.0 ∙ same), Quiet-keys c k keys evs ne ks.2 q)
