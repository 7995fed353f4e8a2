-- ===== src/TcpServer/Manager/Waiting.antt =====
-- What an accepted connection means to those that wait in
-- daisyway/src/internal/daisyway/net/tcp_server/connection_manager.rs.
use daisyway.Base.{
  ℕ, suc, ◌+◌, ◌^◌, ◌<◌, ◌≤◌, ◌≡◌, ◌≢◌, refl, ap, ◌∙◌, List, [], ◌∷◌, ◌++◌, Bool, Bool-cases, true,
  false, ◌||◌, inl, inr, arith, length, ◌==◌,
}
use daisyway.TcpServer.BTreeMap.{BTreeMap, get}
use daisyway.TcpServer.BTreeMap.Order.{Ascends, Ascends-widen}
use daisyway.TcpServer.BTreeMap.Lookup.{get-below}
use daisyway.TcpServer.Events.{AcceptEvent}
use daisyway.TcpServer.Tasks.{AbortOnDropHandle}
use daisyway.TcpServer.Manager.{ConnectionManager, max_budding_connections, id_of, on_accept}
use daisyway.TcpServer.Manager.Invariant.{Inv, floor, on_accept-Inv}
use daisyway.TcpServer.Manager.Accepting.{kept, on_accept_lem}
use daisyway.TcpServer.Manager.View.{View, is_held, view}

-- Different connections that wait, in ascending order.
abbrev pub AllWait : (ℕ → Bool) → ℕ → List ℕ → Type 0
AllWait waiting from [] = Unit
AllWait waiting from (c ∷ cs) = (from ≤ c) × (waiting c ≡ true) × AllWait waiting (suc c) cs

-- A connection is accepted: it waits, and each other one that waits did so before. Never more than
-- 2000 wait, and one that waits no longer was the oldest of at least 2000.
pub record Accepts {O : Type 0} (new : ℕ) (v w : View O) : Type 0 where
  pub same_active : w.active ≡ v.active
  pub same_handler : w.osk_handler ≡ v.osk_handler
  pub waits : w.waiting new ≡ true
  pub older : (c : ℕ) → c ≢ new → w.waiting c ≡ true → v.waiting c ≡ true
  pub oldest : (c d : ℕ) → v.waiting c ≡ true → w.waiting c ≡ false → v.waiting d ≡ true → c ≤ d
  pub bounded : (cs : List ℕ) → AllWait w.waiting 0 cs → length cs ≤ 2000
  pub full :
      (c : ℕ)
      → v.waiting c ≡ true
      → w.waiting c ≡ false
      → (cs : List ℕ) × AllWait v.waiting 0 cs × (2000 ≤ length cs)

abbrev keys : BTreeMap AbortOnDropHandle → List ℕ
keys [] = []
keys ((k, h) ∷ b) = k ∷ keys b

length-keys : (b : BTreeMap AbortOnDropHandle) → length (keys b) ≡ length b
length-keys [] = refl
length-keys ((k, h) ∷ b) = ap suc (length-keys b)

AllWait-widen :
    (waiting : ℕ → Bool) (from from' : ℕ) (cs : List ℕ)
    → from' ≤ from
    → AllWait waiting from cs
    → AllWait waiting from' cs
AllWait-widen waiting from from' [] le a = tt
AllWait-widen waiting from from' (c ∷ cs) le a = (omega arith, a.1, a.2)

-- The keys of a map wait, if what it holds waits.
keys-AllWait :
    (waiting : ℕ → Bool) (lo hi : ℕ) (b : BTreeMap AbortOnDropHandle)
    → Ascends lo hi b
    → ((c : ℕ) → lo ≤ c → is_held (get c b) ≡ true → waiting c ≡ true)
    → AllWait waiting lo (keys b)
unfolding get
keys-AllWait waiting lo hi [] a f = tt
keys-AllWait waiting lo hi ((k, h) ∷ b) a f = (
  a.0,
  f k a.0 (ground arith),
  keys-AllWait waiting (suc k) hi b a.2 (λ c le e. f c (omega arith) (ground arith)),
)

-- Not more wait than a map holds, if it holds all that wait.
length-AllWait :
    (waiting : ℕ → Bool) (lo hi : ℕ) (b : BTreeMap AbortOnDropHandle) (cs : List ℕ)
    → Ascends lo hi b
    → ((c : ℕ) → lo ≤ c → waiting c ≡ true → is_held (get c b) ≡ true)
    → AllWait waiting lo cs
    → length cs ≤ length b
unfolding get
length-AllWait waiting lo hi b [] a f w = omega arith
length-AllWait waiting lo hi [] (c ∷ cs) a f w = ground (arith, f c w.0 w.1)
length-AllWait waiting lo hi ((j, h) ∷ b) (c ∷ cs) a f w =
    let later : (d : ℕ) → suc j ≤ d → waiting d ≡ true → is_held (get d b) ≡ true =
      λ d le e. ground (arith, f d (omega arith) e) in
    elim (Bool-cases (c == j)) [
      | inl same ↦
          let rest =
            length-AllWait waiting (suc j) hi b cs a.2 later
              (AllWait-widen waiting (suc c) (suc j) cs (ground arith) w.2) in
          omega arith
      | inr other ↦
          let above : suc j ≤ c = ground (arith, f c w.0 w.1, get-below c (suc j) hi b a.2) in
          let rest = length-AllWait waiting (suc j) hi b (c ∷ cs) a.2 later (above, w.1, w.2) in
          omega arith
    ]

held-append :
    (c n : ℕ) (h : AbortOnDropHandle) (b : BTreeMap AbortOnDropHandle)
    → is_held (get c (b ++ (n, h) ∷ [])) ≡ (is_held (get c b) || c == n)
unfolding get
held-append c n h [] = ground arith
held-append c n h ((k, j) ∷ b) = ground (arith, held-append c n h b)

held-kept :
    (c : ℕ) (b : BTreeMap AbortOnDropHandle)
    → is_held (get c (kept b)) ≡ true
    → is_held (get c b) ≡ true
unfolding get
held-kept c [] e = e
held-kept c ((k, j) ∷ b) e = ground arith

-- An entry is only missing where there are too many.
kept-full :
    (c : ℕ) (b : BTreeMap AbortOnDropHandle)
    → is_held (get c b) ≡ true
    → is_held (get c (kept b)) ≡ false
    → max_budding_connections ≤ length b
unfolding get
kept-full c [] e f = ground arith
kept-full c ((k, j) ∷ b) e f = ground arith

-- Only the first entry may be missing.
kept-oldest :
    (c d lo hi : ℕ) (b : BTreeMap AbortOnDropHandle)
    → Ascends lo hi b
    → is_held (get c b) ≡ true
    → is_held (get c (kept b)) ≡ false
    → is_held (get d b) ≡ true
    → c ≤ d
unfolding get
kept-oldest c d lo hi [] a e f g = ground arith
kept-oldest c d lo hi ((k, j) ∷ b) a e f g =
    ground (arith, get-below d (suc k) hi b a.2, get-below c (suc k) hi b a.2)

module _ {O Stream : Type 0} where
  pub on_accept-Accepts :
      {Addr : Type 0} (ev : AcceptEvent Stream Addr) (m : ConnectionManager O Stream)
      → m.next_connection_id + 1 < 2 ^ 64
      → Inv m
      → Accepts m.next_connection_id (view m) (view (on_accept ev m).1)
  on_accept-Accepts ev m h v =
      let (_, budding, _, active, handler) = on_accept_lem ev m v in
      let held : (c : ℕ)
          → is_held (get c (on_accept ev m).1.budding_connections)
            ≡ (is_held (get c (kept m.budding_connections)) || c == m.next_connection_id) =
        λ c.
          ap (λ b. is_held (get c b)) budding
          ∙ held-append c m.next_connection_id (record { task = length m.tasks.spawned })
              (kept m.budding_connections) in
      record {
        same_active = ap id_of active;
        same_handler = handler;
        waits = ground (arith, held m.next_connection_id);
        older = λ c ne e. held-kept c m.budding_connections (ground (arith, held c));
        oldest = λ c d e f g.
            kept-oldest c d (floor (id_of m.active_connection)) m.next_connection_id
              m.budding_connections v.ascending e (ground (arith, held c)) g;
        bounded = λ cs a.
            let m' = (on_accept ev m).1 in
            let after : Inv m' = (on_accept-Inv ev m h v).1 in
            let most : length cs ≤ length m'.budding_connections =
              length-AllWait (view m').waiting 0 m'.next_connection_id m'.budding_connections cs
                (Ascends-widen (floor (id_of m'.active_connection)) 0 m'.next_connection_id
                  m'.next_connection_id m'.budding_connections (omega arith) (omega arith)
                  after.ascending)
                (λ c le e. e) a in
            omega (arith, after.bounded);
        full = λ c e f. (
          keys m.budding_connections,
          keys-AllWait (view m).waiting 0 m.next_connection_id m.budding_connections
              (Ascends-widen (floor (id_of m.active_connection)) 0 m.next_connection_id
                m.next_connection_id m.budding_connections (omega arith) (omega arith) v.ascending)
              (λ d le x. x),
          omega (
            arith,
            length-keys m.budding_connections,
            kept-full c m.budding_connections e (ground (arith, held c)),
          ),
        );
      }
