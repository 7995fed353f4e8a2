-- ===== src/TcpServer/Manager/Gone.antt =====
-- The connections that the manager of
-- daisyway/src/internal/daisyway/net/tcp_server/connection_manager.rs holds, and those that are gone.
use daisyway.Base.{
  ℕ, ◌+◌, ◌^◌, ◌<◌, ◌≡◌, ◌≢◌, refl, ◌⊎◌, inl, inr, [], ◌∷◌, none, some, ok, arith, length, Option,
  ap, false,
}
use daisyway.TcpServer.BTreeMap.{BTreeMap, get, erase}
use daisyway.TcpServer.BTreeMap.Lookup.{
  get-insert_ne, get-erase_ne, get-erase-none, get-split_off, get-below, get-bounds, get-erase_self,
  erase-absent,
}
use daisyway.TcpServer.Events.{AcceptEvent, ExitEvent}
use daisyway.TcpServer.Tasks.{AbortOnDropHandle, drop_option}
use daisyway.TcpServer.Manager.{
  ConnectionManager, id_of, is_id, make_space, allocate_connection_id, on_accept, on_exit, promote,
}
use daisyway.TcpServer.Manager.Invariant.{Inv, floor, make_space-next}

is_id-ne : (c : ℕ) (a : Option ℕ) → a ≢ some c → is_id c a ≡ false
is_id-ne c none h = refl
is_id-ne c (some a) h = ground (arith, λ (e : a ≡ c). h (ap some e))

module _ {O Stream : Type 0} where
  -- The manager holds a task of the connection.
  abbrev pub IsLive : ℕ → ConnectionManager O Stream → Type 0
  IsLive k m =
      (id_of m.active_connection ≡ some k)
      ⊎ ((h : AbortOnDropHandle) × (get k m.budding_connections ≡ some h))

  -- The connection was accepted at some time, and the manager holds it no longer.
  pub record IsGone (c : ℕ) (m : ConnectionManager O Stream) : Type 0 where
    pub known : c < m.next_connection_id
    pub not_budding : get c m.budding_connections ≡ none
    pub not_active : id_of m.active_connection ≢ some c

  pub make_space-get :
      (c : ℕ) (m : ConnectionManager O Stream) (b : BTreeMap AbortOnDropHandle)
      → m.budding_connections ≡ b
      → get c b ≡ none
      → get c (make_space m).1.budding_connections ≡ none
  unfolding make_space get
  make_space-get c m [] e h = ground arith
  make_space-get c m ((k, v) ∷ b) e h = ground arith

  pub make_space-active :
      (m : ConnectionManager O Stream) → (make_space m).1.active_connection ≡ m.active_connection
  unfolding make_space
  make_space-active m = ground arith

  module _ (c : ℕ) (m : ConnectionManager O Stream) where
    pub on_accept-IsGone :
        {Addr : Type 0} (ev : AcceptEvent Stream Addr)
        → m.next_connection_id + 1 < 2 ^ 64
        → IsGone c m
        → IsGone c (on_accept ev m).1
    unfolding on_accept allocate_connection_id
    on_accept-IsGone ev h g =
        let m' = (allocate_connection_id m).1 in
        ground (
          arith,
          make_space-get c m' m.budding_connections refl g.not_budding,
          make_space-active m',
          make_space-next m',
          get-insert_ne c m.next_connection_id
              (record { task = length (make_space m').1.tasks.spawned })
              (make_space m').1.budding_connections,
        )

    pub on_exit-IsGone : (ev : ExitEvent) → IsGone c m → IsGone c (on_exit ev m).1
    unfolding on_exit
    on_exit-IsGone ev g =
        ground (arith, get-erase-none c ev.connection_id m.budding_connections g.not_budding)

    pub promote-IsGone :
        (k : ℕ) (h : AbortOnDropHandle) → c ≢ k → IsGone c m → IsGone c (promote k h m)
    unfolding promote
    promote-IsGone k h ne g = ground (
      arith,
      get-split_off c k (erase k m.budding_connections),
      get-erase_ne c k m.budding_connections ne,
    )

    -- Promotion drops the older connections.
    pub promote_older :
        (k : ℕ) (h : AbortOnDropHandle)
        → get k m.budding_connections ≡ some h
        → Inv m
        → c < k
        → IsGone c (promote k h m)
    unfolding promote
    promote_older k h e v lt = ground (
      arith,
      get-split_off c k (erase k m.budding_connections),
      get-bounds k (floor (id_of m.active_connection)) m.next_connection_id h m.budding_connections
          v.ascending e,
    )

    -- A connection whose task has exited is gone.
    pub on_exit-IsGone_now :
        (ev : ExitEvent)
        → Inv m
        → ev.connection_id ≡ c
        → c < m.next_connection_id
        → IsGone c (on_exit ev m).1
    unfolding on_exit
    on_exit-IsGone_now ev v e lt = ground (
      arith,
      get-erase_self c (floor (id_of m.active_connection)) m.next_connection_id
          m.budding_connections v.ascending,
      get-below c (floor (id_of m.active_connection)) m.next_connection_id m.budding_connections
          v.ascending,
    )

    -- Its late notice of exit changes nothing.
    pub on_exit_ignored :
        (ev : ExitEvent) → ev.connection_id ≡ c → IsGone c m → on_exit ev m ≡ (ok tt, m)
    unfolding on_exit drop_option
    on_exit_ignored ev e g = rw (
      e,
      is_id-ne c (id_of m.active_connection) g.not_active,
      g.not_budding,
      erase-absent c m.budding_connections g.not_budding,
    )

  pub IsGone-not-IsLive : (c : ℕ) (m : ConnectionManager O Stream) → IsGone c m → ¬ IsLive c m
  IsGone-not-IsLive c m g (inl e) = g.not_active e
  IsGone-not-IsLive c m g (inr (h, e)) = ground (arith, g.not_budding)
