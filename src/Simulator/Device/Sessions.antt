-- ===== src/Simulator/Device/Sessions.antt =====
-- The two daemons of daisyway/src/internal/daisyway and the simulators of simulator/src/main.rs, all
-- together.
use daisyway.Base.{ℕ, ◌≡◌, List, ◌++◌, Option, ok, length}
use daisyway.Crypto.Key.{Bytes, Key, IsKey}
use daisyway.Crypto.Basics.{DaisywayProtocolParameters}
use daisyway.Crypto.Basics.Derivation.{mirror}
use daisyway.Crypto.World.{World, Parts}
use daisyway.Crypto.Server
use daisyway.Crypto.Client
use daisyway.Crypto.Agreement.Sessions.{Duplex, IsLogging, event_loops_agree}
use daisyway.Crypto.Agreement.{Wire, SameCrates}
use daisyway.Util.{Base64}
use daisyway.Etsi014.{Etsi014Connection}
use daisyway.Simulator.{UuidText}
use daisyway.Simulator.Device.{IsReadable, IsRouted}
use daisyway.Simulator.Device.Delivery.{with_simulator, simulator-IsDelivered}

module _ (base64 : Base64) (uuid : UuidText) (split : Bytes → Bytes × Option Bytes)
    {N K R O N' K' R' O' Device Device' : Type 0} (here : Parts N K R O) (there : Parts N' K' R' O')
    (alice : Etsi014Connection Device) (bob : Etsi014Connection Device') where
  abbrev pub at_alice : Parts N ℕ R O
  at_alice = with_simulator base64 uuid split here alice

  abbrev pub at_bob : Parts N' ℕ R' O'
  at_bob = with_simulator base64 uuid split there bob

  -- If the loops of two daemons whose devices are simulators have gone through so many rounds,
  -- over streams that deliver what was written, with the peers' parameters mirrored and the same
  -- crates on both sides, ids that are printed and encoded so that they are read back, URIs that
  -- are taken apart as they were put together, and nonces of their size, then both key handlers,
  -- whose keys can be told, have been given the same keys, one in each round.
  pub sessions_agree :
      (crates : SameCrates at_alice at_bob) (wire : Wire at_alice) (duplex : Duplex at_bob)
      (logging : IsLogging at_alice) (logging' : IsLogging at_bob)
      (params : DaisywayProtocolParameters) (rekey_interval rounds : ℕ) (s s' : World N ℕ R O)
      (c c' : World N' ℕ R' O') (b rest : Bytes)
      → IsReadable base64 uuid
      → IsRouted base64 uuid split alice
      → IsRouted base64 uuid split bob
      → ((w : R) (n : Key) → (here.random w).0 ≡ ok n → IsKey n)
      → Server.event_loop at_alice params rekey_interval rounds s ≡ (ok tt, s')
      → Client.event_loop at_bob (mirror params) rounds c ≡ (ok tt, c')
      → wire.sent s'.stream ≡ wire.sent s.stream ++ b
      → duplex.wire.incoming c.stream ≡ b ++ rest
      → (keys : List Key) × (length keys ≡ rounds)
        × (logging.log s'.osk ≡ keys ++ logging.log s.osk)
        × (logging'.log c'.osk ≡ keys ++ logging'.log c.osk)
  sessions_agree crates wire duplex logging logging' params rekey_interval rounds s s' c c' b rest
        readable ra rb random =
      event_loops_agree at_alice at_bob crates wire duplex logging logging' params rekey_interval
        (simulator-IsDelivered base64 uuid split here there alice bob readable ra rb random) rounds
        s s' c c' b rest
