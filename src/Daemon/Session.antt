-- ===== src/Daemon/Session.antt =====
-- Two daemons that were set up by daisyway/src/internal/daisyway/setup.rs, each on a machine of its own, with
-- their protocols of daisyway/src/internal/daisyway/crypto over one connection.
mod Tests
use daisyway.Base.{ℕ, ◌≡◌, sym, ap, ◌∙◌, List, ◌++◌, Option, ok, Result, length, arith}
use daisyway.Crypto.Key.{Bytes, Key}
use daisyway.Crypto.Basics.{DaisywayProtocolParameters}
use daisyway.Crypto.Basics.Derivation.{mirror}
use daisyway.Crypto.World.{World, Parts}
use daisyway.Crypto.Client
use daisyway.Crypto.Agreement.{Wire, SameCrates, IsDelivered}
use daisyway.Crypto.Agreement.Sessions.{Duplex, IsLogging, event_loops_agree}
use daisyway.Etsi014.{Etsi014Config, Etsi014Connection}
use daisyway.Osk.{OskHandler}
use daisyway.Osk.WireGuard.{WgSocket}
use daisyway.Setup.{
  DaisywayConfig, DaisywayTcpParticipant, DaisywayTcpClient, DaisywayTcpServer, client, server,
  from_config, load_psk,
}
use daisyway.Setup.Choice.{from_config_sound}
use daisyway.Util.{Reader, base64_to_key}
use daisyway.Daemon.{Host, new_server_protocol, new_client_protocol, parts_for, serve, answer}

ok-injective : {A : Type 0} {a b : A} → ok a ≡ ok b → a ≡ b
ok-injective e = ground arith

-- The configurations name each other's peer ids.
abbrev pub ArePeers :
    {FilePath FilePath' : Type 0} → DaisywayConfig FilePath → DaisywayConfig FilePath' → Type 0
ArePeers a b =
    (a.wireguard.local_peer_id ≡ b.wireguard.remote_peer_id)
    × (a.wireguard.remote_peer_id ≡ b.wireguard.local_peer_id)

-- What a daemon is set up and runs on.
pub record Machine (N K R HttpClient FilePath V : Type 0) : Type 0 where
  pub host : Host N K R HttpClient
  pub socket : WgSocket V
  pub open_file : FilePath → V → Result Reader
  pub etsi_from_config : Etsi014Config FilePath → Result (Etsi014Connection HttpClient)

module _ {N K R HttpClient FilePath V : Type 0} (m : Machine N K R HttpClient FilePath V) where
  abbrev pub IsSetUp :
      DaisywayConfig FilePath → V → DaisywayTcpParticipant FilePath HttpClient → Type 0
  IsSetUp cfg v p =
      (v' : V) × (from_config m.host.base64 m.socket m.open_file m.etsi_from_config cfg v
        ≡ (ok p, v'))

  abbrev pub psk_of : DaisywayConfig FilePath → V → Result Key
  psk_of cfg v =
      (load_psk m.host.base64 m.socket m.open_file m.etsi_from_config cfg.peer.psk_file v).0

module _ {N K R HttpClient FilePath V N' K' R' HttpClient' FilePath' V' : Type 0}
    (here : Machine N K R HttpClient FilePath V)
    (there : Machine N' K' R' HttpClient' FilePath' V') where
  -- The same crates on both machines.
  pub record AreAlike : Type 0 where
    pub base64_eq : there.host.base64 ≡ here.host.base64
    pub uuid_eq : there.host.uuid ≡ here.host.uuid
    pub shake256_eq : there.host.shake256 ≡ here.host.shake256

  module _ (alike : AreAlike) (a : DaisywayConfig FilePath) (b : DaisywayConfig FilePath') (va : V)
      (vb : V') (s : DaisywayTcpServer FilePath HttpClient)
      (c : DaisywayTcpClient FilePath' HttpClient') where
    same_decoded :
        (text text' : Bytes) (key key' : Key)
        → base64_to_key there.host.base64 text' ≡ ok key'
        → text ≡ text'
        → base64_to_key here.host.base64 text ≡ ok key
        → key' ≡ key
    same_decoded text text' key key' decoded' same decoded = ok-injective (
        sym decoded'
        ∙ ap (λ base64. base64_to_key base64 text') alike.base64_eq
        ∙ ap (base64_to_key here.host.base64) (sym same)
        ∙ decoded)

    IsSetUp-mirror :
        IsSetUp here a va (server s)
        → IsSetUp there b vb (client c)
        → ArePeers a b
        → psk_of here a va ≡ psk_of there b vb
        → c.protocol_params ≡ mirror s.protocol_params
    IsSetUp-mirror (va', made_a) (vb', made_b) (local_eq, remote_eq) psk_eq =
        let sa =
          from_config_sound here.host.base64 here.socket here.open_file here.etsi_from_config a va
            va' (server s) made_a in
        let sb =
          from_config_sound there.host.base64 there.socket there.open_file there.etsi_from_config b
            vb vb' (client c) made_b in
        let psk : c.protocol_params.psk ≡ s.protocol_params.psk =
          ok-injective (sym sb.5 ∙ sym psk_eq ∙ sa.5) in
        let local : c.protocol_params.local_peer_id ≡ s.protocol_params.remote_peer_id =
          same_decoded _ _ _ _ sb.3 remote_eq sa.4 in
        let remote : c.protocol_params.remote_peer_id ≡ s.protocol_params.local_peer_id =
          same_decoded _ _ _ _ sb.4 local_eq sa.3 in
        λ i. record { psk = psk i; local_peer_id = local i; remote_peer_id = remote i }

    module _ {O O' : Type 0} (handler : OskHandler O) (handler' : OskHandler O') where
      abbrev pub at_server : Parts N K R O
      at_server = parts_for here.host s.etsi_client handler

      abbrev pub at_client : Parts N' K' R' O'
      at_client = parts_for there.host c.etsi_client handler'

      crates : SameCrates at_server at_client
      unfolding parts_for
      crates = record { uuid_eq = alike.uuid_eq; shake256_eq = alike.shake256_eq }

      -- If a server and a client were set up from configurations that name each other's peer ids,
      -- with the same pre-shared key and the same crates, and the loops of their protocols have
      -- gone through so many rounds, over streams that deliver what was written, and the client's
      -- QKD connection returns the key of an id as the server's delivered it, and ids, keys and
      -- nonces have their sizes, then both key handlers, whose keys can be told, have been given
      -- the same keys, one in each round.
      pub configured_agree :
          (wire : Wire at_server) (duplex : Duplex at_client) (logging : IsLogging at_server)
          (logging' : IsLogging at_client) (rounds : ℕ) (ws ws' : World N K R O)
          (wc wc' : World N' K' R' O') (sent rest : Bytes)
          → IsSetUp here a va (server s)
          → IsSetUp there b vb (client c)
          → ArePeers a b
          → psk_of here a va ≡ psk_of there b vb
          → ((x : World N K R O) (y : World N' K' R' O') → IsDelivered at_server at_client x y)
          → serve here.host
              (new_server_protocol s.protocol_params ws.stream s.etsi_client handler
                s.rekey_interval)
              rounds
              ws
            ≡ (ok tt, ws')
          → answer there.host
              (new_client_protocol c.protocol_params wc.stream c.etsi_client handler')
              rounds
              wc
            ≡ (ok tt, wc')
          → wire.sent ws'.stream ≡ wire.sent ws.stream ++ sent
          → duplex.wire.incoming wc.stream ≡ sent ++ rest
          → (keys : List Key) × (length keys ≡ rounds)
            × (logging.log ws'.osk ≡ keys ++ logging.log ws.osk)
            × (logging'.log wc'.osk ≡ keys ++ logging'.log wc.osk)
      unfolding serve answer new_server_protocol new_client_protocol
      configured_agree wire duplex logging logging' rounds ws ws' wc wc' sent rest made_a made_b
            peers psk_eq delivered es ec wrote reads =
          event_loops_agree at_server at_client crates wire duplex logging logging'
            s.protocol_params s.rekey_interval delivered rounds ws ws' wc wc' sent rest es
            (ap (λ p. Client.event_loop at_client p rounds wc)
                (sym (IsSetUp-mirror made_a made_b peers psk_eq))
              ∙ ec)
            wrote reads
