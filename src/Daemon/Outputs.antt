-- ===== src/Daemon/Outputs.antt =====
-- Two daemons of daisyway/src/internal from their configurations to their outputs: the protocols of both, and the
-- deadman's workers behind them.
mod Tests
use daisyway.Base.{
  ℕ, suc, ◌+◌, ◌≤◌, ◌≡◌, refl, sym, ap, subst, ◌∙◌, List, [], ◌∷◌, ◌++◌, Result, ok, length, arith,
}
use mathlib.Core.List.{head-eq_of_cons-eq}
use daisyway.Crypto.Key.{Bytes, Key, IsKey}
use daisyway.Crypto.World.{World}
use daisyway.Crypto.Server.Sizes.{NewestIsKey, handed-NewestIsKey}
use daisyway.Crypto.Agreement.{Wire, IsDelivered}
use daisyway.Crypto.Agreement.Sessions.{Duplex, IsLogging}
use daisyway.Osk.{OskHandler}
use daisyway.Osk.Deadman.{Runtime, DeadmanRequest, rounds}
use daisyway.Osk.Deadman.Erased.{HasText}
use daisyway.Osk.Deadman.Latest.{handed, latest_key, latest-Holds, handed-newest}
use daisyway.Osk.Deadman.Renewals.{Requests, AreInTime, IsServed}
use daisyway.Osk.Outfile
use daisyway.Osk.Outfile.Written.{IsReadBack}
use daisyway.Osk.WireGuard.Kernel.{IsKernel}
use daisyway.Setup.{
  DaisywayConfig, DaisywayTcpClient, DaisywayTcpServer, OskDeadman, client, server,
}
use daisyway.Setup.Choice.{HasOutput, from_config_sound}
use daisyway.Setup.Worker.{Holds, broker_of}
use daisyway.Setup.Worker.Written.{set_osk-Holds}
use daisyway.Daemon.{new_server_protocol, new_client_protocol, serve, answer}
use daisyway.Daemon.Session.{
  Machine, AreAlike, ArePeers, IsSetUp, psk_of, at_server, at_client, configured_agree,
}

module _ {N K R HttpClient FilePath V : Type 0} (m : Machine N K R HttpClient FilePath V)
    (files : Outfile.Output FilePath V) (rt : Runtime V) where
  -- The worker's thread, with the broker that it owns.
  abbrev pub worker : OskDeadman FilePath → Runtime V
  worker d = record rt { broker = broker_of m.host.base64 files m.socket d.broker }

  -- A kernel that sets what it is told peer by peer, a file system that reads back what was written,
  -- and encodings of keys that fit the buffer and end in no newline.
  pub record HasOutputs : Type 0 where
    pub kernel : IsKernel m.socket
    pub back : IsReadBack files m.open_file
    pub texts : (key : Key) → IsKey key → HasText m.host.base64 key

  -- The requests that are still coming to the worker, each of them in time.
  pub record Receives (d : OskDeadman FilePath) (reqs : Requests) (v : V) : Type 0 where
    pub served : IsServed (worker d) d.erase_after
    pub coming_eq : served.coming v ≡ reqs
    pub from : ℕ
    pub started : from ≤ rt.now v
    pub in_time : AreInTime d.erase_after from reqs

  module _ (outputs : HasOutputs) (cfg : DaisywayConfig FilePath) where
    -- The configured output holds the key since the last write, before which `u` was the state.
    abbrev pub OutputHolds : Key → V → Type 0
    OutputHolds key v =
        (u : V) × Holds m.host.base64 files m.socket m.open_file m.etsi_from_config rt
          outputs.kernel cfg key u v

    worker-Holds :
        (d : OskDeadman FilePath) (t : ℕ) (req : DeadmanRequest) (later : Requests) (v : V)
        → HasOutput m.host.base64 cfg d
        → Receives d ((t, req) ∷ later) v
        → IsKey (latest_key req.key later)
        → OutputHolds
            (latest_key req.key later)
            (rounds (worker d) d.erase_after (suc (length later)) v).1
    worker-Holds d t req later v output receives sized =
        latest-Holds (worker d) d.erase_after receives.served
          (λ key w. IsKey key → OutputHolds key w)
          (λ key reason u e k. (
            u,
            set_osk-Holds m.host.base64 files m.socket m.open_file m.etsi_from_config rt
                outputs.kernel cfg d key reason u outputs.back (outputs.texts key k) k output e,
          ))
          t req later receives.from v receives.coming_eq receives.started receives.in_time sized

    -- So it is with the newest of the keys that were handed over, if the worker receives them.
    received-Holds :
        (d : OskDeadman FilePath) (reqs : Requests) (key : Key) (older log : List Key) (v : V)
        → HasOutput m.host.base64 cfg d
        → Receives d reqs v
        → IsKey key
        → (key ∷ older) ++ log ≡ handed reqs log
        → OutputHolds key (rounds (worker d) d.erase_after (length reqs) v).1
    received-Holds d reqs key older log v output receives sized e =
        let (t, req, later, these, newest) = handed-newest reqs key older log e in
        subst (λ r. OutputHolds key (rounds (worker d) d.erase_after (length r) v).1) (sym these)
          (subst (λ k. OutputHolds k (rounds (worker d) d.erase_after (suc (length later)) v).1)
            newest
            (worker-Holds d t req later v output (subst (λ r. Receives d r v) these receives)
              (subst IsKey (sym newest) sized)))

newest_key :
    (keys : List Key) (n : ℕ)
    → length keys ≡ suc n
    → (key : Key) × (older : List Key) × (keys ≡ key ∷ older)
newest_key [] n e = absurd (omega arith)
newest_key (key ∷ older) n e = (key, older, refl)

module _ {N K R HttpClient FilePath V N' K' R' HttpClient' FilePath' V' O O' : Type 0}
    (here : Machine N K R HttpClient FilePath V) (there : Machine N' K' R' HttpClient' FilePath' V')
    (alike : AreAlike here there) (files : Outfile.Output FilePath V)
    (files' : Outfile.Output FilePath' V') (rt : Runtime V) (rt' : Runtime V')
    (outputs : HasOutputs here files rt) (outputs' : HasOutputs there files' rt')
    (handler : OskHandler O) (handler' : OskHandler O') where
  -- If a server and a client were set up from configurations that name each other's peer ids, with
  -- the same pre-shared key and the same crates, the loops of their protocols have gone through so
  -- many rounds, at least one, over streams that deliver what was written, and the worker of each
  -- then receives requests for the keys that its key handler was given, each of them in time, then
  -- after these requests the configured outputs of both hold the same key, the newest that the
  -- server's key handler was given: the file is read back as this key, or the configured peer of
  -- the configured interface has it as its pre-shared key, if it was there at that write. This is
  -- for a client's QKD connection that returns the key of an id as the server's delivered it, ids,
  -- keys and nonces of their sizes, key handlers whose keys can be told, workers whose writes
  -- succeed and whose deadlines can be represented, file systems that read back what was written,
  -- encodings of keys that fit the buffer and end in no newline, and kernels that set what they
  -- are told peer by peer.
  pub outputs_agree :
      (a : DaisywayConfig FilePath) (b : DaisywayConfig FilePath') (va : V) (vb : V')
      (s : DaisywayTcpServer FilePath HttpClient) (c : DaisywayTcpClient FilePath' HttpClient')
      (wire : Wire (at_server here there alike a b va vb s c handler handler'))
      (duplex : Duplex (at_client here there alike a b va vb s c handler handler'))
      (logging : IsLogging (at_server here there alike a b va vb s c handler handler'))
      (logging' : IsLogging (at_client here there alike a b va vb s c handler handler')) (n : ℕ)
      (ws ws' : World N K R O) (wc wc' : World N' K' R' O') (sent rest : Bytes)
      (reqs reqs' : Requests) (v : V) (v' : V')
      → IsSetUp here a va (server s)
      → IsSetUp there b vb (client c)
      → ArePeers a b
      → psk_of here a va ≡ psk_of there b vb
      → ((x : World N K R O) (y : World N' K' R' O')
          → IsDelivered
              (at_server here there alike a b va vb s c handler handler')
              (at_client here there alike a b va vb s c handler handler')
              x
              y)
      → serve here.host
          (new_server_protocol s.protocol_params ws.stream s.etsi_client handler s.rekey_interval)
          (suc n)
          ws
        ≡ (ok tt, ws')
      → answer there.host
          (new_client_protocol c.protocol_params wc.stream c.etsi_client handler')
          (suc n)
          wc
        ≡ (ok tt, wc')
      → wire.sent ws'.stream ≡ wire.sent ws.stream ++ sent
      → duplex.wire.incoming wc.stream ≡ sent ++ rest
      → logging.log ws'.osk ≡ handed reqs (logging.log ws.osk)
      → logging'.log wc'.osk ≡ handed reqs' (logging'.log wc.osk)
      → Receives here files rt s.osk_handler reqs v
      → Receives there files' rt' c.osk_handler reqs' v'
      → let d = s.osk_handler in
        let d' = c.osk_handler in
        let w = (rounds (worker here files rt d) d.erase_after (length reqs) v).1 in
        let w' = (rounds (worker there files' rt' d') d'.erase_after (length reqs') v').1 in
        (key : Key) × (older : List Key) × (logging.log ws'.osk ≡ key ∷ older)
        × OutputHolds here files rt outputs a key w
        × OutputHolds there files' rt' outputs' b key w'
  unfolding serve new_server_protocol
  outputs_agree a b va vb s c wire duplex logging logging' n ws ws' wc wc' sent rest reqs reqs' v v'
        made_a made_b peers psk_eq delivered es ec wrote reads given given' receives receives' =
      let (keys, count, told, told') =
        configured_agree here there alike a b va vb s c handler handler' wire duplex logging
          logging' (suc n) ws ws' wc wc' sent rest made_a made_b peers psk_eq delivered es ec wrote
          reads in
      let (key, older, keys_eq) = newest_key keys n count in
      let (newest, before, log_eq, sized) =
        handed-NewestIsKey (at_server here there alike a b va vb s c handler handler')
          s.protocol_params logging s.rekey_interval n ws ws' es in
      let mine : logging.log ws'.osk ≡ (key ∷ older) ++ logging.log ws.osk =
        told ∙ ap (λ l. l ++ logging.log ws.osk) keys_eq in
      let yours : logging'.log wc'.osk ≡ (key ∷ older) ++ logging'.log wc.osk =
        told' ∙ ap (λ l. l ++ logging'.log wc.osk) keys_eq in
      let key-IsKey = subst IsKey (head-eq_of_cons-eq (sym log_eq ∙ mine)) sized in
      let sa =
        from_config_sound here.host.base64 here.socket here.open_file here.etsi_from_config a va
          made_a.0 (server s) made_a.1 in
      let sb =
        from_config_sound there.host.base64 there.socket there.open_file there.etsi_from_config b vb
          made_b.0 (client c) made_b.1 in
      (
        key,
        older ++ logging.log ws.osk,
        mine,
        received-Holds here files rt outputs a s.osk_handler reqs key older (logging.log ws.osk) v
            sa.1 receives key-IsKey (sym mine ∙ given),
        received-Holds there files' rt' outputs' b c.osk_handler reqs' key older
            (logging'.log wc.osk) v' sb.1 receives' key-IsKey (sym yours ∙ given'),
      )
