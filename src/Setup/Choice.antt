-- ===== src/Setup/Choice.antt =====
-- What a participant consists of that daisyway/src/internal/daisyway/setup.rs has set up.
use daisyway.Base.{
  ℕ, ◌+◌, ◌%◌, ◌^◌, ◌≡◌, ◌⊎◌, inl, inr, refl, sym, subst, ap, ◌∙◌, Option, none, some, Result, ok,
  arith, within, resume-eq-ok, context, context-eq-ok,
}
use daisyway.Crypto.Key.{Bytes, Key}
use daisyway.Crypto.Basics.{DaisywayProtocolParameters}
use daisyway.Util.{Base64, Reader, base64_to_key}
use daisyway.Etsi014.{Etsi014Config, Etsi014Connection}
use daisyway.Osk.WireGuard.{WgSocket, WireGuardOskHandler, setup}
use daisyway.Osk.WireGuard.Peers.{setup-Mem}
use daisyway.Setup.{
  DaisywayConfig, DaisywayTcpParticipant, DaisywayTcpParticipantConfig, client_config,
  server_config, client, server, OskDeadman, OutfileConfig, outfile_handler, wireguard_handler,
  from_config, choose_output, load_psk, participant_from_config, start_deadman, rekey_interval_of,
}

-- The parts of a participant.
abbrev pub deadman_of :
    {FilePath Client : Type 0} → DaisywayTcpParticipant FilePath Client → OskDeadman FilePath
deadman_of (client c) = c.osk_handler
deadman_of (server s) = s.osk_handler

abbrev pub params_of :
    {FilePath Client : Type 0} → DaisywayTcpParticipant FilePath Client → DaisywayProtocolParameters
params_of (client c) = c.protocol_params
params_of (server s) = s.protocol_params

-- The participant has the configured role and address, and a server the rekey interval.
abbrev pub HasRole :
    {FilePath Client : Type 0}
    → DaisywayTcpParticipantConfig
    → ℕ
    → DaisywayTcpParticipant FilePath Client
    → Type 0
HasRole (client_config endpoint) interval (client c) = c.endpoint ≡ endpoint
HasRole (server_config listen) interval (server s) =
    (s.listen_addr ≡ listen) × (s.rekey_interval ≡ interval)
HasRole (client_config endpoint) interval (server s) = ⊥
HasRole (server_config listen) interval (client c) = ⊥

-- One output is configured, and it is the one behind the deadman's worker. A WireGuard output is for the
-- configured interface and remote peer.
abbrev pub HasOutput :
    {FilePath : Type 0} → Base64 → DaisywayConfig FilePath → OskDeadman FilePath → Type 0
HasOutput base64 cfg d =
    ((cfg.wireguard.interface ≡ none)
      × ((o : OutfileConfig _) × (cfg.outfile ≡ some o) × (d.broker ≡ outfile_handler o.path)))
    ⊎ ((cfg.outfile ≡ none)
        × ((h : WireGuardOskHandler) × (cfg.wireguard.interface ≡ some h.interface)
            × (base64_to_key base64 cfg.wireguard.remote_peer_id ≡ ok h.peer_id)
            × (d.broker ≡ wireguard_handler h)))

participant-parts :
    {FilePath Client : Type 0} (params : DaisywayProtocolParameters)
    (config : DaisywayTcpParticipantConfig) (etsi : Etsi014Connection Client)
    (d : OskDeadman FilePath) (interval : ℕ)
    → let p = participant_from_config params config etsi d interval in
      HasRole config interval p × (params_of p ≡ params) × (deadman_of p ≡ d)
unfolding participant_from_config
participant-parts params (client_config endpoint) etsi d interval = (refl, refl, refl)
participant-parts params (server_config listen) etsi d interval = ((refl, refl), refl, refl)

-- The same of a result that is known to be the participant.
made-parts :
    {FilePath Client W : Type 0} (params : DaisywayProtocolParameters)
    (config : DaisywayTcpParticipantConfig) (etsi : Etsi014Connection Client)
    (d : OskDeadman FilePath) (interval : ℕ) (v w : W) (p : DaisywayTcpParticipant FilePath Client)
    → ◌≡◌ {A = Result (DaisywayTcpParticipant FilePath Client) × W}
        (ok (participant_from_config params config etsi d interval), v)
        (ok p, w)
    → HasRole config interval p × (params_of p ≡ params) × (deadman_of p ≡ d)
made-parts params config etsi d interval v w p e =
    subst (λ q. HasRole config interval q × (params_of q ≡ params) × (deadman_of q ≡ d))
      (ground arith) (participant-parts params config etsi d interval)

module _ {FilePath Client W : Type 0} (base64 : Base64) (socket : WgSocket W)
    (open_file : FilePath → W → Result Reader)
    (etsi_from_config : Etsi014Config FilePath → Result (Etsi014Connection Client)) where
  choose_output-HasOutput :
      (cfg : DaisywayConfig FilePath) (i : Option Bytes) (o : Option (OutfileConfig FilePath))
      (interval : ℕ) (w w' : W) (d : OskDeadman FilePath)
      → cfg.wireguard.interface ≡ i
      → cfg.outfile ≡ o
      → choose_output base64 socket open_file etsi_from_config cfg.wireguard.remote_peer_id i o
          interval w
        ≡ (ok d, w')
      → HasOutput base64 cfg d × (d.erase_after ≡ (interval + 30) % 2 ^ 64)
  unfolding choose_output start_deadman
  choose_output-HasOutput cfg none none interval w w' d f g e = ground arith
  choose_output-HasOutput cfg (some i) (some o) interval w w' d f g e = ground arith
  choose_output-HasOutput cfg none (some o) interval w w' d f g e =
      (inl (f, (o, g, ground arith)), ground arith)
  choose_output-HasOutput cfg (some i) none interval w w' d f g e =
      let (h, v, h_eq, d_eq) =
        resume-eq-ok _
          (within "Could start WireGuard key handler"
            (setup base64 socket cfg.wireguard.remote_peer_id i) w)
          e in
      let set = setup-Mem base64 socket cfg.wireguard.remote_peer_id i w h (
        context-eq-ok "Could start WireGuard key handler"
          (setup base64 socket cfg.wireguard.remote_peer_id i w).0
          (ap (λ (p : Result WireGuardOskHandler × W). p.0) h_eq)) in
      (inr (g, (h, f ∙ ap some (sym set.1), set.0, ground arith)), ground arith)

  pub from_config_sound :
      (cfg : DaisywayConfig FilePath) (w w' : W) (p : DaisywayTcpParticipant FilePath Client)
      → from_config base64 socket open_file etsi_from_config cfg w ≡ (ok p, w')
      → let interval = rekey_interval_of cfg.etsi014.interval_secs in
        HasRole cfg.peer.participant interval p
        × HasOutput base64 cfg (deadman_of p)
        × ((deadman_of p).erase_after ≡ (interval + 30) % 2 ^ 64)
        × (base64_to_key base64 cfg.wireguard.local_peer_id ≡ ok (params_of p).local_peer_id)
        × (base64_to_key base64 cfg.wireguard.remote_peer_id ≡ ok (params_of p).remote_peer_id)
        × ((load_psk base64 socket open_file etsi_from_config cfg.peer.psk_file w).0
            ≡ ok (params_of p).psk)
  unfolding from_config
  from_config_sound cfg w w' p e =
      let interval = rekey_interval_of cfg.etsi014.interval_secs in
      let (psk, w1, e1, r1) =
        resume-eq-ok _ (load_psk base64 socket open_file etsi_from_config cfg.peer.psk_file w) e in
      let (loc, w2, e2, r2) =
        resume-eq-ok _
          (
            context "Could not decode WireGuard local peer id"
                (base64_to_key base64 cfg.wireguard.local_peer_id),
            w1,
          )
          r1 in
      let (rem, w3, e3, r3) =
        resume-eq-ok _
          (
            context "Could not decode WireGuard remote peer id"
                (base64_to_key base64 cfg.wireguard.remote_peer_id),
            w2,
          )
          r2 in
      let (etsi, w4, e4, r4) = resume-eq-ok _ (etsi_from_config cfg.etsi014, w3) r3 in
      let (d, w5, e5, r5) =
        resume-eq-ok _
          (choose_output base64 socket open_file etsi_from_config cfg.wireguard.remote_peer_id
            cfg.wireguard.interface cfg.outfile interval w4)
          r4 in
      let (role, params, dm) = made-parts _ cfg.peer.participant etsi d interval w5 w' p r5 in
      let (output, wait) =
        choose_output-HasOutput cfg cfg.wireguard.interface cfg.outfile interval w4 w5 d refl refl
          e5 in
      (
        role,
        subst (HasOutput base64 cfg) (sym dm) output,
        ap (λ (x : OskDeadman FilePath). x.erase_after) dm ∙ wait,
        context-eq-ok "Could not decode WireGuard local peer id"
              (base64_to_key base64 cfg.wireguard.local_peer_id)
              (ap (λ (x : Result Key × W). x.0) e2)
            ∙ ap (λ (x : DaisywayProtocolParameters). ok x.local_peer_id) (sym params),
        context-eq-ok "Could not decode WireGuard remote peer id"
              (base64_to_key base64 cfg.wireguard.remote_peer_id)
              (ap (λ (x : Result Key × W). x.0) e3)
            ∙ ap (λ (x : DaisywayProtocolParameters). ok x.remote_peer_id) (sym params),
        ap (λ (x : Result Key × W). x.0) e1
            ∙ ap (λ (x : DaisywayProtocolParameters). ok x.psk) (sym params),
      )
