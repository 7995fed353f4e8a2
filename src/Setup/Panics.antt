-- ===== src/Setup/Panics.antt =====
-- Whether daisyway/src/internal/daisyway/setup.rs can panic.
use daisyway.Base.{
  resume-is_panic, and_then-is_panic, context-is_panic, ℕ, ◌≡◌, refl, Option, none, some, Result,
  ok, is_panic, false, arith, context, unwrap, within, context-eq-ok,
}
use daisyway.Crypto.Key.{Bytes, Key, key_length, key_length_b64}
use daisyway.Util.{
  Base64, Reader, base64_to_key, load_base64_key_file, trim_newline, read_to_end_up_to, outcome,
}
use daisyway.Util.Reading.{up_to, result_of, read_to_end_up_to_lem}
use daisyway.Etsi014.{Etsi014Config, Etsi014Connection}
use daisyway.Osk.WireGuard.{WgSocket, setup}
use daisyway.Setup.{DaisywayConfig, OutfileConfig, from_config, choose_output, load_psk}

outcome-is_panic :
    (x : Option (Result Bytes × Reader)) (b : Result Bytes)
    → result_of x ≡ some b
    → is_panic b ≡ false
    → is_panic (outcome x) ≡ false
outcome-is_panic none b e f = ground arith
outcome-is_panic (some (r, _)) b e f = ground arith

up_to-is_panic : (n : ℕ) (r : Reader) → is_panic (up_to n r) ≡ false
up_to-is_panic n r = ground arith

module _ (base64 : Base64)
    (total : (s : Bytes) (n : ℕ) → is_panic (base64.decode s n) ≡ false) where
  base64_to_key-is_panic : (s : Bytes) → is_panic (base64_to_key base64 s) ≡ false
  unfolding base64_to_key
  base64_to_key-is_panic s =
      and_then-is_panic (base64.decode s key_length) _ (total s key_length) (λ d. refl)

  load_base64_key_file-is_panic :
      (file : Result Reader)
      → is_panic file ≡ false
      → is_panic (load_base64_key_file base64 file) ≡ false
  unfolding load_base64_key_file
  load_base64_key_file-is_panic file e = and_then-is_panic file _ e (λ r.
      and_then-is_panic (outcome (read_to_end_up_to key_length_b64 r)) _
        (outcome-is_panic (read_to_end_up_to key_length_b64 r) (up_to key_length_b64 r)
          (read_to_end_up_to_lem key_length_b64 r) (up_to-is_panic key_length_b64 r))
        (λ b. base64_to_key-is_panic (trim_newline b)))

  module _ {FilePath Client W : Type 0} (socket : WgSocket W)
      (open_file : FilePath → W → Result Reader)
      (etsi_from_config : Etsi014Config FilePath → Result (Etsi014Connection Client))
      (connects : (w : W) → is_panic (socket.connect w).0 ≡ false)
      (gets : (i : Bytes) (w : W) → is_panic (socket.get_device i w).0 ≡ false)
      (opens : (p : FilePath) (w : W) → is_panic (open_file p w) ≡ false) where
    -- The peer id was decoded before.
    setup-is_panic :
        (peer interface : Bytes) (w : W) (k : Key)
        → base64_to_key base64 peer ≡ ok k
        → is_panic (setup base64 socket peer interface w).0 ≡ false
    unfolding setup
    setup-is_panic peer interface w k e =
        resume-is_panic _ (unwrap "Invalid peer_id" (base64_to_key base64 peer), w) (rw e refl)
          (λ id w1 _.
            resume-is_panic _
              (within "Failed to connect to WireGuard control socket." socket.connect w1)
              (context-is_panic _ (socket.connect w1).0 (connects w1))
              (λ _ w2 _.
                resume-is_panic _
                  (within "Failed to access WireGuard interface" (socket.get_device interface) w2)
                  (context-is_panic _ (socket.get_device interface w2).0 (gets interface w2))
                  (λ peers w3 _. ground arith)))

    choose_output-is_panic :
        (peer : Bytes) (i : Option Bytes) (o : Option (OutfileConfig FilePath)) (interval : ℕ)
        (w : W) (k : Key)
        → base64_to_key base64 peer ≡ ok k
        → is_panic (choose_output base64 socket open_file etsi_from_config peer i o interval w).0
          ≡ false
    unfolding choose_output
    choose_output-is_panic peer none none interval w k e = refl
    choose_output-is_panic peer (some i) (some o) interval w k e = refl
    choose_output-is_panic peer none (some o) interval w k e = refl
    choose_output-is_panic peer (some i) none interval w k e =
        resume-is_panic _
          (within "Could start WireGuard key handler" (setup base64 socket peer i) w)
          (context-is_panic _ (setup base64 socket peer i w).0 (setup-is_panic peer i w k e))
          (λ h v _. refl)

    load_psk-is_panic :
        (file : Option FilePath) (w : W)
        → is_panic (load_psk base64 socket open_file etsi_from_config file w).0 ≡ false
    unfolding load_psk
    load_psk-is_panic none w = refl
    load_psk-is_panic (some file) w =
        context-is_panic _ (load_base64_key_file base64 (open_file file w))
          (load_base64_key_file-is_panic (open_file file w) (opens file w))

    -- If the decoder, opening and reading a key file, connecting to WireGuard and listing its
    -- peers, and the set-up of the client for keys do not panic, then no configuration makes the
    -- set-up panic: an invalid remote peer id is an error before the WireGuard handler expects it
    -- to be valid.
    pub from_config-is_panic :
        (cfg : DaisywayConfig FilePath) (w : W)
        → is_panic (etsi_from_config cfg.etsi014) ≡ false
        → is_panic (from_config base64 socket open_file etsi_from_config cfg w).0 ≡ false
    unfolding from_config
    from_config-is_panic cfg w etsi =
        let local = base64_to_key base64 cfg.wireguard.local_peer_id in
        let remote = base64_to_key base64 cfg.wireguard.remote_peer_id in
        resume-is_panic _ (load_psk base64 socket open_file etsi_from_config cfg.peer.psk_file w)
          (load_psk-is_panic cfg.peer.psk_file w)
          (λ psk w1 _.
            resume-is_panic _ (context "Could not decode WireGuard local peer id" local, w1)
              (context-is_panic _ local (base64_to_key-is_panic cfg.wireguard.local_peer_id))
              (λ loc w2 _.
                resume-is_panic _ (context "Could not decode WireGuard remote peer id" remote, w2)
                  (context-is_panic _ remote (base64_to_key-is_panic cfg.wireguard.remote_peer_id))
                  (λ rem w3 decoded.
                    resume-is_panic _ (etsi_from_config cfg.etsi014, w3) etsi
                      (λ client w4 _.
                        resume-is_panic _
                          (choose_output base64 socket open_file etsi_from_config
                            cfg.wireguard.remote_peer_id cfg.wireguard.interface cfg.outfile _ w4)
                          (choose_output-is_panic cfg.wireguard.remote_peer_id
                            cfg.wireguard.interface cfg.outfile _ w4 rem
                            (context-eq-ok "Could not decode WireGuard remote peer id" remote
                              decoded))
                          (λ d v _. refl)))))
