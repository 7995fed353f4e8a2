-- ===== src/Setup/Tests.antt =====
-- A run of daisyway/src/internal/daisyway/setup.rs: a server with a WireGuard output.
use daisyway.Base.{is_panic, arith, ℕ, ◌≡◌, refl, List, [], ◌∷◌, none, some, false, Result, ok}
use daisyway.Crypto.Key.{Bytes, new_zeroed}
use daisyway.Util.{Reader, fill}
use daisyway.Util.Tests.{copied, copying, ones}
use daisyway.Etsi014.{Etsi014Config, Etsi014Connection}
use daisyway.Osk.WireGuard.{Device}
use daisyway.Osk.WireGuard.Tests.{socket, wg0}
use daisyway.Setup.{
  DaisywayConfig, DaisywayTcpParticipant, server_config, server, wireguard_handler, from_config,
}
use daisyway.Setup.Panics.{from_config-is_panic}

abbrev pub open_nothing : ℕ → List Device → Result Reader
open_nothing p w = ok []

abbrev pub connect : Etsi014Config ℕ → Result (Etsi014Connection ℕ)
connect cfg = ok (record { url = cfg.url; remote_sae_id = cfg.remote_sae_id; client = 0 })

abbrev pub cfg : DaisywayConfig ℕ
cfg = record {
  etsi014 = record {
    url = [];
    remote_sae_id = [];
    interval_secs = some 90;
    tls_cacert = none;
    client_auth = none;
    danger_allow_insecure_no_server_name_certificates = false;
  };
  wireguard = record { local_peer_id = 3 ∷ []; remote_peer_id = ones; interface = some wg0 };
  outfile = none;
  peer = record { participant = server_config (1 ∷ []); psk_file = none };
}

abbrev pub participant : DaisywayTcpParticipant ℕ ℕ
participant = server (record {
  protocol_params = record {
    psk = new_zeroed 32;
    local_peer_id = fill 32 (3 ∷ []);
    remote_peer_id = ones;
  };
  listen_addr = 1 ∷ [];
  etsi_client = record { url = []; remote_sae_id = []; client = 0 };
  osk_handler = record {
    erase_after = 120;
    broker = wireguard_handler (record { interface = wg0; peer_id = ones });
  };
  rekey_interval = 90;
})

copied_total : (s : Bytes) (n : ℕ) → is_panic (copied s n) ≡ false
copied_total s n = ground arith

from_config-is_panic_example :
    is_panic (from_config copying socket open_nothing connect cfg []).0 ≡ false
from_config-is_panic_example =
    from_config-is_panic copying copied_total socket open_nothing connect (λ w. refl) (λ i w. refl)
      (λ p w. refl) cfg [] refl
