-- ===== src/Daemon/Outputs/Tests.antt =====
-- Two daemons of daisyway/src/internal with output files, whose devices are simulators, and their workers: two keys.
use daisyway.Base.{ℕ, ◌≡◌, refl, sym, List, [], ◌∷◌, ◌++◌, replicate, arith}
use mathlib.Core.List.{append-nil}
use daisyway.Crypto.Key.{Key, IsKey}
use daisyway.Crypto.Basics.{
  DaisywayProtocolParameters, derive_daisyway_key, rekey_req_bytes, rekey_req_of,
}
use daisyway.Crypto.Server
use daisyway.Crypto.Server.{negotiate_key}
use daisyway.Crypto.Server.Sizes.{derive_daisyway_key-IsKey}
use daisyway.Crypto.Client
use daisyway.Crypto.Client.{wait_for_key_negotiation}
use daisyway.Crypto.Toys.{toy_nonce, toy_uuid, toy_shake}
use daisyway.Etsi014
use daisyway.Etsi014.{Etsi014Config, Etsi014Connection}
use daisyway.Osk.{fresh}
use daisyway.Osk.Deadman.{Runtime, DeadmanRequest, rounds}
use daisyway.Osk.Deadman.Renewals.{Requests}
use daisyway.Osk.Recording.{logbook}
use daisyway.Setup.Worker.{broker_of}
use daisyway.Simulator.{
  contains, starts_with, find, handle_request, handle_keys, dec_keys, key_response, bad_request,
}
use daisyway.Simulator.Device.{get}
use daisyway.Daemon.{parts_for, serve, answer, new_server_protocol, new_client_protocol}
use daisyway.Daemon.Outputs.{HasOutputs, Receives, OutputHolds, worker, outputs_agree}
use daisyway.Daemon.Disk.{
  Disk, files, files-IsReadBack, no_socket-IsKernel, padding-HasText, runtime, served,
}
use daisyway.Daemon.Nodes.{
  host, machine, alike, server_cfg, client_cfg, deadman, at_server, at_client, empty_disk,
  made_server, made_client, channel, wire, duplex, logging, logging', delivered, alice, requests,
  bob, alice_end, bob_end,
}

-- What a side asks its worker for, by the number of the QKD key.
abbrev asked : DaisywayProtocolParameters → ℕ → DeadmanRequest
asked params n = record {
  key =
      derive_daisyway_key toy_uuid toy_shake params toy_nonce
        (record { id = replicate 16 n; key = replicate 16 n ++ replicate 16 n });
  reason = fresh;
}

asked-IsKey : (params : DaisywayProtocolParameters) (n : ℕ) → IsKey (asked params n).key
asked-IsKey params n = derive_daisyway_key-IsKey toy_uuid toy_shake params toy_nonce _

abbrev coming : DaisywayProtocolParameters → Requests
coming params = (0, asked params 1) ∷ (90, asked params 2) ∷ []

abbrev clock : DaisywayProtocolParameters → Runtime Disk
clock params =
    runtime (asked params 1) (asked params 2) (asked-IsKey params 1) (asked-IsKey params 2)

outputs : (params : DaisywayProtocolParameters) → HasOutputs machine files (clock params)
unfolding host
outputs params = record {
  kernel = no_socket-IsKernel;
  back = files-IsReadBack;
  texts = padding-HasText;
}

receives :
    (params : DaisywayProtocolParameters)
    → Receives machine files (clock params) deadman (coming params) empty_disk
unfolding host runtime served broker_of
receives params = record {
  served = served (asked params 1) (asked params 2) (asked-IsKey params 1) (asked-IsKey params 2);
  coming_eq = refl;
  from = 0;
  started = omega arith;
  in_time = (omega arith, (omega arith, tt));
}

abbrev disk_after : DaisywayProtocolParameters → Disk
disk_after params = (rounds (worker machine files (clock params) deadman) 120 2 empty_disk).1

outputs_agree_example :
    (key : Key) × (older : List Key) × (alice_end.osk ≡ key ∷ older)
    × OutputHolds machine files
        (clock at_server.protocol_params)
        (outputs at_server.protocol_params)
        server_cfg
        key
        (disk_after at_server.protocol_params)
    × OutputHolds machine files
        (clock at_client.protocol_params)
        (outputs at_client.protocol_params)
        client_cfg
        key
        (disk_after at_client.protocol_params)
unfolding logging logging' wire duplex host channel parts_for serve answer new_server_protocol
    new_client_protocol Server.event_loop Client.event_loop negotiate_key wait_for_key_negotiation
    rekey_req_of rekey_req_bytes Etsi014.fetch_any_key Etsi014.fetch_specific_key
    Etsi014.fetch_key_internal Etsi014.read_response Etsi014.key_of_responses
    Etsi014.key_of_response get handle_request handle_keys dec_keys key_response starts_with
    contains find bad_request
outputs_agree_example =
    outputs_agree machine machine alike files files (clock at_server.protocol_params)
      (clock at_client.protocol_params) (outputs at_server.protocol_params)
      (outputs at_client.protocol_params) logbook channel server_cfg client_cfg empty_disk
      empty_disk at_server at_client wire duplex logging logging' 1 alice alice_end bob bob_end
      requests [] (coming at_server.protocol_params) (coming at_client.protocol_params) empty_disk
      empty_disk (empty_disk, made_server) (empty_disk, made_client) (refl, refl) refl delivered
      refl refl refl (sym (append-nil requests)) refl refl (receives at_server.protocol_params)
      (receives at_client.protocol_params)
