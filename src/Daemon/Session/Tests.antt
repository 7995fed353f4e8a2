-- ===== src/Daemon/Session/Tests.antt =====
-- Two exchanges between two daemons of daisyway/src/internal that were set up with each other's peer ids.
use daisyway.Base.{length, ◌≡◌, refl, sym, List, [], ◌++◌}
use mathlib.Core.List.{append-nil}
use daisyway.Crypto.Key.{Key}
use daisyway.Crypto.Basics.{rekey_req_bytes, rekey_req_of}
use daisyway.Crypto.Server
use daisyway.Crypto.Server.{negotiate_key}
use daisyway.Crypto.Client
use daisyway.Crypto.Client.{wait_for_key_negotiation}
use daisyway.Etsi014
use daisyway.Etsi014.{Etsi014Config, Etsi014Connection}
use daisyway.Osk.Recording.{logbook}
use daisyway.Simulator.{
  contains, starts_with, find, handle_request, handle_keys, dec_keys, key_response, bad_request,
}
use daisyway.Simulator.Device.{get}
use daisyway.Daemon.{parts_for, serve, answer, new_server_protocol, new_client_protocol}
use daisyway.Daemon.Session.{configured_agree}
use daisyway.Daemon.Nodes.{
  host, machine, alike, server_cfg, client_cfg, at_server, at_client, empty_disk, made_server,
  made_client, channel, wire, duplex, logging, keys_of, logging', delivered, alice, requests, bob,
  alice_end, bob_end,
}

configured_agree_example :
    (keys : List Key) × (length keys ≡ 2)
    × (alice_end.osk ≡ keys ++ [])
    × (keys_of bob_end.osk ≡ keys ++ [])
unfolding logging logging' wire duplex host channel parts_for serve answer new_server_protocol
    new_client_protocol Server.event_loop Client.event_loop negotiate_key wait_for_key_negotiation
    rekey_req_of rekey_req_bytes Etsi014.fetch_any_key Etsi014.fetch_specific_key
    Etsi014.fetch_key_internal Etsi014.read_response Etsi014.key_of_responses
    Etsi014.key_of_response get handle_request handle_keys dec_keys key_response starts_with
    contains find bad_request
configured_agree_example =
    configured_agree machine machine alike server_cfg client_cfg empty_disk empty_disk at_server
      at_client logbook channel wire duplex logging logging' 2 alice alice_end bob bob_end requests
      [] (empty_disk, made_server) (empty_disk, made_client) (refl, refl) refl delivered refl refl
      refl (sym (append-nil requests))
