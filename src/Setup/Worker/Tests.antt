-- ===== src/Setup/Worker/Tests.antt =====
-- The worker of a server that daisyway/src/internal/daisyway/setup.rs has set up with a WireGuard output,
-- and whose clients are gone, on a machine with one file and one interface.
use daisyway.Base.{ℕ, ◌≡◌, refl, arith, [], ◌∷◌, ◌++◌, some, none, Result, ok, subst}
use daisyway.Crypto.Key.{Bytes, Key, IsKey}
use daisyway.Util.{Reader, chunk, base64_to_key}
use daisyway.Util.Tests.{copying, ones}
use daisyway.Osk.Deadman.{Runtime, returned, event_loop, rounds, on_request, thread_run}
use daisyway.Osk.Deadman.Erased.{IsEncodable, HasText}
use daisyway.Osk.Outfile
use daisyway.Osk.Outfile.{Output}
use daisyway.Osk.Outfile.Tests.{one_piece, no_fault, trimmed_ones}
use daisyway.Osk.Outfile.Written.{IsReadBack}
use daisyway.Osk.WireGuard.{WgSocket, setup, set_osk_impl}
use daisyway.Osk.WireGuard.Kernel.{IsKernel}
use daisyway.Osk.WireGuard.Kernel.Tests.{Interfaces, peers_of, socket, one_peer, all_listed}
use daisyway.Setup.{from_config, participant_from_config, choose_output, start_deadman, load_psk}
use daisyway.Setup.Choice.{deadman_of}
use daisyway.Setup.Tests.{cfg, connect, participant}
use daisyway.Setup.Worker.{run_deadman, Holds, run_deadman-Holds}

abbrev Machine : Type 0
Machine = Bytes × Interfaces

abbrev files : Output ℕ Machine
files = record {
  create = λ p w. (ok tt, ([], w.1));
  write_all = λ p b w. (ok tt, (w.0 ++ b, w.1));
  println = λ p s w. (ok tt, w);
}

abbrev open_file : ℕ → Machine → Result Reader
open_file p w = ok (chunk w.0 ∷ [])

files-IsReadBack : IsReadBack files open_file
files-IsReadBack = record {
  reads = λ p b w f g. (chunk b ∷ [], refl, one_piece b, no_fault b);
  prints = λ p s w. refl;
}

abbrev control : WgSocket Machine
control = record {
  connect = λ w. (ok tt, w);
  get_device = λ interface w. (ok (peers_of (w.1 interface ones)), w);
  lock = λ w. (ok tt, w);
  set_device = λ dev w. (ok tt, (w.0, (socket.set_device dev w.1).1));
}

unfoldable control-IsKernel : IsKernel control
control-IsKernel = record {
  psk = λ interface public_key w. w.1 interface public_key;
  lists = λ interface public_key peers w e m. all_listed interface public_key peers w.1 e m;
  locks = λ interface public_key w. refl;
  sets = λ dev interface public_key w e. refl;
}

unfoldable runtime : Runtime Machine
runtime = record {
  now = λ w. 0;
  latest = 1000000;
  timeout_at = λ d w. (ok (some none), w);
  random = λ w. (ok ones, w);
  broker = Outfile.handler copying files 1;
}

abbrev machine : Machine
machine = ([], one_peer)

made : from_config copying control open_file connect cfg machine ≡ (ok participant, machine)
unfolding from_config participant_from_config choose_output start_deadman load_psk setup
    base64_to_key
made = refl

abbrev erased : Machine
erased = (run_deadman copying files control runtime (deadman_of participant) 3 machine).1

ends :
    run_deadman copying files control runtime (deadman_of participant) 3 machine
    ≡ (ok returned, erased)
unfolding run_deadman event_loop runtime set_osk_impl rounds on_request thread_run
ends = refl

drawn_ones : (v : Machine) (key : Key) → (runtime.random v).0 ≡ ok key → ones ≡ key
unfolding runtime
drawn_ones v key e = ground arith

encodable : IsEncodable copying runtime
encodable v key e =
    subst (λ k. IsKey k × HasText copying k) (drawn_ones v key e)
      (refl, (ones, refl, omega arith, trimmed_ones))

run_deadman-Holds_example :
    (v : Machine) × (key : Key) × ((runtime.random v).0 ≡ ok key)
    × Holds copying files control open_file connect runtime control-IsKernel cfg key
        (runtime.random v).1
        erased
run_deadman-Holds_example =
    run_deadman-Holds copying files control open_file connect runtime control-IsKernel cfg
      participant 3 machine machine machine erased files-IsReadBack encodable made ends
