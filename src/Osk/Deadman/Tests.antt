-- ===== src/Osk/Deadman/Tests.antt =====
-- The worker of daisyway/src/internal/osk/deadman.rs with an output file, whose clients are gone.
use daisyway.Base.{◌≡◌, ok, arith, some, none, ◌∷◌, [], refl, subst}
use daisyway.Crypto.Key.{Bytes, Key, IsKey}
use daisyway.Util.{load_base64_key_file}
use daisyway.Util.Tests.{copying, ones}
use daisyway.Osk.Outfile.{handler, set_osk_impl}
use daisyway.Osk.Outfile.Tests.{disk, open_disk, disk-IsReadBack, trimmed_ones}
use daisyway.Osk.Deadman.{Runtime, returned, event_loop, rounds, on_request}
use daisyway.Osk.Deadman.Erased.{IsEncodable, HasText, event_loop-load}

unfoldable runtime : Runtime Bytes
runtime = record {
  now = λ w. 0;
  latest = 1000000;
  timeout_at = λ d w. (ok (some none), w);
  random = λ w. (ok ones, w);
  broker = handler copying disk 1;
}

abbrev after : Bytes
after = (event_loop runtime 10 3 (4 ∷ [])).1

ends : event_loop runtime 10 3 (4 ∷ []) ≡ (ok returned, after)
unfolding event_loop runtime handler set_osk_impl rounds on_request
ends = refl

drawn_ones : (v : Bytes) (key : Key) → (runtime.random v).0 ≡ ok key → ones ≡ key
unfolding runtime
drawn_ones v key e = ground arith

random_keys : IsEncodable copying runtime
random_keys v key e =
    subst (λ k. IsKey k × HasText copying k) (drawn_ones v key e)
      (refl, (ones, refl, omega arith, trimmed_ones))

erased_file :
    (v : Bytes) × (key : Key) × ((runtime.random v).0 ≡ ok key)
    × (load_base64_key_file copying (open_disk 1 after) ≡ ok key)
erased_file =
    event_loop-load copying disk open_disk 1 runtime 10 3 (4 ∷ []) after disk-IsReadBack
      (unfold runtime in refl) random_keys ends
