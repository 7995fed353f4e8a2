-- ===== src/Daemon/Disk.antt =====
-- A machine with one output file and a worker that receives two requests, for runs of
-- daisyway/src/internal/osk/deadman.rs over outfile.rs, with an encoding that adds a byte.
use daisyway.Base.{
  ℕ, zero, suc, ◌+◌, ◌≤◌, ◌≡◌, refl, sym, ap, ◌∙◌, List, [], ◌∷◌, ◌++◌, Option, none, some, true,
  Result, ok, err, foreign, leb, ◌==◌, if◌then◌else◌, length, length-append, arith,
}
use daisyway.Crypto.Key.{Bytes, Key, IsKey}
use daisyway.Crypto.Basics.{bytes_of}
use daisyway.Crypto.Toys.{toy_nonce}
use daisyway.Osk.{SetOskReason, fresh, stale}
use daisyway.Osk.Deadman.{Runtime, DeadmanRequest}
use daisyway.Osk.Deadman.Erased.{HasText}
use daisyway.Osk.Deadman.Renewals.{Requests, IsServed}
use daisyway.Osk.Outfile
use daisyway.Osk.Outfile.{Output, set_osk_impl, why}
use daisyway.Osk.Outfile.Tests.{one_piece, no_fault}
use daisyway.Osk.Outfile.Written.{IsReadBack}
use daisyway.Osk.WireGuard.{WgSocket}
use daisyway.Osk.WireGuard.Kernel.{IsKernel}
use daisyway.Util.{Base64, Reader, chunk, trim_newline}
use daisyway.Util.Tests.{copied, copied_fits}

-- All bytes but the last.
abbrev pub init : Bytes → Bytes
init [] = []
init (b ∷ []) = []
init (b ∷ c ∷ s) = b ∷ init (c ∷ s)

abbrev pub padded : Bytes → Bytes
padded s = s ++ b'=' ∷ []

init-padded : (s : Bytes) → init (padded s) ≡ s
init-padded [] = refl
init-padded (b ∷ []) = refl
init-padded (b ∷ c ∷ s) = ap (◌∷◌ b) (init-padded (c ∷ s))

trim_newline-padded : (s : Bytes) → trim_newline (padded s) ≡ padded s
unfolding trim_newline
trim_newline-padded [] = refl
trim_newline-padded (b ∷ []) = refl
trim_newline-padded (b ∷ c ∷ s) = ap (◌∷◌ b) (trim_newline-padded (c ∷ s))

pub padded_back :
    (b s : Bytes) (n m : ℕ) → copied (padded b) n ≡ ok s → length b ≤ m → copied (init s) m ≡ ok b
padded_back b s n m e h =
    let same : padded b ≡ s = ground arith in
    ap (λ x. copied x m) (ap init (sym same) ∙ init-padded b) ∙ ground arith

abbrev pub padding : Base64
padding = record {
  decode = λ s n. copied (init s) n;
  encode = λ b n. copied (padded b) n;
  encoded_len = length;
  decode_fits = λ s n d e. copied_fits (init s) n d e;
  decode-encode = padded_back;
}

length-padded : (s : Bytes) → length (padded s) ≡ suc (length s)
length-padded s = omega (arith, length-append s (b'=' ∷ []))

pub padding-HasText : (key : Key) → IsKey key → HasText padding key
padding-HasText key k = (
  padded key,
  ground (arith, length-padded key),
  omega (arith, length-padded key),
  trim_newline-padded key,
)

-- How many requests were received, the file, and what was written to it.
pub record Disk : Type 0 where
  pub received : ℕ
  pub text : Bytes
  pub written : List (Key × SetOskReason)

-- The reason of a line that was printed.
abbrev reason_of : Bytes → SetOskReason
reason_of [] = stale
reason_of (b ∷ s) = if b == b'e' then fresh else stale

abbrev pub files : Output ℕ Disk
files = record {
  create = λ p w. (ok tt, record w { text = [] });
  write_all = λ p b w. (ok tt, record w { text = w.text ++ b });
  println =
      λ p s w. (ok tt, record w { written = (init w.text, reason_of (bytes_of s)) ∷ w.written });
}

abbrev pub open_file : ℕ → Disk → Result Reader
open_file p w = ok (chunk w.text ∷ [])

pub files-IsReadBack : IsReadBack files open_file
files-IsReadBack = record {
  reads = λ p b w f g. (chunk b ∷ [], refl, one_piece b, no_fault b);
  prints = λ p s w. refl;
}

-- A machine without WireGuard.
abbrev pub no_socket : WgSocket Disk
no_socket = record {
  connect = λ w. (err (foreign "no such family"), w);
  get_device = λ interface w. (err (foreign "no such device"), w);
  lock = λ w. (ok tt, w);
  set_device = λ dev w. (err (foreign "no such device"), w);
}

pub no_socket-IsKernel : IsKernel no_socket
no_socket-IsKernel = record {
  psk = λ interface public_key w. none;
  lists = λ interface public_key peers w e m. absurd (ground arith);
  locks = λ interface public_key w. refl;
  sets = λ dev interface public_key w e. absurd (ground arith);
}

reason_of-why : (reason : SetOskReason) → reason_of (bytes_of (why reason)) ≡ reason
reason_of-why fresh = refl
reason_of-why stale = refl

short : (key : Key) → IsKey key → leb (length (padded key)) 45 ≡ true
short key k = ground (arith, length-padded key)

pub writes_key :
    (key : Key) (reason : SetOskReason) (w : Disk)
    → IsKey key
    → set_osk_impl padding files 1 key reason w
      ≡ (ok tt, record w { text = padded key; written = (key, reason) ∷ w.written })
unfolding set_osk_impl
writes_key key reason w k = ground (arith, short key k, init-padded key, reason_of-why reason)

-- Two requests, the second of them after 90 seconds, and a worker that receives them.
module _ (first second : DeadmanRequest) (first_sized : IsKey first.key)
    (second_sized : IsKey second.key) where
  abbrev pub coming_at : ℕ → Requests
  coming_at zero = (0, first) ∷ (90, second) ∷ []
  coming_at (suc zero) = (90, second) ∷ []
  coming_at (suc (suc n)) = []

  abbrev pub received_at : Requests → Option (Option DeadmanRequest)
  received_at [] = none
  received_at ((t, req) ∷ reqs) = some (some req)

  abbrev pub time_at : ℕ → ℕ
  time_at zero = 0
  time_at (suc zero) = 0
  time_at (suc (suc n)) = 90

  unfoldable pub runtime : Runtime Disk
  unfolding Outfile.handler
  runtime = record {
    now = λ w. time_at w.received;
    latest = 1000;
    timeout_at =
        λ d w. (ok (received_at (coming_at w.received)), record w { received = suc w.received });
    random = λ w. (ok toy_nonce, w);
    broker = Outfile.handler padding files 1;
  }

  pub fits_at : (n : ℕ) → time_at n + 120 ≤ 1000
  fits_at zero = omega arith
  fits_at (suc zero) = omega arith
  fits_at (suc (suc n)) = omega arith

  pub receives_at :
      (n t : ℕ) (req : DeadmanRequest) (reqs : Requests)
      → coming_at n ≡ (t, req) ∷ reqs
      → (◌≡◌ {A = Result (Option (Option DeadmanRequest))}
          (ok (received_at (coming_at n)))
          (ok (some (some req))))
        × (coming_at (suc n) ≡ reqs)
        × (t ≤ time_at (suc n))
        × IsKey req.key
  receives_at zero t req reqs e =
      (ground arith, ground arith, ground arith, ground (arith, first_sized))
  receives_at (suc zero) t req reqs e =
      (ground arith, ground arith, ground arith, ground (arith, second_sized))
  receives_at (suc (suc n)) t req reqs e = absurd (ground arith)

  unfoldable pub served : IsServed runtime 120
  unfolding runtime Outfile.handler
  served = record {
    coming = λ w. coming_at w.received;
    written = λ w. w.written;
    fits = λ t req reqs w e. fits_at w.received;
    receives = λ d t req reqs w e le.
        let (got, left, by, _) = receives_at w.received t req reqs e in (got, left, refl, by);
    sized = λ t req reqs w e. (receives_at w.received t req reqs e).3;
    sets = λ key reason w k.
        let e = writes_key key reason w k in
        (
          ap (λ (p : Result (Unit {0}) × Disk). p.0) e,
          ap (λ (p : Result (Unit {0}) × Disk). coming_at p.1.received) e,
          ap (λ (p : Result (Unit {0}) × Disk). p.1.written) e,
          omega (arith, ap (λ (p : Result (Unit {0}) × Disk). time_at p.1.received) e),
        );
    draws = λ w. (toy_nonce, refl, refl, refl, refl, omega arith);
  }
