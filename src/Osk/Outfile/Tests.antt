-- ===== src/Osk/Outfile/Tests.antt =====
-- Runs of daisyway/src/internal/osk/outfile.rs on one file, which is read in one piece.
use daisyway.Base.{ℕ, ◌≡◌, refl, arith, [], ◌∷◌, ◌++◌, none, Result, ok, err, io, other_kind}
use mathlib.Core.List.{append-nil}
use daisyway.Crypto.Key.{Bytes}
use daisyway.Util.{Reader, chunk, load_base64_key_file, trim_newline}
use daisyway.Util.Reading.{contents, fault_of}
use daisyway.Util.Tests.{copying, ones}
use daisyway.Osk.{fresh}
use daisyway.Osk.Outfile.{Output, set_osk_impl}
use daisyway.Osk.Outfile.Written.{IsReadBack, set_osk_impl-load}

abbrev pub disk : Output ℕ Bytes
disk = record {
  create = λ p w. (ok tt, []);
  write_all = λ p b w. (ok tt, w ++ b);
  println = λ p s w. (ok tt, w);
}

abbrev pub open_disk : ℕ → Bytes → Result Reader
open_disk p w = ok (chunk w ∷ [])

pub one_piece : (b : Bytes) → contents (chunk b ∷ []) ≡ b
one_piece [] = refl
one_piece (x ∷ b) = append-nil (x ∷ b)

pub no_fault : (b : Bytes) → fault_of (chunk b ∷ []) ≡ none
no_fault [] = refl
no_fault (x ∷ b) = refl

pub disk-IsReadBack : IsReadBack disk open_disk
disk-IsReadBack = record {
  reads = λ p b w f g. (chunk b ∷ [], refl, one_piece b, no_fault b);
  prints = λ p s w. refl;
}

pub trimmed_ones : trim_newline ones ≡ ones
unfolding trim_newline
trimmed_ones = refl

written : (set_osk_impl copying disk 1 ones fresh (3 ∷ [])).0 ≡ ok tt
unfolding set_osk_impl
written = refl

set_osk_impl-load_example :
    load_base64_key_file copying (open_disk 1 (set_osk_impl copying disk 1 ones fresh (3 ∷ [])).1)
    ≡ ok ones
set_osk_impl-load_example =
    set_osk_impl-load copying disk open_disk disk-IsReadBack 1 ones fresh ones (3 ∷ []) refl refl
      (omega arith) trimmed_ones written

abbrev full_disk : Output ℕ Bytes
full_disk = record disk { write_all = λ p b w. (err (io other_kind), w) }
