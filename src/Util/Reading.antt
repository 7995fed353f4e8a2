-- ===== src/Util/Reading.antt =====
-- What `read_to_end_up_to` of daisyway/src/internal/util.rs returns.
use daisyway.Base.{
  ℕ, zero, suc, ◌+◌, ◌-◌, ◌≤◌, ◌<◌, length-take, ◌≡◌, refl, sym, ap, ◌∙◌, [], ◌∷◌, ◌++◌, Option,
  none, some, false, Result, ok, err, panic, io, IoErrorKind, interrupted, unexpected_eof,
  other_kind, leb, if◌then◌else◌, length, take, drop, arith, length-append, take-append_long,
  take-append_short, Bool-cases, inl, inr,
}
use mathlib.Core.List.{append-nil, append_assoc}
use daisyway.Crypto.Key.{Bytes}
use daisyway.Util.{chunk, fault, Reader, read, read_loop, after_read, read_to_end_up_to}

-- What the reader holds before its end, or before an error other than an interruption.
abbrev pub contents : Reader → Bytes
contents [] = []
contents (chunk [] ∷ r) = []
contents (chunk (b ∷ c) ∷ r) = (b ∷ c) ++ contents r
contents (fault interrupted ∷ r) = contents r
contents (fault k ∷ r) = []

-- The error that stands behind these contents.
abbrev pub fault_of : Reader → Option IoErrorKind
fault_of [] = none
fault_of (chunk [] ∷ r) = none
fault_of (chunk (b ∷ c) ∷ r) = fault_of r
fault_of (fault interrupted ∷ r) = fault_of r
fault_of (fault k ∷ r) = some k

abbrev at_end : Bytes → Option IoErrorKind → Result Bytes
at_end b none = ok b
at_end b (some k) = err (io k)

-- The first `size` bytes; if there are fewer, all of them, or the error behind them.
abbrev pub up_to : ℕ → Reader → Result Bytes
up_to size r =
    if leb size (length (contents r))
    then ok (take size (contents r))
    else at_end (contents r) (fault_of r)

abbrev after : Bytes → Result Bytes → Result Bytes
after red (ok b) = ok (red ++ b)
after red (err e) = err e
after red (panic p) = panic p

after-nil : (x : Result Bytes) → after [] x ≡ x
after-nil (ok b) = refl
after-nil (err e) = refl
after-nil (panic p) = refl

abbrev pub result_of : Option (Result Bytes × Reader) → Option (Result Bytes)
result_of none = none
result_of (some (x, _)) = some x

up_to-chunk :
    (red c : Bytes) (size : ℕ) (r : Reader)
    → length c ≤ size
    → after (red ++ c) (up_to (size - length c) r)
      ≡ after red (
          if leb size (length (c ++ contents r))
          then ok (take size (c ++ contents r))
          else at_end (c ++ contents r) (fault_of r))
up_to-chunk red c size r h = ground (
  arith,
  length-append c (contents r),
  take-append_long size c (contents r) h,
  append_assoc red c (take (size - length c) (contents r)),
  append_assoc red c (contents r),
)

read_loop_full :
    (fuel : ℕ) (red : Bytes) (left : ℕ) (r : Reader)
    → 0 < fuel
    → left ≡ 0
    → result_of (read_loop fuel red left r) ≡ some (ok red)
unfolding read_loop
read_loop_full zero red left r p e = absurd (omega arith)
read_loop_full (suc fuel) red zero r p e = refl
read_loop_full (suc fuel) red (suc left) r p e = absurd (omega arith)

-- The buffer is filled by the first part of a long piece.
up_to-long :
    (c : Bytes) (size : ℕ) (r : Reader)
    → size < length c
    → (if leb size (length (c ++ contents r))
        then ok (take size (c ++ contents r))
        else at_end (c ++ contents r) (fault_of r))
      ≡ ok (take size c)
up_to-long c size r h =
    ground (arith, length-append c (contents r), take-append_short size c (contents r))

long-lt : (a b : ℕ) → leb a b ≡ false → b < a
long-lt a b h = ground arith

read_loop_lem :
    (fuel : ℕ) (red : Bytes) (left : ℕ) (r : Reader)
    → length r + 2 ≤ fuel
    → result_of (read_loop fuel red left r) ≡ some (after red (up_to left r))
unfolding read_loop
read_loop_lem zero red left r h = absurd (omega arith)
read_loop_lem (suc fuel) red zero r h = ground (arith, append-nil red)
read_loop_lem (suc fuel) red (suc left) [] h = ground (arith, append-nil red)
read_loop_lem (suc fuel) red (suc left) (chunk [] ∷ r) h = ground (arith, append-nil red)
read_loop_lem (suc fuel) red (suc left) (chunk (b ∷ c) ∷ r) h =
    elim (Bool-cases (leb (length (b ∷ c)) (suc left))) [
      | inl fits ↦
          rw (fits, read, after_read)
            (read_loop_lem fuel (red ++ b ∷ c) (suc left - length (b ∷ c)) r (omega arith)
              ∙ ap some (up_to-chunk red (b ∷ c) (suc left) r (ground arith)))
      | inr long ↦
          rw (long, read, after_read)
            (read_loop_full fuel (red ++ take (suc left) (b ∷ c))
                (suc left - length (take (suc left) (b ∷ c))) (chunk (drop left c) ∷ r)
                (omega arith)
                (omega (arith, length-take left c, long-lt (length (b ∷ c)) (suc left) long))
              ∙ ap (λ x. some (after red x))
                  (sym
                    (up_to-long (b ∷ c) (suc left) r (long-lt (length (b ∷ c)) (suc left) long))))
    ]
read_loop_lem (suc fuel) red (suc left) (fault interrupted ∷ r) h =
    read_loop_lem fuel red (suc left) r (omega arith)
read_loop_lem (suc fuel) red (suc left) (fault unexpected_eof ∷ r) h = ground arith
read_loop_lem (suc fuel) red (suc left) (fault other_kind ∷ r) h = ground arith

-- The bounded read returns: the first bytes of the reader up to the size, pieces and interruptions
-- notwithstanding; all of them if there are fewer; or the error that stands behind these.
pub read_to_end_up_to_lem :
    (size : ℕ) (r : Reader) → result_of (read_to_end_up_to size r) ≡ some (up_to size r)
unfolding read_to_end_up_to
read_to_end_up_to_lem size r =
    read_loop_lem (suc (suc (length r))) [] size r (omega arith)
    ∙ ap some (after-nil (up_to size r))
