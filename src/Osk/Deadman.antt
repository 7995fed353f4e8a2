-- ===== src/Osk/Deadman.antt =====
-- daisyway/src/internal/osk/deadman.rs: the worker that erases a key which is not renewed in time. Its
-- loop is cut after a number of rounds, which the result tells from its return. The messages of the
-- log are left out.
pub mod Writes
pub mod Pace
pub mod Erased
pub mod Passed
pub mod Renewals
pub mod Latest
pub mod Failing
mod Tests
use daisyway.Base.{
  ℕ, zero, suc, ◌+◌, Option, none, some, Result, ok, err, panic, Error, Action, ◌>>=◌, ◌>>◌, pure,
  lift, leb, if◌then◌else◌,
}
use daisyway.Crypto.Key.{Key}
use daisyway.Osk.{SetOskReason, OskHandler, erase_stale_osk}

pub record DeadmanRequest : Type 0 where
  pub key : Key
  pub reason : SetOskReason

-- The client side. `send` is that of the channel to the worker: it fails once the worker has ended.
unfoldable pub set_osk_impl {ℓ} :
    {C : Type ℓ} → (DeadmanRequest → Action C (Unit {0})) → Key → SetOskReason → Action C (Unit {0})
set_osk_impl send key reason = do _ ← send (record { key = key; reason = reason }); pure tt

-- A client is an `OskHandler` itself.
unfoldable pub client {ℓ} : {C : Type ℓ} → (DeadmanRequest → Action C (Unit {0})) → OskHandler C
unfolding set_osk_impl
client send = record { set_osk = λ key reason. set_osk_impl send key reason }

-- What the worker runs on: the clock of tokio and the last instant that it can represent,
-- `timeout_at(d, requests.recv()).await.ok()`, random keys, and the broker that writes the output key.
pub record Runtime {ℓ} (W : Type ℓ) : Type ℓ where
  pub now : W → ℕ
  pub latest : ℕ
  pub timeout_at : ℕ → Action W (Option (Option DeadmanRequest))
  pub random : Action W Key
  pub broker : OskHandler W

pub data Progress : Type 0 where
  returned running : Progress

module _ {ℓ} {W : Type ℓ} (rt : Runtime W) (erase_after : ℕ) where
  open rt use {now, latest, timeout_at, random, broker}

  unfoldable pub erase : Action W (Unit {0})
  unfolding erase_stale_osk
  erase = erase_stale_osk broker random

  -- `next_erase = Instant::now() + erase_after`, where the sum of an instant and a duration panics if
  -- it overflows, and the wait for a request until then.
  unfoldable pub next_request : Action W (Option (Option DeadmanRequest))
  next_request w =
      if leb (now w + erase_after) latest
      then timeout_at (now w + erase_after) w
      else (panic "overflow when adding duration to instant", w)

  -- What one round does, and whether the loop is over.
  unfoldable pub on_request : Option (Option DeadmanRequest) → Action W Progress
  unfolding erase
  on_request (some (some req)) = do _ ← broker.set_osk req.key req.reason; pure running
  on_request (some none) = do _ ← erase; pure returned
  on_request none = do _ ← erase; pure running

  abbrev pub continue : Progress → Action W Progress → Action W Progress
  continue returned rest = pure returned
  continue running rest = rest

  unfoldable pub rounds : ℕ → Action W Progress
  unfolding next_request
  rounds zero = pure running
  rounds (suc fuel) = do
    req ← next_request
    progress ← on_request req
    continue progress (rounds fuel)

  unfoldable pub event_loop : ℕ → Action W Progress
  unfolding erase
  event_loop fuel = do _ ← erase; rounds fuel

  -- The thread: an error of the loop is a panic. That tokio fails to build its runtime, which is a panic
  -- before any write, is left out.
  abbrev pub or_panic : Result Progress → Result Progress
  or_panic (ok p) = ok p
  or_panic (err e) = panic "Error in output key worker thread"
  or_panic (panic p) = panic p

  unfoldable pub thread_run : ℕ → Action W Progress
  thread_run fuel w = let (r, w') = event_loop fuel w in (or_panic r, w')

-- `OskDeadman::start` and `DeadmanWorker::start`: the thread that is spawned makes the broker that it
-- owns, and runs.
unfoldable pub start {ℓ} :
    {W : Type ℓ} → Runtime W → ℕ → (W → OskHandler W × W) → ℕ → Action W Progress
unfolding thread_run
start rt erase_after make_broker fuel w =
    let (broker, w') = make_broker w in
    thread_run (record rt { broker = broker }) erase_after fuel w'
