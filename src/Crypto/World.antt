-- ===== src/Crypto/World.antt =====
-- What the tasks of daisyway/src/internal/daisyway/crypto/server.rs and client.rs work with: a socket, the QKD
-- device, the runtime (its random numbers and its clock) and the key handler, each with its state.
use daisyway.Base.{ℕ, Action}
use daisyway.Crypto.Key.{Bytes, Key, Uuid}
use daisyway.Crypto.Basics.{Etsi014Key, UuidCrate}
use daisyway.Crypto.HashDomain.{Xof}
use daisyway.Osk.{OskHandler}

pub record World (N K R O : Type 0) : Type 0 where
  pub stream : N
  pub etsi : K
  pub runtime : R
  pub osk : O

-- `AsyncReadExt::read_exact`, `AsyncWriteExt::write_all`, the methods of `Etsi014Connection`, the
-- thread's random number generator, `tokio::time::sleep`, and the crates `uuid` and `shake`.
pub record Parts (N K R O : Type 0) : Type 0 where
  pub read_exact : ℕ → Action N Bytes
  pub write_all : Bytes → Action N (Unit {0})
  pub fetch_any_key : Action K Etsi014Key
  pub fetch_specific_key : Uuid → Action K Etsi014Key
  pub random : Action R Key
  pub sleep : ℕ → Action R (Unit {0})
  pub handler : OskHandler O
  pub uuid : UuidCrate
  pub shake256 : Xof

module _ {N K R O A : Type 0} where
  abbrev pub on_stream : Action N A → Action (World N K R O) A
  on_stream m w = let (r, s) = m w.stream in (r, record w { stream = s })

  abbrev pub on_etsi : Action K A → Action (World N K R O) A
  on_etsi m w = let (r, s) = m w.etsi in (r, record w { etsi = s })

  abbrev pub on_runtime : Action R A → Action (World N K R O) A
  on_runtime m w = let (r, s) = m w.runtime in (r, record w { runtime = s })

  abbrev pub on_osk : Action O A → Action (World N K R O) A
  on_osk m w = let (r, s) = m w.osk in (r, record w { osk = s })
