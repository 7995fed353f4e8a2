-- ===== src/Setup/Renewals.antt =====
-- The interval of daisyway/src/internal/daisyway/setup.rs: when the worker of a server keeps its keys.
mod Tests
use daisyway.Base.{ℕ, ◌+◌, ◌%◌, ◌^◌, ◌<◌, ◌≤◌, ◌≡◌, List, [], ◌∷◌, ok, length, arith}
use daisyway.Crypto.Basics.{DaisywayProtocolParameters}
use daisyway.Crypto.World.{World, Parts}
use daisyway.Crypto.Server.Renewals.{Renews, IsPrompt, Renews-AreInTime}
use daisyway.Osk.Deadman.{Runtime, DeadmanRequest, running, rounds}
use daisyway.Osk.Deadman.Renewals.{
  Requests, AreInTime, AreInTime-widen, IsServed, renewed, rounds-Renewed,
}
use daisyway.Setup.{Output, start_deadman}

mod_small : (n : ℕ) → n < 2 ^ 64 → n % 2 ^ 64 ≡ n
mod_small n h = omega arith

module _ {N K R O FilePath W : Type 0} (parts : Parts N K R O) (params : DaisywayProtocolParameters)
    (now : World N K R O → ℕ) {rekey_interval negotiating handing late : ℕ}
    (prompt : IsPrompt parts params now rekey_interval negotiating handing late)
    (output : Output FilePath) (rt : Runtime W) where
  abbrev erase_after : ℕ
  erase_after = (start_deadman output rekey_interval).erase_after

  -- Once the worker of a participant that was set up with a rekey interval is at or after the time
  -- of the first request of a server's run, it writes the key of each later request, as a fresh
  -- one and in their order, and erases none between them, if negotiating a key, handing it over
  -- and waking up late take at most 30 seconds together and the interval and these 30 seconds fit
  -- into 64 bits. This is for a worker that receives the requests of the run when they are sent,
  -- whose writes succeed and whose deadlines can be represented.
  pub keys_kept :
      (served : IsServed rt erase_after) (t : ℕ) (req : DeadmanRequest) (reqs : Requests)
      (w w' : World N K R O) (v : W)
      → rekey_interval + 30 < 2 ^ 64
      → negotiating + handing + late ≤ 30
      → Renews parts params now rekey_interval w ((t, req) ∷ reqs) w'
      → served.coming v ≡ reqs
      → t ≤ rt.now v
      → let (r, v') = rounds rt erase_after (length reqs) v in
        (r ≡ ok running)
        × (served.coming v' ≡ [])
        × (served.written v' ≡ renewed reqs (served.written v))
  unfolding start_deadman
  keys_kept served t req reqs w w' v small prompt_enough run e le =
      let kept = Renews-AreInTime parts params now prompt (now w) run (omega arith) in
      rounds-Renewed rt erase_after served reqs t v e le (
        AreInTime-widen _ erase_after t reqs (omega (arith, mod_small (rekey_interval + 30) small))
          kept.1)
