-- ===== src/Crypto/Server/Renewals.antt =====
-- When the loop of daisyway/src/internal/daisyway/crypto/server.rs renews the key.
use daisyway.Base.{
  ℕ, zero, suc, ◌+◌, ◌≤◌, ◌≡◌, refl, sym, ap, subst, [], ◌∷◌, ok, resume-eq-ok, final, length,
  arith,
}
use daisyway.Crypto.Key.{Key}
use daisyway.Crypto.Basics.{DaisywayProtocolParameters}
use daisyway.Osk.{fresh}
use daisyway.Osk.Deadman.Renewals.{Requests, AreInTime}
use daisyway.Crypto.World.{World, Parts, on_osk, on_runtime}
use daisyway.Crypto.Server.{negotiate_key, event_loop}

module _ {N K R O : Type 0} (parts : Parts N K R O) (params : DaisywayProtocolParameters)
    (now : World N K R O → ℕ) where
  -- A run of the loop with what it gives to the key handler, oldest first, and when.
  pub data Renews (rekey_interval : ℕ) : World N K R O → Requests → World N K R O → Type 0 where
    done : {w : World N K R O} → Renews rekey_interval w [] w
    renews :
        (key : Key) {w v x u w' : World N K R O} {reqs : Requests}
        → negotiate_key parts params w ≡ (ok key, v)
        → on_osk (parts.handler.set_osk key fresh) v ≡ (ok tt, x)
        → on_runtime (parts.sleep rekey_interval) x ≡ (ok tt, u)
        → Renews rekey_interval u reqs w'
        → Renews rekey_interval w ((now v, record { key = key; reason = fresh }) ∷ reqs) w'

  -- How long a negotiation, handing over a key and sleeping may take.
  pub record IsPrompt (rekey_interval negotiating handing late : ℕ) : Type 0 where
    pub negotiates :
        (key : Key) (w v : World N K R O)
        → negotiate_key parts params w ≡ (ok key, v)
        → now v ≤ now w + negotiating
    pub hands :
        (key : Key) (w v : World N K R O)
        → on_osk (parts.handler.set_osk key fresh) w ≡ (ok tt, v)
        → now v ≤ now w + handing
    pub sleeps :
        (w v : World N K R O)
        → on_runtime (parts.sleep rekey_interval) w ≡ (ok tt, v)
        → now v ≤ now w + (rekey_interval + late)

  event_loop-Renews :
      (rekey_interval rounds : ℕ) (w w' : World N K R O)
      → event_loop parts params rekey_interval rounds w ≡ (ok tt, w')
      → (reqs : Requests) × Renews rekey_interval w reqs w' × (length reqs ≡ rounds)
  unfolding event_loop
  event_loop-Renews rekey_interval zero w w' e =
      ([], subst (Renews rekey_interval w []) (sym (final (λ x. x) e)) done, refl)
  event_loop-Renews rekey_interval (suc rounds) w w' e =
      let (key, v, f, e1) = resume-eq-ok _ (negotiate_key parts params w) e in
      let (_, x, g, e2) = resume-eq-ok _ (on_osk (parts.handler.set_osk key fresh) v) e1 in
      let (_, u, h, e3) = resume-eq-ok _ (on_runtime (parts.sleep rekey_interval) x) e2 in
      let (reqs, run, count) = event_loop-Renews rekey_interval rounds u w' e3 in
      ((now v, record { key = key; reason = fresh }) ∷ reqs, renews key f g h run, ap suc count)

  module _ {rekey_interval negotiating handing late : ℕ}
      (prompt : IsPrompt rekey_interval negotiating handing late) where
    -- From one handing over to the next.
    pub Renews-AreInTime :
        (from : ℕ) {w w' : World N K R O} {reqs : Requests}
        → Renews rekey_interval w reqs w'
        → now w ≤ from + handing + (rekey_interval + late)
        → AreInTime (rekey_interval + negotiating + handing + late) from reqs
    Renews-AreInTime from done le = tt
    Renews-AreInTime from (renews key {w} {v} {x} {u} f g h run) le = (
      omega (arith, prompt.negotiates key w v f),
      Renews-AreInTime (now v) run (omega (arith, prompt.hands key v x g, prompt.sleeps x u h)),
    )

    -- If the server's loop has gone through so many rounds, then it has given the key handler one
    -- fresh key in each of them, the first one and each next one at most the rekey interval and
    -- the bounds on negotiating, on handing over and on waking up late after the start or the one
    -- before.
    pub event_loop-AreInTime :
        (rounds : ℕ) (w w' : World N K R O)
        → event_loop parts params rekey_interval rounds w ≡ (ok tt, w')
        → (reqs : Requests) × Renews rekey_interval w reqs w'
          × (length reqs ≡ rounds)
          × AreInTime (rekey_interval + negotiating + handing + late) (now w) reqs
    event_loop-AreInTime rounds w w' e =
        let (reqs, run, count) = event_loop-Renews rekey_interval rounds w w' e in
        (reqs, run, count, Renews-AreInTime (now w) run (omega arith))
