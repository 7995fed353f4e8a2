-- ===== src/Crypto/Server/Sizes.antt =====
-- The sizes of the keys that the loop of daisyway/src/internal/daisyway/crypto/server.rs hands over.
use daisyway.Base.{ℕ, zero, suc, ◌≡◌, sym, ap, subst, ◌∙◌, List, ◌∷◌, Result, ok}
use daisyway.Crypto.Key.{Key, IsKey}
use daisyway.Crypto.Basics.{DaisywayProtocolParameters, Etsi014Key, UuidCrate, derive_daisyway_key}
use daisyway.Crypto.HashDomain.{Xof, into_key, mix}
use daisyway.Crypto.World.{World, Parts}
use daisyway.Crypto.Server.{event_loop}
use daisyway.Crypto.Server.Rounds.{negotiate_key_steps, event_loop_steps}
use daisyway.Crypto.Agreement.Sessions.{IsLogging}

pub derive_daisyway_key-IsKey :
    (uuid : UuidCrate) (shake256 : Xof) (p : DaisywayProtocolParameters) (nonce : Key)
    (k : Etsi014Key)
    → IsKey (derive_daisyway_key uuid shake256 p nonce k)
unfolding derive_daisyway_key into_key mix
derive_daisyway_key-IsKey uuid shake256 p nonce k = shake256.xof_length _ 32

-- The newest key has 32 bytes.
abbrev pub NewestIsKey : List Key → Type 0
NewestIsKey log = (key : Key) × (older : List Key) × (log ≡ key ∷ older) × IsKey key

module _ {N K R O : Type 0} (parts : Parts N K R O) (params : DaisywayProtocolParameters)
    (logging : IsLogging parts) (rekey_interval : ℕ) where
  open logging use {log, logs}

  -- What a round hands over has this size.
  round-NewestIsKey :
      (rounds : ℕ) (w w' : World N K R O)
      → event_loop parts params rekey_interval (suc rounds) w ≡ (ok tt, w')
      → (u : World N K R O) × (event_loop parts params rekey_interval rounds u ≡ (ok tt, w'))
        × NewestIsKey (log u.osk)
  round-NewestIsKey rounds w w' e =
      let (k, v, u, negotiated, set, _, osk_eq, later) =
        event_loop_steps parts params rekey_interval rounds w w' e in
      let (q, n, _, _, _, _, _, derived) = negotiate_key_steps parts params w v k negotiated in
      (
        u,
        later,
        (
          k,
          log w.osk,
          ap log osk_eq ∙ logs k w.osk set,
          subst IsKey (sym derived)
              (derive_daisyway_key-IsKey parts.uuid parts.shake256 params n q),
        ),
      )

  event_loop-NewestIsKey :
      (rounds : ℕ) (w w' : World N K R O)
      → event_loop parts params rekey_interval rounds w ≡ (ok tt, w')
      → NewestIsKey (log w.osk)
      → NewestIsKey (log w'.osk)
  unfolding event_loop
  event_loop-NewestIsKey zero w w' e h =
      subst (λ (p : Result (Unit {0}) × World N K R O). NewestIsKey (log p.1.osk)) e h
  event_loop-NewestIsKey (suc rounds) w w' e h =
      let (u, later, newest) = round-NewestIsKey rounds w w' e in
      event_loop-NewestIsKey rounds u w' later newest

  pub handed-NewestIsKey :
      (rounds : ℕ) (w w' : World N K R O)
      → event_loop parts params rekey_interval (suc rounds) w ≡ (ok tt, w')
      → NewestIsKey (log w'.osk)
  handed-NewestIsKey rounds w w' e =
      let (u, later, newest) = round-NewestIsKey rounds w w' e in
      event_loop-NewestIsKey rounds u w' later newest
