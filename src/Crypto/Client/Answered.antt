-- ===== src/Crypto/Client/Answered.antt =====
-- Which keys daisyway/src/internal/daisyway/crypto/client.rs gives to its key handler.
use daisyway.Base.{ℕ, zero, suc, ◌≡◌, sym, subst, ok, resume_after}
use daisyway.Crypto.Key.{Bytes, Key}
use daisyway.Crypto.Basics.{
  DaisywayProtocolParameters, Etsi014Key, rekey_req_of, rekey_req_length, rekey_ack,
  rekey_ack_bytes, derive_daisyway_key,
}
use daisyway.Osk.{fresh}
use daisyway.Osk.Recording.{AllHave, IsRecording, set_osk-AllHave}
use daisyway.Crypto.World.{World, Parts, on_osk}
use daisyway.Crypto.Client.{wait_for_key_negotiation, event_loop}
use daisyway.Crypto.Client.Rounds.{wait_for_key_negotiation_steps, wait_for_key_negotiation_osk}

module _ {N K R O : Type 0} (parts : Parts N K R O) (params : DaisywayProtocolParameters) where
  open parts use {read_exact, write_all, fetch_specific_key, handler, uuid, shake256}

  -- The key is derived from the nonce of a request that was read and acknowledged, and the QKD key that
  -- it names, as the device returned it.
  abbrev pub IsAnswered : Key → Type 0
  IsAnswered k =
      (stream : N) × (etsi : K) × (b : Bytes) × (q : Etsi014Key) × ((read_exact rekey_req_length
          stream).0
        ≡ ok b)
      × ((fetch_specific_key (rekey_req_of b).qkd_key_id etsi).0 ≡ ok q)
      × ((write_all (rekey_ack_bytes rekey_ack) (read_exact rekey_req_length stream).1).0 ≡ ok tt)
      × (k ≡ derive_daisyway_key uuid shake256 params (rekey_req_of b).nonce q)

  module _ (recording : IsRecording handler) where
    open recording use {log}

    -- A log of such keys stays one, also where the loop fails.
    pub event_loop-AllHave :
        (rounds : ℕ) (w : World N K R O)
        → AllHave IsAnswered (log w.osk)
        → AllHave IsAnswered (log (event_loop parts params rounds w).1.osk)
    unfolding event_loop
    event_loop-AllHave zero w h = h
    event_loop-AllHave (suc rounds) w h =
        let P : World N K R O → Type 0 = λ v. AllHave IsAnswered (log v.osk) in
        let p = wait_for_key_negotiation parts params w in
        resume_after P _ p
          (subst (λ o. AllHave IsAnswered (log o))
            (sym (wait_for_key_negotiation_osk parts params w)) h)
          λ key e h'.
            let (b, q, read, fetched, written, derived) =
              wait_for_key_negotiation_steps parts params w p.1 key e in
            resume_after P _ (on_osk (handler.set_osk key fresh) p.1)
              (set_osk-AllHave handler recording IsAnswered key fresh p.1.osk
                (w.stream, w.etsi, b, q, read, fetched, written, derived) h')
              (λ _ _ x. event_loop-AllHave rounds _ x)
