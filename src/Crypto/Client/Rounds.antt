-- ===== src/Crypto/Client/Rounds.antt =====
-- What a negotiation of daisyway/src/internal/daisyway/crypto/client.rs has done when it ends.
use daisyway.Base.{
  ℕ, suc, Result, ◌≡◌, ok, arith, Result-cases, inl, inr, resume-eq-ok, ap, sym, ◌∙◌, final,
}
use daisyway.Crypto.Key.{Bytes, Key}
use daisyway.Crypto.Basics.{
  DaisywayProtocolParameters, Etsi014Key, rekey_req_of, rekey_req_length, rekey_ack,
  rekey_ack_bytes, derive_daisyway_key,
}
use daisyway.Osk.{fresh}
use daisyway.Crypto.World.{World, Parts, on_osk}
use daisyway.Crypto.Client.{wait_for_key_negotiation, event_loop}

module _ {N K R O : Type 0} (parts : Parts N K R O) (params : DaisywayProtocolParameters) where
  open parts use {read_exact, write_all, fetch_specific_key, handler, uuid, shake256}

  -- A key is only returned after a whole request was read, the QKD key that it names was fetched, and
  -- the acknowledgement was sent.
  pub wait_for_key_negotiation_steps :
      (w w' : World N K R O) (k : Key)
      → wait_for_key_negotiation parts params w ≡ (ok k, w')
      → (b : Bytes) × (q : Etsi014Key) × ((read_exact rekey_req_length w.stream).0 ≡ ok b)
        × ((fetch_specific_key (rekey_req_of b).qkd_key_id w.etsi).0 ≡ ok q)
        × ((write_all (rekey_ack_bytes rekey_ack) (read_exact rekey_req_length w.stream).1).0
            ≡ ok tt)
        × (k ≡ derive_daisyway_key uuid shake256 params (rekey_req_of b).nonce q)
  unfolding wait_for_key_negotiation
  wait_for_key_negotiation_steps w w' k h =
      elim (Result-cases (read_exact rekey_req_length w.stream).0) [
        | inr e ↦ absurd (ground arith)
        | inl (b, e) ↦
            elim (Result-cases (fetch_specific_key (rekey_req_of b).qkd_key_id w.etsi).0) [
              | inr f ↦ absurd (ground arith)
              | inl (q, f) ↦ (b, q, e, f, ground arith, ground arith)
            ]
      ]

  -- The key handler is not touched before a key is there.
  pub wait_for_key_negotiation_osk :
      (w : World N K R O) → (wait_for_key_negotiation parts params w).1.osk ≡ w.osk
  unfolding wait_for_key_negotiation
  wait_for_key_negotiation_osk w = ground arith

  -- Nothing was read but the request, and nothing written but the acknowledgement.
  pub wait_for_key_negotiation_stream :
      (w w' : World N K R O) (k : Key)
      → wait_for_key_negotiation parts params w ≡ (ok k, w')
      → w'.stream
        ≡ (write_all (rekey_ack_bytes rekey_ack) (read_exact rekey_req_length w.stream).1).1
  unfolding wait_for_key_negotiation
  wait_for_key_negotiation_stream w w' k h =
      elim (Result-cases (read_exact rekey_req_length w.stream).0) [
        | inr e ↦ absurd (ground arith)
        | inl (b, e) ↦
            elim (Result-cases (fetch_specific_key (rekey_req_of b).qkd_key_id w.etsi).0) [
              | inr f ↦ absurd (ground arith)
              | inl (q, f) ↦ ground arith
            ]
      ]

  -- What a successful round of the loop has done.
  pub event_loop_steps :
      (rounds : ℕ) (w w' : World N K R O)
      → event_loop parts params (suc rounds) w ≡ (ok tt, w')
      → (k : Key) × (v : World N K R O) × (u : World N K R O) × (wait_for_key_negotiation parts
            params w
          ≡ (ok k, v))
        × ((handler.set_osk k fresh w.osk).0 ≡ ok tt)
        × (u.stream ≡ v.stream)
        × (u.osk ≡ (handler.set_osk k fresh w.osk).1)
        × (event_loop parts params rounds u ≡ (ok tt, w'))
  unfolding event_loop
  event_loop_steps rounds w w' h =
      let (k, v, e, h1) = resume-eq-ok _ (wait_for_key_negotiation parts params w) h in
      let (a, u, f, h2) = resume-eq-ok _ (on_osk (handler.set_osk k fresh) v) h1 in
      let set = handler.set_osk k fresh in
      let osk_eq : v.osk ≡ w.osk = final (λ x. x.osk) e ∙ wait_for_key_negotiation_osk w in
      (
        k,
        v,
        u,
        e,
        ap (λ o. (set o).0) (sym osk_eq) ∙ ap (λ (p : Result (Unit {0}) × World N K R O). p.0) f,
        final (λ x. x.stream) f,
        final (λ x. x.osk) f ∙ ap (λ o. (set o).1) osk_eq,
        h2,
      )
