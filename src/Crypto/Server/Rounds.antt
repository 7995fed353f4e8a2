-- ===== src/Crypto/Server/Rounds.antt =====
-- What a negotiation of daisyway/src/internal/daisyway/crypto/server.rs has done when it ends.
use daisyway.Base.{
  Bool, false, panic, ◌==◌, ℕ, suc, [], ◌∷◌, ◌≡◌, Result, ok, err, arith, true, is_ok, Result-cases,
  inl, inr, resume-eq-ok, final, ap, sym, ◌∙◌,
}
use daisyway.Crypto.Key.{Bytes, Key}
use daisyway.Crypto.Basics.{
  DaisywayProtocolParameters, Etsi014Key, rekey_ack, rekey_req_bytes, derive_daisyway_key,
}
use daisyway.Osk.{fresh}
use daisyway.Crypto.World.{World, Parts, on_osk, on_runtime}
use daisyway.Crypto.Server.{negotiate_key, event_loop, rekey_ack_of}

-- The request for a key and a nonce.
abbrev pub request : Etsi014Key → Key → Bytes
request q n = rekey_req_bytes (record { qkd_key_id = q.id; nonce = n })

-- What was read is the expected acknowledgement.
abbrev pub is_acknowledged : Result Bytes → Bool
is_acknowledged (ok b) = (rekey_ack_of b).dummy_data == rekey_ack.dummy_data
is_acknowledged (err e) = false
is_acknowledged (panic p) = false

module _ {N K R O : Type 0} (parts : Parts N K R O) (params : DaisywayProtocolParameters) where
  open parts use {read_exact, write_all, fetch_any_key, random, sleep, handler, uuid, shake256}

  -- A key is only returned after a QKD key was fetched, its id sent with a fresh nonce, and the
  -- acknowledgement read back.
  pub negotiate_key_steps :
      (w w' : World N K R O) (k : Key)
      → negotiate_key parts params w ≡ (ok k, w')
      → (q : Etsi014Key) × (n : Key) × ((fetch_any_key w.etsi).0 ≡ ok q)
        × ((random w.runtime).0 ≡ ok n)
        × ((write_all (request q n) w.stream).0 ≡ ok tt)
        × (is_acknowledged (read_exact 1 (write_all (request q n) w.stream).1).0 ≡ true)
        × (w'.stream ≡ (read_exact 1 (write_all (request q n) w.stream).1).1)
        × (k ≡ derive_daisyway_key uuid shake256 params n q)
  unfolding negotiate_key
  negotiate_key_steps w w' k h = elim (Result-cases (fetch_any_key w.etsi).0) [
    | inr e ↦ absurd (ground arith)
    | inl (q, e) ↦ elim (Result-cases (random w.runtime).0) [
      | inr f ↦ absurd (ground arith)
      | inl (n, f) ↦ (q, n, e, f, ground arith, ground arith, ground arith, ground arith)
    ]
  ]

  -- The key handler is not touched before a key is there.
  pub negotiate_key_osk : (w : World N K R O) → (negotiate_key parts params w).1.osk ≡ w.osk
  unfolding negotiate_key
  negotiate_key_osk w = ground arith

  -- What a successful round of the loop has done.
  pub event_loop_steps :
      (rekey_interval rounds : ℕ) (w w' : World N K R O)
      → event_loop parts params rekey_interval (suc rounds) w ≡ (ok tt, w')
      → (k : Key) × (v : World N K R O) × (u : World N K R O) × (negotiate_key parts params w
          ≡ (ok k, v))
        × ((handler.set_osk k fresh w.osk).0 ≡ ok tt)
        × (u.stream ≡ v.stream)
        × (u.osk ≡ (handler.set_osk k fresh w.osk).1)
        × (event_loop parts params rekey_interval rounds u ≡ (ok tt, w'))
  unfolding event_loop
  event_loop_steps rekey_interval rounds w w' h =
      let (k, v, e, h1) = resume-eq-ok _ (negotiate_key parts params w) h in
      let (a, x, f, h2) = resume-eq-ok _ (on_osk (handler.set_osk k fresh) v) h1 in
      let (b, u, g, h3) = resume-eq-ok _ (on_runtime (sleep rekey_interval) x) h2 in
      let set = handler.set_osk k fresh in
      let osk_eq : v.osk ≡ w.osk = final (λ x. x.osk) e ∙ negotiate_key_osk w in
      (
        k,
        v,
        u,
        e,
        ap (λ o. (set o).0) (sym osk_eq) ∙ ap (λ (p : Result (Unit {0}) × World N K R O). p.0) f,
        final (λ x. x.stream) g ∙ final (λ x. x.stream) f,
        final (λ x. x.osk) g ∙ final (λ x. x.osk) f ∙ ap (λ o. (set o).1) osk_eq,
        h3,
      )

  -- If a key was fetched, a nonce drawn and the request written, but the acknowledgement is
  -- missing or is not the byte 1, then the server's loop does not succeed and the key handler is
  -- left alone.
  pub unacknowledged :
      (rekey_interval rounds : ℕ) (w : World N K R O) (q : Etsi014Key) (n : Key)
      → (fetch_any_key w.etsi).0 ≡ ok q
      → (random w.runtime).0 ≡ ok n
      → (write_all (request q n) w.stream).0 ≡ ok tt
      → is_acknowledged (read_exact 1 (write_all (request q n) w.stream).1).0 ≡ false
      → let (r, w') = event_loop parts params rekey_interval (suc rounds) w in
        (is_ok r ≡ false) × (w'.osk ≡ w.osk)
  unfolding event_loop negotiate_key
  unacknowledged rekey_interval rounds w q n fetched drawn written refused = ground arith

  -- A round of the server's loop whose every step succeeds gives the key handler the derived key
  -- as a fresh one, sleeps for the interval, and goes on.
  pub event_loop_round :
      (rekey_interval rounds : ℕ) (w : World N K R O) (q : Etsi014Key) (n : Key)
      → (fetch_any_key w.etsi).0 ≡ ok q
      → (random w.runtime).0 ≡ ok n
      → (write_all (request q n) w.stream).0 ≡ ok tt
      → (read_exact 1 (write_all (request q n) w.stream).1).0 ≡ ok (1 ∷ [])
      → (handler.set_osk (derive_daisyway_key uuid shake256 params n q) fresh w.osk).0 ≡ ok tt
      → (sleep rekey_interval (random w.runtime).1).0 ≡ ok tt
      → event_loop parts params rekey_interval (suc rounds) w
        ≡ event_loop parts params rekey_interval rounds (record {
          stream = (read_exact 1 (write_all (request q n) w.stream).1).1;
          etsi = (fetch_any_key w.etsi).1;
          runtime = (sleep rekey_interval (random w.runtime).1).1;
          osk = (handler.set_osk (derive_daisyway_key uuid shake256 params n q) fresh w.osk).1;
        })
  unfolding event_loop negotiate_key
  event_loop_round rekey_interval rounds w q n fetched drawn written read set slept =
      rw (fetched, drawn, written, read, set, slept)
