-- ===== src/Crypto/Agreement/Sessions.antt =====
-- The loops of daisyway/src/internal/daisyway/crypto/server.rs and client.rs, together: any number of
-- key exchanges over one connection.
use daisyway.Base.{
  ℕ, zero, suc, ◌≡◌, refl, sym, ap, ◌∙◌, List, [], ◌∷◌, ◌++◌, ok, length, append-injective, Result,
  length-append, arith,
}
use mathlib.Core.List.{append_assoc, append-nil}
use daisyway.Crypto.Key.{Bytes, Key, IsKey}
use daisyway.Crypto.Basics.{
  DaisywayProtocolParameters, Etsi014Key, rekey_req_length, rekey_ack, rekey_ack_bytes,
}
use daisyway.Crypto.Basics.Derivation.{mirror, IsEtsi014Key}
use daisyway.Crypto.World.{World, Parts}
use daisyway.Crypto.Server
use daisyway.Crypto.Server.{negotiate_key}
use daisyway.Crypto.Server.Rounds.{request, negotiate_key_steps, event_loop_steps}
use daisyway.Crypto.Client
use daisyway.Crypto.Client.{wait_for_key_negotiation}
use daisyway.Crypto.Client.Rounds as Answers
use daisyway.Crypto.Agreement.{Wire, SameCrates, IsDelivered, roundtrip, agreement}
use daisyway.Osk.{fresh}

pushed :
    {A : Type 0} (xs : List A) (x : A) (l : List A) {log : List A}
    → log ≡ xs ++ (x ∷ l)
    → log ≡ xs ++ (x ∷ []) ++ l
pushed xs x l e = e ∙ sym (append_assoc xs (x ∷ []) l)

-- So many requests, one after the other.
abbrev pub IsRequests : ℕ → Bytes → Type 0
IsRequests zero b = b ≡ []
IsRequests (suc n) b =
    (first : Bytes) × (later : Bytes) × (b ≡ first ++ later)
    × (length first ≡ rekey_req_length)
    × IsRequests n later

module _ {N K R O : Type 0} (parts : Parts N K R O) where
  open parts use {read_exact, write_all, fetch_any_key, random, handler}

  -- A key handler whose keys can be told, newest first.
  pub record IsLogging : Type 0 where
    pub log : O → List Key
    pub logs :
        (k : Key) (o : O)
        → (handler.set_osk k fresh o).0 ≡ ok tt
        → log (handler.set_osk k fresh o).1 ≡ k ∷ log o

  -- Streams on which writing takes nothing from what is still to be read.
  pub record Duplex : Type 0 where
    pub wire : Wire parts
    pub write_takes : (b : Bytes) (s : N) → wire.incoming (write_all b s).1 ≡ wire.incoming s

  module _ (params : DaisywayProtocolParameters) (rekey_interval : ℕ) (wire : Wire parts)
      (sized : (s : World N K R O) (q : Etsi014Key)
        → (fetch_any_key s.etsi).0 ≡ ok q
        → IsEtsi014Key q)
      (nonce_sized : (s : World N K R O) (n : Key) → (random s.runtime).0 ≡ ok n → IsKey n) where
    -- A negotiation of the server writes one request.
    server_writes :
        (s s' : World N K R O) (k : Key)
        → negotiate_key parts params s ≡ (ok k, s')
        → (b : Bytes) × (wire.sent s'.stream ≡ wire.sent s.stream ++ b)
          × (length b ≡ rekey_req_length)
    server_writes s s' k h =
        let (q, n, fetched, drawn, written, acked, after, derived) =
          negotiate_key_steps parts params s s' k h in
        (
          request q n,
          ap wire.sent after
              ∙ wire.read_sends 1 (write_all (request q n) s.stream).1
              ∙ wire.write_sends (request q n) s.stream written,
          (roundtrip q n (sized s q fetched) (nonce_sized s n drawn)).1,
        )

    pub server_sent :
        (rounds : ℕ) (s s' : World N K R O)
        → Server.event_loop parts params rekey_interval rounds s ≡ (ok tt, s')
        → (b : Bytes) × (wire.sent s'.stream ≡ wire.sent s.stream ++ b) × IsRequests rounds b
    unfolding Server.event_loop
    server_sent zero s s' h = (
      [],
      ap (λ (p : Result (Unit {0}) × World N K R O). wire.sent p.1.stream) (sym h)
          ∙ sym (append-nil (wire.sent s.stream)),
      refl,
    )
    server_sent (suc rounds) s s' h =
        let (k, v, u, e, _, stream_eq, _, rest) =
          event_loop_steps parts params rekey_interval rounds s s' h in
        let (b, wrote, size) = server_writes s v k e in
        let (b', wrote', requests) = server_sent rounds u s' rest in
        (
          b ++ b',
          wrote'
              ∙ ap (λ x. wire.sent x ++ b') stream_eq
              ∙ ap (λ x. x ++ b') wrote
              ∙ append_assoc (wire.sent s.stream) b b',
          (b, b', refl, size, requests),
        )

  module _ (params : DaisywayProtocolParameters) (duplex : Duplex) where
    open duplex use {wire, write_takes}

    -- A negotiation of the client reads one request and no more.
    client_reads :
        (c c' : World N K R O) (k : Key) (b rest : Bytes)
        → wait_for_key_negotiation parts (mirror params) c ≡ (ok k, c')
        → length b ≡ rekey_req_length
        → wire.incoming c.stream ≡ b ++ rest
        → wire.incoming c'.stream ≡ rest
    client_reads c c' k b rest h size reads =
        let (b', q, read, _, _, _) =
          Answers.wait_for_key_negotiation_steps parts (mirror params) c c' k h in
        let (size', taken) = wire.read_takes rekey_req_length c.stream b' read in
        ap wire.incoming (Answers.wait_for_key_negotiation_stream parts (mirror params) c c' k h)
        ∙ write_takes (rekey_ack_bytes rekey_ack) (read_exact rekey_req_length c.stream).1
        ∙ (append-injective b' b _ rest (size' ∙ sym size) (sym taken ∙ reads)).1

module _ {N K R O N' K' R' O' : Type 0} (here : Parts N K R O) (there : Parts N' K' R' O')
    (crates : SameCrates here there) (wire : Wire here) (duplex : Duplex there)
    (logging : IsLogging here) (logging' : IsLogging there) (params : DaisywayProtocolParameters)
    (rekey_interval : ℕ)
    (delivered : (s : World N K R O) (c : World N' K' R' O') → IsDelivered here there s c) where
  open duplex use {wire as wire'}
  open logging use {log, logs}
  open logging' use {log as log', logs as logs'}

  -- If the loops of both sides have gone through so many rounds, over streams that deliver what
  -- was written, with the peers' parameters mirrored and the same crates on both sides, and the
  -- QKD device of the client returns the key of an id as that of the server delivered it, and ids,
  -- keys and nonces have their sizes, then both key handlers, whose keys can be told, have been
  -- given the same keys, one in each round.
  pub event_loops_agree :
      (rounds : ℕ) (s s' : World N K R O) (c c' : World N' K' R' O') (b rest : Bytes)
      → Server.event_loop here params rekey_interval rounds s ≡ (ok tt, s')
      → Client.event_loop there (mirror params) rounds c ≡ (ok tt, c')
      → wire.sent s'.stream ≡ wire.sent s.stream ++ b
      → wire'.incoming c.stream ≡ b ++ rest
      → (keys : List Key) × (length keys ≡ rounds)
        × (log s'.osk ≡ keys ++ log s.osk)
        × (log' c'.osk ≡ keys ++ log' c.osk)
  unfolding Server.event_loop Client.event_loop
  event_loops_agree zero s s' c c' b rest hs hc wrote reads = (
    [],
    refl,
    ap (λ (p : Result (Unit {0}) × World N K R O). log p.1.osk) (sym hs),
    ap (λ (p : Result (Unit {0}) × World N' K' R' O'). log' p.1.osk) (sym hc),
  )
  event_loops_agree (suc rounds) s s' c c' b rest hs hc wrote reads =
      let (k, v, u, e, set, stream_eq, osk_eq, later) =
        event_loop_steps here params rekey_interval rounds s s' hs in
      let (k', v', u', e', set', stream_eq', osk_eq', later') =
        Answers.event_loop_steps there (mirror params) rounds c c' hc in
      let sized = λ (x : World N K R O). (delivered x c).sized in
      let nonce_sized = λ (x : World N K R O). (delivered x c).nonce_sized in
      let (b1, wrote1, size) =
        server_writes here params rekey_interval wire sized nonce_sized s v k e in
      let (b2, wrote2, _) =
        server_sent here params rekey_interval wire sized nonce_sized rounds u s' later in
      let parts_eq : b ≡ b1 ++ b2 =
        (append-injective (wire.sent s.stream) (wire.sent s.stream) b (b1 ++ b2) refl (
          sym wrote
          ∙ wrote2
          ∙ ap (λ x. wire.sent x ++ b2) stream_eq
          ∙ ap (λ x. x ++ b2) wrote1
          ∙ append_assoc (wire.sent s.stream) b1 b2)).1 in
      let reads1 : wire'.incoming c.stream ≡ b1 ++ (b2 ++ rest) =
        reads ∙ ap (λ x. x ++ rest) parts_eq ∙ append_assoc b1 b2 rest in
      let same : k' ≡ k =
        agreement here there crates wire wire' params s v c v' k k' b1 (b2 ++ rest) (delivered s c)
          e e' wrote1 reads1 in
      let reads2 =
        ap wire'.incoming stream_eq'
        ∙ client_reads there params duplex c v' k' b1 (b2 ++ rest) e' size reads1 in
      let (keys, count, told, told') =
        event_loops_agree rounds u s' u' c' b2 rest later later' wrote2 reads2 in
      (
        keys ++ k ∷ [],
        omega (arith, length-append keys (k ∷ [])),
        pushed keys k (log s.osk) (told ∙ ap (◌++◌ keys) (ap log osk_eq ∙ logs k s.osk set)),
        pushed keys k (log' c.osk) (
            told'
            ∙ ap (◌++◌ keys)
                (ap log' osk_eq' ∙ logs' k' c.osk set' ∙ ap (λ x. x ∷ log' c.osk) same)),
      )
