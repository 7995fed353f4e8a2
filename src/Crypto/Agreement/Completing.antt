-- ===== src/Crypto/Agreement/Completing.antt =====
-- When the loops of daisyway/src/internal/daisyway/crypto/server.rs and client.rs go through any number of
-- key exchanges.
use daisyway.Base.{
  ℕ, zero, suc, ◌≡◌, refl, sym, ap, subst, ◌∙◌, List, [], ◌∷◌, ◌++◌, Result, ok, length, replicate,
  append-injective, length-take, arith,
}
use mathlib.Core.List.{append_assoc}
use daisyway.Crypto.Key.{Bytes, Key, Uuid, IsUuid}
use daisyway.Crypto.Basics.{
  DaisywayProtocolParameters, Etsi014Key, rekey_req_of, rekey_req_length, rekey_ack,
  rekey_ack_bytes, derive_daisyway_key,
}
use daisyway.Crypto.Basics.Derivation.{mirror}
use daisyway.Crypto.World.{World, Parts}
use daisyway.Crypto.Server
use daisyway.Crypto.Server.Rounds.{request, event_loop_round}
use daisyway.Crypto.Client
use daisyway.Crypto.Client.{wait_for_key_negotiation}
use daisyway.Crypto.Agreement.{SameCrates, IsDelivered}
use daisyway.Crypto.Agreement.Sessions.{
  Duplex, IsLogging, IsRequests, server_sent, event_loops_agree,
}
use daisyway.Osk.{fresh}

module _ {N K R O : Type 0} (parts : Parts N K R O) (duplex : Duplex parts) where
  open parts use {
    read_exact, write_all, fetch_any_key, fetch_specific_key, random, sleep, handler, uuid,
    shake256,
  }
  open duplex use {wire, write_takes}

  -- A connection that stays open: what is written is sent, and what has come can be read.
  pub record IsOpen : Type 0 where
    pub writes : (b : Bytes) (s : N) → (write_all b s).0 ≡ ok tt
    pub reads :
        (n : ℕ) (b rest : Bytes) (s : N)
        → length b ≡ n
        → wire.incoming s ≡ b ++ rest
        → ((read_exact n s).0 ≡ ok b) × (wire.incoming (read_exact n s).1 ≡ rest)

  -- What else a server needs.
  pub record IsServing (rekey_interval : ℕ) : Type 0 where
    pub fetches : (d : K) → (q : Etsi014Key) × ((fetch_any_key d).0 ≡ ok q)
    pub draws : (r : R) → (n : Key) × ((random r).0 ≡ ok n)
    pub sleeps : (r : R) → (sleep rekey_interval r).0 ≡ ok tt
    pub sets : (k : Key) (o : O) → (handler.set_osk k fresh o).0 ≡ ok tt

  -- What else a client needs: its device has a key for each id.
  pub record IsAnswering : Type 0 where
    pub finds :
        (id : Uuid) (d : K) → IsUuid id → (q : Etsi014Key) × ((fetch_specific_key id d).0 ≡ ok q)
    pub sets : (k : Key) (o : O) → (handler.set_osk k fresh o).0 ≡ ok tt

  module _ (open_stream : IsOpen) (params : DaisywayProtocolParameters) where
    open open_stream use {writes, reads}

    -- So many acknowledgements are enough for as many rounds of the server.
    server_completes :
        (rekey_interval rounds : ℕ) (w : World N K R O) (rest : Bytes)
        → IsServing rekey_interval
        → wire.incoming w.stream ≡ replicate rounds 1 ++ rest
        → (Server.event_loop parts params rekey_interval rounds w).0 ≡ ok tt
    unfolding Server.event_loop
    server_completes rekey_interval zero w rest serving acks = refl
    server_completes rekey_interval (suc rounds) w rest serving acks =
        let (q, fetched) = serving.fetches w.etsi in
        let (n, drawn) = serving.draws w.runtime in
        let written = (write_all (request q n) w.stream).1 in
        let (read, left) =
          reads 1 (1 ∷ []) (replicate rounds 1 ++ rest) written refl
            (write_takes (request q n) w.stream ∙ acks) in
        let key = derive_daisyway_key uuid shake256 params n q in
        ap (λ (p : Result (Unit {0}) × World N K R O). p.0)
          (event_loop_round parts params rekey_interval rounds w q n fetched drawn
            (writes (request q n) w.stream) read (serving.sets key w.osk)
            (serving.sleeps (random w.runtime).1))
        ∙ server_completes rekey_interval rounds _ rest serving left

    client_round :
        (rounds : ℕ) (w : World N K R O) (b : Bytes) (q : Etsi014Key)
        → (read_exact rekey_req_length w.stream).0 ≡ ok b
        → (fetch_specific_key (rekey_req_of b).qkd_key_id w.etsi).0 ≡ ok q
        → (write_all (rekey_ack_bytes rekey_ack) (read_exact rekey_req_length w.stream).1).0 ≡ ok tt
        → let key = derive_daisyway_key uuid shake256 params (rekey_req_of b).nonce q in
          (handler.set_osk key fresh w.osk).0 ≡ ok tt
          → Client.event_loop parts params (suc rounds) w
            ≡ Client.event_loop parts params rounds (record {
              stream =
                  (write_all
                    (rekey_ack_bytes rekey_ack)
                    (read_exact rekey_req_length w.stream).1).1;
              etsi = (fetch_specific_key (rekey_req_of b).qkd_key_id w.etsi).1;
              runtime = w.runtime;
              osk = (handler.set_osk key fresh w.osk).1;
            })
    unfolding Client.event_loop wait_for_key_negotiation
    client_round rounds w b q read found answered set = rw (read, found, answered, set) refl

    request-IsUuid : (b : Bytes) → length b ≡ rekey_req_length → IsUuid (rekey_req_of b).qkd_key_id
    unfolding rekey_req_of
    request-IsUuid b size = omega (arith, length-take 16 b)

    -- So many requests are enough for as many rounds of the client.
    client_completes :
        (rounds : ℕ) (w : World N K R O) (b rest : Bytes)
        → IsAnswering
        → IsRequests rounds b
        → wire.incoming w.stream ≡ b ++ rest
        → (Client.event_loop parts params rounds w).0 ≡ ok tt
    unfolding Client.event_loop
    client_completes zero w b rest answering requests came = refl
    client_completes (suc rounds) w b rest answering (first, later, b_eq, size, requests) came =
        let (read, left) =
          reads rekey_req_length first (later ++ rest) w.stream size
            (came ∙ ap (λ x. x ++ rest) b_eq ∙ append_assoc first later rest) in
        let (q, found) =
          answering.finds (rekey_req_of first).qkd_key_id w.etsi (request-IsUuid first size) in
        let key = derive_daisyway_key uuid shake256 params (rekey_req_of first).nonce q in
        let ack = rekey_ack_bytes rekey_ack in
        let after = (read_exact rekey_req_length w.stream).1 in
        ap (λ (p : Result (Unit {0}) × World N K R O). p.0)
          (client_round rounds w first q read found (writes ack after) (answering.sets key w.osk))
        ∙ client_completes rounds _ later rest answering requests (write_takes ack after ∙ left)

module _ {N K R O N' K' R' O' : Type 0} (here : Parts N K R O) (there : Parts N' K' R' O')
    (crates : SameCrates here there) (duplex : Duplex here) (duplex' : Duplex there)
    (logging : IsLogging here) (logging' : IsLogging there) (params : DaisywayProtocolParameters)
    (rekey_interval : ℕ)
    (delivered : (s : World N K R O) (c : World N' K' R' O') → IsDelivered here there s c) where
  -- For any number of rounds, if the devices, the random numbers, the clock and the key handlers
  -- of both sides serve them, the connection stays open, so many acknowledgements come to the
  -- server, and what it sends comes to the client, then the loops of both sides go through all of
  -- these rounds, and both key handlers, whose keys can be told, have been given the same keys,
  -- one in each round. This is with the peers' parameters mirrored, the same crates on both sides,
  -- a QKD device of the client that has a key for each id, and for an id of the server the one
  -- that it delivered, and ids, keys and nonces of their sizes.
  pub sessions_complete :
      (rounds : ℕ) (s : World N K R O) (c : World N' K' R' O') (sent acks rest : Bytes)
      → IsOpen here duplex
      → IsOpen there duplex'
      → IsServing here duplex rekey_interval
      → IsAnswering there duplex'
      → duplex.wire.incoming s.stream ≡ replicate rounds 1 ++ acks
      → duplex.wire.sent (Server.event_loop here params rekey_interval rounds s).1.stream
        ≡ duplex.wire.sent s.stream ++ sent
      → duplex'.wire.incoming c.stream ≡ sent ++ rest
      → let (r, s') = Server.event_loop here params rekey_interval rounds s in
        let (r', c') = Client.event_loop there (mirror params) rounds c in
        (r ≡ ok tt)
        × (r' ≡ ok tt)
        × ((keys : List Key) × (length keys ≡ rounds)
            × (logging.log s'.osk ≡ keys ++ logging.log s.osk)
            × (logging'.log c'.osk ≡ keys ++ logging'.log c.osk))
  sessions_complete rounds s c sent acks rest open_here open_there serving answering acked wrote
        came =
      let served =
        server_completes here duplex open_here params rekey_interval rounds s acks serving acked in
      let s' = (Server.event_loop here params rekey_interval rounds s).1 in
      let c' = (Client.event_loop there (mirror params) rounds c).1 in
      let runs : Server.event_loop here params rekey_interval rounds s ≡ (ok tt, s') =
        λ i. (served i, s') in
      let (b, wrote', requests) =
        server_sent here params rekey_interval duplex.wire (λ x. (delivered x c).sized)
          (λ x. (delivered x c).nonce_sized) rounds s s' runs in
      let same : sent ≡ b =
        (append-injective (duplex.wire.sent s.stream) (duplex.wire.sent s.stream) sent b refl
          (sym wrote ∙ wrote')).1 in
      let answered =
        client_completes there duplex' open_there (mirror params) rounds c sent rest answering
          (subst (IsRequests rounds) (sym same) requests) came in
      (
        served,
        answered,
        event_loops_agree here there crates duplex.wire duplex' logging logging' params
            rekey_interval delivered rounds s s' c c' sent rest runs (λ i. (answered i, c')) wrote
            came,
      )
