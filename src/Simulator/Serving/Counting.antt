-- ===== src/Simulator/Serving/Counting.antt =====
-- Which keys simulator/src/main.rs makes up.
use daisyway.Base.{
  ℕ, ◌+◌, ◌%◌, ◌^◌, ◌≤◌, ◌<◌, ◌≡◌, ◌⊎◌, inl, inr, refl, ap₂, List, [], ◌∷◌, Bool, true, false, not,
  ◌&&◌, Result, arith, length, map, if◌then◌else◌,
}
use daisyway.Crypto.Basics.{bytes_of}
use daisyway.Util.{Base64}
use daisyway.Simulator.{
  UuidText, Response, handle_request, handle_keys, key_response, contains, starts_with,
}
use daisyway.Simulator.Serving.{Request, serve_requests}

-- Each is at least `lo`, below `hi`, and less than the next.
abbrev pub Rises : ℕ → ℕ → List ℕ → Type 0
Rises lo hi [] = Unit
Rises lo hi (n ∷ ns) = (lo ≤ n) × (n < hi) × Rises (n + 1) hi ns

Rises-widen : (lo lo' hi : ℕ) (ns : List ℕ) → lo ≤ lo' → Rises lo' hi ns → Rises lo hi ns
Rises-widen lo lo' hi [] le r = tt
Rises-widen lo lo' hi (n ∷ ns) le r = (omega arith, r.1, r.2)

-- A request for any key: its path names no key.
unfoldable pub asks_any : Request → Bool
asks_any req =
    starts_with (bytes_of "/api/v1/keys/") req.path
    && (contains (bytes_of "enc_keys") req.path && not (contains (bytes_of "dec_keys") req.path))

-- The answers to the requests for any key.
abbrev pub keys_for : List Request → List (Result Response) → List (Result Response)
keys_for [] rs = []
keys_for (req ∷ reqs) [] = []
keys_for (req ∷ reqs) (r ∷ rs) = if asks_any req then r ∷ keys_for reqs rs else keys_for reqs rs

module _ (base64 : Base64) (uuid : UuidText) where
  open uuid use {from_u128}

  abbrev pub key_of : ℕ → Result Response
  key_of n = key_response base64 uuid (from_u128 n)

  handled :
      (req : Request) (counter : ℕ)
      → let (r, counter') = handle_request base64 uuid req.path req.query counter in
        ((asks_any req ≡ true) × (r ≡ key_of counter) × (counter' ≡ (counter + 1) % 2 ^ 64))
        ⊎ ((asks_any req ≡ false) × (counter' ≡ counter))
  unfolding handle_request handle_keys asks_any
  handled req counter = ground arith

  serve_requests-up_to :
      (reqs : List Request) (counter hi : ℕ)
      → counter + length reqs ≤ hi
      → hi < 2 ^ 64
      → (ns : List ℕ) × Rises counter hi ns
        × (keys_for reqs (serve_requests base64 uuid reqs counter).0 ≡ map key_of ns)
  unfolding serve_requests
  serve_requests-up_to [] counter hi h lt = ([], tt, refl)
  serve_requests-up_to (req ∷ reqs) counter hi h lt = elim (handled req counter) [
    | inl (asks, answer, next) ↦
        let counter' = (handle_request base64 uuid req.path req.query counter).1 in
        let (ns, rises, told) = serve_requests-up_to reqs counter' hi (omega arith) lt in
        (
          counter ∷ ns,
          (omega arith, omega arith, Rises-widen (counter + 1) counter' hi ns (omega arith) rises),
          rw asks (ap₂ (◌∷◌) answer told),
        )
    | inr (asks, next) ↦
        let counter' = (handle_request base64 uuid req.path req.query counter).1 in
        let (ns, rises, told) = serve_requests-up_to reqs counter' hi (omega arith) lt in
        (ns, Rises-widen counter counter' hi ns (omega arith) rises, rw asks told)
  ]

  -- While the counter does not wrap around, the requests for any key are answered with the keys of
  -- different numbers, each one larger than those before, whichever requests come between them.
  pub serve_requests-Rises :
      (reqs : List Request) (counter : ℕ)
      → counter + length reqs < 2 ^ 64
      → (ns : List ℕ) × Rises counter (counter + length reqs) ns
        × (keys_for reqs (serve_requests base64 uuid reqs counter).0 ≡ map key_of ns)
  serve_requests-Rises reqs counter h =
      serve_requests-up_to reqs counter (counter + length reqs) (omega arith) h
