-- ===== src/Osk/Deadman/Renewals.antt =====
-- When the worker of daisyway/src/internal/osk/deadman.rs keeps a key.
use daisyway.Base.{
  leb, true, ℕ, suc, ◌+◌, ◌≤◌, ◌≡◌, refl, sym, ap, subst, ◌∙◌, List, [], ◌∷◌, some, Result, ok,
  resume, length, arith,
}
use daisyway.Crypto.Key.{Key, IsKey}
use daisyway.Osk.{SetOskReason, stale}
use daisyway.Osk.Deadman.{
  Runtime, DeadmanRequest, Progress, running, erase, on_request, next_request, rounds, event_loop,
}

-- The requests, oldest first, with the times at which they are sent.
abbrev pub Requests : Type 0
Requests = List (ℕ × DeadmanRequest)

-- The first is sent at most `gap` after `from`, and each other one at most `gap` after the one before.
abbrev pub AreInTime : ℕ → ℕ → Requests → Type 0
AreInTime gap from [] = Unit
AreInTime gap from ((t, req) ∷ reqs) = (t ≤ from + gap) × AreInTime gap t reqs

pub AreInTime-widen :
    (gap gap' from : ℕ) (reqs : Requests)
    → gap ≤ gap'
    → AreInTime gap from reqs
    → AreInTime gap' from reqs
AreInTime-widen gap gap' from [] le h = tt
AreInTime-widen gap gap' from ((t, req) ∷ reqs) le h =
    (omega arith, AreInTime-widen gap gap' t reqs le h.1)

-- What is written for them, newest first.
abbrev pub renewed : Requests → List (Key × SetOskReason) → List (Key × SetOskReason)
renewed [] log = log
renewed ((t, req) ∷ reqs) log = renewed reqs ((req.key, req.reason) ∷ log)

leb-true : (m n : ℕ) → m ≤ n → leb m n ≡ true
leb-true m n h = ground arith

module _ {ℓ} {W : Type ℓ} (rt : Runtime W) where
  open rt use {now, latest, timeout_at, random, broker}

  -- `timeout_at` over the channel: `coming` are the requests that were not received yet, and the first
  -- one is received if it is sent by the deadline; their keys have 32 bytes, and so have random ones.
  -- Deadlines can be represented until then. The broker
  -- writes with success, and drawing a random key succeeds; the clock does not go back.
  pub record IsServed (erase_after : ℕ) : Type ℓ where
    pub coming : W → Requests
    pub written : W → List (Key × SetOskReason)
    pub fits :
        (t : ℕ) (req : DeadmanRequest) (reqs : Requests) (w : W)
        → coming w ≡ (t, req) ∷ reqs
        → now w + erase_after ≤ latest
    pub receives :
        (d t : ℕ) (req : DeadmanRequest) (reqs : Requests) (w : W)
        → coming w ≡ (t, req) ∷ reqs
        → t ≤ d
        → let (r, v) = timeout_at d w in
          (r ≡ ok (some (some req))) × (coming v ≡ reqs) × (written v ≡ written w) × (t ≤ now v)
    pub sized :
        (t : ℕ) (req : DeadmanRequest) (reqs : Requests) (w : W)
        → coming w ≡ (t, req) ∷ reqs
        → IsKey req.key
    pub sets :
        (key : Key) (reason : SetOskReason) (w : W)
        → IsKey key
        → let (r, v) = broker.set_osk key reason w in
          (r ≡ ok tt)
          × (coming v ≡ coming w)
          × (written v ≡ (key, reason) ∷ written w)
          × (now w ≤ now v)
    pub draws :
        (w : W)
        → let (r, v) = random w in
          (key : Key) × (r ≡ ok key)
          × IsKey key
          × (coming v ≡ coming w)
          × (written v ≡ written w)
          × (now w ≤ now v)

  module _ (erase_after : ℕ) (served : IsServed erase_after) where
    open served use {coming, written, fits, receives, sized, sets, draws}

    -- What a run leaves that has received all requests.
    abbrev Renewed : Requests → List (Key × SetOskReason) → Result Progress × W → Type 0
    Renewed reqs log (r, w) = (r ≡ ok running) × (coming w ≡ []) × (written w ≡ renewed reqs log)

    -- A round that receives a request.
    pub round :
        (t : ℕ) (req : DeadmanRequest) (reqs : Requests) (fuel : ℕ) (w : W)
        → coming w ≡ (t, req) ∷ reqs
        → t ≤ now w + erase_after
        → (v : W) × ((broker.set_osk req.key req.reason v).0 ≡ ok tt)
          × let u = (broker.set_osk req.key req.reason v).1 in
            (rounds rt erase_after (suc fuel) w ≡ rounds rt erase_after fuel u)
            × (coming u ≡ reqs)
            × (written u ≡ (req.key, req.reason) ∷ written w)
            × (t ≤ now u)
    unfolding rounds next_request on_request
    round t req reqs fuel w e le =
        let d = now w + erase_after in
        let (got, left, kept, by) = receives d t req reqs w e le in
        let v = (timeout_at d w).1 in
        let (set, left', log, after) = sets req.key req.reason v (sized t req reqs w e) in
        (
          v,
          set,
          (
            rw (leb-true d latest (fits t req reqs w e), got, set, resume),
            left' ∙ left,
            log ∙ ap (◌∷◌ (req.key, req.reason)) kept,
            omega arith,
          ),
        )

    pub rounds-Renewed :
        (reqs : Requests) (from : ℕ) (w : W)
        → coming w ≡ reqs
        → from ≤ now w
        → AreInTime erase_after from reqs
        → Renewed reqs (written w) (rounds rt erase_after (length reqs) w)
    unfolding rounds
    rounds-Renewed [] from w e le h = (refl, e, refl)
    rounds-Renewed ((t, req) ∷ reqs) from w e le (first, later) =
        let (v, set, (step, left, log, after)) = round t req reqs (length reqs) w e (omega arith) in
        let u = (broker.set_osk req.key req.reason v).1 in
        subst (λ l. Renewed reqs l (rounds rt erase_after (suc (length reqs)) w)) log
          (subst (Renewed reqs (written u)) (sym step) (rounds-Renewed reqs t u left after later))

    -- If the requests come in time, each before the keys of the last one are erased, then so many rounds of
    -- the worker write each key, as a fresh one, and erase none.
    pub event_loop-Renewed :
        (reqs : Requests) (w : W)
        → coming w ≡ reqs
        → AreInTime erase_after (now w) reqs
        → let (r, w') = event_loop rt erase_after (length reqs) w in
          (key : Key) × (r ≡ ok running)
          × (coming w' ≡ [])
          × (written w' ≡ renewed reqs ((key, stale) ∷ written w))
    unfolding event_loop erase
    event_loop-Renewed reqs w e h =
        let (key, drawn, k, left, kept, after) = draws w in
        let v = (random w).1 in
        let (set, left', log, after') = sets key stale v k in
        let u = (broker.set_osk key stale v).1 in
        let (result, none_left, all) =
          rounds-Renewed reqs (now w) u (left' ∙ left ∙ e) (omega arith) h in
        let step : event_loop rt erase_after (length reqs) w
            ≡ rounds rt erase_after (length reqs) u =
          rw (drawn, set) in
        (
          key,
          ap (λ (p : Result Progress × W). p.0) step ∙ result,
          ap (λ (p : Result Progress × W). coming p.1) step ∙ none_left,
          ap (λ (p : Result Progress × W). written p.1) step
              ∙ all
              ∙ ap (renewed reqs) (log ∙ ap (◌∷◌ (key, stale)) kept),
        )
