-- ===== src/Osk/Deadman/Erased.antt =====
-- What the worker of daisyway/src/internal/osk/deadman.rs leaves behind when it ends, over the file of
-- outfile.rs.
use daisyway.Base.{
  ℕ, zero, suc, ◌≡◌, ◌<◌, sym, ap, ◌∙◌, Option, none, some, Result, ok, err, panic, arith, Action,
  resume-eq-ok, length,
}
use daisyway.Crypto.Key.{Bytes, Key, IsKey, key_length_b64}
use daisyway.Util.{Base64, Reader, load_base64_key_file, trim_newline}
use daisyway.Osk.{OskHandler, stale}
use daisyway.Osk.Deadman.{
  Runtime, DeadmanRequest, Progress, returned, running, erase, on_request, continue, next_request,
  rounds, event_loop, start, thread_run, or_panic,
}
use daisyway.Osk.Outfile
use daisyway.Osk.Outfile.{Output, set_osk_impl}
use daisyway.Osk.Outfile.Written.{IsReadBack, set_osk_impl-load}

module _ {ℓ} {W : Type ℓ} (rt : Runtime W) (erase_after : ℕ) where
  open rt use {random, broker}

  -- The last thing that happened is that a random key was drawn and written as a stale one.
  pub record Erased (w : W) : Type ℓ where
    pub key : Key
    pub before : W
    pub drawn : (random before).0 ≡ ok key
    pub written : (broker.set_osk key stale (random before).1).0 ≡ ok tt
    pub after : w ≡ (broker.set_osk key stale (random before).1).1

  erase-Erased : (w w' : W) → erase rt erase_after w ≡ (ok tt, w') → Erased w'
  unfolding erase
  erase-Erased w w' e =
      let (key, v, f, g) = resume-eq-ok _ (random w) e in
      let state_eq : v ≡ (random w).1 = ap (λ (p : Result Key × W). p.1) (sym f) in
      record {
        key = key;
        before = w;
        drawn = ap (λ (p : Result Key × W). p.0) f;
        written =
            ap (λ x. (broker.set_osk key stale x).0) (sym state_eq)
            ∙ ap (λ (p : Result (Unit {0}) × W). p.0) g;
        after =
            ap (λ (p : Result (Unit {0}) × W). p.1) (sym g)
            ∙ ap (λ x. (broker.set_osk key stale x).1) state_eq;
      }

  -- A round only ends the loop after an erasure.
  on_request-Erased :
      (req : Option (Option DeadmanRequest)) (w w' : W)
      → on_request rt erase_after req w ≡ (ok returned, w')
      → Erased w'
  unfolding on_request
  on_request-Erased (some (some req)) w w' e =
      let (_, v, f, g) = resume-eq-ok _ (broker.set_osk req.key req.reason w) e in ground arith
  on_request-Erased (some none) w w' e =
      let (_, v, f, g) = resume-eq-ok _ (erase rt erase_after w) e in
      erase-Erased w w' (f ∙ ap (λ (p : Result Progress × W). (ok tt, p.1)) g)
  on_request-Erased none w w' e =
      let (_, v, f, g) = resume-eq-ok _ (erase rt erase_after w) e in ground arith

  continued :
      (rest : Action W Progress) (req : Option (Option DeadmanRequest)) (progress : Progress)
      (w v w' : W)
      → on_request rt erase_after req w ≡ (ok progress, v)
      → continue rt erase_after progress rest v ≡ (ok returned, w')
      → (rest v ≡ (ok returned, w') → Erased w')
      → Erased w'
  continued rest req returned w v w' h k ih = on_request-Erased req w w' (h ∙ k)
  continued rest req running w v w' h k ih = ih k

  rounds-Erased :
      (fuel : ℕ) (w w' : W) → rounds rt erase_after fuel w ≡ (ok returned, w') → Erased w'
  unfolding rounds
  rounds-Erased zero w w' e = ground arith
  rounds-Erased (suc fuel) w w' e =
      let (req, v, f, g) = resume-eq-ok _ (next_request rt erase_after w) e in
      let (progress, u, h, k) = resume-eq-ok _ (on_request rt erase_after req v) g in
      continued (rounds rt erase_after fuel) req progress v u w' h k (rounds-Erased fuel u w')

  pub event_loop-Erased :
      (fuel : ℕ) (w w' : W) → event_loop rt erase_after fuel w ≡ (ok returned, w') → Erased w'
  unfolding event_loop
  event_loop-Erased fuel w w' e =
      let (_, v, f, g) = resume-eq-ok _ (erase rt erase_after w) e in rounds-Erased fuel v w' g

-- The thread returns where the loop does.
pub start-returned {ℓ} :
    {W : Type ℓ} (rt : Runtime W) (erase_after : ℕ) (make_broker : W → OskHandler W × W) (fuel : ℕ)
    (w w' : W)
    → start rt erase_after make_broker fuel w ≡ (ok returned, w')
    → event_loop (record rt { broker = (make_broker w).0 }) erase_after fuel (make_broker w).1
      ≡ (ok returned, w')
unfolding start thread_run
start-returned {W} rt erase_after make_broker fuel w w' e =
    ended (event_loop (record rt { broker = (make_broker w).0 }) erase_after fuel (make_broker w).1)
      e
  where
    ended :
        (p : Result Progress × W)
        → ◌≡◌ {A = Result Progress × W} (or_panic rt erase_after p.0, p.1) (ok returned, w')
        → p ≡ (ok returned, w')
    ended (ok progress, v) h = h
    ended (err x, v) h = ground arith
    ended (panic x, v) h = ground arith

-- An encoding of the key fits the buffer and ends in no newline.
abbrev pub HasText : Base64 → Key → Type 0
HasText base64 key =
    (s : Bytes) × (base64.encode key key_length_b64 ≡ ok s)
    × (length s < key_length_b64)
    × (trim_newline s ≡ s)

-- So have all random keys, and they have their size.
abbrev pub IsEncodable : {W : Type 0} → Base64 → Runtime W → Type 0
IsEncodable {W} base64 rt =
    (v : W) (key : Key) → (rt.random v).0 ≡ ok key → IsKey key × HasText base64 key

-- If the worker of an output file returns, the file is read back as a random key that the worker
-- drew for its last write, on a file system that reads back what was written, and for encodings of
-- random keys that fit the buffer and end in no newline.
pub event_loop-load :
    {FilePath W : Type 0} (base64 : Base64) (output : Output FilePath W)
    (open_file : FilePath → W → Result Reader) (path : FilePath) (rt : Runtime W)
    (erase_after fuel : ℕ) (w w' : W)
    → IsReadBack output open_file
    → rt.broker ≡ Outfile.handler base64 output path
    → IsEncodable base64 rt
    → event_loop rt erase_after fuel w ≡ (ok returned, w')
    → (v : W) × (key : Key) × ((rt.random v).0 ≡ ok key)
      × (load_base64_key_file base64 (open_file path w') ≡ ok key)
unfolding Outfile.handler
event_loop-load base64 output open_file path rt erase_after fuel w w' back broker_eq random_keys e =
    let erased = event_loop-Erased rt erase_after fuel w w' e in
    let v = (rt.random erased.before).1 in
    let (k, (s, encoded, short, trimmed)) = random_keys erased.before erased.key erased.drawn in
    (
      erased.before,
      erased.key,
      erased.drawn,
      ap (λ x. load_base64_key_file base64 (open_file path x))
            (erased.after ∙ ap (λ b. (b.set_osk erased.key stale v).1) broker_eq)
          ∙ set_osk_impl-load base64 output open_file back path erased.key stale s v k encoded short
              trimmed (ap (λ b. (b.set_osk erased.key stale v).0) (sym broker_eq) ∙ erased.written),
    )
