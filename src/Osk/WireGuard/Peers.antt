-- ===== src/Osk/WireGuard/Peers.antt =====
-- The peer that daisyway/src/internal/osk/wireguard.rs sets the key of.
use daisyway.Base.{
  ◌≡◌, refl, subst, ap, ◌∙◌, List, [], ◌∷◌, true, Bool-cases, inl, inr, ok, Result-cases, arith,
}
use mathlib.Core.List.{Mem, mem-cons_self, mem-cons_of_mem}
use daisyway.Crypto.Key.{Bytes, Key}
use daisyway.Util.{Base64, base64_to_key}
use daisyway.Osk.WireGuard.{WgSocket, WireGuardOskHandler, equal_bytes, has_peer, setup}

pub equal_bytes_sound : (a b : Bytes) → equal_bytes a b ≡ true → a ≡ b
equal_bytes_sound [] [] e = refl
equal_bytes_sound [] (y ∷ b) e = ground arith
equal_bytes_sound (x ∷ a) [] e = ground arith
equal_bytes_sound (x ∷ a) (y ∷ b) e = ground (arith, equal_bytes_sound a b)

has_peer-Mem : (key : Key) (peers : List Key) → has_peer key peers ≡ true → Mem key peers
has_peer-Mem key [] e = ground arith
has_peer-Mem key (p ∷ ps) e = elim (Bool-cases (equal_bytes p key)) [
  | inl f ↦ rw (equal_bytes_sound p key f) mem-cons_self
  | inr f ↦ mem-cons_of_mem p (has_peer-Mem key ps (ground arith))
]

-- What a successful set-up has found.
pub setup-Mem :
    {W : Type 0} (base64 : Base64) (socket : WgSocket W) (peer_id interface : Bytes) (w : W)
    (h : WireGuardOskHandler)
    → (setup base64 socket peer_id interface w).0 ≡ ok h
    → (base64_to_key base64 peer_id ≡ ok h.peer_id)
      × (h.interface ≡ interface)
      × ((peers : List Key) × ((socket.get_device interface (socket.connect w).1).0 ≡ ok peers)
          × Mem h.peer_id peers)
      × ((setup base64 socket peer_id interface w).1
          ≡ (socket.get_device interface (socket.connect w).1).1)
unfolding setup
setup-Mem base64 socket peer_id interface w h e =
    elim (Result-cases (base64_to_key base64 peer_id)) [
      | inr f ↦ absurd (ground arith)
      | inl (key, f) ↦ elim (Result-cases (socket.connect w).0) [
        | inr g ↦ absurd (ground arith)
        | inl (_, g) ↦ elim (Result-cases (socket.get_device interface (socket.connect w).1).0) [
          | inr k ↦ absurd (ground arith)
          | inl (peers, k) ↦ elim (Bool-cases (has_peer key peers)) [
            | inr m ↦ absurd (ground arith)
            | inl m ↦
                let same : key ≡ h.peer_id = ground arith in
                (
                  f ∙ ap ok same,
                  ground arith,
                  (peers, k, subst (λ x. Mem x peers) same (has_peer-Mem key peers m)),
                  ground arith,
                )
          ]
        ]
      ]
    ]
