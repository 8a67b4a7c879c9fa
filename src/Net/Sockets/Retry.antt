-- ===== src/Net/Sockets/Retry.antt =====
-- Theorems on the send loop of `samp_net_ipv4_sendto` of ipv4_socket_compat.c.
use libsamp.Common.{
  ℕ, zero, suc, ◌≤◌, ◌≡◌, ◌≢◌, ◌⊎◌, refl, sym, ap, subst, arith, some, List, length, inl, inr,
}
use libsamp.Common.Int.{ℤ, pos, negsuc}
use libsamp.Net.World.{Winsock, World, call, invalid_socket}
use libsamp.Net.Sockets.{send_again, samp_net_ipv4_sendto}

-- What the code's loop means: sends that answer 0, then one that answers `rc`.
pub data Sends {Os : Type 0} (send : World Os → ℤ × World Os)
    : ℕ → World Os → ℤ → World Os → Type 0 where
  last : {w : World Os} → Sends send 1 w (send w).0 (send w).1
  again :
      {n : ℕ} {w w' : World Os} {rc : ℤ}
      → (send w).0 ≡ pos 0
      → Sends send n (send w).1 rc w'
      → Sends send (suc n) w rc w'

module _ {Os : Type 0} (api : Winsock Os) (s : ℕ) (payload : List ℕ) (address port : ℕ) where
  abbrev send : World Os → ℤ × World Os
  send = call api (api.sendto s payload address port)

  zero_or_not : (rc : ℤ) → (rc ≡ pos 0) ⊎ (rc ≢ pos 0)
  zero_or_not (pos zero) = inl refl
  zero_or_not (pos (suc n)) = inr (λ e. cc)
  zero_or_not (negsuc n) = inr (λ e. cc)

  send_again-zero :
      (k : ℕ) (w : World Os)
      → (send w).0 ≡ pos 0
      → send_again api (suc k) s payload address port w
        ≡ send_again api k s payload address port (send w).1
  unfolding send_again
  send_again-zero k w e = ground (arith, e)

  send_again-other :
      (k : ℕ) (w : World Os)
      → (send w).0 ≢ pos 0
      → send_again api (suc k) s payload address port w ≡ send w
  unfolding send_again
  send_again-other k w ne = ground (arith, ne)

  -- The answer of the loop after sends that are at most `top`.
  abbrev pub IsSent : ℕ → World Os → ℤ × World Os → Type 0
  IsSent top w r = (n : ℕ) × (n ≤ top) × Sends send n w r.0 r.1 × ((r.0 ≢ pos 0) ⊎ (n ≡ top))

  send_again-IsSent :
      (k : ℕ) (w : World Os) → IsSent (suc k) w (send_again api k s payload address port w)
  unfolding send_again
  send_again-IsSent zero w = (1, omega arith, last, inr (omega arith))
  send_again-IsSent (suc k) w = elim (zero_or_not (send w).0) [
    | inr ne ↦
        subst (λ (r : ℤ × World Os). IsSent (suc (suc k)) w r) (sym (send_again-other k w ne))
          (1, omega arith, last, inl ne)
    | inl e ↦
        let (n, low, sent, why) = send_again-IsSent k (send w).1 in
        subst (λ (r : ℤ × World Os). IsSent (suc (suc k)) w r) (sym (send_again-zero k w e))
          (suc n, omega arith, again e sent, why_one_more n (suc k) why)
  ]
    where
      why_one_more : {P : Type 0} (n top : ℕ) → P ⊎ (n ≡ top) → P ⊎ (suc n ≡ suc top)
      why_one_more n top (inl p) = inl p
      why_one_more n top (inr e) = inr (ap suc e)

  sendto-loop :
      (w : World Os)
      → s ≢ invalid_socket
      → length payload ≢ 0
      → length payload ≤ 0x7FFFFFFF
      → ((samp_net_ipv4_sendto api s (some payload) address port w).0.0
          ≡ (send_again api 15 s payload address port w).0)
        × ((samp_net_ipv4_sendto api s (some payload) address port w).1
            ≡ (send_again api 15 s payload address port w).1)
  unfolding samp_net_ipv4_sendto
  sendto-loop w valid some_bytes fits = (ground arith, ground arith)

  -- A send of a legal payload over a socket is made again while it answers 0: at most 16 sends are
  -- made in all, every one before the last answered 0, and the loop gives up on a 0 only at the
  -- sixteenth.
  pub sendto-IsSent :
      (w : World Os)
      → s ≢ invalid_socket
      → length payload ≢ 0
      → length payload ≤ 0x7FFFFFFF
      → IsSent 16 w (
        (samp_net_ipv4_sendto api s (some payload) address port w).0.0,
        (samp_net_ipv4_sendto api s (some payload) address port w).1,
      )
  sendto-IsSent w valid some_bytes fits =
      let same = sendto-loop w valid some_bytes fits in rw (same.0, same.1) (send_again-IsSent 15 w)
