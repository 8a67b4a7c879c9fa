-- ===== src/Net/World.antt =====
-- What the sockets layer runs on, as built for Windows: Winsock is a parameter, with a state of its
-- own. Next to it stand the static flag of `samp_net_runtime_init` and, for the theorems only, the
-- list of the sockets that were opened and not closed.
use libsamp.Common.{ℕ, Bool, true, false, Option, List, [], ◌∷◌, ◌==◌, if◌then◌else◌}
use libsamp.Common.Int.{ℤ}

abbrev pub invalid_socket : ℕ
invalid_socket = 0xFFFFFFFF

-- A datagram with the address and port that it came from.
pub record Datagram : Type 0 where
  pub payload : List ℕ
  pub address : ℕ
  pub port : ℕ

-- The Winsock functions that the code calls. A Boolean answer is whether the call returned 0; a
-- host's answer is its list of addresses, `none` for NULL. `inet_addr` answers 0xFFFFFFFF for a text
-- that is no address.
pub record Winsock (Os : Type 0) : Type 0 where
  pub startup : Os → Bool × Os
  pub cleanup : Os → Os
  pub socket : ℕ → Os → ℕ × Os
  pub setsockopt : ℕ → ℕ → ℕ → Os → Os
  pub set_blocking : ℕ → Bool → Os → Bool × Os
  pub bind : ℕ → ℕ → ℕ → Os → Bool × Os
  pub listen : ℕ → ℕ → Os → Bool × Os
  pub connect : ℕ → ℕ → ℕ → Os → Bool × Os
  pub closesocket : ℕ → Os → Os
  pub sendto : ℕ → List ℕ → ℕ → ℕ → Os → ℤ × Os
  pub recvfrom : ℕ → ℕ → Os → Option Datagram × Os
  pub getsockname : ℕ → Os → Option ℕ × Os
  pub last_error : Os → ℕ
  pub inet_addr : List ℕ → ℕ
  pub gethostbyname : List ℕ → Os → Option (List ℕ) × Os

pub record World (Os : Type 0) : Type 0 where
  pub os : Os
  pub initialized : Bool
  pub opened : List ℕ

unfoldable pub remove : ℕ → List ℕ → List ℕ
remove s [] = []
remove s (x ∷ xs) = let rest = remove s xs in if x == s then xs else x ∷ rest

module _ {Os : Type 0} (api : Winsock Os) where
  abbrev pub run : (Os → Os) → World Os → World Os
  run f w = record w { os = f w.os }

  abbrev pub call {ℓ} : {A : Type ℓ} → (Os → A × Os) → World Os → A × World Os
  call f w = ((f w.os).0, record w { os = (f w.os).1 })

  -- `socket`, which the list follows.
  unfoldable pub open_socket : ℕ → World Os → ℕ × World Os
  open_socket kind w =
      let (s, w1) = call (api.socket kind) w in
      (s, if s == invalid_socket then w1 else record w1 { opened = s ∷ w1.opened })

  unfoldable pub samp_net_close_socket : ℕ → World Os → World Os
  samp_net_close_socket s w =
      if s == invalid_socket
      then w
      else record (run (api.closesocket s) w) { opened = remove s w.opened }

  unfoldable pub samp_net_runtime_init : World Os → Bool × World Os
  samp_net_runtime_init w =
      if w.initialized
      then (true, w)
      else let (ok, w1) = call api.startup w in
        if ok then (true, record w1 { initialized = true }) else (false, w1)

  unfoldable pub samp_net_runtime_shutdown : World Os → World Os
  samp_net_runtime_shutdown w = run api.cleanup w
