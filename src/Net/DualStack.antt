-- ===== src/Net/DualStack.antt =====
-- `samp_net_connect_dual_stack` of dual_stack.c, over the sockets of Net/World. What it asks of the
-- system beyond them is a parameter, the resolver with the loading of its library among it. A timeout
-- that is not positive is 0.
use libsamp.Common.{
  ℕ, ◌≡◌, ◌≢◌, refl, ◌∙◌, Bool, true, false, ◌&&◌, not, Option, none, some, List, [], ◌∷◌, ltb,
  ◌==◌, if◌then◌else◌, if-cases,
}
use libsamp.Net.World.{Winsock, World, invalid_socket, run, call, samp_net_close_socket}
use libsamp.Net.Sockets.{is_wouldblock_error, when_ready, with_socket}
use libsamp.Net.Sockets.Balance.{
  IsBalanced, close-opened, or_closes, kept, with_socket-IsBalanced, when_ready-IsBalanced,
}

-- An address of the resolver: the arguments of `socket` as one number, and the socket address.
pub record AddrInfo : Type 0 where
  pub kind : ℕ
  pub address : List ℕ

-- `select` answers whether the socket can be written to within the time, `socket_error` the value
-- of SO_ERROR, `none` if it cannot be read. `getaddrinfo` answers `none` for a failure.
pub record Resolver (Os : Type 0) : Type 0 where
  pub getaddrinfo : List ℕ → ℕ → Os → Option (List AddrInfo) × Os
  pub freeaddrinfo : Os → Os
  pub connect : ℕ → List ℕ → Os → Bool × Os
  pub select : ℕ → ℕ → Os → Bool × Os
  pub socket_error : ℕ → Os → Option ℕ × Os

-- The test of `so_error`.
unfoldable pub no_error : Option ℕ → Bool
no_error none = false
no_error (some e) = e == 0

module _ {Os : Type 0} (api : Winsock Os) (resolver : Resolver Os) where
  unfoldable pub read_error : Bool → ℕ → World Os → Option ℕ × World Os
  read_error ready s w = if ready then call api (resolver.socket_error s) w else (none, w)

  -- A connection that was begun and is not made yet.
  unfoldable pub wait_connected : ℕ → ℕ → World Os → Option ℕ × World Os
  wait_connected timeout s w =
      let (ready, w1) = call api (resolver.select s timeout) w in
      let (e, w2) = read_error ready s w1 in
      if not (no_error e) then (none, samp_net_close_socket api s w2) else (some s, w2)

  unfoldable pub set_nonblocking : ℕ → ℕ → World Os → Bool × World Os
  set_nonblocking timeout s w =
      if ltb 0 timeout then call api (api.set_blocking s false) w else (true, w)

  -- What the loop does with the socket of an address.
  unfoldable pub try_connect : ℕ → List ℕ → ℕ → World Os → Option ℕ × World Os
  try_connect timeout address s w =
      let (set, w1) = set_nonblocking timeout s w in
      let (connected, w2) = call api (resolver.connect s address) w1 in
      if not set
      then (none, samp_net_close_socket api s w1)
      else if connected
      then (some s, w2)
      else if ltb 0 timeout && is_wouldblock_error (api.last_error w2.os)
      then wait_connected timeout s w2
      else (none, samp_net_close_socket api s w2)

  -- The loop over the addresses.
  unfoldable pub try_addresses : ℕ → List AddrInfo → World Os → Option ℕ × World Os
  try_addresses timeout [] w = (none, w)
  try_addresses timeout (a ∷ more) w =
      let (got, w1) = with_socket api a.kind (try_connect timeout a.address) w in
      let rest = try_addresses timeout more w1 in elim got [ none ↦ rest | some s ↦ (some s, w1) ]

  abbrev free_after : Option ℕ × World Os → Option ℕ × World Os
  free_after r = (r.0, run api resolver.freeaddrinfo r.1)

  unfoldable pub resolve_and_try : List ℕ → ℕ → ℕ → World Os → Option ℕ × World Os
  resolve_and_try host port timeout w =
      let (found, w1) = call api (resolver.getaddrinfo host port) w in
      elim found [
        | none ↦ (none, w1)
        | some addresses ↦ free_after (try_addresses timeout addresses w1)
      ]

  unfoldable pub samp_net_connect_dual_stack :
      Option (List ℕ) → ℕ → ℕ → World Os → Option ℕ × World Os
  samp_net_connect_dual_stack none port timeout w = (none, w)
  samp_net_connect_dual_stack (some []) port timeout w = (none, w)
  samp_net_connect_dual_stack (some (c ∷ host)) port timeout w =
      when_ready api (resolve_and_try (c ∷ host) port timeout) w

  read_error-opened :
      (ready : Bool) (s : ℕ) (w : World Os) → (read_error ready s w).1.opened ≡ w.opened
  unfolding read_error
  read_error-opened true s w = refl
  read_error-opened false s w = refl

  set_nonblocking-opened :
      (timeout s : ℕ) (w : World Os) → (set_nonblocking timeout s w).1.opened ≡ w.opened
  unfolding set_nonblocking
  set_nonblocking-opened timeout s w =
      if-cases (λ (r : Bool × World Os). r.1.opened ≡ w.opened) (ltb 0 timeout) _ _ (λ t. refl)
        (λ t. refl)

  wait_connected-IsBalanced :
      (timeout s : ℕ) (w : World Os) (opened : List ℕ)
      → s ≢ invalid_socket
      → w.opened ≡ s ∷ opened
      → IsBalanced opened (wait_connected timeout s w)
  unfolding wait_connected
  wait_connected-IsBalanced timeout s w opened valid e =
      let r : Bool × World Os = call api (resolver.select s timeout) w in
      let q : Option ℕ × World Os = read_error r.0 s r.1 in
      kept api (no_error q.0) s q.1 opened valid (read_error-opened r.0 s r.1 ∙ e)

  try_connect-IsBalanced :
      (timeout : ℕ) (address : List ℕ) (s : ℕ) (w : World Os) (opened : List ℕ)
      → s ≢ invalid_socket
      → w.opened ≡ s ∷ opened
      → IsBalanced opened (try_connect timeout address s w)
  unfolding try_connect
  try_connect-IsBalanced timeout address s w opened valid e =
      let r : Bool × World Os = set_nonblocking timeout s w in
      let e1 : r.1.opened ≡ s ∷ opened = set_nonblocking-opened timeout s w ∙ e in
      let q : Bool × World Os = call api (resolver.connect s address) r.1 in
      or_closes api r.0 s r.1 opened _ valid e1 (
        if-cases (IsBalanced opened) q.0 _ _ (λ t. (valid, e1))
          λ t.
            if-cases (IsBalanced opened)
              (ltb 0 timeout && is_wouldblock_error (api.last_error q.1.os)) _ _
              (λ u. wait_connected-IsBalanced timeout s q.1 opened valid e1)
              (λ u. close-opened api s q.1 opened valid e1))

  try_addresses-IsBalanced :
      (timeout : ℕ) (addresses : List AddrInfo) (w : World Os) (opened : List ℕ)
      → w.opened ≡ opened
      → IsBalanced opened (try_addresses timeout addresses w)
  unfolding try_addresses
  try_addresses-IsBalanced timeout [] w opened e = e
  try_addresses-IsBalanced timeout (a ∷ more) w opened e =
      let r : Option ℕ × World Os = with_socket api a.kind (try_connect timeout a.address) w in
      go r.0 r.1
        (with_socket-IsBalanced api a.kind w opened (try_connect timeout a.address) e
          (λ s w' valid e'. try_connect-IsBalanced timeout a.address s w' opened valid e'))
        (try_addresses timeout more r.1) (λ e'. try_addresses-IsBalanced timeout more r.1 opened e')
    where
      go :
          (o : Option ℕ) (w' : World Os)
          → IsBalanced opened (o, w')
          → (rest : Option ℕ × World Os) → (w'.opened ≡ opened → IsBalanced opened rest)
          → IsBalanced {Os = Os} opened (elim o [ none ↦ rest | some s ↦ (some s, w') ])
      go none w' b rest f = f b
      go (some s) w' b rest f = b

  free_after-IsBalanced :
      (r : Option ℕ × World Os) (opened : List ℕ)
      → IsBalanced opened r
      → IsBalanced opened (free_after r)
  free_after-IsBalanced (none, w) opened b = b
  free_after-IsBalanced (some s, w) opened b = b

  resolve_and_try-IsBalanced :
      (host : List ℕ) (port timeout : ℕ) (w : World Os) (opened : List ℕ)
      → w.opened ≡ opened
      → IsBalanced opened (resolve_and_try host port timeout w)
  unfolding resolve_and_try
  resolve_and_try-IsBalanced host port timeout w opened e =
      let r : Option (List AddrInfo) × World Os = call api (resolver.getaddrinfo host port) w in
      go r.0 r.1 e
    where
      go :
          (o : Option (List AddrInfo)) (w' : World Os)
          → w'.opened ≡ opened
          → IsBalanced {Os = Os} opened (elim o [
            | none ↦ (none, w')
            | some addresses ↦ free_after (try_addresses timeout addresses w')
          ])
      go none w' e' = e'
      go (some addresses) w' e' =
          free_after-IsBalanced (try_addresses timeout addresses w') opened
            (try_addresses-IsBalanced timeout addresses w' opened e')

  -- A connection over any of the host's addresses, of either family, is the one socket more that is
  -- open; if none can be made, every socket that was opened for an address is closed again.
  pub connect_dual_stack-IsBalanced :
      (host : Option (List ℕ)) (port timeout : ℕ) (w : World Os)
      → IsBalanced w.opened (samp_net_connect_dual_stack host port timeout w)
  unfolding samp_net_connect_dual_stack
  connect_dual_stack-IsBalanced none port timeout w = refl
  connect_dual_stack-IsBalanced (some []) port timeout w = refl
  connect_dual_stack-IsBalanced (some (c ∷ host)) port timeout w =
      when_ready-IsBalanced api w (resolve_and_try (c ∷ host) port timeout)
        (λ w' e. resolve_and_try-IsBalanced (c ∷ host) port timeout w' w.opened e)
