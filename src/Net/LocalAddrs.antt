-- ===== src/Net/LocalAddrs.antt =====
-- `samp_net_ipv4_collect_local_addrs` of ipv4_socket_compat.c. The place for the count is not NULL;
-- a text is its characters before the NUL. What it asks of the system besides Winsock is a parameter.
use libsamp.Common.{
  ℕ, ◌+◌, ◌-◌, ◌<◌, ◌≤◌, ◌≡◌, refl, arith, Bool, not, ◌&&◌, Option, none, some, List, [], ◌∷◌,
  length, take, length-take, min, ltb, ◌==◌, if◌then◌else◌, if-cases,
}
use libsamp.Net.World.{World, Winsock, call}

-- `gethostname` answers `none` for a failure; `inet_ntoa` answers `none` for NULL.
pub record Names (Os : Type 0) : Type 0 where
  pub gethostname : Os → Option (List ℕ) × Os
  pub inet_ntoa : ℕ → Option (List ℕ)

-- SAMP_NET_IPV4_ADDR_STR_MAX
abbrev pub addr_str_max : ℕ
addr_str_max = 16

abbrev max_collected : ℕ
max_collected = 40

-- What is left in one of the output buffers.
unfoldable pub stored_text : Option (List ℕ) → List ℕ
stored_text none = []
stored_text (some text) = take (addr_str_max - 1) text

-- Every text is shorter than its buffer, so that its NUL has room.
abbrev pub AreShort : List (List ℕ) → Type 0
AreShort [] = Unit
AreShort (text ∷ texts) = (length text < addr_str_max) × AreShort texts

-- The texts that are answered fit into the caller's buffers.
abbrev pub IsCollected : {Os : Type 0} → ℕ → List ℕ → Option (List (List ℕ)) × World Os → Type 0
IsCollected max_addrs opened (none, w) = w.opened ≡ opened
IsCollected max_addrs opened (some texts, w) =
    (length texts ≤ max_addrs) × (length texts ≤ 40) × AreShort texts × (w.opened ≡ opened)

module _ {Os : Type 0} (api : Winsock Os) (names : Names Os) where
  -- The `while` loop from `count` on.
  unfoldable pub collect_from : ℕ → ℕ → List ℕ → List (List ℕ)
  collect_from max_addrs count [] = []
  collect_from max_addrs count (address ∷ addresses) =
      let rest = collect_from max_addrs (count + 1) addresses in
      if ltb count max_addrs && ltb count max_collected
      then stored_text (names.inet_ntoa address) ∷ rest
      else []

  -- The answer of the resolver.
  unfoldable pub collect_found : ℕ → Option (List ℕ) × World Os → Option (List (List ℕ)) × World Os
  collect_found max_addrs (none, w) = (none, w)
  collect_found max_addrs (some addresses, w) = (some (collect_from max_addrs 0 addresses), w)

  unfoldable pub collect_named : ℕ → Option (List ℕ) × World Os → Option (List (List ℕ)) × World Os
  collect_named max_addrs (none, w) = (none, w)
  collect_named max_addrs (some name, w) =
      collect_found max_addrs (call api (api.gethostbyname name) w)

  unfoldable pub samp_net_ipv4_collect_local_addrs :
      Bool → ℕ → World Os → Option (List (List ℕ)) × World Os
  samp_net_ipv4_collect_local_addrs has_room max_addrs w =
      if not (max_addrs == 0) && not has_room
      then (none, w)
      else collect_named max_addrs (call api names.gethostname w)

  stored_text-short : (o : Option (List ℕ)) → length (stored_text o) < addr_str_max
  unfolding stored_text
  stored_text-short none = omega arith
  stored_text-short (some text) = omega (arith, length-take 15 text)

  collect_from-AreShort :
      (max_addrs count : ℕ) (addresses : List ℕ)
      → (length (collect_from max_addrs count addresses)
          ≡ min (min max_addrs max_collected - count) (length addresses))
        × AreShort (collect_from max_addrs count addresses)
  unfolding collect_from
  collect_from-AreShort max_addrs count [] = (omega arith, tt)
  collect_from-AreShort max_addrs count (address ∷ addresses) =
      let rest = collect_from-AreShort max_addrs (count + 1) addresses in
      if-cases
        (λ (texts : List (List ℕ)).
          (length texts ≡ min (min max_addrs max_collected - count) (length (address ∷ addresses)))
          × AreShort texts)
        (ltb count max_addrs && ltb count max_collected) _ _
        (λ t. (ground (arith, t, rest.0), (stored_text-short (names.inet_ntoa address), rest.1)))
        (λ f. (ground (arith, f), tt))

  -- Collecting the local addresses fails, or writes at most as many texts as the caller has buffers
  -- for, and at most 40, each shorter than its buffer of 16 bytes, whatever the resolver and
  -- `inet_ntoa` answer. No socket is opened or closed.
  pub collect_local_addrs-IsCollected :
      (has_room : Bool) (max_addrs : ℕ) (w : World Os)
      → IsCollected max_addrs w.opened (samp_net_ipv4_collect_local_addrs has_room max_addrs w)
  unfolding samp_net_ipv4_collect_local_addrs collect_named collect_found
  collect_local_addrs-IsCollected has_room max_addrs w =
      if-cases (IsCollected max_addrs w.opened) (not (max_addrs == 0) && not has_room) _ _
        (λ t. refl) (λ f. by_name (names.gethostname w.os))
    where
      found :
          (r : Option (List ℕ) × Os)
          → IsCollected max_addrs w.opened (collect_found max_addrs (r.0, record w { os = r.1 }))
      found (none, os) = refl
      found (some addresses, os) =
          let texts = collect_from-AreShort max_addrs 0 addresses in
          (omega (arith, texts.0), omega (arith, texts.0), texts.1, refl)

      by_name :
          (r : Option (List ℕ) × Os)
          → IsCollected max_addrs w.opened (collect_named max_addrs (r.0, record w { os = r.1 }))
      by_name (none, os) = refl
      by_name (some name, os) = found (api.gethostbyname name os)
