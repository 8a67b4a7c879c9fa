-- ===== src/Net/Endpoint/Forms.antt =====
-- Theorems on `samp_net_parse_hostport` of dual_stack.c: it reads back what is written in its forms.
use libsamp.Common.{
  ℕ, zero, suc, ◌+◌, ◌-◌, ◌*◌, ◌/◌, ◌%◌, ◌^◌, ◌≤◌, ◌<◌, ◌≡◌, ◌≢◌, refl, arith, some, List, [], ◌∷◌,
  ◌++◌, length, ltb, if◌then◌else◌,
}
use native.Mathlib.Nat.{pow-suc}
use libsamp.Net.Endpoint.{
  parse_digits, parse_u16_port, copy_host, host_bytes, split_at, colons, host_and_port,
  after_bracket, samp_net_parse_hostport,
}

-- `c` is no character of the text.
abbrev pub Avoids : ℕ → List ℕ → Type 0
Avoids c [] = Unit
Avoids c (x ∷ text) = (x ≢ c) × Avoids c text

split_at-append :
    (c : ℕ) (before after : List ℕ)
    → Avoids c before
    → split_at c (before ++ (c ∷ after)) ≡ some (before, after)
unfolding split_at
split_at-append c [] after h = ground arith
split_at-append c (x ∷ before) after h = ground (arith, h.0, split_at-append c before after h.1)

colons-append : (xs ys : List ℕ) → colons (xs ++ ys) ≡ colons xs + colons ys
unfolding colons
colons-append [] ys = omega arith
colons-append (x ∷ xs) ys = ground (arith, colons-append xs ys)

colons-Avoids : (xs : List ℕ) → Avoids 58 xs → colons xs ≡ 0
unfolding colons
colons-Avoids [] h = refl
colons-Avoids (x ∷ xs) h = ground (arith, h.0, colons-Avoids xs h.1)

-- A decimal digit more.
parse_digits-append :
    (value n d : ℕ) (text : List ℕ)
    → parse_digits value text ≡ some n
    → d < 10
    → n * 10 + d ≤ 65535
    → parse_digits value (text ++ ((48 + d) ∷ [])) ≡ some (n * 10 + d)
unfolding parse_digits
parse_digits-append value n d [] e low fits = ground arith
parse_digits-append value n d (c ∷ text) e low fits =
    ground (arith, parse_digits-append (value * 10 + (c - 48)) n d text)

-- The decimal digits of a number, without leading zeros.
unfoldable pub decimal : ℕ → ℕ → List ℕ
decimal zero n = []
decimal (suc fuel) n =
    let rest = decimal fuel (n / 10) in
    if ltb n 10 then (48 + n) ∷ [] else rest ++ ((48 + n % 10) ∷ [])

parse_digits-decimal :
    (fuel n : ℕ) → n < 10 ^ fuel → n ≤ 65535 → parse_digits 0 (decimal fuel n) ≡ some n
unfolding decimal parse_digits
parse_digits-decimal zero n low fits = ground arith
parse_digits-decimal (suc fuel) n low fits = ground (
  arith,
  pow-suc 10 fuel,
  parse_digits-decimal fuel (n / 10),
  parse_digits-append 0 (n / 10) (n % 10) (decimal fuel (n / 10)),
)

colons-decimal : (fuel n : ℕ) → colons (decimal fuel n) ≡ 0
unfolding decimal colons
colons-decimal zero n = refl
colons-decimal (suc fuel) n = ground (
  arith,
  colons-decimal fuel (n / 10),
  colons-append (decimal fuel (n / 10)) ((48 + n % 10) ∷ []),
)

-- A port as it is written.
abbrev pub port_text : ℕ → List ℕ
port_text = decimal 5

append_one :
    (xs : List ℕ) (x : ℕ) → parse_u16_port (xs ++ (x ∷ [])) ≡ parse_digits 0 (xs ++ (x ∷ []))
unfolding parse_u16_port
append_one [] x = refl
append_one (y ∷ xs) x = refl

-- Every port is read back from its decimal digits.
pub parse_u16_port-port_text : (p : ℕ) → p ≤ 65535 → parse_u16_port (port_text p) ≡ some p
unfolding decimal parse_u16_port
parse_u16_port-port_text p fits =
    ground (arith, parse_digits-decimal 5 p, append_one (decimal 4 (p / 10)) (48 + p % 10))

copy_host-fits :
    (host : List ℕ) → length host ≢ 0 → length host < host_bytes → copy_host host ≡ some host
unfolding copy_host
copy_host-fits host some_text fits = ground arith

host_and_port-port_text :
    (host : List ℕ) (p : ℕ)
    → length host ≢ 0
    → length host < host_bytes
    → p ≤ 65535
    → host_and_port host (port_text p) ≡ some (record { host = host; port = p })
unfolding host_and_port
host_and_port-port_text host p some_text fits low =
    ground (arith, copy_host-fits host some_text fits, parse_u16_port-port_text p low)

-- `[host]:port` is read back as that host and port, for a host of 1 to 255 characters without `]`,
-- colons included, and every port.
pub parse_hostport-bracketed :
    (host : List ℕ) (p default_port : ℕ)
    → Avoids 93 host
    → length host ≢ 0
    → length host < host_bytes
    → p ≤ 65535
    → samp_net_parse_hostport (some (91 ∷ (host ++ (93 ∷ 58 ∷ port_text p)))) default_port
      ≡ some (record { host = host; port = p })
unfolding samp_net_parse_hostport after_bracket
parse_hostport-bracketed host p default_port plain some_text fits low = ground (
  arith,
  split_at-append 93 host (58 ∷ port_text p) plain,
  host_and_port-port_text host p some_text fits low,
)

colons_host : (host : List ℕ) (p : ℕ) → Avoids 58 host → colons (host ++ (58 ∷ port_text p)) ≡ 1
unfolding colons
colons_host host p plain =
    ground
      (arith, colons-append host (58 ∷ port_text p), colons-Avoids host plain, colons-decimal 5 p)

-- `host:port` is read back as that host and port, for a host of 1 to 255 characters without a
-- colon that does not begin with a bracket, and every port.
pub parse_hostport-plain :
    (c : ℕ) (host : List ℕ) (p default_port : ℕ)
    → c ≢ 91
    → Avoids 58 (c ∷ host)
    → length (c ∷ host) < host_bytes
    → p ≤ 65535
    → samp_net_parse_hostport (some ((c ∷ host) ++ (58 ∷ port_text p))) default_port
      ≡ some (record { host = c ∷ host; port = p })
unfolding samp_net_parse_hostport
parse_hostport-plain c host p default_port ne plain fits low = ground (
  arith,
  colons_host (c ∷ host) p plain,
  split_at-append 58 (c ∷ host) (port_text p) plain,
  host_and_port-port_text (c ∷ host) p (λ e. omega arith) fits low,
)
