-- ===== src/Net/Endpoint.antt =====
-- The parser of host and port of dual_stack.c. A text is the list of its characters before the NUL;
-- `none` is the answer -1.
pub mod Forms
use libsamp.Common.{
  ℕ, zero, suc, ◌+◌, ◌-◌, ◌*◌, Bool, true, false, ◌||◌, Option, none, some, List, [], ◌∷◌, length,
  ltb, leb, ◌==◌, if◌then◌else◌,
}
use mathlib.Core.Option

-- `samp_endpoint`
pub record Endpoint : Type 0 where
  pub host : List ℕ
  pub port : ℕ

-- The loop of `parse_u16_port`.
unfoldable pub parse_digits : ℕ → List ℕ → Option ℕ
parse_digits value [] = some value
parse_digits value (c ∷ text) =
    let value' = value * 10 + (c - 48) in
    let rest = parse_digits value' text in
    if ltb c 48 || ltb 57 c then none else if ltb 65535 value' then none else rest

unfoldable pub parse_u16_port : List ℕ → Option ℕ
parse_u16_port [] = none
parse_u16_port (c ∷ text) = parse_digits 0 (c ∷ text)

abbrev pub host_bytes : ℕ
host_bytes = 256

unfoldable pub copy_host : List ℕ → Option (List ℕ)
copy_host src = if length src == 0 || leb host_bytes (length src) then none else some src

-- What stands before and after the first `c`.
unfoldable pub split_at : ℕ → List ℕ → Option (List ℕ × List ℕ)
split_at c [] = none
split_at c (x ∷ text) =
    let rest = Option.map (λ (p : List ℕ × List ℕ). (x ∷ p.0, p.1)) (split_at c text) in
    if x == c then some ([], text) else rest

unfoldable pub colons : List ℕ → ℕ
colons [] = 0
colons (x ∷ text) = let n = colons text in if x == 58 then suc n else n

unfoldable pub host_only : List ℕ → ℕ → Option Endpoint
host_only input default_port =
    Option.map (λ host. record { host = host; port = default_port }) (copy_host input)

unfoldable pub host_and_port : List ℕ → List ℕ → Option Endpoint
host_and_port host_text port_text = elim (copy_host host_text) [
  | none ↦ none
  | some host ↦ Option.map (λ port. record { host = host; port = port }) (parse_u16_port port_text)
]

-- After the bracket: nothing, or a colon and the port.
unfoldable pub after_bracket : List ℕ → List ℕ → ℕ → Option Endpoint
after_bracket host_text [] default_port = host_only host_text default_port
after_bracket host_text (c ∷ port_text) default_port =
    if c == 58 then host_and_port host_text port_text else none

unfoldable pub samp_net_parse_hostport : Option (List ℕ) → ℕ → Option Endpoint
samp_net_parse_hostport none default_port = none
samp_net_parse_hostport (some []) default_port = none
samp_net_parse_hostport (some (c ∷ rest)) default_port =
    if c == 91
    then elim (split_at 93 rest) [
      | none ↦ none
      | some (host_text, after) ↦ after_bracket host_text after default_port
    ]
    else if colons (c ∷ rest) == 1
    then elim (split_at 58 (c ∷ rest)) [
      | none ↦ none
      | some (host_text, port_text) ↦ host_and_port host_text port_text
    ]
    else host_only (c ∷ rest) default_port
