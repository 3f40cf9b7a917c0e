-- ===== src/Ovs/Address.antt =====
-- Targets of controllers as texts: `parse_target_to_addr` of server/ovs-data.c and the format with
-- which `txn_add_contr` prints them.
pub mod Target
use of_config.Base.{ℕ, ◌==◌, Text, codes, Option, none, some, [], ◌∷◌, ◌++◌, text_eq, if◌then◌else◌}
use of_config.Error.{Result, ok, fault}

-- `strchr(s, c)`: what stands before the first such byte, and what stands after it.
unfoldable pub split_at : ℕ → Text → Option (Text × Text)
split_at c [] = none
split_at c (x ∷ s) =
    let rest = split_at c s in
    if x == c
    then some ([], s)
    else elim rest [ none ↦ none | some (before, after) ↦ some (x ∷ before, after) ]

-- The protocol, the address and the port of a target.
pub record Address : Type 0 where
  pub protocol : Option Text
  pub address : Option Text
  pub port : Option Text

abbrev pub of_config_protocol : Text → Text
of_config_protocol p = if text_eq p (codes "ssl") then codes "tls" else p

-- What follows the address: `:` and a port, or anything else.
abbrev pub port_after : Text → Option Text
port_after [] = none
port_after (c ∷ s) = if c == b':' then some s else none

abbrev pub parse_plain : Text → Text × Option Text
parse_plain rest = elim (split_at b':' rest) [ none ↦ (rest, none) | some (a, p) ↦ (a, some p) ]

-- The first byte is skipped, whether it is the bracket or not.
abbrev pub after_first : Text → Text
after_first [] = []
after_first (c ∷ s) = s

abbrev pub parse_bracketed : Text → Text × Option Text
parse_bracketed rest = elim (split_at b']' (after_first rest)) [
  | none ↦ (after_first rest, none)
  | some (a, p) ↦ (a, port_after p)
]

abbrev pub parse_rest : Text → Text × Option Text
parse_rest rest = elim (split_at b'[' rest) [
  | none ↦ parse_plain rest
  | some found ↦ parse_bracketed rest
]

abbrev pub address_of : Text → Text × Option Text → Address
address_of protocol (a, p) = record {
  protocol = some (of_config_protocol protocol);
  address = some a;
  port = p;
}

-- Without a colon `strchr(delim, '[')` follows NULL. A text that is bracketed and empty after the
-- colon does not occur: it has a bracket.
unfoldable pub parse_target_to_addr : Option Text → Result Address
parse_target_to_addr none = ok (record { protocol = none; address = none; port = none })
parse_target_to_addr (some t) = elim (split_at b':' t) [
  | none ↦ fault
  | some (protocol, rest) ↦ ok (address_of protocol (parse_rest rest))
]

-- `asprintf(&target, "%s:%s%s%s", proto, ip, port ? ":" : "", port ? port : "")`
abbrev pub port_suffix : Option Text → Text
port_suffix none = []
port_suffix (some p) = b':' ∷ p

unfoldable pub print_target : Text → Text → Option Text → Text
print_target proto ip port = proto ++ b':' ∷ (ip ++ port_suffix port)
