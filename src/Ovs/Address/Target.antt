-- ===== src/Ovs/Address/Target.antt =====
-- Targets of controllers as they are printed and parsed: `txn_add_contr` and `parse_target_to_addr`
-- of server/ovs-data.c.
use of_config.Base.{
  ℕ, ◌==◌, Text, false, Option, none, some, [], ◌∷◌, ◌++◌, All, ◌≡◌, refl, arith, All-append,
  append-nil, ap, ◌∙◌,
}
use of_config.Error.{ok}
use of_config.Ovs.Address.{
  split_at, of_config_protocol, port_suffix, print_target, parse_target_to_addr, parse_plain,
  parse_bracketed, parse_rest, address_of,
}

-- The byte does not occur.
abbrev pub Avoids : ℕ → Text → Type 0
Avoids c s = All (λ x. (x == c) ≡ false) s

split_at_absent : (c : ℕ) (s : Text) → Avoids c s → split_at c s ≡ none
unfolding split_at
split_at_absent c [] h = refl
split_at_absent c (x ∷ s) h = rw (h.0, split_at_absent c s h.1) refl

split_at_first : (c : ℕ) (s t : Text) → Avoids c s → split_at c (s ++ c ∷ t) ≡ some (s, t)
unfolding split_at
split_at_first c [] t h = ground arith
split_at_first c (x ∷ s) t h = rw (h.0, split_at_first c s t h.1) refl

abbrev pub AvoidsOption : ℕ → Option Text → Type 0
AvoidsOption c none = Unit
AvoidsOption c (some p) = Avoids c p

plain_rest :
    (ip : Text) (port : Option Text)
    → Avoids b':' ip
    → Avoids b'[' ip
    → AvoidsOption b'[' port
    → parse_rest (ip ++ port_suffix port) ≡ (ip, port)
plain_rest ip none colon bracket k =
    let whole : ip ++ [] ≡ ip = append-nil ip in
    rw
      (
        whole,
        parse_rest,
        split_at_absent b'[' ip bracket,
        parse_plain,
        whole,
        split_at_absent b':' ip colon,
      )
      (ap (λ x. (x, none)) whole)
plain_rest ip (some p) colon bracket k =
    let no_bracket : Avoids b'[' (ip ++ b':' ∷ p) =
      All-append (λ x. (x == b'[') ≡ false) ip (b':' ∷ p) bracket (refl, k) in
    rw
      (
        parse_rest,
        split_at_absent b'[' (ip ++ b':' ∷ p) no_bracket,
        parse_plain,
        split_at_first b':' ip p colon,
      )
      refl

parse_split :
    (t proto rest : Text)
    → split_at b':' t ≡ some (proto, rest)
    → parse_target_to_addr (some t) ≡ ok (address_of proto (parse_rest rest))
unfolding parse_target_to_addr
parse_split t proto rest h = rw (parse_target_to_addr, h) refl

-- A target of a protocol without a colon, an address without a colon or an opening bracket, and a port
-- without an opening bracket is read back as it was printed, with `tls` for the protocol `ssl`.
pub parse_target-print_target :
    (proto ip : Text) (port : Option Text)
    → Avoids b':' proto
    → Avoids b':' ip
    → Avoids b'[' ip
    → AvoidsOption b'[' port
    → parse_target_to_addr (some (print_target proto ip port))
      ≡ ok (record { protocol = some (of_config_protocol proto); address = some ip; port = port })
unfolding print_target
parse_target-print_target proto ip port h colon bracket k =
    parse_split (print_target proto ip port) proto (ip ++ port_suffix port)
      (split_at_first b':' proto (ip ++ port_suffix port) h)
    ∙ ap (λ r. ok (address_of proto r)) (plain_rest ip port colon bracket k)

split_at_bracket : (s : Text) → split_at b'[' (b'[' ∷ s) ≡ some ([], s)
split_at_bracket s = split_at_first b'[' [] s tt

bracketed_rest :
    (a : Text) (port : Option Text)
    → Avoids b']' a
    → parse_rest (b'[' ∷ (a ++ b']' ∷ port_suffix port)) ≡ (a, port)
bracketed_rest a none h =
    rw (parse_rest, split_at_bracket (a ++ b']' ∷ []), parse_bracketed, split_at_first b']' a [] h)
      refl
bracketed_rest a (some p) h =
    rw
      (
        parse_rest,
        split_at_bracket (a ++ b']' ∷ b':' ∷ p),
        parse_bracketed,
        split_at_first b']' a (b':' ∷ p) h,
      )
      refl

-- An address in brackets, which has no closing bracket of its own, is read without them, with the
-- port behind them.
pub parse_target_bracketed :
    (proto a : Text) (port : Option Text)
    → Avoids b':' proto
    → Avoids b']' a
    → parse_target_to_addr (some (proto ++ b':' ∷ b'[' ∷ (a ++ b']' ∷ port_suffix port)))
      ≡ ok (record { protocol = some (of_config_protocol proto); address = some a; port = port })
parse_target_bracketed proto a port h k =
    parse_split _ proto (b'[' ∷ (a ++ b']' ∷ port_suffix port))
      (split_at_first b':' proto (b'[' ∷ (a ++ b']' ∷ port_suffix port)) h)
    ∙ ap (λ r. ok (address_of proto r)) (bracketed_rest a port k)
