-- ===== src/Ovs/Tunnels/Options.antt =====
-- The options that the loop of `txn_add_port_tunnel` of server/ovs-data.c leaves.
use of_config.Base.{
  String, Text, Option, none, some, List, [], ◌∷◌, str_eq, if◌then◌else◌, ◌≡◌, refl, ap, sym, subst,
  ◌∙◌, Bool, true, false, ◌&&◌, ◌||◌, Bool-cases, Option-cases, inl, inr, eq_iff,
}
use of_config.Error.{ok, ok_of_bind, ok-injective}
use of_config.Xml.{Node, name, is_element, child_content}
use of_config.Ovs.Db.{Smap, smap_replace}
use of_config.Ovs.Tunnels.{
  smap_add_once, add_absent, tunnel_option, add_option, add_child, tunnel_options,
}

abbrev pub or_else : Option Text → Option Text → Option Text
or_else none b = b
or_else (some a) b = some a

-- An element of this name gives the value of the option.
abbrev pub gives : String → String → Bool
gives x k =
    (str_eq x "local-endpoint-ipv4-adress" && str_eq "local_ip" k)
    || ((str_eq x "remote-endpoint-ipv4-adress" && str_eq "remote_ip" k)
        || ((str_eq x "key" && str_eq "key" k) || (str_eq x "vni" && str_eq "key" k)))

-- What a child gives for the option.
abbrev pub given : String → Node → Option Text
given k n = if is_element n && gives (name n) k then child_content n else none

-- The first of the children that give a value.
abbrev pub first_given : String → List Node → Option Text
first_given k [] = none
first_given k (n ∷ rest) = or_else (given k n) (first_given k rest)

or_else_assoc : (a b c : Option Text) → or_else (or_else a b) c ≡ or_else a (or_else b c)
or_else_assoc none b c = refl
or_else_assoc (some a) b c = refl

or_else-none : (a : Option Text) → or_else a none ≡ a
or_else-none none = refl
or_else-none (some a) = refl

-- A key that is there keeps its value; one that is not takes it.
kept_lookup :
    (m : Smap) (j k : String) (v : Option Text) (old : Text)
    → m j ≡ some old
    → m k ≡ or_else (m k) (if str_eq j k then v else none)
kept_lookup m j k v old e = elim (Bool-cases (str_eq j k)) [
  | inl same ↦
      let there : m k ≡ some old = subst (λ x. m x ≡ some old) ((eq_iff j k).0 same) e in
      rw there refl
  | inr apart ↦ rw apart (sym (or_else-none (m k)))
]

taken_lookup :
    (m : Smap) (j k : String) (t : Text)
    → m j ≡ none
    → smap_replace m j t k ≡ or_else (m k) (if str_eq j k then some t else none)
taken_lookup m j k t e = elim (Bool-cases (str_eq j k)) [
  | inl same ↦
      let absent : m k ≡ none = subst (λ x. m x ≡ none) ((eq_iff j k).0 same) e in
      rw (same, absent) refl
  | inr apart ↦ rw apart (sym (or_else-none (m k)))
]

smap_add_once_lem :
    (m m' : Smap) (j k : String) (v : Option Text)
    → smap_add_once m j v ≡ ok m'
    → m' k ≡ or_else (m k) (if str_eq j k then v else none)
smap_add_once_lem m m' j k v h = elim (Option-cases (m j)) [
  | inr (old, e) ↦
      let same : m ≡ m' = ok-injective (rw (smap_add_once, e) at h) in
      ap (λ x. x k) (sym same) ∙ kept_lookup m j k v old e
  | inl e ↦ added v (rw (smap_add_once, e) at h) e
]
  where
    added :
        (w : Option Text)
        → add_absent m j w ≡ ok m'
        → m j ≡ none
        → m' k ≡ or_else (m k) (if str_eq j k then w else none)
    added none run e = cc
    added (some t) run e = ap (λ x. x k) (sym (ok-injective run)) ∙ taken_lookup m j k t e

-- The same, by the option that the code has for the element.
abbrev given_as : String → Node → Option String → Option Text
given_as k n none = none
given_as k n (some j) = if str_eq j k then child_content n else none

other : (x a b : String) → str_eq a b ≡ false → str_eq x a ≡ true → str_eq x b ≡ false
other x a b d h = rw ((eq_iff x a).0 h) d

abbrev value_if : Bool → Node → Option Text
value_if b n = if b then child_content n else none

gives-tunnel_option :
    (k : String) (n : Node) (x : String) → value_if (gives x k) n ≡ given_as k n (tunnel_option x)
unfolding tunnel_option
gives-tunnel_option k n x = elim (Bool-cases (str_eq x "local-endpoint-ipv4-adress")) [
  | inl a ↦
      let b = other x _ "remote-endpoint-ipv4-adress" refl a in
      let c = other x _ "key" refl a in
      let d = other x _ "vni" refl a in
      rw (a, b, c, d) (ap (λ t. value_if t n) (or-false (str_eq "local_ip" k)))
  | inr a ↦ elim (Bool-cases (str_eq x "remote-endpoint-ipv4-adress")) [
    | inl b ↦
        let c = other x _ "key" refl b in
        let d = other x _ "vni" refl b in
        rw (a, b, c, d) (ap (λ t. value_if t n) (or-false (str_eq "remote_ip" k)))
    | inr b ↦ elim (Bool-cases (str_eq x "key")) [
      | inl c ↦
          let d = other x _ "vni" refl c in
          rw (a, b, c, d) (ap (λ t. value_if t n) (or-false (str_eq "key" k)))
      | inr c ↦ elim (Bool-cases (str_eq x "vni")) [
        | inl d ↦ rw (a, b, c, d) refl
        | inr d ↦ rw (a, b, c, d) refl
      ]
    ]
  ]
]
  where
    or-false : (t : Bool) → (t || false) ≡ t
    or-false true = refl
    or-false false = refl

add_child_lem :
    (m m' : Smap) (k : String) (n : Node) → add_child m n ≡ ok m' → m' k ≡ or_else (m k) (given k n)
add_child_lem m m' k n h = elim (Bool-cases (is_element n)) [
  | inr skipped ↦
      let same : m ≡ m' = ok-injective (rw skipped at h) in
      rw skipped (ap (λ x. x k) (sym same) ∙ sym (or_else-none (m k)))
  | inl el ↦ rw el (
      by_option (tunnel_option (name n)) (rw el at h)
      ∙ ap (or_else (m k)) (sym (gives-tunnel_option k n (name n))))
]
  where
    by_option :
        (o : Option String) → add_option m n o ≡ ok m' → m' k ≡ or_else (m k) (given_as k n o)
    by_option none run = ap (λ x. x k) (sym (ok-injective run)) ∙ sym (or_else-none (m k))
    by_option (some j) run = smap_add_once_lem m m' j k (child_content n) run

-- Where the loop over a tunnel's elements ends well, each option has the value that it had before, or
-- else the value of the first element that gives it one, or else none.
pub tunnel_options_lem :
    (m m' : Smap) (ns : List Node) (k : String)
    → tunnel_options m ns ≡ ok m'
    → m' k ≡ or_else (m k) (first_given k ns)
unfolding tunnel_options
tunnel_options_lem m m' [] k h = ap (λ x. x k) (sym (ok-injective h)) ∙ sym (or_else-none (m k))
tunnel_options_lem m m' (n ∷ rest) k h =
    let (m1, here, later) = ok_of_bind (add_child m n) _ h in
    tunnel_options_lem m1 m' rest k later
    ∙ ap (λ a. or_else a (first_given k rest)) (add_child_lem m m1 k n here)
    ∙ or_else_assoc (m k) (given k n) (first_given k rest)
